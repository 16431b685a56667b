-- ===== src/Transport.antt =====
-- internal/core/proxy/recovery_transport.go and internal/core/recovery/types.go: the limits of a
-- recovery policy, the statuses that start a recovery, and the response that its controller sees.
pub mod MutatingBody
pub mod Capture
mod Tests
use directive_proxy.Prelude.{
  ℕ, ◌≡◌, refl, ◌<◌, ◌≤◌, Bool, true, false, not, ◌&&◌, ◌||◌, Option, none, some, List, [], ◌∷◌,
  ◌++◌, Int64, IsInt64, IsNatural, add64, sle, slt, ltb, length, take, drop, take_all, length-take,
  min, ◌⊎◌, inl, inr, if◌then◌else◌, arith,
}

-- What a body, its reader or a mutation fails with; io.EOF among them.
pub data Error : Type 0 where
  eof recovery_failed : Error
  foreign : ℕ → Error

pub record StatusRange : Type 0 where
  pub from : Int64
  pub to : Int64

-- Matches: a status is unexpected that is in no expected range.
unfoldable pub matches : List StatusRange → Int64 → Bool
matches [] status = true
matches (r ∷ rs) status = not (sle r.from status && sle status r.to) && matches rs status

-- What limitRecoveryPolicy looks at; `capture` is there if unexpected statuses trigger a recovery.
pub record Policy : Type 0 where
  pub max_round_trips : Int64
  pub max_elapsed : Int64
  pub capture : Option Int64

pub record Limits : Type 0 where
  pub max_recovery_round_trips : Int64
  pub max_recovery_elapsed : Int64
  pub max_recovery_body_bytes : Int64

-- A positive limit holds against a larger value.
abbrev pub at_most : Int64 → Int64 → Int64
at_most limit value = if slt 0 limit && slt limit value then limit else value

unfoldable pub limit_recovery_policy : Limits → Option Policy → Option Policy
limit_recovery_policy l none = none
limit_recovery_policy l (some p) = some (record {
  max_round_trips = at_most l.max_recovery_round_trips p.max_round_trips;
  max_elapsed = at_most l.max_recovery_elapsed p.max_elapsed;
  capture = elim p.capture [
    | none ↦ none
    | some bytes ↦ some (at_most l.max_recovery_body_bytes bytes)
  ];
})

-- A response's body: the bytes that it still gives, and how it then ends.
pub record Body : Type 0 where
  pub content : List ℕ
  pub ending : Error

pub record Response : Type 0 where
  pub status : Int64
  pub content_length : Int64
  pub body : Body

pub record CapturedBody : Type 0 where
  pub bytes : List ℕ
  pub size : Int64
  pub truncated : Bool

abbrev pub is_eof : Error → Bool
is_eof e = elim e [ eof ↦ true | _ ↦ false ]

-- io.ReadAll of an io.LimitReader: up to `n` bytes; the body's ending is seen only below that many.
unfoldable pub read_limited : Int64 → Body → Error ⊎ List ℕ
read_limited n b =
    if sle n (length b.content)
    then inr (if sle n 0 then [] else take n b.content)
    else if is_eof b.ending
    then inr b.content
    else inl b.ending

-- captureRecoveryResponse after its read.
unfoldable pub captured : Response → Int64 → List ℕ → CapturedBody × Response
captured r limit read =
    let truncated = slt limit (length read) in
    let size = if sle 0 r.content_length then r.content_length else length read in
    if truncated
    then (
      record { bytes = take limit read; size = size; truncated = true },
      record r {
        body = record {
          content = read ++ drop (length read) r.body.content;
          ending = r.body.ending;
        };
      },
    )
    else (
      record { bytes = read; size = size; truncated = false },
      record r { body = record { content = read; ending = eof } },
    )

unfoldable pub capture_recovery_response : Response → Int64 → Error ⊎ (CapturedBody × Response)
unfolding read_limited captured
capture_recovery_response r limit =
    if sle limit 0 then inl recovery_failed else elim (read_limited (add64 limit 1) r.body) [
      | inl e ↦ inl e
      | inr read ↦ inr (captured r limit read)
    ]
