-- ===== src/Transport/Capture.antt =====
-- internal/core/proxy/recovery_transport.go: what the capture of a response leaves of it.
use directive_proxy.Prelude.{
  ℕ, ◌<◌, ◌≤◌, ◌≡◌, refl, ap, ◌∙◌, sym, true, false, Bool-cases, List, ◌++◌, ◌⊎◌, inl, inr, Int64,
  IsNatural, add64, sle, slt, ltb, leb, leb→le, length, take, drop, take_all, take-append_drop,
  take-take-suc, suc, length-take, min, if◌then◌else◌, arith,
}
use directive_proxy.Transport.{
  Error, eof, Body, Response, CapturedBody, is_eof, read_limited, captured,
  capture_recovery_response,
}

-- The capture of a response, against the response before it: an error is the body's own, before the
-- limit; else the captured bytes, whether there were more, the size that is told, and the response
-- that goes on.
abbrev pub Captures : Response → Int64 → Error ⊎ (CapturedBody × Response) → Type 0
Captures r limit (inl e) =
    (length r.body.content ≤ limit) × (r.body.ending ≡ e) × (is_eof e ≡ false)
Captures r limit (inr (c, after)) =
    (c.bytes ≡ take limit r.body.content)
    × (c.truncated ≡ ltb limit (length r.body.content))
    × (c.size ≡ (
        if sle 0 r.content_length
        then r.content_length
        else min (suc limit) (length r.body.content)))
    × (after ≡ r)

captured_cut :
    (r : Response) (limit : Int64) (read : List ℕ)
    → slt limit (length read) ≡ true
    → captured r limit read ≡ (
      record {
        bytes = take limit read;
        size = if sle 0 r.content_length then r.content_length else length read;
        truncated = true;
      },
      record r {
        body = record {
          content = read ++ drop (length read) r.body.content;
          ending = r.body.ending;
        };
      },
    )
unfolding captured
captured_cut r limit read h = rw h refl

captured_whole :
    (r : Response) (limit : Int64) (read : List ℕ)
    → slt limit (length read) ≡ false
    → captured r limit read ≡ (
      record {
        bytes = read;
        size = if sle 0 r.content_length then r.content_length else length read;
        truncated = false;
      },
      record r { body = record { content = read; ending = eof } },
    )
unfolding captured
captured_whole r limit read h = rw h refl

abbrev with_content : Response → List ℕ → Response
with_content r bytes = record r { body = record { content = bytes; ending = r.body.ending } }

-- A body that goes on beyond the limit.
longer :
    (r : Response) (limit : Int64)
    → IsNatural (suc limit)
    → limit < length r.body.content
    → Captures r limit (inr (captured r limit (take (suc limit) r.body.content)))
longer r limit fits long =
    let content = r.body.content in
    let count : length (take (suc limit) content) ≡ suc limit =
      length-take (suc limit) content ∙ omega arith in
    rw (captured_cut r limit (take (suc limit) content) (rw count (ground arith))) (
      take-take-suc limit content,
      ground arith,
      rw (length-take (suc limit) content) refl,
      ap (λ n. with_content r (take (suc limit) content ++ drop n content)) count
          ∙ ap (with_content r) (take-append_drop (suc limit) content),
    )

-- A body that ends within the limit.
shorter :
    (r : Response) (limit : Int64)
    → IsNatural limit
    → length r.body.content ≤ limit
    → r.body.ending ≡ eof
    → Captures r limit (inr (captured r limit r.body.content))
shorter r limit fits short ends =
    let content = r.body.content in
    rw (captured_whole r limit content (ground arith)) (
      sym (take_all limit content short),
      ground arith,
      ground arith,
      ap (λ e. record r { body = record { content = content; ending = e } }) (sym ends),
    )

-- The tests of the read, in the range of the non-negative numbers.
next : (limit : Int64) → IsNatural (suc limit) → add64 limit 1 ≡ suc limit
next limit fits = omega arith

reaches : (limit n : ℕ) → IsNatural (suc limit) → IsNatural n → limit < n → sle (suc limit) n ≡ true
reaches limit n fits nat long = ground arith

not_reaches : (limit n : ℕ) → IsNatural (suc limit) → n ≤ limit → sle (suc limit) n ≡ false
not_reaches limit n fits short = ground arith

read_beyond :
    (b : Body) (limit : Int64)
    → IsNatural (suc limit)
    → IsNatural (length b.content)
    → limit < length b.content
    → read_limited (add64 limit 1) b ≡ inr (take (suc limit) b.content)
unfolding read_limited
read_beyond b limit fits nat long =
    rw
      (
        next limit fits,
        reaches limit (length b.content) fits nat long,
        not_reaches limit 0 fits (omega arith),
      )
      refl

read_within :
    (b : Body) (limit : Int64)
    → IsNatural (suc limit)
    → length b.content ≤ limit
    → read_limited (add64 limit 1) b ≡ (if is_eof b.ending then inr b.content else inl b.ending)
unfolding read_limited
read_within b limit fits short =
    rw (next limit fits, not_reaches limit (length b.content) fits short) refl

ends_by_eof : (e : Error) → is_eof e ≡ true → e ≡ eof
ends_by_eof e h = ground arith

capture_within :
    (r : Response) (limit : Int64)
    → sle limit 0 ≡ false
    → IsNatural (suc limit)
    → length r.body.content ≤ limit
    → Captures r limit (capture_recovery_response r limit)
unfolding capture_recovery_response
capture_within r limit positive fits short = elim (Bool-cases (is_eof r.body.ending)) [
  | inl h ↦
      rw (positive, read_within r.body limit fits short, h)
        (shorter r limit (omega arith) short (ends_by_eof r.body.ending h))
  | inr h ↦ rw (positive, read_within r.body limit fits short, h) (short, refl, h)
]

capture_beyond :
    (r : Response) (limit : Int64)
    → sle limit 0 ≡ false
    → IsNatural (suc limit)
    → IsNatural (length r.body.content)
    → limit < length r.body.content
    → Captures r limit (capture_recovery_response r limit)
unfolding capture_recovery_response
capture_beyond r limit positive fits nat long =
    rw (positive, read_beyond r.body limit fits nat long) (longer r limit fits long)

-- The capture of a response for the controller does not change it: for a positive limit below
-- 2 ^ 63 - 1 and a body of fewer bytes than 2 ^ 63, either the body fails within the limit, and the
-- error is the body's; or the response that goes on to the client is the response before, body and
-- ending included, the captured bytes are the first of the body up to the limit, they are marked as
-- truncated exactly if the body is longer, and the size told is the declared length, or else what was
-- read, one byte above the limit at most.
pub capture-Captures :
    (r : Response) (limit : Int64)
    → 0 < limit
    → IsNatural (suc limit)
    → IsNatural (length r.body.content)
    → Captures r limit (capture_recovery_response r limit)
capture-Captures r limit positive fits nat = elim (Bool-cases (leb (length r.body.content) limit)) [
  | inl h ↦ capture_within r limit (not_zero limit positive fits) fits (leb→le _ _ h)
  | inr h ↦ capture_beyond r limit (not_zero limit positive fits) fits nat (above _ _ h)
]
  where
    not_zero : (limit : ℕ) → 0 < limit → IsNatural (suc limit) → sle limit 0 ≡ false
    not_zero limit p f = ground arith

    above : (a b : ℕ) → leb a b ≡ false → b < a
    above a b h = ground arith
