-- ===== src/BodyStore/Store.antt =====
-- internal/core/bodystore/store.go: the chunks of one request body, kept while the request may be
-- sent again, with a count of those who use them.
-- The mutex makes each function one step. The store's controller is passed beside it, since a
-- reservation is closed here. `once` fields are flags; a blocked read is `waits`.
pub mod Chunks
pub mod Reader
pub mod Ingest
pub mod Body
use directive_proxy.Prelude.{
  ℕ, ◌+◌, ◌-◌, ◌==◌, ◌⊎◌, inl, inr, Bool, true, false, not, ◌&&◌, ◌||◌, Option, none, some, String,
  List, [], ◌∷◌, ◌++◌, Int64, add64, slt, sle, length, ltb, if◌then◌else◌,
}
use directive_proxy.BodyStore.Admission.{
  Error, body_too_large, store_capacity, store_retired, store_closed, Reservation, Controller,
  close_reservation, normalize_chunk_bytes,
}

pub record Result : Type 0 where
  pub total : Int64
  pub sha256 : String
  pub complete : Bool
  pub err : Option Error

-- `refs` counts the references that exist at once, so it does not reach the end of int64.
pub record Store : Type 0 where
  pub reservation : Option Reservation
  pub expected : Int64
  pub max_body : Int64
  pub chunk_bytes : Int64
  pub has_source : Bool
  pub chunks : List (List ℕ)
  pub size : Int64
  pub refs : ℕ
  pub ingesting : Bool
  pub retired : Bool
  pub discarding : Bool
  pub complete : Bool
  pub cleaned : Bool
  pub result : Result
  pub canceled : Bool
  pub owner_done : Bool
  pub source_closed : Bool

pub record StreamOptions : Type 0 where
  pub max_body_bytes : Int64
  pub chunk_bytes : Int64

abbrev pub no_result : Result
no_result = record { total = 0; sha256 = ""; complete = false; err = none }

-- A store with a source is held by its owner and by the goroutine that reads the source.
unfoldable pub new_store :
    (expected max_body chunk_bytes : Int64) → (has_source : Bool) → Option Reservation → Store
new_store expected max_body chunk_bytes has_source reservation = record {
  reservation = reservation;
  expected = expected;
  max_body = max_body;
  chunk_bytes = chunk_bytes;
  has_source = has_source;
  chunks = [];
  size = 0;
  refs = if has_source then 2 else 1;
  ingesting = has_source;
  retired = false;
  discarding = false;
  complete = false;
  cleaned = false;
  result = no_result;
  canceled = false;
  owner_done = false;
  source_closed = false;
}

unfoldable pub finish : Store → Result → Store
finish s result = if s.complete then s else record s { result = result; complete = true }

-- The limits that stream works with, or its refusal.
unfoldable pub stream_options : Controller → Int64 → StreamOptions → Option StreamOptions
unfolding normalize_chunk_bytes
stream_options c expected options =
    let max = if sle options.max_body_bytes 0 then c.max_body_bytes else options.max_body_bytes in
    let chunk =
      if sle options.chunk_bytes 0
      then normalize_chunk_bytes 0 c.chunk_bytes
      else options.chunk_bytes in
    if sle max 0 || slt max expected
    then none
    else some (record { max_body_bytes = max; chunk_bytes = chunk })

-- What stream reserves: the declared length, or the largest body, and one chunk.
unfoldable pub stream_reserve : Int64 → StreamOptions → Int64
stream_reserve expected o =
    add64 (if sle 0 expected then expected else o.max_body_bytes) o.chunk_bytes

-- What stream does with a reservation of its own, which `admit` gave it.
unfoldable pub stream_with :
    (empty_digest : String)
    → Controller
    → (expected : Int64) → StreamOptions
    → (has_source : Bool) → Reservation
    → Controller × Store
unfolding new_store finish close_reservation
stream_with empty_digest c expected o true r =
    (c, new_store expected o.max_body_bytes o.chunk_bytes true (some r))
stream_with empty_digest c expected o false r = (
  (close_reservation c r).0,
  finish (new_store expected o.max_body_bytes o.chunk_bytes false none)
      (record { total = 0; sha256 = empty_digest; complete = true; err = none }),
)

-- StreamWithReservation refuses a reservation that is too small, and closes it.
unfoldable pub stream_with_reservation :
    (empty_digest : String)
    → Controller
    → (expected : Int64) → StreamOptions
    → (has_source : Bool) → Reservation
    → Controller × (Error ⊎ Store)
unfolding stream_options stream_reserve stream_with
stream_with_reservation empty_digest c expected options has_source r =
    elim (stream_options c expected options) [
      | none ↦ (c, inl body_too_large)
      | some o ↦
          if slt r.size (stream_reserve expected o)
          then ((close_reservation c r).0, inl store_capacity)
          else (let (c', s) = stream_with empty_digest c expected o has_source r in (c', inr s))
    ]

close_own : Controller → Option Reservation → Controller
unfolding close_reservation
close_own c none = c
close_own c (some r) = (close_reservation c r).0

pub cleanup_locked : Controller → Store → Controller × Store
unfolding close_own
cleanup_locked c s =
    if s.cleaned
    then (c, s)
    else (close_own c s.reservation, record s { chunks = []; reservation = none; cleaned = true })

-- With the owner gone and only the source's reader left, the chunks are of no more use.
discard_locked : Controller → Store → Controller × Store
unfolding close_own
discard_locked c s =
    if s.retired && s.ingesting && s.refs == 1 && not s.discarding
    then (
      close_own c s.reservation,
      record s { chunks = []; reservation = none; discarding = true },
    )
    else (c, s)

unfoldable pub release_ref_locked : Controller → Store → Controller × Store
unfolding discard_locked cleanup_locked
release_ref_locked c s =
    let (c', s') = discard_locked c (record s { refs = s.refs - 1 }) in
    if s'.refs == 0 then cleanup_locked c' s' else (c', s')

-- Open, but for the reader that it returns: see the reader's file.
unfoldable pub open_ref : Store → Error ⊎ Store
open_ref s =
    if s.cleaned
    then inl store_closed
    else if s.retired
    then inl store_retired
    else inr (record s { refs = s.refs + 1 })

unfoldable pub retire : Controller → Store → Controller × Store
unfolding release_ref_locked
retire c s =
    if s.owner_done
    then (c, s)
    else release_ref_locked c (record s { owner_done = true; retired = true })

unfoldable pub close_source : Store → Store
close_source s = record s { source_closed = true }

-- Close, up to its wait for the goroutine.
unfoldable pub close : Controller → Store → Controller × Store
unfolding retire close_source
close c s = let (c', s') = retire c s in (c', close_source (record s' { canceled = true }))

unfoldable pub append : Store → List ℕ → Store
append s bytes =
    if s.cleaned || s.discarding
    then s
    else record s { chunks = s.chunks ++ bytes ∷ []; size = add64 s.size (length bytes) }

unfoldable pub content_length : Store → Int64
content_length s =
    if sle 0 s.expected then s.expected else if s.complete then s.size else 18446744073709551615
