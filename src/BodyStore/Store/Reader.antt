-- ===== src/BodyStore/Store/Reader.antt =====
-- internal/core/bodystore/store.go, Reader: a position in the stored body.
use directive_proxy.Prelude.{
  ℕ, ◌==◌, ◌⊎◌, inl, inr, Bool, true, false, Option, none, some, List, [], Int64, add64, sub64, slt,
  length, if◌then◌else◌,
}
use directive_proxy.BodyStore.Admission.{
  ContextError, Error, eof, context_error, store_closed, Controller,
}
use directive_proxy.BodyStore.Store.{Store, open_ref, release_ref_locked}
use directive_proxy.BodyStore.Store.Chunks.{read_at_locked}

-- `closed` is the `once` of Close, after which the pointer to the store is nil.
pub record Reader : Type 0 where
  pub offset : Int64
  pub closed : Bool

-- The result of Read: bytes with no error, an error with no bytes, or a wait for the next signal.
pub data Outcome : Type 0 where
  got : List ℕ → Outcome
  failed : Error → Outcome
  waits : Outcome

pub record Reading : Type 0 where
  pub controller : Controller
  pub store : Store
  pub reader : Reader
  pub outcome : Outcome

unfoldable pub open_reader : Store → Error ⊎ (Store × Reader)
unfolding open_ref
open_reader s = elim (open_ref s) [
  | inl e ↦ inl e
  | inr s' ↦ inr (s', record { offset = 0; closed = false })
]

-- The reader's Close, with what Read returns beside it.
unfoldable pub close_with : Controller → Store → Reader → Outcome → Reading
unfolding release_ref_locked
close_with c s r outcome =
    if r.closed
    then record { controller = c; store = s; reader = r; outcome = outcome }
    else (let (c', s') = release_ref_locked c s in
        record {
          controller = c';
          store = s';
          reader = record r { closed = true };
          outcome = outcome;
        })

unfoldable pub close_reader : Controller → Store → Reader → Controller × Store × Reader
unfolding close_with
close_reader c s r = let out = close_with c s r waits in (out.controller, out.store, out.reader)

-- The error of a store that is complete: its result's, or the end of the body.
abbrev pub end_error : Option Error → Error
end_error none = eof
end_error (some e) = e

-- What a reader with nothing left to read does, by the context's error.
unfoldable pub at_end : Controller → Store → Reader → Option ContextError → Reading
unfolding close_with
at_end c s r ctx_err =
    if s.complete then close_with c s r (failed (end_error s.result.err)) else elim ctx_err [
      | some e ↦ close_with c s r (failed (context_error e))
      | none ↦ record { controller = c; store = s; reader = r; outcome = waits }
    ]

-- One round of Read with room for `room` bytes.
unfoldable pub read : Controller → Store → Reader → (room : ℕ) → Option ContextError → Reading
unfolding at_end
read c s r room ctx_err =
    if r.closed
    then record { controller = c; store = s; reader = r; outcome = failed store_closed }
    else if room == 0
    then record { controller = c; store = s; reader = r; outcome = got [] }
    else if slt r.offset s.size
    then (let available = sub64 s.size r.offset in
        let bytes =
          read_at_locked s.chunks (if slt available room then available else room) r.offset in
        record {
          controller = c;
          store = s;
          reader = record r { offset = add64 r.offset (length bytes) };
          outcome = got bytes;
        })
    else at_end c s r ctx_err
