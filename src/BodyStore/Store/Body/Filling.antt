-- ===== src/BodyStore/Store/Body/Filling.antt =====
-- internal/core/bodystore/store.go: each turn of the ingesting goroutine keeps the store in step
-- with what was read from the source.
use mathlib.Core.List.{append-nil, append_assoc}
use directive_proxy.Prelude.{
  ℕ, ◌≤◌, ◌≡◌, inl, inr, not, Option, none, some, String, List, [], ◌∷◌, ◌++◌, arith, length,
  length-append, add64, slt, Option-cases, sle, ◌&&◌, ◌==◌, Bool-cases,
}
use directive_proxy.BodyStore.Admission.{
  ContextError, Error, eof, unexpected_eof, exceeds_declared_length, body_too_large, context_error,
  Reservation,
}
use directive_proxy.BodyStore.Store.{Store, append}
use directive_proxy.BodyStore.Store.Chunks.{flatten}
use directive_proxy.BodyStore.Store.Ingest.{
  Turn, Ingest, stop, at_eof, after_read, keep_chunk, check_chunk, turn,
}
use directive_proxy.BodyStore.Store.Body.Invariant.{StoreInv}

-- A source returns no more bytes than it is asked for.
abbrev pub ChunkFits : Store → Turn → Type 0
ChunkFits s t = length t.bytes ≤ s.chunk_bytes

flatten-snoc :
    (chunks : List (List ℕ)) (bytes : List ℕ)
    → flatten (chunks ++ bytes ∷ []) ≡ flatten chunks ++ bytes
flatten-snoc [] bytes = rw append-nil
flatten-snoc (c ∷ chunks) bytes = rw (flatten-snoc chunks bytes, append_assoc)

module _ {digest : List ℕ → String} {r : Reservation} {readers : ℕ} {s : Store} {g : Ingest} where
  stop-StoreInv :
      (e : Option Error)
      → g.stopped ≡ none
      → StoreInv digest r readers s g
      → StoreInv digest r readers s (stop g e)
  stop-StoreInv e running v = ground arith

  append-StoreInv :
      (bytes : List ℕ)
      → g.stopped ≡ none
      → add64 g.total (length bytes) ≤ s.max_body
      → length bytes ≤ s.chunk_bytes
      → StoreInv digest r readers s g
      → StoreInv digest r readers
          (append s bytes)
          (record g { total = add64 g.total (length bytes); hashed = g.hashed ++ bytes })
  unfolding append
  append-StoreInv bytes running fits small v =
      ground (arith, flatten-snoc s.chunks bytes, length-append g.hashed bytes)

module _ {digest : List ℕ → String} {r : Reservation} {readers : ℕ} {s : Store} {g : Ingest} where
  at_eof-StoreInv :
      g.stopped ≡ none → StoreInv digest r readers s g → StoreInv digest r readers s (at_eof s g)
  at_eof-StoreInv running v = elim (Bool-cases (sle 0 s.expected && not (g.total == s.expected))) [
    | inl short ↦ rw short (stop-StoreInv (some unexpected_eof) running v)
    | inr whole ↦ rw whole (stop-StoreInv none running v)
  ]

  after_read-StoreInv :
      (e : Option Error) (late : Option ContextError)
      → g.stopped ≡ none
      → StoreInv digest r readers s g
      → StoreInv digest r readers s (after_read s g e late)
  unfolding after_read
  after_read-StoreInv none late running v = v
  after_read-StoreInv (some eof) late running v = at_eof-StoreInv running v
  after_read-StoreInv (some e) none running v = stop-StoreInv (some e) running v
  after_read-StoreInv (some e) (some c) running v = stop-StoreInv (some (context_error c)) running v

module _ {digest : List ℕ → String} {r : Reservation} {readers : ℕ} {s : Store} {g : Ingest} where
  keep_chunk-StoreInv :
      (t : Turn)
      → ChunkFits s t
      → add64 g.total (length t.bytes) ≤ s.max_body
      → g.stopped ≡ none
      → StoreInv digest r readers s g
      → let (s', g') = keep_chunk s g t in StoreInv digest r readers s' g'
  unfolding keep_chunk
  keep_chunk-StoreInv t fits small running v =
      after_read-StoreInv t.read_err t.ctx_err_after running
        (append-StoreInv t.bytes running small fits v)

  check_chunk-StoreInv :
      (t : Turn)
      → ChunkFits s t
      → g.stopped ≡ none
      → StoreInv digest r readers s g
      → let (s', g') = check_chunk s g t in StoreInv digest r readers s' g'
  unfolding check_chunk
  check_chunk-StoreInv t fits running v =
      let after = add64 g.total (length t.bytes) in
      elim (Bool-cases (sle 0 s.expected && slt s.expected after)) [
        | inl e ↦ rw e (stop-StoreInv (some exceeds_declared_length) running v)
        | inr e ↦ rw e (elim (Bool-cases (slt s.max_body after)) [
          | inl large ↦ rw large (stop-StoreInv (some body_too_large) running v)
          | inr fit ↦ rw fit (elim (Option-cases t.chunk_err) [
            | inl ok ↦ rw ok (keep_chunk-StoreInv t fits (ground arith) running v)
            | inr (e, bad) ↦ rw bad (stop-StoreInv (some e) running v)
          ])
        ])
      ]

  pub turn-StoreInv :
      (t : Turn)
      → ChunkFits s t
      → g.stopped ≡ none
      → StoreInv digest r readers s g
      → let (s', g') = turn s g t in StoreInv digest r readers s' g'
  unfolding turn
  turn-StoreInv t fits running v = elim (Option-cases t.ctx_err) [
    | inl live ↦ rw live (elim (Bool-cases (length t.bytes == 0)) [
      | inl empty ↦ rw empty (after_read-StoreInv t.read_err t.ctx_err_after running v)
      | inr some_bytes ↦ rw some_bytes (check_chunk-StoreInv t fits running v)
    ])
    | inr (c, dead) ↦ rw dead (stop-StoreInv (some (context_error c)) running v)
  ]
