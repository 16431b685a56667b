-- ===== src/BodyStore/Store/Body/Growth.antt =====
-- internal/core/bodystore/store.go, ingest: what a turn of the goroutine adds, and the errors with
-- which it may stop.
use mathlib.Core.List.{append-nil}
use directive_proxy.Prelude.{
  String, arith, ℕ, ◌≡◌, refl, Option, none, some, List, [], ◌++◌, add64, length, sle, slt,
  if_cases, not, ◌&&◌, ◌==◌, Option-cases, inl, inr,
}
use directive_proxy.BodyStore.Admission.{
  ContextError, Error, eof, unexpected_eof, context_error, exceeds_declared_length, body_too_large,
  Controller,
}
use directive_proxy.BodyStore.Store.{Store, append}
use directive_proxy.BodyStore.Store.Ingest.{
  Turn, Ingest, stop, after_read, keep_chunk, turn, end_ingest, leave_ingest,
}
use directive_proxy.BodyStore.Store.Body.Clients.{Honest}

-- More bytes were read, and no error is io.EOF itself.
pub record Grows (g g' : Ingest) : Type 0 where
  pub added : List ℕ
  pub appended : g'.hashed ≡ g.hashed ++ added
  pub honest : Honest g'.stopped

-- The observer's error is not io.EOF.
abbrev pub ObserverOk : Option Error → Type 0
ObserverOk (some eof) = ⊥
ObserverOk _ = Unit

module _ (s : Store) (old g : Ingest) (bytes : List ℕ) (e : g.hashed ≡ old.hashed ++ bytes) where
  grown : (err : Option (Option Error)) → Honest err → Grows old (record g { stopped = err })
  grown err h = record { added = bytes; appended = e; honest = h }

  after_read-Grows :
      (err : Option Error) (late : Option ContextError)
      → g.stopped ≡ none
      → Grows old (after_read s g err late)
  unfolding after_read
  after_read-Grows none late running = record {
    added = bytes;
    appended = e;
    honest = rw running tt;
  }
  after_read-Grows (some eof) late running =
      if_cases (Grows old) (sle 0 s.expected && not (g.total == s.expected))
        (λ _. grown (some (some unexpected_eof)) tt) (λ _. grown (some none) tt)
  after_read-Grows (some _) none running = grown _ tt
  after_read-Grows (some _) (some c) running = grown (some (some (context_error c))) tt

pub turn-Grows :
    (s : Store) (g : Ingest) (t : Turn)
    → ObserverOk t.chunk_err
    → g.stopped ≡ none
    → Grows g (turn s g t).1
unfolding turn
turn-Grows s g t ok running = elim (Option-cases t.ctx_err) [
  | inr (c, dead) ↦ rw dead (grown s g g [] (rw append-nil) (some (some (context_error c))) tt)
  | inl live ↦ rw live (
      if_cases (λ (x : Store × Ingest). Grows g x.1) (length t.bytes == 0)
        (λ _. after_read-Grows s g g [] (rw append-nil) t.read_err t.ctx_err_after running)
        (λ _.
          if_cases (λ (x : Store × Ingest). Grows g x.1) (sle 0 s.expected && slt s.expected after)
            (λ _. grown s g g [] (rw append-nil) (some (some exceeds_declared_length)) tt)
            (λ _.
              if_cases (λ (x : Store × Ingest). Grows g x.1) (slt s.max_body after)
                (λ _. grown s g g [] (rw append-nil) (some (some body_too_large)) tt)
                (λ _. observed t.chunk_err ok))))
]
  where
    after : ℕ
    after = add64 g.total (length t.bytes)

    observed :
        (e : Option Error)
        → ObserverOk e
        → Grows g
            (elim e as (λ _. Store × Ingest) [
              | some e ↦ (s, stop g (some e))
              | none ↦ keep_chunk s g t
            ]).1
    observed none h =
        after_read-Grows (append s t.bytes) g _ t.bytes refl t.read_err t.ctx_err_after running
    observed (some eof) h = absurd h
    observed (some _) h = grown s g g [] (rw append-nil) _ tt

-- The deferred function changes neither what was read nor the error.
pub record SameRun (g g' : Ingest) : Type 0 where
  pub hashed : g'.hashed ≡ g.hashed
  pub stopped : g'.stopped ≡ g.stopped

pub end_ingest-SameRun :
    (digest : List ℕ → String) (s : Store) (g : Ingest) → SameRun g (end_ingest digest s g).1
unfolding end_ingest
end_ingest-SameRun digest s g = ground arith

pub leave_ingest-SameRun :
    (c : Controller) (s : Store) (g : Ingest) → SameRun g (leave_ingest c s g).2
unfolding leave_ingest
leave_ingest-SameRun c s g =
    if_cases (λ (x : Controller × Store × Ingest). SameRun g x.2) (g.finished && not g.left)
      (λ _. record { hashed = refl; stopped = refl })
      (λ _. record { hashed = refl; stopped = refl })
