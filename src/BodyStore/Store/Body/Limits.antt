-- ===== src/BodyStore/Store/Body/Limits.antt =====
-- internal/core/bodystore/store.go: no operation changes the chunk size of a store.
use directive_proxy.Prelude.{ℕ, ◌≡◌, List, String, Option, arith, inr}
use directive_proxy.BodyStore.Admission.{ContextError, Controller}
use directive_proxy.BodyStore.Store.{Store, append, release_ref_locked, retire, close, open_ref}
use directive_proxy.BodyStore.Store.Reader.{Reader, Outcome, read, close_with}
use directive_proxy.BodyStore.Store.Ingest.{Turn, Ingest, turn, end_ingest, leave_ingest}

module _ (n : ℕ) where
  -- A store whose chunks have the size `n`.
  abbrev pub Chunked : Store → Type 0
  Chunked s = s.chunk_bytes ≡ n

  pub release-Chunked :
      (c : Controller) (s : Store) → Chunked s → Chunked (release_ref_locked c s).1
  unfolding release_ref_locked
  release-Chunked c s h = ground arith

  pub retire-Chunked : (c : Controller) (s : Store) → Chunked s → Chunked (retire c s).1
  unfolding retire
  retire-Chunked c s h = ground arith

  pub close-Chunked : (c : Controller) (s : Store) → Chunked s → Chunked (close c s).1
  unfolding close
  close-Chunked c s h = ground arith

  pub open_ref-Chunked : (s : Store) {s' : Store} → open_ref s ≡ inr s' → Chunked s → Chunked s'
  unfolding open_ref
  open_ref-Chunked s e h = ground arith

  append-Chunked : (s : Store) (bytes : List ℕ) → Chunked s → Chunked (append s bytes)
  unfolding append
  append-Chunked s bytes h = ground arith

  pub end_ingest-Chunked :
      (digest : List ℕ → String) (s : Store) (g : Ingest)
      → Chunked s
      → Chunked (end_ingest digest s g).0
  unfolding end_ingest
  end_ingest-Chunked digest s g h = ground arith

  pub leave_ingest-Chunked :
      (c : Controller) (s : Store) (g : Ingest) → Chunked s → Chunked (leave_ingest c s g).1
  unfolding leave_ingest
  leave_ingest-Chunked c s g h = ground arith

  pub close_with-Chunked :
      (c : Controller) (s : Store) (r : Reader) (o : Outcome)
      → Chunked s
      → Chunked (close_with c s r o).store
  unfolding close_with
  close_with-Chunked c s r o h = ground arith

  pub read-Chunked :
      (c : Controller) (s : Store) (r : Reader) (room : ℕ) (e : Option ContextError)
      → Chunked s
      → Chunked (read c s r room e).store
  unfolding read
  read-Chunked c s r room e h = ground arith

  pub turn-Chunked : (s : Store) (g : Ingest) (t : Turn) → Chunked s → Chunked (turn s g t).0
  unfolding turn
  turn-Chunked s g t h = ground arith
