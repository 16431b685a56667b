-- ===== src/BodyStore/Store/Body/Invariant.antt =====
-- internal/core/bodystore/store.go: who holds a reference, and what the store holds meanwhile.
use directive_proxy.Prelude.{
  ℕ, ◌+◌, ◌≤◌, ◌≡◌, ◌⊎◌, inl, inr, Bool, true, false, not, ◌||◌, ◌&&◌, Bool-cases, none, some,
  String, List, [], ◌∷◌, arith, length, IsNatural,
}
use directive_proxy.BodyStore.Admission.{Reservation, Controller}
use directive_proxy.BodyStore.Store.{
  Store, open_ref, release_ref_locked, retire, close, close_source,
}
use directive_proxy.BodyStore.Store.Chunks.{flatten}
use directive_proxy.BodyStore.Store.Ingest.{Ingest, end_ingest, result_of, leave_ingest}
use directive_proxy.BodyStore.Store.Body.{Client}

abbrev pub one_if : Bool → ℕ
one_if true = 1
one_if false = 0

abbrev pub open_readers : List Client → ℕ
open_readers [] = 0
open_readers (k ∷ ks) = one_if (not k.reader.closed) + open_readers ks

-- The chunks were given up, and their memory with them.
pub record Released (readers : ℕ) (s : Store) : Type 0 where
  pub no_readers : readers ≡ 0
  pub gone : (s.discarding || s.cleaned) ≡ true
  pub no_owner : s.retired ≡ true
  pub no_chunks : s.chunks ≡ []
  pub no_reservation : s.reservation ≡ none

-- The store holds all that was read so far, and the reservation for it.
pub record Mirrors (r : Reservation) (s : Store) (g : Ingest) : Type 0 where
  pub kept : (s.discarding || s.cleaned) ≡ false
  pub same_bytes : flatten s.chunks ≡ g.hashed
  pub same_size : s.size ≡ length g.hashed
  pub reserved : s.reservation ≡ some r

-- The result is that of the whole run of the goroutine.
pub record Reports (digest : List ℕ → String) (s : Store) (g : Ingest) : Type 0 where
  pub ended : g.finished ≡ true
  pub cause : g.stopped ≡ some s.result.err
  pub result : s.result ≡ result_of digest g s.result.err

pub record StoreInv (digest : List ℕ → String) (r : Reservation) (readers : ℕ) (s : Store)
    (g : Ingest) : Type 0 where
  pub refs : s.refs ≡ one_if (not s.retired) + one_if s.ingesting + readers
  pub owner : s.owner_done ≡ s.retired
  pub in_step : s.ingesting ≡ not g.left
  pub contents : Released readers s ⊎ Mirrors r s g
  pub total : g.total ≡ length g.hashed
  pub within : g.total ≤ s.max_body
  pub small : IsNatural (s.max_body + s.chunk_bytes)
  pub outcome :
      ((s.complete ≡ false) × (g.finished ≡ false)) ⊎ ((s.complete ≡ true) × Reports digest s g)
  pub ordered : (g.left ≡ false) ⊎ (g.finished ≡ true)

module _ {digest : List ℕ → String} {r : Reservation} {readers : ℕ} {s : Store} {g : Ingest} where
  pub retire-StoreInv :
      (c : Controller) → StoreInv digest r readers s g → StoreInv digest r readers (retire c s).1 g
  unfolding retire
  retire-StoreInv c v = ground arith

  pub close-StoreInv :
      (c : Controller) → StoreInv digest r readers s g → StoreInv digest r readers (close c s).1 g
  unfolding close
  close-StoreInv c v = ground arith

  pub open_ref-StoreInv :
      {s' : Store}
      → StoreInv digest r readers s g
      → open_ref s ≡ inr s'
      → StoreInv digest r (readers + 1) s' g
  unfolding open_ref
  open_ref-StoreInv v e = ground arith

  pub release-StoreInv :
      (c : Controller)
      → StoreInv digest r (readers + 1) s g
      → StoreInv digest r readers (release_ref_locked c s).1 g
  unfolding release_ref_locked
  release-StoreInv c v = ground arith

  pub end_ingest-StoreInv :
      StoreInv digest r readers s g
      → let (s', g') = end_ingest digest s g in StoreInv digest r readers s' g'
  unfolding end_ingest
  end_ingest-StoreInv v = ground arith

  -- The goroutine's own reference is dropped.
  left-StoreInv :
      (c : Controller)
      → g.finished ≡ true
      → g.left ≡ false
      → StoreInv digest r readers s g
      → StoreInv digest r readers
          (release_ref_locked c (record (close_source s) { ingesting = false })).1
          (record g { left = true })
  unfolding release_ref_locked close_source result_of
  left-StoreInv c f l v = ground arith

  pub leave_ingest-StoreInv :
      (c : Controller)
      → StoreInv digest r readers s g
      → let (c', s', g') = leave_ingest c s g in StoreInv digest r readers s' g'
  unfolding leave_ingest
  leave_ingest-StoreInv c v = elim (Bool-cases (g.finished && not g.left)) [
    | inl goes ↦ rw goes (left-StoreInv c (ground arith) (ground arith) v)
    | inr stays ↦ rw stays v
  ]
