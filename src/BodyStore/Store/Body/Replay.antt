-- ===== src/BodyStore/Store/Body/Replay.antt =====
-- internal/core/bodystore/store.go: after any history of one body's events, its references, its
-- contents and its clients are in step.
use directive_proxy.Prelude.{
  ℕ, zero, suc, ◌+◌, ◌≤◌, ◌≡◌, ◌⊎◌, refl, sym, inl, inr, Option, none, some, String, List, [], ◌∷◌,
  ◌++◌, arith, length, get_elem?, set, All, All-append, All-set, All-get_elem?, Option-cases,
  IsNatural,
}
use directive_proxy.BodyStore.Admission.{Error, ContextError, Reservation, Controller}
use directive_proxy.BodyStore.Store.{Store, StreamOptions, open_ref}
use directive_proxy.BodyStore.Store.Reader.{
  Outcome, got, failed, read, close_reader, open_reader, close_with, waits,
}
use directive_proxy.BodyStore.Store.Ingest.{Turn, Ingest, turn}
use directive_proxy.BodyStore.Store.Body.{
  Client, Body, Event, turns, ends, leaves, opens, retires, closes, reads, closes_reader,
  received_by, read_by, close_by, opened, turned, step, run, start,
}
use directive_proxy.BodyStore.Store.Body.Invariant.{
  open_readers, StoreInv, retire-StoreInv, close-StoreInv, open_ref-StoreInv, end_ingest-StoreInv,
  leave_ingest-StoreInv,
}
use directive_proxy.BodyStore.Store.Body.Filling.{turn-StoreInv}
use directive_proxy.BodyStore.Store.Body.Clients.{
  ClientOk, Honest, ReadOk, open_of, ClientOk-append, read-ReadOk, CloseOk, close_with-CloseOk,
}
use directive_proxy.BodyStore.Store.Body.Growth.{
  end_ingest-SameRun, leave_ingest-SameRun, ObserverOk, turn-Grows,
}
use directive_proxy.BodyStore.Store.Body.Limits.{
  Chunked, retire-Chunked, close-Chunked, open_ref-Chunked, end_ingest-Chunked,
  leave_ingest-Chunked, close_with-Chunked, read-Chunked, turn-Chunked,
}

-- The store serves its open readers, and every client, its reader open or closed, has got a prefix
-- of what was read from the source; all of it, if its last error is io.EOF.
pub record BodyInv (digest : List ℕ → String) (r : Reservation) (chunk_bytes : ℕ) (b : Body)
    : Type 0 where
  pub store : StoreInv digest r (open_readers b.clients) b.store b.ingest
  pub clients : All (ClientOk b.ingest.hashed b.ingest.stopped) b.clients
  pub honest : Honest b.ingest.stopped
  pub chunked : Chunked chunk_bytes b.store

-- What the source and the observer are trusted with: no more bytes than a chunk holds, and no
-- io.EOF as the observer's error.
abbrev pub EventOk : ℕ → Event → Type 0
EventOk chunk_bytes (turns t) = (length t.bytes ≤ chunk_bytes) × ObserverOk t.chunk_err
EventOk chunk_bytes _ = Unit

-- The clients but the one at a position.
others_at : List Client → ℕ → ℕ
others_at [] n = 0
others_at (k ∷ ks) zero = open_readers ks
others_at (k ∷ ks) (suc n) = open_of k.reader + others_at ks n

open_readers-others :
    (ks : List Client) (n : ℕ) {k : Client}
    → get_elem? ks n ≡ some k
    → open_readers ks ≡ others_at ks n + open_of k.reader
unfolding others_at
open_readers-others [] n e = cc
open_readers-others (x ∷ ks) zero {k} e = let same : x ≡ k = cc in rw (← same) (omega arith)
open_readers-others (x ∷ ks) (suc n) e = omega (arith, open_readers-others ks n e)

open_readers-set :
    (ks : List Client) (n : ℕ) (k' : Client) {k : Client}
    → get_elem? ks n ≡ some k
    → open_readers (set ks n k') ≡ others_at ks n + open_of k'.reader
unfolding others_at
open_readers-set [] n k' e = cc
open_readers-set (x ∷ ks) zero k' e = omega arith
open_readers-set (x ∷ ks) (suc n) k' e = omega (arith, open_readers-set ks n k' e)

open_readers-append :
    (ks : List Client) (k : Client)
    → open_readers (ks ++ k ∷ []) ≡ open_readers ks + open_of k.reader
open_readers-append [] k = omega arith
open_readers-append (x ∷ ks) k = omega (arith, open_readers-append ks k)

recount :
    {digest : List ℕ → String} {r : Reservation} {n : ℕ} (m : ℕ) {s : Store} {g : Ingest}
    → n ≡ m
    → StoreInv digest r n s g
    → StoreInv digest r m s g
recount m e v = rw (← e) v

All-map {ℓ} :
    {A : Type ℓ} (P Q : A → Type ℓ) (xs : List A) → ((x : A) → P x → Q x) → All P xs → All Q xs
All-map P Q [] f h = tt
All-map P Q (x ∷ xs) f h = (f x h.0, All-map P Q xs f h.1)

reader-received_by : (k : Client) (o : Outcome) → (received_by k o).reader ≡ k.reader
reader-received_by k (got bytes) = refl
reader-received_by k (failed e) = refl
reader-received_by k waits = refl

module _ (digest : List ℕ → String) (r : Reservation) (chunk_bytes : ℕ) (b : Body) where
  read_by-BodyInv :
      (n room : ℕ) (k : Client) (ctx_err : Option ContextError)
      → get_elem? b.clients n ≡ some k
      → BodyInv digest r chunk_bytes b
      → BodyInv digest r chunk_bytes (read_by b n k room ctx_err)
  unfolding read_by
  read_by-BodyInv n room k ctx_err e v = record {
    store = recount _ (sym (open_readers-set b.clients n _ e)) (rw reader-received_by ok.store);
    clients = All-set _ b.clients n _ v.clients ok.client;
    honest = v.honest;
    chunked = read-Chunked chunk_bytes b.controller b.store k.reader room ctx_err v.chunked;
  }
    where
      ok :
          ReadOk digest r
            (others_at b.clients n)
            b.ingest
            k
            (read b.controller b.store k.reader room ctx_err)
      ok =
          read-ReadOk digest r (others_at b.clients n) b.store b.ingest b.controller k room ctx_err
            v.honest (recount _ (open_readers-others b.clients n e) v.store)
            (All-get_elem? _ b.clients n v.clients e)

  close_by-BodyInv :
      (n : ℕ) (k : Client)
      → get_elem? b.clients n ≡ some k
      → BodyInv digest r chunk_bytes b
      → BodyInv digest r chunk_bytes (close_by b n k)
  unfolding close_by close_reader
  close_by-BodyInv n k e v = record {
    store = recount _ (sym (open_readers-set b.clients n _ e)) ok.0;
    clients = All-set _ b.clients n _ v.clients ok.1;
    honest = v.honest;
    chunked = close_with-Chunked chunk_bytes b.controller b.store k.reader waits v.chunked;
  }
    where
      ok :
          CloseOk digest r
            (others_at b.clients n)
            b.store
            b.ingest
            b.controller
            k
            (close_with b.controller b.store k.reader waits)
      ok =
          close_with-CloseOk digest r (others_at b.clients n) b.store b.ingest b.controller k
            (recount _ (open_readers-others b.clients n e) v.store)
            (All-get_elem? _ b.clients n v.clients e)

  turned-BodyInv :
      (t : Turn)
      → EventOk chunk_bytes (turns t)
      → BodyInv digest r chunk_bytes b
      → BodyInv digest r chunk_bytes (turned b t)
  unfolding turned
  turned-BodyInv t ok v = elim (Option-cases b.ingest.stopped) [
    | inr (e, over) ↦ rw (over, turned) v
    | inl running ↦
        rw (running, turned)
          (record {
            store = turn-StoreInv t (rw v.chunked ok.0) running v.store;
            clients = grown running;
            honest = (turn-Grows b.store b.ingest t ok.1 running).honest;
            chunked = turn-Chunked chunk_bytes b.store b.ingest t v.chunked;
          })
  ]
    where
      grown :
          b.ingest.stopped ≡ none
          → All
              (ClientOk (turn b.store b.ingest t).1.hashed (turn b.store b.ingest t).1.stopped)
              b.clients
      grown running =
          let gr = turn-Grows b.store b.ingest t ok.1 running in
          rw gr.appended (
            All-map _ _ b.clients
              (λ k h. ClientOk-append b.ingest.hashed gr.added _ (rw running at h)) v.clients)

  opened-BodyInv : BodyInv digest r chunk_bytes b → BodyInv digest r chunk_bytes (opened b)
  unfolding opened open_reader
  opened-BodyInv v = go (open_ref b.store) refl
    where
      go : (x : Error ⊎ Store) → open_ref b.store ≡ x → BodyInv digest r chunk_bytes (opened b)
      go (inl err) e = rw (e, opened) v
      go (inr s) e =
          rw (e, opened)
            (record {
              store =
                  recount _ (sym (open_readers-append b.clients _)) (open_ref-StoreInv v.store e);
              clients =
                  All-append _ b.clients _ v.clients
                    (record { in_range = omega arith; prefix = refl; at_eof = tt }, tt);
              honest = v.honest;
              chunked = open_ref-Chunked chunk_bytes b.store e v.chunked;
            })

  step-BodyInv :
      (e : Event)
      → EventOk chunk_bytes e
      → BodyInv digest r chunk_bytes b
      → BodyInv digest r chunk_bytes (step digest b e)
  unfolding step
  step-BodyInv (turns t) ok v = turned-BodyInv t ok v
  step-BodyInv ends ok v =
      let same = end_ingest-SameRun digest b.store b.ingest in
      record {
        store = end_ingest-StoreInv v.store;
        clients = rw (same.hashed, same.stopped) v.clients;
        honest = rw same.stopped v.honest;
        chunked = end_ingest-Chunked chunk_bytes digest b.store b.ingest v.chunked;
      }
  step-BodyInv leaves ok v =
      let same = leave_ingest-SameRun b.controller b.store b.ingest in
      record {
        store = leave_ingest-StoreInv b.controller v.store;
        clients = rw (same.hashed, same.stopped) v.clients;
        honest = rw same.stopped v.honest;
        chunked = leave_ingest-Chunked chunk_bytes b.controller b.store b.ingest v.chunked;
      }
  step-BodyInv opens ok v = opened-BodyInv v
  step-BodyInv retires ok v = record {
    store = retire-StoreInv b.controller v.store;
    clients = v.clients;
    honest = v.honest;
    chunked = retire-Chunked chunk_bytes b.controller b.store v.chunked;
  }
  step-BodyInv closes ok v = record {
    store = close-StoreInv b.controller v.store;
    clients = v.clients;
    honest = v.honest;
    chunked = close-Chunked chunk_bytes b.controller b.store v.chunked;
  }
  step-BodyInv (reads n room ctx_err) ok v = elim (Option-cases (get_elem? b.clients n)) [
    | inl e ↦ rw (e, step) v
    | inr (k, e) ↦ rw (e, step) (read_by-BodyInv n room k ctx_err e v)
  ]
  step-BodyInv (closes_reader n) ok v = elim (Option-cases (get_elem? b.clients n)) [
    | inl e ↦ rw (e, step) v
    | inr (k, e) ↦ rw (e, step) (close_by-BodyInv n k e v)
  ]

module _ (digest : List ℕ → String) (r : Reservation) (chunk_bytes : ℕ) where
  run-BodyInv :
      (b : Body) (es : List Event)
      → All (EventOk chunk_bytes) es
      → BodyInv digest r chunk_bytes b
      → BodyInv digest r chunk_bytes (run digest b es)
  unfolding run
  run-BodyInv b [] ok v = v
  run-BodyInv b (e ∷ es) ok v =
      run-BodyInv (step digest b e) es ok.1 (step-BodyInv digest r chunk_bytes b e ok.0 v)

start-BodyInv :
    (digest : List ℕ → String) (c : Controller) (expected : ℕ) (o : StreamOptions) (r : Reservation)
    → IsNatural (o.max_body_bytes + o.chunk_bytes)
    → BodyInv digest r o.chunk_bytes (start digest c expected o r)
unfolding start
start-BodyInv digest c expected o r small = record {
  store = record {
    refs = omega arith;
    owner = refl;
    in_step = refl;
    contents = inr (record { kept = refl; same_bytes = refl; same_size = refl; reserved = refl });
    total = refl;
    within = omega arith;
    small = small;
    outcome = inl (refl, refl);
    ordered = inl refl;
  };
  clients = tt;
  honest = tt;
  chunked = refl;
}

-- After any history of one body's events, in any order (turns of the goroutine that reads the
-- source, its end, readers opened, read and closed, the store retired or closed), the count of
-- references is that of the owner, the goroutine and the open readers; while a reader is open the
-- chunks are exactly what was read from the source and their reservation is held; when they are
-- given up, there is no owner and no open reader; the bytes read are within the body limit; every
-- client, its reader open or closed, has got a prefix of what was read from the source, and all
-- of it when its reader ended with io.EOF. A source returns at most a chunk at once, the
-- observer does not return io.EOF, and the body limit and a chunk together are an int64.
pub run-start-BodyInv :
    (digest : List ℕ → String) (c : Controller) (expected : ℕ) (o : StreamOptions) (r : Reservation)
    (es : List Event)
    → IsNatural (o.max_body_bytes + o.chunk_bytes)
    → All (EventOk o.chunk_bytes) es
    → BodyInv digest r o.chunk_bytes (run digest (start digest c expected o r) es)
run-start-BodyInv digest c expected o r es small ok =
    run-BodyInv digest r o.chunk_bytes (start digest c expected o r) es ok
      (start-BodyInv digest c expected o r small)
