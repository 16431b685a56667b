-- ===== src/Events/Runs.antt =====
-- internal/core/event/dispatcher.go: any interleaving of calls of enqueue, of the workers and of Close.
use mathlib.Core.List.{append-nil}
use mathlib.Core.Path.{ap₂}
use directive_proxy.Prelude.{
  ℕ, zero, suc, ◌<◌, ◌≡◌, refl, sym, ◌∙◌, Bool, Option, none, some, List, [], ◌∷◌, ◌++◌,
  if◌then◌else◌, Int64, sle, length, get_elem?, Text, arith, total, total-set, All, All-set,
}
use directive_proxy.Events.{
  Record, idle, Shard, Emission, counting, sizing, sending, undoing, dropping, over, send_panics,
  System, repeat_shard, new_dispatcher, begin_enqueue, shard, send_to, send, advance_from, advance,
  work_at, work, close,
}
use directive_proxy.Events.Accounts.{
  emission_bytes, emission_count, shard_bytes, shard_count, in_hand, IsShard, IsSmall, Counts,
  begin-Counts, reserve_count-Counts, reserve_bytes-Counts, give_back-Counts, drop-Counts,
}
use directive_proxy.Events.Workers.{send-Counts, work-Counts}

pub data Step : Type 0 where
  enqueues : Record → Step
  advances : (emission : ℕ) → Step
  works : (write_failed : Bool) → (shard_index : ℕ) → Step
  closes : Step

module _ (hash : Text → ℕ) where
  -- A record of a shard that is not there is not sent: `shard` never names one.
  send_at-Counts :
      (s : System) (k : ℕ) (r : Record) (o : Option Shard) (i : ℕ)
      → get_elem? s.dispatcher.shards i ≡ o
      → get_elem? s.emissions k ≡ some (sending r)
      → Counts s
      → Counts (send_to hash o i r k s)
  unfolding send_to
  send_at-Counts s k r none i at e v = ground (
    arith,
    total-set emission_bytes s.emissions k (send_panics r) e,
    total-set emission_count s.emissions k (send_panics r) e,
    All-set IsSmall s.emissions k (send_panics r) v.small tt,
  )
  send_at-Counts s k r (some x) i at e v = send-Counts s i at v hash r k e

  advance_from-Counts :
      (s : System) (k : ℕ) (o : Option Emission)
      → get_elem? s.emissions k ≡ o
      → Counts s
      → Counts (advance_from hash o k s)
  unfolding advance_from send
  advance_from-Counts s k (some (counting r)) e v = reserve_count-Counts s k v r e
  advance_from-Counts s k (some (sizing r)) e v = reserve_bytes-Counts s k v r e
  advance_from-Counts s k (some (sending r)) e v =
      send_at-Counts s k r _ (shard hash r.trace_id (length s.dispatcher.shards)) refl e v
  advance_from-Counts s k (some (undoing r)) e v = give_back-Counts s k v r e
  advance_from-Counts s k (some (dropping r)) e v = drop-Counts s k v r e
  advance_from-Counts s k (some (over a)) e v = v
  advance_from-Counts s k (some (send_panics r)) e v = v
  advance_from-Counts s k none e v = v

  work_at-Counts :
      (e : Bool) (s : System) (i : ℕ) (o : Option Shard)
      → get_elem? s.dispatcher.shards i ≡ o
      → Counts s
      → Counts (work_at e o i s)
  unfolding work_at
  work_at-Counts e s i none at v = v
  work_at-Counts e s i (some x) at v = work-Counts s i at v e x.worker refl

  unfoldable pub step : Step → System → System
  unfolding begin_enqueue advance work close
  step (enqueues r) s = begin_enqueue r s
  step (advances k) s = advance hash k s
  step (works e i) s = work e i s
  step closes s = close s

  abbrev pub IsStep : Step → Type 0
  IsStep (enqueues r) = r.size < 4611686018427387904
  IsStep _ = Unit

  step-Counts : (t : Step) (s : System) → IsStep t → Counts s → Counts (step t s)
  unfolding step advance work close
  step-Counts (enqueues r) s h v = begin-Counts r s h v
  step-Counts (advances k) s h v = advance_from-Counts s k _ refl v
  step-Counts (works e i) s h v = work_at-Counts e s i _ refl v
  step-Counts closes s h v = close-Counts s v
    where
      close-Counts : (s : System) → Counts s → Counts (step closes s)
      close-Counts s v = ground arith

  unfoldable pub run : System → List Step → System
  unfolding step
  run s [] = s
  run s (t ∷ ts) = run (step t s) ts

  run-Counts : (ts : List Step) (s : System) → All IsStep ts → Counts s → Counts (run s ts)
  unfolding run
  run-Counts [] s h v = v
  run-Counts (t ∷ ts) s h v = run-Counts ts (step t s) h.1 (step-Counts t s h.0 v)

  repeat-totals :
      (n : ℕ) (c : Int64)
      → (total shard_bytes (repeat_shard n) ≡ 0)
        × (total shard_count (repeat_shard n) ≡ 0)
        × All (IsShard c) (repeat_shard n)
  unfolding repeat_shard
  repeat-totals zero c = (refl, refl, tt)
  repeat-totals (suc n) c =
      let (b, m, a) = repeat-totals n c in (omega arith, omega arith, ((refl, omega arith), a))

  abbrev pub start : (workers max_records max_bytes : Int64) → System
  start workers max_records max_bytes = record {
    dispatcher = new_dispatcher workers max_records max_bytes;
    emissions = [];
  }

  start-Counts :
      (workers max_records max_bytes : Int64)
      → max_records < 4611686018427387904
      → max_bytes < 4611686018427387904
      → Counts (start workers max_records max_bytes)
  unfolding new_dispatcher
  start-Counts workers max_records max_bytes h k =
      let n = if sle workers 0 then 1 else workers in
      ground (arith, repeat-totals n (if sle max_records 0 then 1024 else max_records))

  -- After any interleaving of the steps of enqueue's calls, of the workers and of Close: the bytes and
  -- places counted are exactly those that calls under way, queues and workers hold; they are within
  -- the limits; and each queue's records are given to the sink in the order of their acceptance: the
  -- accepted are those written, the one in the worker's hand and those that wait. The limits and the
  -- sizes of the records are below 2 ^ 62.
  pub run-start-Counts :
      (workers max_records max_bytes : Int64) (ts : List Step)
      → max_records < 4611686018427387904
      → max_bytes < 4611686018427387904
      → All IsStep ts
      → Counts (run (start workers max_records max_bytes) ts)
  run-start-Counts workers max_records max_bytes ts h k a =
      run-Counts ts (start workers max_records max_bytes) a
        (start-Counts workers max_records max_bytes h k)

  abbrev pub IsOver : Emission → Type 0
  IsOver (over a) = Unit
  IsOver _ = ⊥

  abbrev pub IsDrained : Shard → Type 0
  IsDrained x = (x.queue ≡ []) × (x.worker ≡ idle)

  over-total :
      (es : List Emission)
      → All IsOver es
      → (total emission_bytes es ≡ 0) × (total emission_count es ≡ 0)
  over-total [] a = (refl, refl)
  over-total (over b ∷ es) a = let (x, y) = over-total es a.1 in (omega arith, omega arith)
  over-total (counting r ∷ es) a = absurd a.0
  over-total (sizing r ∷ es) a = absurd a.0
  over-total (sending r ∷ es) a = absurd a.0
  over-total (undoing r ∷ es) a = absurd a.0
  over-total (dropping r ∷ es) a = absurd a.0
  over-total (send_panics r ∷ es) a = absurd a.0

  drained-total :
      (c : Int64) (xs : List Shard)
      → All IsDrained xs
      → All (IsShard c) xs
      → (total shard_bytes xs ≡ 0)
        × (total shard_count xs ≡ 0)
        × All (λ (x : Shard). x.written ≡ x.accepted) xs
  drained-total c [] a f = (refl, refl, tt)
  drained-total c (x ∷ xs) a f =
      let (b, n, w) = drained-total c xs a.1 f.1 in
      let bytes : shard_bytes x ≡ 0 = ground (arith, a.0) in
      let count : shard_count x ≡ 0 = ground (arith, a.0) in
      let all : x.written ≡ x.accepted =
        sym (append-nil _)
        ∙ ap₂ (λ w q. x.written ++ (in_hand w ++ q)) (sym a.0.1) (sym a.0.0)
        ∙ sym f.0.0 in
      (omega arith, omega arith, (all, w))

  -- Nothing leaks: whenever no call of enqueue is under way, none has panicked, and the workers have emptied their
  -- queues, no bytes and no places are counted, and every record that was accepted was given to the
  -- sink, in the order of its queue. The limits and the sizes of the records are below 2 ^ 62.
  pub run-start_settled :
      (workers max_records max_bytes : Int64) (ts : List Step)
      → max_records < 4611686018427387904
      → max_bytes < 4611686018427387904
      → All IsStep ts
      → All IsOver (run (start workers max_records max_bytes) ts).emissions
      → All IsDrained (run (start workers max_records max_bytes) ts).dispatcher.shards
      → let d = (run (start workers max_records max_bytes) ts).dispatcher in
        (d.queued_bytes ≡ 0)
        × (d.queued_count ≡ 0)
        × All (λ (x : Shard). x.written ≡ x.accepted) d.shards
  run-start_settled workers max_records max_bytes ts h k a o e =
      let s = run (start workers max_records max_bytes) ts in
      let v = run-start-Counts workers max_records max_bytes ts h k a in
      let (eb, ec) = over-total s.emissions o in
      let (sb, sc, w) = drained-total s.dispatcher.max_records s.dispatcher.shards e v.fifo in
      (omega (arith, v.bytes), omega (arith, v.count), w)
