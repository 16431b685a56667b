-- ===== src/Events/Workers.antt =====
-- internal/core/event/dispatcher.go: the sends to a queue and the loop of its worker.
use mathlib.Core.List.{append_assoc}
use directive_proxy.Prelude.{
  ℕ, ◌+◌, ◌<◌, ◌≡◌, refl, sym, ◌∙◌, ap, Bool, true, some, List, [], ◌∷◌, ◌++◌, if_cases, length,
  length-append, ltb, get_elem?, set, Text, arith, total-append, total-set, le-total, All-set,
  All-get_elem?,
}
use directive_proxy.Events.{
  Record, Worker, idle, writing, returning, uncounting, Shard, Emission, sending, undoing, over,
  send_panics, System, to, send_to, at_shard, take_record, work_on,
}
use directive_proxy.Events.Accounts.{
  emission_bytes, emission_count, worker_bytes, worker_count, sizes, shard_bytes, shard_count,
  in_hand, IsShard, IsSmall, Counts,
}

-- A write to a shard, from a step of the shard's worker or of a call of enqueue.
module _ (s : System) (i : ℕ) {x : Shard} (there : get_elem? s.dispatcher.shards i ≡ some x)
    (v : Counts s) where
  here : IsShard s.dispatcher.max_records x
  here = All-get_elem? (IsShard s.dispatcher.max_records) s.dispatcher.shards i v.fifo there

  -- What the step leaves of the call, where it holds the same.
  keep-Counts :
      (e e' : Emission) (k : ℕ)
      → get_elem? s.emissions k ≡ some e
      → emission_bytes e' ≡ emission_bytes e
      → emission_count e' ≡ emission_count e
      → IsSmall e'
      → Counts (to s.dispatcher k e' s)
  keep-Counts e e' k at b c h = ground (
    arith,
    total-set emission_bytes s.emissions k e' at,
    total-set emission_count s.emissions k e' at,
    All-set IsSmall s.emissions k e' v.small h,
  )

  shard-Counts :
      (x' : Shard)
      → IsShard s.dispatcher.max_records x'
      → shard_bytes x' ≡ shard_bytes x
      → shard_count x' ≡ shard_count x
      → Counts (at_shard i x' s)
  shard-Counts x' h b c = ground (
    arith,
    total-set shard_bytes s.dispatcher.shards i x' there,
    total-set shard_count s.dispatcher.shards i x' there,
    All-set (IsShard s.dispatcher.max_records) s.dispatcher.shards i x' v.fifo h,
  )

  enqueued : Record → Shard
  enqueued r = record x { queue = x.queue ++ r ∷ []; accepted = x.accepted ++ r ∷ [] }

  enqueued-IsShard :
      (r : Record)
      → length x.queue < s.dispatcher.max_records
      → IsShard s.dispatcher.max_records (enqueued r)
  unfolding enqueued
  enqueued-IsShard r h = (
    ap (λ zs. zs ++ r ∷ []) here.0
        ∙ append_assoc x.written (in_hand x.worker ++ x.queue) (r ∷ [])
        ∙ ap (λ zs. x.written ++ zs) (append_assoc (in_hand x.worker) x.queue (r ∷ [])),
    omega (arith, length-append x.queue (r ∷ [])),
  )

  accept-Counts :
      (r : Record) (k : ℕ)
      → get_elem? s.emissions k ≡ some (sending r)
      → length x.queue < s.dispatcher.max_records
      → Counts (
          to
            (record s.dispatcher { shards = set s.dispatcher.shards i (enqueued r) })
            k
            (over true)
            s)
  unfolding enqueued
  accept-Counts r k e h = ground (
    arith,
    length-append x.queue (r ∷ []),
    total-append (λ (q : Record). q.size) x.queue (r ∷ []),
    total-set emission_bytes s.emissions k (over true) e,
    total-set emission_count s.emissions k (over true) e,
    total-set shard_bytes s.dispatcher.shards i (enqueued r) there,
    total-set shard_count s.dispatcher.shards i (enqueued r) there,
    All-set IsSmall s.emissions k (over true) v.small tt,
    All-set (IsShard s.dispatcher.max_records) s.dispatcher.shards i (enqueued r) v.fifo
        (enqueued-IsShard r h),
  )

  pub send-Counts :
      (hash : Text → ℕ) (r : Record) (k : ℕ)
      → get_elem? s.emissions k ≡ some (sending r)
      → Counts (send_to hash (some x) i r k s)
  unfolding send_to enqueued
  send-Counts hash r k e =
      if_cases Counts s.dispatcher.closed
        (λ _. keep-Counts (sending r) (send_panics r) k e refl refl tt)
        (λ _.
          if_cases Counts (ltb (length x.queue) s.dispatcher.max_records)
            (λ room. accept-Counts r k e (ground arith))
            (λ _. keep-Counts (sending r) (undoing r) k e refl refl tt))

  -- What the shard took, when its worker stands at `w`.
  taken : (w : Worker) → x.worker ≡ w → x.accepted ≡ x.written ++ (in_hand w ++ x.queue)
  taken w at = here.0 ∙ ap (λ w. x.written ++ (in_hand w ++ x.queue)) at

  take-Counts : (q : List Record) → x.queue ≡ q → x.worker ≡ idle → Counts (take_record q i x s)
  unfolding take_record
  take-Counts [] same at = v
  take-Counts (r ∷ rs) same at =
      let l = here.1 in
      shard-Counts (record x { queue = rs; worker = writing r })
        (taken idle at ∙ ap (λ zs. x.written ++ zs) same, omega (arith, ap length same))
        (ground (arith, same, at)) (ground (arith, same, at))

  return-Counts :
      (r : Record) (f : Bool)
      → x.worker ≡ returning r f
      → (e : Bool) → Counts (work_on e (returning r f) i x s)
  unfolding work_on
  return-Counts r f at e =
      let x' = record x { worker = uncounting r f } in
      ground (
        arith,
        le-total shard_bytes s.dispatcher.shards i there,
        total-set shard_bytes s.dispatcher.shards i x' there,
        total-set shard_count s.dispatcher.shards i x' there,
        All-set (IsShard s.dispatcher.max_records) s.dispatcher.shards i x' v.fifo
            (taken _ at, here.1),
      )

  uncount-Counts :
      (r : Record) (f : Bool)
      → x.worker ≡ uncounting r f
      → (e : Bool) → Counts (work_on e (uncounting r f) i x s)
  unfolding work_on
  uncount-Counts r f at e =
      let x' = record x { worker = idle } in
      ground (
        arith,
        le-total shard_count s.dispatcher.shards i there,
        total-set shard_bytes s.dispatcher.shards i x' there,
        total-set shard_count s.dispatcher.shards i x' there,
        All-set (IsShard s.dispatcher.max_records) s.dispatcher.shards i x' v.fifo
            (taken _ at, here.1),
      )

  pub work-Counts : (e : Bool) (w : Worker) → x.worker ≡ w → Counts (work_on e w i x s)
  unfolding work_on
  work-Counts e idle at = take-Counts x.queue refl at
  work-Counts e (writing r) at =
      shard-Counts (record x { worker = returning r e; written = x.written ++ r ∷ [] })
        (taken _ at ∙ sym (append_assoc x.written (r ∷ []) x.queue), here.1)
        (ap (λ w. sizes x.queue + worker_bytes w) (sym at))
        (ap (λ w. length x.queue + worker_count w) (sym at))
  work-Counts e (returning r f) at = return-Counts r f at e
  work-Counts e (uncounting r f) at = uncount-Counts r f at e
