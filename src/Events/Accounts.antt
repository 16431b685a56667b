-- ===== src/Events/Accounts.antt =====
-- internal/core/event/dispatcher.go: the places and bytes that are reserved, over any interleaving.
use directive_proxy.Prelude.{
  ℕ, ◌+◌, ◌≤◌, ◌<◌, ◌≡◌, refl, false, some, List, [], ◌∷◌, ◌++◌, if_cases, Int64, length, get_elem?,
  arith, total, total-append, total-set, le-total, All, All-append, All-set, All-get_elem?,
}
use directive_proxy.Events.{
  Record, Worker, idle, writing, returning, Shard, Emission, counting, sizing, sending, undoing,
  dropping, over, send_panics, System, begin_enqueue, reserve_count, reserve_bytes, give_back_bytes,
  drop_record,
}

-- What a call of enqueue, and a shard, hold of the bytes and of the places.
abbrev pub emission_bytes : Emission → ℕ
emission_bytes (sending r) = r.size
emission_bytes (undoing r) = r.size
emission_bytes (send_panics r) = r.size
emission_bytes _ = 0

abbrev pub emission_count : Emission → ℕ
emission_count (sizing r) = 1
emission_count (sending r) = 1
emission_count (undoing r) = 1
emission_count (dropping r) = 1
emission_count (send_panics r) = 1
emission_count _ = 0

abbrev pub worker_bytes : Worker → ℕ
worker_bytes (writing r) = r.size
worker_bytes (returning r f) = r.size
worker_bytes _ = 0

abbrev pub worker_count : Worker → ℕ
worker_count idle = 0
worker_count _ = 1

abbrev pub sizes : List Record → ℕ
sizes = total (λ r. r.size)

abbrev pub shard_bytes : Shard → ℕ
shard_bytes x = sizes x.queue + worker_bytes x.worker

abbrev pub shard_count : Shard → ℕ
shard_count x = length x.queue + worker_count x.worker

-- The record that the worker has taken and not given to the sink.
abbrev pub in_hand : Worker → List Record
in_hand (writing r) = r ∷ []
in_hand _ = []

abbrev pub IsShard : Int64 → Shard → Type 0
IsShard capacity x =
    (x.accepted ≡ x.written ++ (in_hand x.worker ++ x.queue)) × (length x.queue ≤ capacity)

-- A size that is still to be added.
abbrev pub IsSmall : Emission → Type 0
IsSmall (counting r) = r.size < 4611686018427387904
IsSmall (sizing r) = r.size < 4611686018427387904
IsSmall _ = Unit

pub record Counts (s : System) : Type 0 where
  pub few : s.dispatcher.max_records < 4611686018427387904
  pub light : s.dispatcher.max_bytes < 4611686018427387904
  pub bytes :
      s.dispatcher.queued_bytes
      ≡ total emission_bytes s.emissions + total shard_bytes s.dispatcher.shards
  pub count :
      s.dispatcher.queued_count
      ≡ total emission_count s.emissions + total shard_count s.dispatcher.shards
  pub bytes_within : s.dispatcher.queued_bytes ≤ s.dispatcher.max_bytes
  pub count_within : s.dispatcher.queued_count ≤ s.dispatcher.max_records
  pub small : All IsSmall s.emissions
  pub fifo : All (IsShard s.dispatcher.max_records) s.dispatcher.shards

append-Counts :
    (e : Emission) (s : System)
    → IsSmall e
    → emission_bytes e ≡ 0
    → emission_count e ≡ 0
    → Counts s
    → Counts (record s { emissions = s.emissions ++ e ∷ [] })
append-Counts e s h b c v = ground (
  arith,
  total-append emission_bytes s.emissions (e ∷ []),
  total-append emission_count s.emissions (e ∷ []),
  All-append IsSmall s.emissions (e ∷ []) v.small (h, tt),
)

pub begin-Counts :
    (r : Record) (s : System) → r.size < 4611686018427387904 → Counts s → Counts (begin_enqueue r s)
unfolding begin_enqueue
begin-Counts r s h v =
    if_cases (λ e. Counts (record s { emissions = s.emissions ++ e ∷ [] })) s.dispatcher.closed
      (λ _. append-Counts (over false) s tt refl refl v)
      (λ _. append-Counts (counting r) s h refl refl v)

module _ (s : System) (k : ℕ) (v : Counts s) where
  pub reserve_count-Counts :
      (r : Record) → get_elem? s.emissions k ≡ some (counting r) → Counts (reserve_count r k s)
  unfolding reserve_count
  reserve_count-Counts r e =
      let small : r.size < 4611686018427387904 = All-get_elem? IsSmall s.emissions k v.small e in
      ground (
        arith,
        total-set emission_bytes s.emissions k (over false) e,
        total-set emission_count s.emissions k (over false) e,
        total-set emission_bytes s.emissions k (sizing r) e,
        total-set emission_count s.emissions k (sizing r) e,
        All-set IsSmall s.emissions k (over false) v.small tt,
        All-set IsSmall s.emissions k (sizing r) v.small small,
      )

  pub reserve_bytes-Counts :
      (r : Record) → get_elem? s.emissions k ≡ some (sizing r) → Counts (reserve_bytes r k s)
  unfolding reserve_bytes
  reserve_bytes-Counts r e =
      let small : r.size < 4611686018427387904 = All-get_elem? IsSmall s.emissions k v.small e in
      ground (
        arith,
        le-total emission_count s.emissions k e,
        total-set emission_bytes s.emissions k (over false) e,
        total-set emission_count s.emissions k (over false) e,
        total-set emission_bytes s.emissions k (sending r) e,
        total-set emission_count s.emissions k (sending r) e,
        All-set IsSmall s.emissions k (over false) v.small tt,
        All-set IsSmall s.emissions k (sending r) v.small tt,
      )

  pub give_back-Counts :
      (r : Record) → get_elem? s.emissions k ≡ some (undoing r) → Counts (give_back_bytes r k s)
  unfolding give_back_bytes
  give_back-Counts r e = ground (
    arith,
    le-total emission_bytes s.emissions k e,
    total-set emission_bytes s.emissions k (dropping r) e,
    total-set emission_count s.emissions k (dropping r) e,
    All-set IsSmall s.emissions k (dropping r) v.small tt,
  )

  pub drop-Counts :
      (r : Record) → get_elem? s.emissions k ≡ some (dropping r) → Counts (drop_record r k s)
  unfolding drop_record
  drop-Counts r e = ground (
    arith,
    le-total emission_count s.emissions k e,
    total-set emission_bytes s.emissions k (over false) e,
    total-set emission_count s.emissions k (over false) e,
    All-set IsSmall s.emissions k (over false) v.small tt,
  )
