-- ===== src/Events.antt =====
-- internal/core/event/dispatcher.go: records wait in bounded queues, one for each worker, for the sink.
-- Each atomic operation is one step, so that emitters and workers interleave as they may. A record is
-- its trace and its estimated size; the hash of a trace is a parameter.
pub mod Accounts
pub mod Workers
pub mod Runs
mod Tests
use directive_proxy.Prelude.{
  ℕ, zero, suc, ◌+◌, ◌%◌, ◌==◌, Bool, true, false, ◌&&◌, ◌||◌, not, Option, none, some, List, [],
  ◌∷◌, ◌++◌, if◌then◌else◌, Int64, add64, sub64, slt, sle, length, ltb, leb, get_elem?, set, Text,
}

pub record Record : Type 0 where
  pub trace_id : Text
  pub size : Int64

-- A worker reads its queue, writes to the sink, gives back the bytes, and then the place.
pub data Worker : Type 0 where
  idle : Worker
  writing : Record → Worker
  returning uncounting : Record → (write_failed : Bool) → Worker

-- A queue with its worker; `accepted` and `written` are what it took and what was given to the sink.
pub record Shard : Type 0 where
  pub queue : List Record
  pub worker : Worker
  pub accepted : List Record
  pub written : List Record

pub record Dispatcher : Type 0 where
  pub max_records : Int64
  pub max_bytes : Int64
  pub queued_bytes : Int64
  pub queued_count : Int64
  pub dropped : ℕ
  pub sink_failures : ℕ
  pub failed : Bool
  pub closed : Bool
  pub shards : List Shard

-- Where a call of enqueue stands: before each of the two loops of reserve, before the send, and
-- while it gives back what it has reserved. A send on a closed channel panics.
pub data Emission : Type 0 where
  counting sizing sending undoing dropping : Record → Emission
  over : (accepted : Bool) → Emission
  send_panics : Record → Emission

pub record System : Type 0 where
  pub dispatcher : Dispatcher
  pub emissions : List Emission

abbrev pub no_shard : Shard
no_shard = record { queue = []; worker = idle; accepted = []; written = [] }

unfoldable pub repeat_shard : ℕ → List Shard
repeat_shard zero = []
repeat_shard (suc n) = no_shard ∷ repeat_shard n

-- NewDispatcher, of which the sink has started.
unfoldable pub new_dispatcher : (workers queue_max_records queue_max_bytes : Int64) → Dispatcher
unfolding repeat_shard
new_dispatcher workers queue_max_records queue_max_bytes = record {
  max_records = if sle queue_max_records 0 then 1024 else queue_max_records;
  max_bytes = if sle queue_max_bytes 0 then 67108864 else queue_max_bytes;
  queued_bytes = 0;
  queued_count = 0;
  dropped = 0;
  sink_failures = 0;
  failed = false;
  closed = false;
  shards = repeat_shard (if sle workers 0 then 1 else workers);
}

-- enqueue, up to reserve.
unfoldable pub begin_enqueue : Record → System → System
begin_enqueue r s = record s {
  emissions = s.emissions ++ (if s.dispatcher.closed then over false else counting r) ∷ [];
}

abbrev pub to : Dispatcher → ℕ → Emission → System → System
to d k e s = record { dispatcher = d; emissions = set s.emissions k e }

-- The first loop of reserve.
unfoldable pub reserve_count : Record → ℕ → System → System
reserve_count r k s =
    let d = s.dispatcher in
    if sle d.max_records d.queued_count
    then to (record d { dropped = d.dropped + 1 }) k (over false) s
    else to (record d { queued_count = add64 d.queued_count 1 }) k (sizing r) s

-- The second loop.
unfoldable pub reserve_bytes : Record → ℕ → System → System
reserve_bytes r k s =
    let d = s.dispatcher in
    if slt d.max_bytes (add64 d.queued_bytes r.size)
    then to (record d { queued_count = sub64 d.queued_count 1; dropped = d.dropped + 1 }) k
        (over false) s
    else to (record d { queued_bytes = add64 d.queued_bytes r.size }) k (sending r) s

-- A full queue: the bytes and the place are given back.
unfoldable pub give_back_bytes : Record → ℕ → System → System
give_back_bytes r k s =
    let d = s.dispatcher in
    to (record d { queued_bytes = sub64 d.queued_bytes r.size }) k (dropping r) s

unfoldable pub drop_record : Record → ℕ → System → System
drop_record r k s =
    let d = s.dispatcher in
    to (record d { queued_count = sub64 d.queued_count 1; dropped = d.dropped + 1 }) k (over false)
      s

module _ (hash : Text → ℕ) where
  unfoldable pub shard : Text → ℕ → ℕ
  shard t count = if leb count 1 then 0 else hash t % 4294967296 % count

  -- The send to the queue of the shard.
  unfoldable pub send_to : Option Shard → ℕ → Record → ℕ → System → System
  send_to none i r k s = to s.dispatcher k (send_panics r) s
  send_to (some x) i r k s =
      let d = s.dispatcher in
      if d.closed
      then to d k (send_panics r) s
      else if ltb (length x.queue) d.max_records
      then to
          (record d {
            shards =
                set d.shards i
                  (record x { queue = x.queue ++ r ∷ []; accepted = x.accepted ++ r ∷ [] });
          })
          k (over true) s
      else to d k (undoing r) s

  unfoldable pub send : Record → ℕ → System → System
  unfolding send_to shard
  send r k s =
      let i = shard r.trace_id (length s.dispatcher.shards) in
      send_to (get_elem? s.dispatcher.shards i) i r k s

  unfoldable pub advance_from : Option Emission → ℕ → System → System
  unfolding reserve_count reserve_bytes send give_back_bytes drop_record
  advance_from (some (counting r)) k s = reserve_count r k s
  advance_from (some (sizing r)) k s = reserve_bytes r k s
  advance_from (some (sending r)) k s = send r k s
  advance_from (some (undoing r)) k s = give_back_bytes r k s
  advance_from (some (dropping r)) k s = drop_record r k s
  advance_from (some (over a)) k s = s
  advance_from (some (send_panics r)) k s = s
  advance_from none k s = s

  -- The next step of a call of enqueue.
  unfoldable pub advance : ℕ → System → System
  unfolding advance_from
  advance k s = advance_from (get_elem? s.emissions k) k s

abbrev pub at_shard : ℕ → Shard → System → System
at_shard i x s = record s {
  dispatcher = record s.dispatcher { shards = set s.dispatcher.shards i x };
}

unfoldable pub take_record : List Record → ℕ → Shard → System → System
take_record [] i x s = s
take_record (r ∷ rs) i x s = at_shard i (record x { queue = rs; worker = writing r }) s

-- The next step of a worker's loop; `e` says whether the sink's Write fails.
unfoldable pub work_on : (e : Bool) → Worker → ℕ → Shard → System → System
unfolding take_record
work_on e idle i x s = take_record x.queue i x s
work_on e (writing r) i x s =
    at_shard i (record x { worker = returning r e; written = x.written ++ r ∷ [] }) s
work_on e (returning r f) i x s =
    let d = s.dispatcher in
    at_shard i (record x { worker = uncounting r f })
      (record s { dispatcher = record d { queued_bytes = sub64 d.queued_bytes r.size } })
work_on e (uncounting r f) i x s =
    let d = s.dispatcher in
    at_shard i (record x { worker = idle })
      (record s {
        dispatcher = record d {
          queued_count = sub64 d.queued_count 1;
          failed = f;
          sink_failures = if f then d.sink_failures + 1 else d.sink_failures;
        };
      })

unfoldable pub work_at : (e : Bool) → Option Shard → ℕ → System → System
unfolding work_on
work_at e none i s = s
work_at e (some x) i s = work_on e x.worker i x s

unfoldable pub work : (e : Bool) → ℕ → System → System
unfolding work_at
work e i s = work_at e (get_elem? s.dispatcher.shards i) i s

-- Close, up to its wait for the workers.
unfoldable pub close : System → System
close s = record s { dispatcher = record s.dispatcher { closed = true } }

-- sinkHealth is degraded by a failure of the last write or by a record that was dropped.
unfoldable pub is_degraded : Dispatcher → Bool
is_degraded d = d.failed || ltb 0 d.dropped
