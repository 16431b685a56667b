-- ===== src/Program.antt =====
-- internal/core/program: the modules that a directive names, their handlers and policies
-- (binder.go, with the policy types of internal/core/module/types.go).
pub mod Registry
pub mod Lane
pub mod Scope
pub mod Dispatch
pub mod Sets
pub mod Opening
pub mod DirectiveOrder
pub mod Lanes
pub mod Calls
mod Tests
use directive_proxy.Prelude.{
  ℕ, ◌+◌, Bool, true, false, ◌&&◌, not, Option, none, some, List, [], ◌∷◌, ◌++◌, map, ltb, ◌==◌,
  if◌then◌else◌, slt, sle, Int64, length, ◌≡◌,
}

-- The strings of a policy: one that is not set, one of the constants, or any other.
pub data Executor : Type 0 where
  no_executor executor_caller executor_ordered_lane other_executor : Executor

pub data Barrier : Type 0 where
  no_barrier barrier_before_commit barrier_scope_end barrier_none other_barrier : Barrier

pub data Overflow : Type 0 where
  no_overflow overflow_block overflow_drop overflow_fail_request other_overflow : Overflow

pub record Policy : Type 0 where
  pub executor : Executor
  pub barrier : Barrier
  pub overflow : Overflow
  pub capacity : Int64

-- Where a handler or a mutator can be bound: one for each field of the binder, in its order.
pub data Hook : Type 0 where
  request_started request_body_chunk request_body_ended round_trip_started : Hook
  directive_prepared upstream_started upstream_response upstream_body_chunk : Hook
  upstream_body_ended round_trip_finished recovery_started recovery_decided : Hook
  recovery_finished downstream_response downstream_body_chunk downstream_sse_data : Hook
  downstream_sse_comment downstream_body_ended request_finished outbound_request : Hook
  outbound_body_chunk upstream_draft upstream_body_draft : Hook

unfoldable pub position : Hook → ℕ
position request_started = 0
position request_body_chunk = 1
position request_body_ended = 2
position round_trip_started = 3
position directive_prepared = 4
position upstream_started = 5
position upstream_response = 6
position upstream_body_chunk = 7
position upstream_body_ended = 8
position round_trip_finished = 9
position recovery_started = 10
position recovery_decided = 11
position recovery_finished = 12
position downstream_response = 13
position downstream_body_chunk = 14
position downstream_sse_data = 15
position downstream_sse_comment = 16
position downstream_body_ended = 17
position request_finished = 18
position outbound_request = 19
position outbound_body_chunk = 20
position upstream_draft = 21
position upstream_body_draft = 22

-- The hooks whose functions change what goes through, and do not only observe it.
unfoldable pub is_mutation : Hook → Bool
is_mutation outbound_request = true
is_mutation outbound_body_chunk = true
is_mutation upstream_draft = true
is_mutation upstream_body_draft = true
is_mutation _ = false

abbrev pub all_hooks : List Hook
all_hooks =
    request_started ∷ request_body_chunk ∷ request_body_ended ∷ round_trip_started
    ∷ directive_prepared ∷ upstream_started ∷ upstream_response ∷ upstream_body_chunk
    ∷ upstream_body_ended ∷ round_trip_finished ∷ recovery_started ∷ recovery_decided
    ∷ recovery_finished ∷ downstream_response ∷ downstream_body_chunk ∷ downstream_sse_data
    ∷ downstream_sse_comment ∷ downstream_body_ended ∷ request_finished ∷ outbound_request
    ∷ outbound_body_chunk ∷ upstream_draft ∷ upstream_body_draft ∷ []

-- An error: of a handler, of its panic, of the lane and of the context. Joined errors are a list.
pub data Error : Type 0 where
  handler_error panicked_error finish_error finish_panicked : ℕ → Error
  lane_full context_done closed_lane : Error

-- A function of a module is its number.
pub record Subscription : Type 0 where
  pub policy : Policy
  pub handle : ℕ

abbrev pub Binder : Type 0
Binder = Hook → List Subscription

unfoldable pub normalize_executor : Executor → Executor
normalize_executor no_executor = executor_caller
normalize_executor e = e

unfoldable pub default_barrier : Executor → Barrier
default_barrier executor_caller = barrier_before_commit
default_barrier _ = barrier_scope_end

unfoldable pub normalize_barrier : Executor → Barrier → Barrier
unfolding default_barrier
normalize_barrier e no_barrier = default_barrier e
normalize_barrier e b = b

unfoldable pub normalize_overflow : Overflow → Overflow
normalize_overflow no_overflow = overflow_block
normalize_overflow o = o

unfoldable pub normalize_policy : Policy → Policy
unfolding normalize_executor normalize_barrier normalize_overflow
normalize_policy p = record {
  executor = normalize_executor p.executor;
  barrier = normalize_barrier (normalize_executor p.executor) p.barrier;
  overflow = normalize_overflow p.overflow;
  capacity = if sle p.capacity 0 then 128 else p.capacity;
}

unfoldable pub bound_policy : Hook → Policy → Policy
unfolding normalize_policy is_mutation
bound_policy k p =
    if is_mutation k
    then record (normalize_policy p) { barrier = barrier_before_commit }
    else normalize_policy p

-- A method of the binder: the other fields stay as they are.
unfoldable pub bind : Binder → Hook → Policy → Option ℕ → Binder
unfolding bound_policy position
bind b k p none j = b j
bind b k p (some h) j =
    if position j == position k
    then b j ++ record { policy = bound_policy k p; handle = h } ∷ []
    else b j

unfoldable pub policies : Binder → List Hook → List Policy
policies b [] = []
policies b (k ∷ ks) = map (λ s. s.policy) (b k) ++ policies b ks

unfoldable pub all_policies : Binder → List Policy
unfolding policies
all_policies b = policies b all_hooks

unfoldable pub on_lane : Executor → Bool
on_lane executor_ordered_lane = true
on_lane _ = false

unfoldable pub accept : Int64 → Policy → Int64
unfolding on_lane
accept capacity p = if on_lane p.executor && slt capacity p.capacity then p.capacity else capacity

unfoldable pub accept_all : Int64 → List Policy → Int64
unfolding accept
accept_all capacity [] = capacity
accept_all capacity (p ∷ ps) = accept_all (accept capacity p) ps

unfoldable pub lane_capacity : Binder → Int64
unfolding accept_all all_policies
lane_capacity b = accept_all 0 (all_policies b)

unfoldable pub needs_lane : Binder → Bool
unfolding lane_capacity
needs_lane b = slt 0 (lane_capacity b)
