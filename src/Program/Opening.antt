-- ===== src/Program/Opening.antt =====
-- internal/core/program/scope.go, openScope: the modules of one lifetime are opened one after the
-- other, and all are finished when one of them fails.
pub mod AllOrNothing
pub mod Keys
use directive_proxy.Prelude.{
  ℕ, ◌+◌, Bool, true, false, Option, none, some, List, [], ◌∷◌, ◌++◌, if◌then◌else◌, Int64,
}
use directive_proxy.Exchange.{finish_failed as finish_failed_cause}
use directive_proxy.Program.{Binder, needs_lane, lane_capacity, Error}
use directive_proxy.Program.Registry.{Compiled}
use directive_proxy.Program.Lane.{Lane, new_ordered_lane}
use directive_proxy.Program.Scope.{Task, Mounted, Scope, World, Code, Outcome, Event, put, settle}
use directive_proxy.Program.Sets.{
  Bindings, Opened, open_error, no_instance, opened, bind_all, no_binder, set_scope, finish_scope,
}

pub data OpenResult : Type 0 where
  no_scope open_failed nil_instance bind_failed : OpenResult
  scope_opened : ℕ → OpenResult

unfoldable pub lane_of : Binder → Option (Lane Task)
unfolding needs_lane new_ordered_lane
lane_of b = if needs_lane b then some (new_ordered_lane (lane_capacity b)) else none

unfoldable pub new_mounted : Compiled → Bindings → Mounted
unfolding bind_all
new_mounted item b = record {
  order = item.order;
  module_name = item.module_name;
  binder = bind_all no_binder b.calls;
  lane = none;
  failed = false;
}

-- The instance is appended to the scope before Bind is called.
unfoldable pub mount : World → ℕ → ℕ → Compiled → Bindings → World
unfolding new_mounted set_scope
mount w s i item b =
    let x = w.scope_at s in
    put i (new_mounted item b) (set_scope s (record x { mounted = x.mounted ++ i ∷ [] }) w)

unfoldable pub add_lane : World → ℕ → World
unfolding lane_of
add_lane w i = let m = w.instance_at i in put i (record m { lane = lane_of m.binder }) w

module _ (code : Code) (open_module : List Event → ℕ → Opened) (left : ℕ → ℕ) where
  unfoldable pub give_up : World → ℕ → OpenResult → World × OpenResult
  unfolding finish_scope
  give_up w s r = ((finish_scope code w left finish_failed_cause s).0, r)

  -- After Bind: an error ends the loop, else the lane is made and the rest goes on.
  unfoldable pub after_bind :
      World × List Error → ℕ → ℕ → (World → World × OpenResult) → World × OpenResult
  unfolding add_lane give_up
  after_bind (w, []) s i go = go (add_lane w i)
  after_bind (w, e ∷ es) s i go = give_up w s bind_failed

  unfoldable pub after_open :
      Opened → World → ℕ → ℕ → Compiled → (World → World × OpenResult) → World × OpenResult
  unfolding give_up mount settle after_bind
  after_open open_error w s i item go = give_up w s open_failed
  after_open no_instance w s i item go = give_up w s nil_instance
  after_open (opened b) w s i item go = after_bind (settle (mount w s i item b) i b.outcome) s i go

  -- The loop; the instances get the numbers from `i` on.
  unfoldable pub open_items : ℕ → ℕ → List Compiled → World → World × OpenResult
  unfolding after_open
  open_items s i [] w = (w, scope_opened s)
  open_items s i (item ∷ items) w =
      after_open (open_module w.log item.code) w s i item (open_items s (i + 1) items)

  abbrev pub new_scope : Int64 → Scope
  new_scope n = record { mounted = []; closed = false; round_trip = n }

  unfoldable pub open_scope : ℕ → ℕ → Int64 → List Compiled → World → World × OpenResult
  unfolding open_items set_scope
  open_scope s i n [] w = (w, no_scope)
  open_scope s i n (item ∷ items) w = open_items s i (item ∷ items) (set_scope s (new_scope n) w)
