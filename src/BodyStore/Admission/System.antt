-- ===== src/BodyStore/Admission/System.antt =====
-- internal/core/bodystore/controller.go as the requests of a server use it: a controller, the
-- reservations that are held, and one event at a time.
pub mod Invariant
use directive_proxy.Prelude.{ℕ, zero, suc, ◌+◌, Option, none, some, List, [], ◌∷◌, Int64}
use directive_proxy.BodyStore.Admission.{
  ContextError, Config, Waiter, Reservation, Controller, Admission, refused, admitted, queued,
  new_controller, close_reservation, admit_body, admit_ready, admit_done,
}

pub record System : Type 0 where
  pub controller : Controller
  pub held : List Reservation

-- What the goroutines may do next; which of them runs, and what the clock and the contexts say, is
-- the environment's choice.
pub data Event : Type 0 where
  arrive : (id : ℕ) (expected max_body chunk : Int64) → Event
  wake : Waiter → (waited : Int64) → (wait_err parent_err : Option ContextError) → Event
  give_up : Waiter → (waited : Int64) → ContextError → Option ContextError → Event
  close : ℕ → Event

abbrev pub hold : List Reservation → Controller × Admission → System
hold held (c, admitted r) = record { controller = c; held = r ∷ held }
hold held (c, refused e) = record { controller = c; held = held }
hold held (c, queued w) = record { controller = c; held = held }

-- Closes the reservation at a position of the list; it stays there, closed.
unfoldable pub close_held : Controller → ℕ → List Reservation → Controller × List Reservation
close_held c n [] = (c, [])
close_held c zero (r ∷ rs) = let (c', r') = close_reservation c r in (c', r' ∷ rs)
close_held c (suc n) (r ∷ rs) = let (c', rs') = close_held c n rs in (c', r ∷ rs')

unfoldable pub step : System → Event → System
unfolding close_held
step s (arrive id expected max_body chunk) =
    hold s.held (admit_body s.controller id expected max_body chunk)
step s (wake w waited wait_err parent_err) =
    hold s.held (admit_ready s.controller w waited wait_err parent_err)
step s (give_up w waited wait_err parent_err) =
    hold s.held (admit_done s.controller w waited wait_err parent_err)
step s (close n) =
    let (c, held) = close_held s.controller n s.held in record { controller = c; held = held }

unfoldable pub run : System → List Event → System
run s [] = s
run s (e ∷ es) = run (step s e) es

unfoldable pub start : Config → System
start config = record { controller = new_controller config; held = [] }
