-- ===== src/Events/Tests.antt =====
-- internal/core/event/dispatcher.go: a dispatcher with one worker.
use directive_proxy.Prelude.{ℕ, ◌≡◌, refl, true, false, List, [], ◌∷◌, Text, All, arith}
use directive_proxy.Events.{Record, Shard, send_panics, new_dispatcher}
use directive_proxy.Events.Accounts.{Counts}
use directive_proxy.Events.Runs.{
  Step, enqueues, advances, works, closes, run, start, run-start-Counts, run-start_settled,
}

abbrev hash : Text → ℕ
hash t = 0

abbrev event : Record
event = record { trace_id = 7 ∷ []; size = 5 }

abbrev delivery : List Step
delivery =
    enqueues event
    ∷ advances 0
    ∷ advances 0
    ∷ advances 0
    ∷ works false 0
    ∷ works true 0
    ∷ works false 0
    ∷ works false 0
    ∷ []

run-start-Counts_example : Counts (run hash (start hash 1 2 100) delivery)
run-start-Counts_example =
    run-start-Counts hash 1 2 100 delivery (omega arith) (omega arith) (omega arith)

run-start_settled_example :
    let d = (run hash (start hash 1 2 100) delivery).dispatcher in
    (d.queued_bytes ≡ 0)
    × (d.queued_count ≡ 0)
    × All (λ (x : Shard). x.written ≡ x.accepted) d.shards
unfolding run new_dispatcher
run-start_settled_example =
    run-start_settled hash 1 2 100 delivery (omega arith) (omega arith) (omega arith) (tt, tt)
      ((refl, refl), tt)

-- A call that has passed the test of `closed` sends to a queue that Close has closed.
enqueue_races_close :
    (run hash
      (start hash 1 2 100)
      (enqueues event ∷ advances 0 ∷ advances 0 ∷ closes ∷ advances 0 ∷ [])).emissions
    ≡ send_panics event ∷ []
unfolding run new_dispatcher
enqueue_races_close = refl
