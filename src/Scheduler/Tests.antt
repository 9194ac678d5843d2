-- ===== src/Scheduler/Tests.antt =====
-- Three works given to one lane, the second of which a later one replaces.
use tirion_watch.Prelude.{
  ℕ, String, true, false, none, some, List, [], ◌∷◌, ◌≡◌, refl, map_get, map_set, map_delete,
}
use tirion_watch.Scheduler.Lane.{
  RuntimeWorkState, invoke, resolve, settle, enqueue_lane, drain_lane,
}
use tirion_watch.Scheduler.{
  Event, enqueued, settled, drained, new_scheduler, step, run_events, enqueue, settle_key,
  drain_key, drain, is_idle, drain_to_fixed_point,
}
use tirion_watch.Scheduler.Calls.{last_call_at, last_given}
use tirion_watch.Scheduler.LatestWork.{is_running, latest_work_runs}
use tirion_watch.Scheduler.Rest.{settles_to_rest}

program : Unit {0}
unfolding run_events step enqueue settle_key drain_key drain enqueue_lane settle drain_lane map_get
    map_set map_delete is_idle drain_to_fixed_point
program = tt

abbrev given : List (Event ℕ)
given =
    enqueued "scan" 1
    ∷ enqueued "scan" 2
    ∷ drained "scan" 7
    ∷ enqueued "scan" 3
    ∷ settled "scan"
    ∷ settled "scan"
    ∷ []

log :
    (run_events given new_scheduler).1
    ≡ ("scan", invoke 1) ∷ ("scan", invoke 3) ∷ ("scan", resolve 7) ∷ []
unfolding program
log = refl

latest_work_runs_example :
    last_call_at "scan" (run_events given new_scheduler).1 none ≡ last_given "scan" given none
unfolding program
latest_work_runs_example = latest_work_runs "scan" given refl

settles_to_rest_example :
    is_running "scan"
      (run_events (settled "scan" ∷ settled "scan" ∷ []) (run_events given new_scheduler).0).0
    ≡ false
settles_to_rest_example = settles_to_rest "scan" given

abbrev waited : RuntimeWorkState ℕ
waited = record { running = true; requested = false; work = some 4; idle_resolvers = 1 ∷ 2 ∷ [] }

abbrev awaited : ℕ → List (Event ℕ)
awaited round = settled "scan" ∷ []

abbrev names : ℕ → String → ℕ
names round key = round

-- A drain of a running lane waits, and is woken when the lane comes to rest.
drain_waits :
    (run_events {W = ℕ}
      (settled "scan" ∷ [])
      (drain (names 5) (run_events {W = ℕ} (enqueued "scan" 1 ∷ []) new_scheduler).0).0).1
    ≡ ("scan", resolve 5) ∷ []
unfolding program
drain_waits = refl
