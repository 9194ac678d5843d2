-- ===== src/Scheduler.antt =====
-- packages/agent/src/runtimeWorkScheduler.ts: `RuntimeWorkScheduler`. The event loop is a list of
-- events: a call of `enqueue` or `drainKey`, or the settling of the work that a lane awaits.
pub mod Lane
pub mod Calls
pub mod LatestWork
pub mod Draining
pub mod Rest
mod Tests
use tirion_watch.Prelude.{
  ℕ, ◌+◌, String, Bool, true, false, not, ◌&&◌, Option, none, some, List, [], ◌∷◌, ◌++◌, map,
  if◌then◌else◌, get_or, every, keys, values, map_get, map_set, map_delete, text_comparable, eqb,
  zero, suc,
}
use tirion_watch.Scheduler.Lane.{
  RuntimeWorkState, Effect, resolve, fresh, enqueue_lane, settle, drain_lane,
}

pub record Scheduler (W : Type 0) : Type 0 where
  pub states : List (String × RuntimeWorkState W)
  pub generation : ℕ

pub data Event (W : Type 0) : Type 0 where
  enqueued : String → W → Event W
  settled : String → Event W
  drained : String → ℕ → Event W

abbrev pub Log : Type 0 → Type 0
Log W = List (String × Effect W)

module _ {W : Type 0} where
  abbrev pub new_scheduler : Scheduler W
  new_scheduler = record { states = []; generation = 0 }

  -- Effects with the key of the lane that has them.
  abbrev at_key : String → List (Effect W) → Log W
  at_key key effects = map (λ e. (key, e)) effects

  abbrev put :
      String
      → Option (RuntimeWorkState W)
      → List (String × RuntimeWorkState W)
      → List (String × RuntimeWorkState W)
  put key none states = map_delete key states
  put key (some s) states = map_set key s states

  unfoldable pub enqueue : String → W → Scheduler W → Scheduler W × Log W
  enqueue key work scheduler =
      let (state, effects) = enqueue_lane work (get_or (map_get key scheduler.states) fresh) in
      (
        record { states = put key state scheduler.states; generation = scheduler.generation + 1 },
        at_key key effects,
      )

  -- Nothing can settle on a lane that awaits nothing.
  unfoldable pub settle_found :
      String → Scheduler W → Option (RuntimeWorkState W) → Scheduler W × Log W
  settle_found key scheduler none = (scheduler, [])
  settle_found key scheduler (some s) =
      let (state, effects) = settle s in
      if not s.running
      then (scheduler, [])
      else (record scheduler { states = put key state scheduler.states }, at_key key effects)

  unfoldable pub settle_key : String → Scheduler W → Scheduler W × Log W
  unfolding settle_found
  settle_key key scheduler = settle_found key scheduler (map_get key scheduler.states)

  unfoldable pub drain_found :
      String → ℕ → Scheduler W → Option (RuntimeWorkState W) → Scheduler W × Log W
  drain_found key r scheduler none = (scheduler, (key, resolve r) ∷ [])
  drain_found key r scheduler (some s) =
      let (state, effects) = drain_lane r s in
      (record scheduler { states = map_set key state scheduler.states }, at_key key effects)

  unfoldable pub drain_key : String → ℕ → Scheduler W → Scheduler W × Log W
  unfolding drain_found
  drain_key key r scheduler = drain_found key r scheduler (map_get key scheduler.states)

  unfoldable pub is_idle : Scheduler W → Bool
  is_idle scheduler = every (λ s. not s.running) (values scheduler.states)

  unfoldable pub step : Event W → Scheduler W → Scheduler W × Log W
  step (enqueued key work) scheduler = enqueue key work scheduler
  step (settled key) scheduler = settle_key key scheduler
  step (drained key r) scheduler = drain_key key r scheduler

  unfoldable pub run_events : List (Event W) → Scheduler W → Scheduler W × Log W
  run_events [] scheduler = (scheduler, [])
  run_events (e ∷ es) scheduler =
      let (next, effects) = step e scheduler in
      let (last, later) = run_events es next in (last, effects ++ later)

  abbrev work_generation : Scheduler W → ℕ
  work_generation scheduler = scheduler.generation

  -- `drainKey` for each key of a list of keys; `name` numbers the promise of a key.
  unfoldable pub drain_each : (String → ℕ) → List String → Scheduler W → Scheduler W × Log W
  drain_each name [] scheduler = (scheduler, [])
  drain_each name (key ∷ rest) scheduler =
      let (next, effects) = drain_key key (name key) scheduler in
      let (last, later) = drain_each name rest next in (last, effects ++ later)

  -- `drain` up to its await: the keys are those that are there when it is called.
  unfoldable pub drain : (String → ℕ) → Scheduler W → Scheduler W × Log W
  unfolding drain_each
  drain name scheduler = drain_each name (keys scheduler.states) scheduler

  -- `drainToFixedPoint`: with `rounds` rounds left, `awaited rounds` is what the event loop does
  -- while the drain of this round awaits, and `names rounds` numbers its promises.
  unfoldable pub drain_to_fixed_point :
      ℕ → (ℕ → String → ℕ) → (ℕ → List (Event W)) → Scheduler W → Scheduler W × Bool
  drain_to_fixed_point zero names awaited scheduler = (scheduler, false)
  drain_to_fixed_point (suc rounds) names awaited scheduler =
      let after = (run_events (awaited rounds) (drain (names rounds) scheduler).0).0 in
      let rest = drain_to_fixed_point rounds names awaited after in
      if eqb (work_generation scheduler) (work_generation after) && is_idle after
      then (after, true)
      else rest
