-- ===== src/Scheduler/Lane.antt =====
-- packages/agent/src/runtimeWorkScheduler.ts: one lane, the state under one key. Between two awaits
-- the code runs without interruption, so each function is what happens from one await to the next.
use tirion_watch.Prelude.{
  ℕ, Bool, true, false, not, Option, none, some, List, [], ◌∷◌, ◌++◌, map, if◌then◌else◌,
}

pub record RuntimeWorkState (W : Type 0) : Type 0 where
  pub running : Bool
  pub requested : Bool
  pub work : Option W
  pub idle_resolvers : List ℕ

-- What a lane does to the outside: it calls a work function, or resolves a waiting `drainKey`.
pub data Effect (W : Type 0) : Type 0 where
  invoke : W → Effect W
  resolve : ℕ → Effect W

module _ {W : Type 0} where
  abbrev pub fresh : RuntimeWorkState W
  fresh = record { running = false; requested = false; work = none; idle_resolvers = [] }

  -- The `finally` with no request: `none` is a lane that is deleted.
  unfoldable pub go_idle : RuntimeWorkState W → Option (RuntimeWorkState W) × List (Effect W)
  go_idle s =
      let idle = record s { running = false; idle_resolvers = [] } in
      (elim s.work [ none ↦ none | some w ↦ some idle ], map resolve s.idle_resolvers)

  -- `run`, from its beginning or a further round of its loop, up to the await of the work.
  unfoldable pub run : RuntimeWorkState W → Option (RuntimeWorkState W) × List (Effect W)
  unfolding go_idle
  run s =
      let round = record s { requested = false } in
      elim s.work [ none ↦ go_idle round | some w ↦ (some round, invoke w ∷ []) ]

  -- The awaited work has settled. A rejection is caught, and both outcomes end in the same test.
  unfoldable pub settle : RuntimeWorkState W → Option (RuntimeWorkState W) × List (Effect W)
  unfolding run go_idle
  settle s = if s.requested then run s else go_idle s

  unfoldable pub enqueue_lane :
      W → RuntimeWorkState W → Option (RuntimeWorkState W) × List (Effect W)
  unfolding run
  enqueue_lane w s =
      let given = record s { work = some w } in
      if s.running
      then (some (record given { requested = true }), [])
      else run (record given { running = true })

  -- `drainKey` on a lane that is there; the number names the promise.
  unfoldable pub drain_lane : ℕ → RuntimeWorkState W → RuntimeWorkState W × List (Effect W)
  drain_lane r s =
      if not s.running
      then (s, resolve r ∷ [])
      else (record s { idle_resolvers = s.idle_resolvers ++ r ∷ [] }, [])
