-- ===== src/Scheduler/Calls.antt =====
-- The last work that a log shows to be called, and what one step of one lane does to it.
use tirion_watch.Prelude.{
  ℕ, String, true, false, Option, none, some, List, [], ◌∷◌, ◌++◌, ◌≡◌, refl, arith, if◌then◌else◌,
  get_or, is_some, ◌===◌, text_comparable, map,
}
use tirion_watch.Scheduler.Lane.{
  RuntimeWorkState, Effect, invoke, resolve, fresh, enqueue_lane, settle, drain_lane,
}
use tirion_watch.Scheduler.{Event, enqueued, Log, at_key}

module _ {W : Type 0} where
  -- The work that the effects call last; `before` if they call none.
  abbrev pub last_call : List (Effect W) → Option W → Option W
  last_call [] before = before
  last_call (invoke w ∷ effects) before = last_call effects (some w)
  last_call (resolve r ∷ effects) before = last_call effects before

  -- The same for one key of a log.
  abbrev pub last_call_at : String → Log W → Option W → Option W
  last_call_at key [] before = before
  last_call_at key ((k, invoke w) ∷ log) before =
      last_call_at key log (if k === key then some w else before)
  last_call_at key ((k, resolve r) ∷ log) before = last_call_at key log before

  -- The work that the events give to a key last.
  abbrev pub last_given : String → List (Event W) → Option W → Option W
  last_given key [] before = before
  last_given key (enqueued k w ∷ es) before =
      last_given key es (if k === key then some w else before)
  last_given key (_ ∷ es) before = last_given key es before

  -- What holds of a lane that was given `given` last and has called `called` last.
  pub record LaneInv (given called : Option W) (s : RuntimeWorkState W) : Type 0 where
    pub has_work : is_some s.work ≡ true
    pub still : s.running ≡ false → (s.requested ≡ false) × (s.idle_resolvers ≡ [])
    pub latest : s.work ≡ given
    pub caught_up : s.requested ≡ false → called ≡ given

  abbrev pub Holds : Option W → Option W → Option (RuntimeWorkState W) → Type 0
  Holds given called none = (given ≡ none) × (called ≡ none)
  Holds given called (some s) = LaneInv given called s

  last_call-resolve : (rs : List ℕ) (before : Option W) → last_call (map resolve rs) before ≡ before
  last_call-resolve [] before = refl
  last_call-resolve (r ∷ rs) before = last_call-resolve rs before

  pub enqueue_lane-Holds :
      (w : W) (given called : Option W) (o : Option (RuntimeWorkState W))
      → Holds given called o
      → let (s, effects) = enqueue_lane w (get_or o fresh) in
        Holds (some w) (last_call effects called) s
  unfolding enqueue_lane
  enqueue_lane-Holds w given called none h = ground arith
  enqueue_lane-Holds w given called (some s) h = ground arith

  pub settle-Holds :
      (given called : Option W) (s : RuntimeWorkState W)
      → LaneInv given called s
      → let (t, effects) = settle s in Holds given (last_call effects called) t
  unfolding settle
  settle-Holds given called s h = ground (arith, last_call-resolve s.idle_resolvers called)

  pub drain_lane-LaneInv :
      (r : ℕ) (given called : Option W) (s : RuntimeWorkState W)
      → LaneInv given called s
      → let (t, effects) = drain_lane r s in LaneInv given (last_call effects called) t
  unfolding drain_lane
  drain_lane-LaneInv r given called s h = ground arith

  pub enqueue_lane-some : (w : W) (s : RuntimeWorkState W) → is_some (enqueue_lane w s).0 ≡ true
  unfolding enqueue_lane
  enqueue_lane-some w s = ground arith

  pub settle-some : (s : RuntimeWorkState W) → is_some s.work ≡ true → is_some (settle s).0 ≡ true
  unfolding settle
  settle-some s h = ground arith

  pub last_call_at-at_key :
      (key k : String) (effects : List (Effect W)) (before : Option W)
      → last_call_at key (at_key k effects) before
        ≡ (if k === key then last_call effects before else before)
  last_call_at-at_key key k [] before = ground arith
  last_call_at-at_key key k (invoke w ∷ effects) before =
      ground (arith, last_call_at-at_key key k effects (if k === key then some w else before))
  last_call_at-at_key key k (resolve r ∷ effects) before =
      ground (arith, last_call_at-at_key key k effects before)

  pub last_call_at-append :
      (key : String) (xs ys : Log W) (before : Option W)
      → last_call_at key (xs ++ ys) before ≡ last_call_at key ys (last_call_at key xs before)
  last_call_at-append key [] ys before = refl
  last_call_at-append key ((k, invoke w) ∷ xs) ys before =
      last_call_at-append key xs ys (if k === key then some w else before)
  last_call_at-append key ((k, resolve r) ∷ xs) ys before = last_call_at-append key xs ys before
