-- ===== src/Scheduler/LatestWork.antt =====
-- No work is lost: what a lane has called last, once it stands still, is what it was given last.
use tirion_watch.Prelude.{
  ℕ, String, Bool, true, false, not, Option, none, some, List, [], ◌∷◌, ◌≡◌, refl, ◌⊎◌, arith,
  if◌then◌else◌, get_or, is_some, map_get, map_set, map_get-map_set, map_get-map_delete, subst, sym,
  ◌===◌, text_comparable, eq_iff, inl, inr, Bool-cases, if_ind,
}
use tirion_watch.Scheduler.Lane.{RuntimeWorkState, fresh, enqueue_lane, settle, drain_lane}
use tirion_watch.Scheduler.{
  Scheduler, Event, enqueued, settled, drained, new_scheduler, enqueue, settle_found, settle_key,
  drain_found, drain_key, step, run_events, put, at_key,
}
use tirion_watch.Scheduler.Calls.{
  last_call_at, last_given, LaneInv, Holds, enqueue_lane-Holds, settle-Holds, drain_lane-LaneInv,
  enqueue_lane-some, settle-some, last_call_at-at_key, last_call_at-append,
}

module _ {W : Type 0} where
  abbrev pub KeyInv : String → Option W → Option W → Scheduler W → Type 0
  KeyInv key given called s = Holds given called (map_get key s.states)

  -- A write under another key, or of a state that is there under this key.
  pub map_get-put :
      (key k : String) (o : Option (RuntimeWorkState W)) (m : List (String × RuntimeWorkState W))
      → is_some o ≡ true ⊎ ((k === key) ≡ false)
      → map_get key (put k o m) ≡ (if k === key then o else map_get key m)
  map_get-put key k none m h = ground (arith, map_get-map_delete k key m)
  map_get-put key k (some s) m h = ground (arith, map_get-map_set k key s m)

  enqueue-KeyInv :
      (key k : String) (w : W) (given called : Option W) (s : Scheduler W)
      → KeyInv key given called s
      → KeyInv key
          (if k === key then some w else given)
          (last_call_at key (enqueue k w s).1 called)
          (enqueue k w s).0
  unfolding enqueue
  enqueue-KeyInv key k w given called s h =
      let lane = enqueue_lane w (get_or (map_get k s.states) fresh) in
      rw
        (
          last_call_at-at_key key k lane.1 called,
          map_get-put key k lane.0 s.states (inl (enqueue_lane-some w _)),
        )
        (elim (Bool-cases (k === key)) [
          | inl e ↦ rw e (
              enqueue_lane-Holds w given called (map_get k s.states)
                (subst (λ j. Holds given called (map_get j s.states)) (sym ((eq_iff k key).0 e)) h))
          | inr e ↦ rw e h
        ])

  settled-KeyInv :
      (key k : String) (given called : Option W) (s : Scheduler W) (st : RuntimeWorkState W)
      → KeyInv key given called s
      → map_get k s.states ≡ some st
      → KeyInv key given
          (last_call_at key (at_key k (settle st).1) called)
          (record s { states = put k (settle st).0 s.states })
  settled-KeyInv key k given called s st h found = elim (Bool-cases (k === key)) [
    | inl e ↦
        let lane : LaneInv given called st =
          subst (Holds given called) found
            (subst (λ j. Holds given called (map_get j s.states)) (sym ((eq_iff k key).0 e)) h) in
        rw
          (
            last_call_at-at_key key k (settle st).1 called,
            map_get-put key k (settle st).0 s.states (inl (settle-some st lane.has_work)),
            e,
          )
          (settle-Holds given called st lane)
    | inr e ↦
        rw
          (
            last_call_at-at_key key k (settle st).1 called,
            map_get-put key k (settle st).0 s.states (inr e),
            e,
          )
          h
  ]

  drained-KeyInv :
      (key k : String) (r : ℕ) (given called : Option W) (s : Scheduler W) (st : RuntimeWorkState W)
      → KeyInv key given called s
      → map_get k s.states ≡ some st
      → KeyInv key given
          (last_call_at key (at_key k (drain_lane r st).1) called)
          (record s { states = map_set k (drain_lane r st).0 s.states })
  drained-KeyInv key k r given called s st h found = elim (Bool-cases (k === key)) [
    | inl e ↦
        let lane : LaneInv given called st =
          subst (Holds given called) found
            (subst (λ j. Holds given called (map_get j s.states)) (sym ((eq_iff k key).0 e)) h) in
        rw
          (
            last_call_at-at_key key k (drain_lane r st).1 called,
            map_get-map_set k key (drain_lane r st).0 s.states,
            e,
          )
          (drain_lane-LaneInv r given called st lane)
    | inr e ↦
        rw
          (
            last_call_at-at_key key k (drain_lane r st).1 called,
            map_get-map_set k key (drain_lane r st).0 s.states,
            e,
          )
          h
  ]

  settle_found-KeyInv :
      (key k : String) (given called : Option W) (s : Scheduler W) (o : Option (RuntimeWorkState W))
      → KeyInv key given called s
      → map_get k s.states ≡ o
      → let (t, log) = settle_found k s o in KeyInv key given (last_call_at key log called) t
  unfolding settle_found
  settle_found-KeyInv key k given called s none h found = h
  settle_found-KeyInv key k given called s (some st) h found =
      if_ind (λ (t, log). KeyInv key given (last_call_at key log called) t) (not st.running)
        (λ _. h) (λ _. settled-KeyInv key k given called s st h found)

  drain_found-KeyInv :
      (key k : String) (r : ℕ) (given called : Option W) (s : Scheduler W)
      (o : Option (RuntimeWorkState W))
      → KeyInv key given called s
      → map_get k s.states ≡ o
      → let (t, log) = drain_found k r s o in KeyInv key given (last_call_at key log called) t
  unfolding drain_found
  drain_found-KeyInv key k r given called s none h found = h
  drain_found-KeyInv key k r given called s (some st) h found =
      drained-KeyInv key k r given called s st h found

  pub step-KeyInv :
      (key : String) (e : Event W) (given called : Option W) (s : Scheduler W)
      → KeyInv key given called s
      → KeyInv key
          (last_given key (e ∷ []) given)
          (last_call_at key (step e s).1 called)
          (step e s).0
  unfolding step settle_key drain_key
  step-KeyInv key (enqueued k w) given called s h = enqueue-KeyInv key k w given called s h
  step-KeyInv key (settled k) given called s h =
      settle_found-KeyInv key k given called s (map_get k s.states) h refl
  step-KeyInv key (drained k r) given called s h =
      drain_found-KeyInv key k r given called s (map_get k s.states) h refl

  last_given-cons :
      (key : String) (e : Event W) (es : List (Event W)) (before : Option W)
      → last_given key (e ∷ es) before ≡ last_given key es (last_given key (e ∷ []) before)
  last_given-cons key (enqueued k w) es before = refl
  last_given-cons key (settled k) es before = refl
  last_given-cons key (drained k r) es before = refl

  pub run_events-KeyInv :
      (key : String) (es : List (Event W)) (given called : Option W) (s : Scheduler W)
      → KeyInv key given called s
      → let (t, log) = run_events es s in
        KeyInv key (last_given key es given) (last_call_at key log called) t
  unfolding run_events
  run_events-KeyInv key [] given called s h = h
  run_events-KeyInv key (e ∷ es) given called s h =
      let (next, log) = step e s in
      rw (last_given-cons key e es given, last_call_at-append key log (run_events es next).1 called)
        (run_events-KeyInv key es _ _ next (step-KeyInv key e given called s h))

  -- Whether the lane of a key awaits a work.
  abbrev pub lane_running : Option (RuntimeWorkState W) → Bool
  lane_running none = false
  lane_running (some s) = s.running

  abbrev pub is_running : String → Scheduler W → Bool
  is_running key s = lane_running (map_get key s.states)

  Holds-caught_up :
      (given called : Option W) (o : Option (RuntimeWorkState W))
      → Holds given called o
      → lane_running o ≡ false
      → called ≡ given
  Holds-caught_up given called none h idle = ground arith
  Holds-caught_up given called (some st) h idle = h.caught_up (h.still idle).0

-- Whatever happens to a new scheduler, a lane that is not running has called last the work that it
-- was given last: of the works given while one runs the latest is kept and none is left behind.
pub latest_work_runs :
    {W : Type 0} (key : String) (es : List (Event W))
    → is_running key (run_events es new_scheduler).0 ≡ false
    → last_call_at key (run_events es new_scheduler).1 none ≡ last_given key es none
unfolding map_get
latest_work_runs {W} key es idle =
    let (s, log) = run_events es (new_scheduler {W = W}) in
    Holds-caught_up _ _ (map_get key s.states)
      (run_events-KeyInv key es none none new_scheduler (refl, refl)) idle
