-- ===== src/Scheduler/Rest.antt =====
-- A lane comes to rest when its work settles and no more is given, and then wakes all who wait.
use tirion_watch.Prelude.{
  String, Bool, true, false, not, Option, none, some, List, [], ◌∷◌, ◌≡◌, refl, arith, map,
  if◌then◌else◌, map_get, text_comparable, eq_refl, inl, if_ind, subst,
}
use tirion_watch.Scheduler.Lane.{RuntimeWorkState, invoke, resolve, settle}
use tirion_watch.Scheduler.{
  Scheduler, Event, settled, new_scheduler, settle_found, settle_key, step, run_events, Log,
}
use tirion_watch.Scheduler.Calls.{Holds, settle-some}
use tirion_watch.Scheduler.LatestWork.{
  KeyInv, map_get-put, step-KeyInv, run_events-KeyInv, lane_running, is_running,
}

module _ {W : Type 0} where
  abbrev lane_requested : Option (RuntimeWorkState W) → Bool
  lane_requested none = false
  lane_requested (some s) = s.requested

  settle-requested : (s : RuntimeWorkState W) → lane_requested (settle s).0 ≡ false
  unfolding settle
  settle-requested s = ground arith

  settle-rests : (s : RuntimeWorkState W) → s.requested ≡ false → lane_running (settle s).0 ≡ false
  unfolding settle
  settle-rests s h = ground arith

  -- The lane of a key after its work has settled.
  settled_lane :
      (key : String) (given called : Option W) (s : Scheduler W) (o : Option (RuntimeWorkState W))
      → Holds given called o
      → map_get key s.states ≡ o
      → (P : Option (RuntimeWorkState W) → Type 0) → (lane_running o ≡ false → P o)
      → ((st : RuntimeWorkState W) → o ≡ some st → P (settle st).0)
      → P (map_get key (settle_found key s o).0.states)
  unfolding settle_found
  settled_lane key given called s none h found P idle busy = rw found (idle refl)
  settled_lane key given called s (some st) h found P idle busy =
      if_ind {A = Scheduler W × Log W} (λ t. P (map_get key t.0.states)) (not st.running)
        (λ e. rw found (idle (ground arith)))
        (λ e.
          rw
            (
              map_get-put key key (settle st).0 s.states (inl (settle-some st h.has_work)),
              eq_refl key,
            )
            (busy st refl))

  settled_once :
      (key : String) (given called : Option W) (s : Scheduler W)
      → KeyInv key given called s
      → lane_requested (map_get key (step (settled key) s).0.states) ≡ false
  unfolding step settle_key
  settled_once key given called s h =
      settled_lane key given called s (map_get key s.states) h refl (λ o. lane_requested o ≡ false)
        (idle_requested (map_get key s.states) h) (λ st e. settle-requested st)
    where
      idle_requested :
          (o : Option (RuntimeWorkState W))
          → Holds given called o
          → lane_running o ≡ false
          → lane_requested o ≡ false
      idle_requested none k e = refl
      idle_requested (some st) k e = (k.still e).0

  settled_twice :
      (key : String) (given called : Option W) (s : Scheduler W)
      → KeyInv key given called s
      → lane_requested (map_get key s.states) ≡ false
      → is_running key (step (settled key) s).0 ≡ false
  unfolding step settle_key
  settled_twice key given called s h quiet =
      settled_lane key given called s (map_get key s.states) h refl (λ o. lane_running o ≡ false)
        (λ e. e) (λ st e. settle-rests st (subst (λ o. lane_requested o ≡ false) e quiet))

-- After any events on a new scheduler, the lane of a key is at rest once the work that it awaits
-- has settled twice with no event between.
pub settles_to_rest :
    {W : Type 0} (key : String) (es : List (Event W))
    → is_running key
        (run_events (settled key ∷ settled key ∷ []) (run_events es (new_scheduler {W = W})).0).0
      ≡ false
unfolding run_events map_get
settles_to_rest {W} key es =
    let before = (run_events es (new_scheduler {W = W})).0 in
    let inv = run_events-KeyInv key es none none (new_scheduler {W = W}) (refl, refl) in
    settled_twice key _ _ (step (settled key) before).0
      (step-KeyInv key (settled key) _ _ before inv) (settled_once key _ _ before inv)

-- When the work of a lane settles, the effects are either one call of the work that the lane holds,
-- and it keeps running and keeps its waiters, or the resolution of all waiters in their order, and
-- it rests with none.
pub settle_effects :
    {W : Type 0} (s : RuntimeWorkState W) (w : W)
    → s.running ≡ true
    → s.work ≡ some w
    → ((settle s).1 ≡ (if s.requested then invoke w ∷ [] else map resolve s.idle_resolvers))
      × ((settle s).0
          ≡ some (record s {
            running = s.requested;
            requested = false;
            idle_resolvers = if s.requested then s.idle_resolvers else [];
          }))
unfolding settle
settle_effects s w h k = ground arith
