-- ===== src/Scheduler/Draining.antt =====
-- A lane runs one work at a time, comes to rest when no more is given, and wakes all who wait.
use tirion_watch.Prelude.{ℕ, suc, String, true, List, [], ◌∷◌, ◌≡◌, text_comparable}
use tirion_watch.Scheduler.{
  Scheduler, Event, enqueued, settled, drained, drain, run_events, is_idle,
}

module _ {W : Type 0} where
  -- How many events give work to a lane.
  abbrev pub enqueue_count : List (Event W) → ℕ
  enqueue_count [] = 0
  enqueue_count (enqueued k w ∷ es) = suc (enqueue_count es)
  enqueue_count (settled k ∷ es) = enqueue_count es
  enqueue_count (drained k r ∷ es) = enqueue_count es

  -- What a round of `drainToFixedPoint` that ends it has seen: it drained, and while it awaited
  -- nothing was given to any lane.
  abbrev pub EndsCalm : (ℕ → String → ℕ) → (ℕ → List (Event W)) → Scheduler W → Type 0
  EndsCalm names awaited t =
      (is_idle t ≡ true)
      × ((round : ℕ) × (before : Scheduler W) × (t
            ≡ (run_events (awaited round) (drain (names round) before).0).0)
          × (enqueue_count (awaited round) ≡ 0))
