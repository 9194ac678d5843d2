-- ===== src/Webhook/Deadlines.antt =====
-- When a row is due again.
use tirion_watch.Prelude.{
  ℕ, suc, ◌+◌, ◌≤◌, String, Option, none, some, ◌≡◌, Bool, true, false, ◌&&◌, ◌||◌, leb, ◌===◌,
  text_comparable, arith,
}
use tirion_watch.Webhook.Model.{
  Clock, WebhookOutboxEntry, is_pending, is_retry, is_blocked, is_delivered,
}
use tirion_watch.Webhook.Retry.{
  retry_delay_ms, parse_optional, due_by, outbox_entry_due, retry_due_at, schedule_retry,
}
use tirion_watch.Webhook.Delivery.{WebhookFailure, refused, Surroundings, settled_entry}

-- The delay lies between half a minute and ten minutes, and no attempt waits less than the one
-- before it.
pub retry_delay_ms_bounds :
    (attempts : ℕ)
    → (30000 ≤ retry_delay_ms attempts)
      × (retry_delay_ms attempts ≤ 600000)
      × (retry_delay_ms attempts ≤ retry_delay_ms (suc attempts))
unfolding retry_delay_ms
retry_delay_ms_bounds attempts = (ground arith, ground arith, ground arith)

-- A row that is delivered is never due. Without force a row is due when it is pending or waits for
-- another attempt, and its time has come; force adds the rows that are blocked or wait.
pub outbox_entry_due_lem :
    (clock : Clock) (entry : WebhookOutboxEntry) (now : ℕ)
    → (outbox_entry_due clock entry now false ≡ (
        (is_pending entry.delivery_state || is_retry entry.delivery_state)
        && due_by clock now (parse_optional clock entry.next_attempt_at)))
      × (outbox_entry_due clock entry now true ≡ (
          outbox_entry_due clock entry now false
          || is_retry entry.delivery_state
          || is_blocked entry.delivery_state))
      × ((is_delivered entry.delivery_state && outbox_entry_due clock entry now true) ≡ false)
unfolding outbox_entry_due
outbox_entry_due_lem clock entry now = (ground arith, ground arith, ground arith)

module _ (clock : Clock) (parse-to_iso : (t : ℕ) → clock.parse (clock.to_iso t) ≡ some t)
    (iso_not_empty : (t : ℕ) → (clock.to_iso t === "") ≡ false) where
  parse_optional-to_iso : (t : ℕ) → parse_optional clock (some (clock.to_iso t)) ≡ some t
  unfolding parse_optional
  parse_optional-to_iso t = ground (arith, parse-to_iso t, iso_not_empty t)

  -- Behind a failure that may be tried again the row is due again exactly from its delay on.
  pub retry_waits_for_its_delay :
      (world : Surroundings) (entry : WebhookOutboxEntry) (failure : WebhookFailure) (t : ℕ)
      → failure.retryable ≡ true
      → outbox_entry_due clock (settled_entry clock world entry (refused failure)) t false
        ≡ leb (world.now_after_post + retry_delay_ms (suc entry.attempts)) t
  unfolding outbox_entry_due settled_entry
  retry_waits_for_its_delay world entry failure t h = rw h (
      ground
        (arith, parse_optional-to_iso (world.now_after_post + retry_delay_ms (suc entry.attempts))))

abbrev pub is_armed_by : Option ℕ → ℕ → Bool
is_armed_by none limit = false
is_armed_by (some due_at) limit = leb due_at limit

-- While the dispatcher runs, scheduleRetry leaves a timer that fires within half a minute, whatever
-- time it is asked for.
pub schedule_retry_bounds :
    (clock : Clock) (now : ℕ) (timer : Option ℕ) (next_attempt_at : Option String)
    → is_armed_by (schedule_retry clock true now timer next_attempt_at) (now + 30000) ≡ true
unfolding schedule_retry retry_due_at
schedule_retry_bounds clock now none next_attempt_at = ground arith
schedule_retry_bounds clock now (some armed) next_attempt_at = ground arith
