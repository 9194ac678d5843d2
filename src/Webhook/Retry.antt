-- ===== src/Webhook/Retry.antt =====
-- packages/agent/src/externalWebhookDispatch.ts: when a row is due, and when the next attempt is.
use tirion_watch.Prelude.{
  ℕ, ◌+◌, ◌*◌, String, Option, none, some, Bool, true, not, ◌&&◌, ◌||◌, if◌then◌else◌, leb, ◌===◌,
  text_comparable,
}
use tirion_watch.Webhook.Model.{Clock, WebhookOutboxEntry, is_pending, is_retry, is_blocked}

abbrev pub retry_interval_ms : ℕ
retry_interval_ms = 30000

abbrev pub max_retry_delay_ms : ℕ
max_retry_delay_ms = 10 * 60 * 1000

-- `Math.min` and `Math.max`
abbrev pub least : ℕ → ℕ → ℕ
least a b = if leb a b then a else b

abbrev pub most : ℕ → ℕ → ℕ
most a b = if leb a b then b else a

unfoldable pub retry_delay_ms : ℕ → ℕ
retry_delay_ms attempts = least max_retry_delay_ms (retry_interval_ms * most 1 attempts)

module _ (clock : Clock) where
  -- `text ? Date.parse(text) : Number.NaN`
  unfoldable pub parse_optional : Option String → Option ℕ
  parse_optional none = none
  parse_optional (some text) = if text === "" then none else clock.parse text

  -- `!Number.isFinite(time) || time <= now`
  abbrev pub due_by : ℕ → Option ℕ → Bool
  due_by now none = true
  due_by now (some time) = leb time now

  unfoldable pub outbox_entry_due : WebhookOutboxEntry → ℕ → Bool → Bool
  outbox_entry_due entry now force =
      let due_by_time = due_by now (parse_optional entry.next_attempt_at) in
      (is_pending entry.delivery_state && due_by_time)
      || (is_retry entry.delivery_state && (force || due_by_time))
      || (force && is_blocked entry.delivery_state)

  unfoldable pub retry_due_at : ℕ → Option ℕ → ℕ
  retry_due_at now none = now + retry_interval_ms
  retry_due_at now (some requested) = least (now + retry_interval_ms) (most now requested)

  -- The armed timer that `scheduleRetry` leaves: `retryTimerDueAt`.
  unfoldable pub schedule_retry : Bool → ℕ → Option ℕ → Option String → Option ℕ
  schedule_retry running now timer next_attempt_at =
      let due_at = retry_due_at now (parse_optional next_attempt_at) in
      if not running then timer else earlier timer due_at
    where
      earlier : Option ℕ → ℕ → Option ℕ
      earlier none due_at = some due_at
      earlier (some armed) due_at = if leb armed due_at then some armed else some due_at
