-- ===== src/Webhook/Delivery.antt =====
-- packages/agent/src/externalWebhookDispatch.ts: deliverUnlocked. What it does to the world is a
-- list of effects in their order; a stretch between two awaits reads the clock once. The storage
-- itself is taken to succeed.
use Prim.Native.Char.{code}
use Prim.Native.String
use tirion_watch.Prelude.{
  eqb, ℕ, suc, ◌+◌, String, Option, none, some, List, [], ◌∷◌, Bool, true, false, not, ◌&&◌, ◌||◌,
  if◌then◌else◌, ltb, leb, get_or, ◌===◌, text_comparable,
}
use tirion_watch.Webhook.Model.{
  Clock, pending, retry, blocked, delivered, EventType, run_start, run_update, run_ended,
  commit_attributed, RunEnded, WebhookEvent, ended, WebhookOutboxEntry,
}
use tirion_watch.Webhook.Retry.{retry_delay_ms}

pub record WebhookFailure : Type 0 where
  pub code : String
  pub retryable : Bool

-- How the POST ends.
pub data PostOutcome : Type 0 where
  accepted : PostOutcome
  refused : WebhookFailure → PostOutcome

pub record Configuration : Type 0 where
  pub url : Option String
  pub run_ended_enabled : Option Bool

-- What the delivery reads of the rest of the agent: whether it stops, before the delivery and
-- behind the save of the attempt; the clock, before and behind the POST; the `deliveredAt` that is
-- stored for a subject; the privacy guard; and the answer to the POST.
pub record Surroundings : Type 0 where
  pub stopping : Bool
  pub stopping_after_save : Bool
  pub now : ℕ
  pub now_after_post : ℕ
  pub configuration : Configuration
  pub subject_delivered_at : String → Option String
  pub is_publishable : WebhookEvent → Bool
  pub run_ended_grace_ms : ℕ
  pub outcome : PostOutcome

pub data Effect : Type 0 where
  saved : WebhookOutboxEntry → Effect
  posted : WebhookEvent → String → Effect
  delivered_subject : WebhookOutboxEntry → String → Effect
  retry_scheduled : Option String → Effect
  recorded : String → String → Effect
  threw : String → Effect

abbrev pub is_run_webhook_event_type : EventType → Bool
is_run_webhook_event_type commit_attributed = false
is_run_webhook_event_type _ = true

abbrev pub is_start_or_update : EventType → Bool
is_start_or_update run_start = true
is_start_or_update run_update = true
is_start_or_update _ = false

-- What follows a prefix: `text.startsWith(prefix) ? text.slice(prefix.length) : undefined`.
after_prefix : String → String → Option String
after_prefix String.[] text = some text
after_prefix (String.◌∷◌ c cs) String.[] = none
after_prefix (String.◌∷◌ c cs) (String.◌∷◌ d ds) =
    let rest = after_prefix cs ds in if eqb (code c) (code d) then rest else none

unfoldable pub run_subject_from_lifecycle_subject : EventType → String → Option String
unfolding after_prefix
run_subject_from_lifecycle_subject run_start subject_id = after_prefix "run.start:" subject_id
run_subject_from_lifecycle_subject run_update subject_id = after_prefix "run.update:" subject_id
run_subject_from_lifecycle_subject run_ended subject_id = after_prefix "run.ended:" subject_id
run_subject_from_lifecycle_subject commit_attributed subject_id = none

module _ (clock : Clock) where
  unfoldable pub blocked_entry : WebhookOutboxEntry → String → ℕ → WebhookOutboxEntry
  blocked_entry entry code now = record entry {
    delivery_state = blocked;
    last_error_code = some code;
    next_attempt_at = none;
    updated_at = clock.to_iso now;
  }

  module _ (world : Surroundings) where
    -- `this.outbox.upsert(entry)` and what follows it: the outbox refuses an event that may not be
    -- published, by an exception.
    unfoldable pub upsert : WebhookOutboxEntry → List Effect → List Effect
    upsert entry rest =
        if world.is_publishable entry.event
        then saved entry ∷ rest
        else threw "privacy_violation" ∷ []

    -- A delivered `run.ended` is stored for the run of the row.
    unfoldable pub run_ended_delivered : WebhookOutboxEntry → Bool
    run_ended_delivered entry =
        delivered_for (run_subject_from_lifecycle_subject entry.event_type entry.subject_id)
      where
        delivered_for : Option String → Bool
        delivered_for none = false
        delivered_for (some run_subject) =
            not (run_subject === "")
            && not (
                get_or (world.subject_delivered_at (String.◌++◌ "run.ended:" run_subject)) ""
                === "")

    suppression_reason : EventType → String
    suppression_reason run_start = "run_start_after_run_ended_suppressed"
    suppression_reason _ = "run_update_after_run_ended_suppressed"

    unfoldable pub suppress : WebhookOutboxEntry → List Effect
    unfolding suppression_reason
    suppress entry =
        let suppressed_at = clock.to_iso world.now in
        upsert
          (record entry {
            delivery_state = delivered;
            delivered_at = some (get_or entry.delivered_at suppressed_at);
            next_attempt_at = none;
            last_error_code = none;
            updated_at = suppressed_at;
          })
          (recorded "suppressed" (suppression_reason entry.event_type) ∷ [])

    unfoldable pub family_enabled : WebhookOutboxEntry → Bool
    family_enabled entry =
        not (is_run_webhook_event_type entry.event_type)
        || get_or world.configuration.run_ended_enabled true

    unfoldable pub has_url : Bool
    has_url = not (get_or world.configuration.url "" === "")

    -- The deadline is written and read back.
    deadline_from : Option ℕ → Option String
    deadline_from none = none
    deadline_from (some ended_ms) =
        let deadline_ms = ended_ms + world.run_ended_grace_ms in
        if leb deadline_ms world.now then none else some (clock.to_iso deadline_ms)

    unfoldable pub run_ended_delivery_deadline_at : RunEnded → Option String
    unfolding deadline_from
    run_ended_delivery_deadline_at run = deadline_from (clock.parse run.ended_at)

    is_after_now : Option ℕ → Bool
    is_after_now none = false
    is_after_now (some time) = ltb world.now time

    still_ahead : Option String → Option String
    still_ahead none = none
    still_ahead (some deadline) =
        if is_after_now (clock.parse deadline) then some deadline else none

    -- The terminal deadline that a `run.ended` event still waits for.
    unfoldable pub waits_until : WebhookEvent → Option String
    unfolding still_ahead is_after_now
    waits_until (ended event_id run) = still_ahead (run_ended_delivery_deadline_at run)
    waits_until _ = none

    unfoldable pub attempting : WebhookOutboxEntry → WebhookOutboxEntry
    attempting entry =
        let attempt_at = clock.to_iso world.now in
        record entry {
          first_attempt_at = some (get_or entry.first_attempt_at attempt_at);
          last_attempt_at = some attempt_at;
          updated_at = attempt_at;
        }

    -- The row behind the POST.
    unfoldable pub settled_entry : WebhookOutboxEntry → PostOutcome → WebhookOutboxEntry
    settled_entry entry accepted =
        let delivered_at = clock.to_iso world.now_after_post in
        record (attempting entry) {
          delivery_state = delivered;
          delivered_at = some delivered_at;
          next_attempt_at = none;
          last_error_code = none;
          updated_at = delivered_at;
        }
    settled_entry entry (refused failure) =
        let attempts = suc entry.attempts in
        record (attempting entry) {
          delivery_state = if failure.retryable then retry else blocked;
          attempts = attempts;
          next_attempt_at =
              if failure.retryable
              then some (clock.to_iso (world.now_after_post + retry_delay_ms attempts))
              else none;
          last_error_code = some failure.code;
          updated_at = clock.to_iso world.now_after_post;
        }

    unfoldable pub after_post : WebhookOutboxEntry → PostOutcome → List Effect
    after_post entry accepted =
        let row = settled_entry entry accepted in
        upsert row (
          delivered_subject row (clock.to_iso world.now_after_post)
          ∷ recorded "delivered" "webhook_delivery_succeeded"
          ∷ [])
    after_post entry (refused failure) =
        let row = settled_entry entry (refused failure) in
        upsert row (
          retry_scheduled row.next_attempt_at
          ∷ (if failure.retryable
              then recorded "retry_scheduled" "webhook_delivery_retry_scheduled"
              else recorded "blocked" "webhook_delivery_blocked")
          ∷ [])

    unfoldable pub attempt : WebhookOutboxEntry → List Effect
    attempt entry =
        let post =
          recorded "attempt_started" "webhook_delivery_attempt_started"
          ∷ posted entry.event (clock.to_iso world.now)
          ∷ after_post entry world.outcome in
        upsert (attempting entry) (if world.stopping_after_save then [] else post)

    unfoldable pub wait_or_attempt : WebhookOutboxEntry → Option String → List Effect
    wait_or_attempt entry none = attempt entry
    wait_or_attempt entry (some deadline) =
        upsert
          (record entry {
            delivery_state = pending;
            next_attempt_at = some deadline;
            updated_at = clock.to_iso world.now;
          })
          (retry_scheduled (some deadline)
            ∷ recorded "pending" "run_ended_waiting_for_terminal_deadline"
            ∷ [])

    unfoldable pub block : WebhookOutboxEntry → String → String → List Effect
    block entry code reason =
        upsert (blocked_entry entry code world.now) (recorded "blocked" reason ∷ [])

    unfoldable pub deliver_unlocked : WebhookOutboxEntry → List Effect
    deliver_unlocked entry =
        if world.stopping
        then []
        else if is_start_or_update entry.event_type && run_ended_delivered entry
        then suppress entry
        else if not has_url
        then block entry "webhook_url_missing" "webhook_delivery_blocked_missing_url"
        else if not (family_enabled entry)
        then block entry "event_family_disabled" "webhook_delivery_blocked_family_disabled"
        else if not (world.is_publishable entry.event)
        then block entry "privacy_violation" "webhook_delivery_blocked_privacy_violation"
        else wait_or_attempt entry (waits_until entry.event)
