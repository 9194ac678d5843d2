-- ===== src/Webhook/Tests.antt =====
-- A start, a settling update and an update of another run; a delivery that fails.
use Prim.Native.Nat.{Ordering}
use tirion_watch.Prelude.{
  ℕ, zero, suc, ◌+◌, ◌-◌, ap, arith, inl, inr, Bool-cases, eq_iff, String, none, some, ◌≡◌, refl,
  Bool, true, false, if◌then◌else◌, any, All, leb, Host, units, ◌===◌, text_comparable,
}
use tirion_watch.Webhook.Model.{
  Clock, EventType, run_start, run_update, DeliveryState, pending, retry, settling, running,
  WebhookEvent, started, updated, WebhookOutboxEntry,
}
use tirion_watch.Webhook.Order.{
  lifecycle_sort_key, is_claude_closed_root_terminal, is_settling_run_update,
  compare_webhook_outbox_entries,
}
use tirion_watch.Webhook.Retry.{outbox_entry_due, retry_delay_ms, schedule_retry}
use tirion_watch.Webhook.Delivery.{
  Surroundings, WebhookFailure, refused, deliver_unlocked, settled_entry, suppress, block, upsert,
  run_ended_delivered, run_subject_from_lifecycle_subject, has_url, family_enabled, waits_until,
  wait_or_attempt, attempt, attempting, after_post,
}
use tirion_watch.Webhook.Guards.{
  is_post, is_save, may_post, posts_exactly_when_allowed, unpublishable_is_not_saved, KeepsRow,
  deliver_unlocked-KeepsRow,
}
use tirion_watch.Webhook.Deadlines.{retry_waits_for_its_delay, is_armed_by, schedule_retry_bounds}
use tirion_watch.Webhook.Priorities.{
  flip, compare_webhook_outbox_entries-flip, priorities_form_a_cycle,
}

abbrev host : Host
host = record { get_time = λ text. none; locale_compare = λ a b. Ordering.eq }

-- A clock that writes a time as so many strokes and one.
strokes : ℕ → String
strokes zero = "|"
strokes (suc n) = String.◌∷◌ "|" (strokes n)

tally : String → ℕ
tally String.[] = 0
tally (String.◌∷◌ c s) = suc (tally s)

abbrev clock : Clock
clock = record { parse = λ text. some (tally text - 1); to_iso = strokes }

tally-strokes : (t : ℕ) → tally (strokes t) ≡ suc t
unfolding tally strokes
tally-strokes zero = refl
tally-strokes (suc t) = ap suc (tally-strokes t)

parse-strokes : (t : ℕ) → clock.parse (clock.to_iso t) ≡ some t
parse-strokes t = ap some (omega (arith, tally-strokes t))

tally_empty : tally "" ≡ 0
unfolding tally
tally_empty = refl

strokes_are_not_empty : (t : ℕ) → (clock.to_iso t === "") ≡ false
strokes_are_not_empty t = elim (Bool-cases (strokes t === "")) [
  | inl e ↦
      absurd (ground (arith, tally_empty, tally-strokes t, ap tally ((eq_iff (strokes t) "").0 e)))
  | inr e ↦ e
]

abbrev row : WebhookEvent → EventType → String → DeliveryState → WebhookOutboxEntry
row event event_type subject_id state = record {
  key = "k";
  event = event;
  event_type = event_type;
  subject_id = subject_id;
  payload_hash = "h";
  delivery_state = state;
  attempts = 0;
  queued_at = "|";
  first_attempt_at = none;
  last_attempt_at = none;
  delivered_at = none;
  next_attempt_at = none;
  last_error_code = none;
  created_at = "|";
  updated_at = "|";
}

abbrev start_row : WebhookOutboxEntry
start_row = row (started "e1" "A") run_start "run.start:A" retry

abbrev settling_row : WebhookOutboxEntry
settling_row = row (updated "e2" "A" settling) run_update "run.update:A" pending

abbrev other_row : WebhookOutboxEntry
other_row = row (updated "e3" "B" running) run_update "run.update:B" pending

abbrev failure : WebhookFailure
failure = record { code = "network_error"; retryable = true }

abbrev world : Bool → Surroundings
world publishable = record {
  stopping = false;
  stopping_after_save = false;
  now = 5;
  now_after_post = 6;
  configuration = record { url = some "https://example.test"; run_ended_enabled = none };
  subject_delivered_at = λ subject. if subject === "run.ended:A" then some "|" else none;
  is_publishable = λ event. publishable;
  run_ended_grace_ms = 3000;
  outcome = refused failure;
}

program : Unit {0}
unfolding deliver_unlocked run_ended_delivered run_subject_from_lifecycle_subject suppress block
    upsert has_url family_enabled waits_until wait_or_attempt attempt attempting after_post
    settled_entry lifecycle_sort_key is_claude_closed_root_terminal is_settling_run_update
    compare_webhook_outbox_entries units
program = tt

delivery_posts : any is_post (deliver_unlocked clock (world true) other_row) ≡ true
unfolding program
delivery_posts = refl

-- The end of run A was delivered, so no start of it is posted.
suppressed : any is_post (deliver_unlocked clock (world true) start_row) ≡ false
unfolding program
suppressed = refl

posts_exactly_when_allowed_example :
    any is_post (deliver_unlocked clock (world true) other_row)
    ≡ may_post clock (world true) other_row
posts_exactly_when_allowed_example = posts_exactly_when_allowed clock (world true) other_row

unpublishable_is_not_saved_example :
    any is_save (deliver_unlocked clock (world false) other_row) ≡ false
unpublishable_is_not_saved_example = unpublishable_is_not_saved clock (world false) other_row refl

deliver_unlocked-KeepsRow_example :
    All (KeepsRow other_row) (deliver_unlocked clock (world true) other_row)
deliver_unlocked-KeepsRow_example = deliver_unlocked-KeepsRow clock (world true) other_row

retry_waits_for_its_delay_example :
    outbox_entry_due clock (settled_entry clock (world true) other_row (refused failure)) 7 false
    ≡ leb ((world true).now_after_post + retry_delay_ms (suc other_row.attempts)) 7
retry_waits_for_its_delay_example =
    retry_waits_for_its_delay clock parse-strokes strokes_are_not_empty (world true) other_row
      failure 7 refl

schedule_retry_bounds_example :
    is_armed_by (schedule_retry clock true 5 (some 9) (some "|||")) (5 + 30000) ≡ true
schedule_retry_bounds_example = schedule_retry_bounds clock 5 (some 9) (some "|||")

compare_webhook_outbox_entries-flip_example :
    compare_webhook_outbox_entries host settling_row start_row
    ≡ flip (compare_webhook_outbox_entries host start_row settling_row)
compare_webhook_outbox_entries-flip_example =
    compare_webhook_outbox_entries-flip host (λ a b. refl) start_row settling_row

priorities_form_a_cycle_example :
    (compare_webhook_outbox_entries host start_row settling_row ≡ Ordering.lt)
    × (compare_webhook_outbox_entries host settling_row other_row ≡ Ordering.lt)
    × (compare_webhook_outbox_entries host other_row start_row ≡ Ordering.lt)
unfolding program
priorities_form_a_cycle_example =
    priorities_form_a_cycle host start_row settling_row other_row (refl, refl, refl, refl)
      (refl, refl, refl, refl, refl) (refl, refl, refl, refl, refl) refl refl refl
