-- ===== src/Webhook/Order.antt =====
-- packages/agent/src/externalWebhookDispatch.ts: compareWebhookOutboxEntries, the order in which due
-- rows are delivered. A priority is counted in halves, since one of them is 0.5.
use Prim.Native.Nat.{Ordering, compare}
use tirion_watch.Prelude.{
  ℕ, zero, suc, ◌+◌, String, Option, none, some, List, [], ◌∷◌, Bool, true, false, not, ◌&&◌,
  if◌then◌else◌, eqb, length, ◌===◌, text_comparable, units, Host, then_by,
}
use tirion_watch.Webhook.Model.{
  DeliveryState, pending, retry, EventType, run_start, run_update, run_ended, commit_attributed,
  settling, WebhookEvent, updated, ended, WebhookOutboxEntry, is_delivered,
}

-- `text.slice(count)` on code units
skip : ℕ → List ℕ → List ℕ
skip zero text = text
skip (suc n) [] = []
skip (suc n) (c ∷ cs) = skip n cs

unfoldable pub is_settling_run_update : WebhookEvent → Bool
is_settling_run_update (updated event_id run_id settling) = true
is_settling_run_update _ = false

unfoldable pub is_claude_closed_root_terminal : WebhookEvent → Bool
is_claude_closed_root_terminal (ended event_id run) =
    run.coding_harness === "claude-code"
    && run.runtime === "claude-code"
    && run.basis === "root_span"
    && not run.delayed
is_claude_closed_root_terminal _ = false

-- `entry.event.state === "settling"`
abbrev pub is_settling : WebhookEvent → Bool
is_settling (updated event_id run_id settling) = true
is_settling _ = false

pub record LifecycleSortKey : Type 0 where
  pub run_subject : List ℕ
  pub order : ℕ

unfoldable pub lifecycle_sort_key : WebhookOutboxEntry → Option LifecycleSortKey
unfolding skip
lifecycle_sort_key entry = by_type entry.event_type
  where
    after : String → List ℕ
    after prefix_ = skip (length (units prefix_)) (units entry.subject_id)

    by_type : EventType → Option LifecycleSortKey
    by_type run_start = some (record { run_subject = after "run.start:"; order = 1 })
    by_type run_update = some (record {
      run_subject = after "run.update:";
      order = if is_settling entry.event then 2 else 4;
    })
    by_type run_ended = some (record { run_subject = after "run.ended:"; order = 3 })
    by_type commit_attributed = none

-- In halves: 0, 0.5, 1, 2 and 3.
unfoldable pub event_priority : EventType → WebhookEvent → ℕ
event_priority run_start event = 0
event_priority run_update event =
    if is_claude_closed_root_terminal event then 1 else if is_settling event then 2 else 6
event_priority run_ended event = if is_claude_closed_root_terminal event then 1 else 4
event_priority commit_attributed event = if is_claude_closed_root_terminal event then 1 else 6

unfoldable pub state_priority : DeliveryState → ℕ → ℕ
state_priority pending attempts = if eqb attempts 0 then 0 else 6
state_priority retry attempts = 12
state_priority _ attempts = 18

rest_priority : DeliveryState → ℕ
rest_priority pending = 24
rest_priority retry = 24
rest_priority _ = 26

unfoldable pub webhook_delivery_priority : WebhookOutboxEntry → ℕ
unfolding rest_priority
webhook_delivery_priority entry =
    if is_delivered entry.delivery_state then 40 else lifecycle (lifecycle_sort_key entry)
  where
    lifecycle : Option LifecycleSortKey → ℕ
    lifecycle none = rest_priority entry.delivery_state
    lifecycle (some key) =
        state_priority entry.delivery_state entry.attempts
        + event_priority entry.event_type entry.event

unfoldable pub same_run_terminal_preemption_order :
    WebhookOutboxEntry → WebhookOutboxEntry → Ordering
same_run_terminal_preemption_order left right =
    if is_claude_closed_root_terminal left.event && is_settling_run_update right.event
    then Ordering.lt
    else if is_settling_run_update left.event && is_claude_closed_root_terminal right.event
    then Ordering.gt
    else Ordering.eq

abbrev pub same_units : List ℕ → List ℕ → Bool
same_units [] [] = true
same_units (c ∷ cs) (d ∷ ds) = eqb c d && same_units cs ds
same_units _ _ = false

abbrev pub same_run : Option LifecycleSortKey → Option LifecycleSortKey → Bool
same_run (some a) (some b) = same_units a.run_subject b.run_subject
same_run _ _ = false

abbrev pub order_of : Option LifecycleSortKey → ℕ
order_of none = 0
order_of (some key) = key.order

module _ (host : Host) where
  unfoldable pub by_update : WebhookOutboxEntry → WebhookOutboxEntry → Ordering
  by_update left right =
      then_by (host.locale_compare left.updated_at right.updated_at)
        (host.locale_compare left.key right.key)

  unfoldable pub compare_webhook_outbox_entries : WebhookOutboxEntry → WebhookOutboxEntry → Ordering
  compare_webhook_outbox_entries left right =
      let left_lifecycle = lifecycle_sort_key left in
      let right_lifecycle = lifecycle_sort_key right in
      if same_run left_lifecycle right_lifecycle
      then then_by (same_run_terminal_preemption_order left right) (
          then_by (compare (order_of left_lifecycle) (order_of right_lifecycle))
            (by_update left right))
      else then_by (compare (webhook_delivery_priority left) (webhook_delivery_priority right))
          (by_update left right)
