-- ===== src/Webhook/Priorities.antt =====
-- The order of the rows.
use Prim.Native.Nat.{Ordering, compare}
use tirion_watch.Prelude.{
  ℕ, String, Option, none, some, List, [], ◌∷◌, ◌≡◌, refl, Bool, true, false, ◌&&◌, if◌then◌else◌,
  Host, then_by, arith,
}
use tirion_watch.Webhook.Model.{
  pending, retry, run_start, run_update, settling, running, WebhookEvent, started, updated, ended,
  attributed, WebhookOutboxEntry,
}
use tirion_watch.Webhook.Order.{
  LifecycleSortKey, is_settling, lifecycle_sort_key, is_settling_run_update,
  is_claude_closed_root_terminal, webhook_delivery_priority, same_run_terminal_preemption_order,
  same_units, same_run, order_of, by_update, compare_webhook_outbox_entries, event_priority,
  state_priority,
}

abbrev pub flip : Ordering → Ordering
flip Ordering.lt = Ordering.gt
flip Ordering.eq = Ordering.eq
flip Ordering.gt = Ordering.lt

flip-then_by : (a b : Ordering) → flip (then_by a b) ≡ then_by (flip a) (flip b)
flip-then_by Ordering.lt b = refl
flip-then_by Ordering.eq b = refl
flip-then_by Ordering.gt b = refl

compare-flip : (a b : ℕ) → compare b a ≡ flip (compare a b)
compare-flip a b = ground arith

same_units_symm : (a b : List ℕ) → same_units b a ≡ same_units a b
same_units_symm [] [] = refl
same_units_symm [] (d ∷ ds) = refl
same_units_symm (c ∷ cs) [] = refl
same_units_symm (c ∷ cs) (d ∷ ds) = ground (arith, same_units_symm cs ds)

same_run_symm : (a b : Option LifecycleSortKey) → same_run b a ≡ same_run a b
same_run_symm none none = refl
same_run_symm none (some b) = refl
same_run_symm (some a) none = refl
same_run_symm (some a) (some b) = same_units_symm a.run_subject b.run_subject

-- An update is no terminal.
settling_is_no_terminal :
    (event : WebhookEvent)
    → (is_settling_run_update event && is_claude_closed_root_terminal event) ≡ false
unfolding is_settling_run_update is_claude_closed_root_terminal
settling_is_no_terminal (started i r) = refl
settling_is_no_terminal (updated i r running) = refl
settling_is_no_terminal (updated i r settling) = refl
settling_is_no_terminal (ended i r) = refl
settling_is_no_terminal (attributed i r) = refl

preemption_flip :
    (l r : WebhookOutboxEntry)
    → same_run_terminal_preemption_order r l ≡ flip (same_run_terminal_preemption_order l r)
unfolding same_run_terminal_preemption_order
preemption_flip l r =
    ground (arith, settling_is_no_terminal l.event, settling_is_no_terminal r.event)

module _ (host : Host) where
  module _
      (collation_flip : (a b : String)
        → host.locale_compare b a ≡ flip (host.locale_compare a b)) where
    by_update-flip : (l r : WebhookOutboxEntry) → by_update host r l ≡ flip (by_update host l r)
    unfolding by_update
    by_update-flip l r =
        ground (arith, collation_flip l.updated_at r.updated_at, collation_flip l.key r.key)

    -- By a collation that turns round with its arguments, so does the comparison of two rows.
    pub compare_webhook_outbox_entries-flip :
        (l r : WebhookOutboxEntry)
        → compare_webhook_outbox_entries host r l ≡ flip (compare_webhook_outbox_entries host l r)
    unfolding compare_webhook_outbox_entries
    compare_webhook_outbox_entries-flip l r = ground (
      arith,
      same_run_symm (lifecycle_sort_key l) (lifecycle_sort_key r),
      preemption_flip l r,
      by_update-flip l r,
      compare-flip (order_of (lifecycle_sort_key l)) (order_of (lifecycle_sort_key r)),
      compare-flip (webhook_delivery_priority l) (webhook_delivery_priority r),
    )

-- A start that waits for another attempt.
abbrev pub IsStartRetry : WebhookOutboxEntry → Type 0
IsStartRetry e =
    (e.event_type ≡ run_start)
    × (e.delivery_state ≡ retry)
    × (is_claude_closed_root_terminal e.event ≡ false)
    × (is_settling_run_update e.event ≡ false)

-- An update that was not tried yet, settling or not.
abbrev pub IsFreshUpdate : Bool → WebhookOutboxEntry → Type 0
IsFreshUpdate settles e =
    (e.event_type ≡ run_update)
    × (e.delivery_state ≡ pending)
    × (e.attempts ≡ 0)
    × (is_claude_closed_root_terminal e.event ≡ false)
    × (is_settling e.event ≡ settles)

start_key :
    (e : WebhookOutboxEntry)
    → IsStartRetry e
    → (order_of (lifecycle_sort_key e) ≡ 1) × (webhook_delivery_priority e ≡ 12)
unfolding lifecycle_sort_key webhook_delivery_priority event_priority state_priority
start_key e h = rw h.0 (rw h.1 (refl, refl))

update_key :
    (settles : Bool) (e : WebhookOutboxEntry)
    → IsFreshUpdate settles e
    → (order_of (lifecycle_sort_key e) ≡ (if settles then 2 else 4))
      × (webhook_delivery_priority e ≡ (if settles then 2 else 6))
unfolding lifecycle_sort_key webhook_delivery_priority event_priority state_priority
update_key true e h = rw h.0 (rw h.1 (rw h.2 (rw h.3 (rw h.4 (refl, refl)))))
update_key false e h = rw h.0 (rw h.1 (rw h.2 (rw h.3 (rw h.4 (refl, refl)))))

module _ (host : Host) where
  -- The comparison is no order: a start that is tried again comes before the settling update of its
  -- run, that before a running update of another run, and that before the start.
  pub priorities_form_a_cycle :
      (a b c : WebhookOutboxEntry)
      → IsStartRetry a
      → IsFreshUpdate true b
      → IsFreshUpdate false c
      → same_run (lifecycle_sort_key a) (lifecycle_sort_key b) ≡ true
      → same_run (lifecycle_sort_key b) (lifecycle_sort_key c) ≡ false
      → same_run (lifecycle_sort_key c) (lifecycle_sort_key a) ≡ false
      → (compare_webhook_outbox_entries host a b ≡ Ordering.lt)
        × (compare_webhook_outbox_entries host b c ≡ Ordering.lt)
        × (compare_webhook_outbox_entries host c a ≡ Ordering.lt)
  unfolding compare_webhook_outbox_entries same_run_terminal_preemption_order
  priorities_form_a_cycle a b c ha hb hc ab bc ca = (
    ground (arith, start_key a ha, update_key true b hb, ha, hb, ab),
    ground (arith, update_key true b hb, update_key false c hc, bc),
    ground (arith, start_key a ha, update_key false c hc, ca),
  )
