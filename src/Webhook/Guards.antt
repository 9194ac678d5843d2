-- ===== src/Webhook/Guards.antt =====
-- When a delivery posts, and what it keeps of the row.
use tirion_watch.Prelude.{
  suc, String, Option, none, some, List, ◌≡◌, refl, ◌⊎◌, inl, inr, Bool, true, false, not, ◌&&◌,
  any, All, is_some, if_ind, arith,
}
use tirion_watch.Webhook.Model.{Clock, WebhookOutboxEntry}
use tirion_watch.Webhook.Delivery.{
  PostOutcome, accepted, refused, Surroundings, Effect, saved, posted, is_start_or_update,
  blocked_entry, upsert, run_ended_delivered, suppress, family_enabled, has_url, waits_until,
  attempting, settled_entry, after_post, attempt, wait_or_attempt, block, deliver_unlocked,
}

abbrev pub is_post : Effect → Bool
is_post (posted event attempt_at) = true
is_post _ = false

abbrev pub is_save : Effect → Bool
is_save (saved entry) = true
is_save _ = false

module _ (clock : Clock) (world : Surroundings) (entry : WebhookOutboxEntry) where
  -- The agent does not stop, no end of the run was delivered before a start or an update of it, the
  -- webhook has an address, the family of the event is enabled, the event may be published, and
  -- no deadline of a `run.ended` is ahead.
  abbrev pub may_post : Bool
  may_post =
      not world.stopping
      && not (is_start_or_update entry.event_type && run_ended_delivered clock world entry)
      && has_url clock world
      && family_enabled clock world entry
      && world.is_publishable entry.event
      && not (is_some (waits_until clock world entry.event))
      && not world.stopping_after_save

  wait_or_attempt-is_post :
      (deadline : Option String)
      → any is_post (wait_or_attempt clock world entry deadline) ≡ (
          world.is_publishable entry.event
          && not (is_some deadline)
          && not world.stopping_after_save)
  unfolding wait_or_attempt attempt upsert attempting
  wait_or_attempt-is_post none = ground arith
  wait_or_attempt-is_post (some deadline) = ground arith

  block-is_post : (code reason : String) → any is_post (block clock world entry code reason) ≡ false
  unfolding block upsert blocked_entry
  block-is_post code reason = ground arith

  suppress-is_post : any is_post (suppress clock world entry) ≡ false
  unfolding suppress upsert
  suppress-is_post = ground arith

  -- The delivery posts exactly when no guard stands against it.
  pub posts_exactly_when_allowed : any is_post (deliver_unlocked clock world entry) ≡ may_post
  unfolding deliver_unlocked
  posts_exactly_when_allowed = ground (
    arith,
    suppress-is_post,
    block-is_post "webhook_url_missing" "webhook_delivery_blocked_missing_url",
    block-is_post "event_family_disabled" "webhook_delivery_blocked_family_disabled",
    block-is_post "privacy_violation" "webhook_delivery_blocked_privacy_violation",
    wait_or_attempt-is_post (waits_until clock world entry.event),
  )

  module _ (private_ : world.is_publishable entry.event ≡ false) where
    wait_or_attempt-is_save :
        (deadline : Option String)
        → any is_save (wait_or_attempt clock world entry deadline) ≡ false
    unfolding wait_or_attempt attempt upsert attempting
    wait_or_attempt-is_save none = ground (arith, private_)
    wait_or_attempt-is_save (some deadline) = ground (arith, private_)

    block-is_save :
        (code reason : String) → any is_save (block clock world entry code reason) ≡ false
    unfolding block upsert blocked_entry
    block-is_save code reason = ground (arith, private_)

    suppress-is_save : any is_save (suppress clock world entry) ≡ false
    unfolding suppress upsert
    suppress-is_save = ground (arith, private_)

    -- A row whose event may not be published is never saved again, not even as blocked.
    pub unpublishable_is_not_saved : any is_save (deliver_unlocked clock world entry) ≡ false
    unfolding deliver_unlocked
    unpublishable_is_not_saved = ground (
      arith,
      suppress-is_save,
      block-is_save "webhook_url_missing" "webhook_delivery_blocked_missing_url",
      block-is_save "event_family_disabled" "webhook_delivery_blocked_family_disabled",
      block-is_save "privacy_violation" "webhook_delivery_blocked_privacy_violation",
      wait_or_attempt-is_save (waits_until clock world entry.event),
    )

-- A saved row is the given one but for its state: it keeps its identity and its payload, and counts
-- at most one attempt more.
abbrev pub KeepsRow : WebhookOutboxEntry → Effect → Type 0
KeepsRow entry (saved row) =
    (row.key ≡ entry.key)
    × (row.event ≡ entry.event)
    × (row.event_type ≡ entry.event_type)
    × (row.subject_id ≡ entry.subject_id)
    × (row.payload_hash ≡ entry.payload_hash)
    × (row.queued_at ≡ entry.queued_at)
    × (row.created_at ≡ entry.created_at)
    × ((row.attempts ≡ entry.attempts) ⊎ (row.attempts ≡ suc entry.attempts))
KeepsRow entry _ = Unit

module _ (clock : Clock) (world : Surroundings) (entry : WebhookOutboxEntry) where
  upsert-KeepsRow :
      (row : WebhookOutboxEntry) (rest : List Effect)
      → KeepsRow entry (saved row)
      → All (KeepsRow entry) rest
      → All (KeepsRow entry) (upsert clock world row rest)
  unfolding upsert
  upsert-KeepsRow row rest h k =
      if_ind (All (KeepsRow entry)) (world.is_publishable row.event) (λ e. (h, k)) (λ e. (tt, tt))

  block-KeepsRow :
      (code reason : String) → All (KeepsRow entry) (block clock world entry code reason)
  unfolding block blocked_entry
  block-KeepsRow code reason =
      upsert-KeepsRow _ _ (refl, refl, refl, refl, refl, refl, refl, inl refl) (tt, tt)

  suppress-KeepsRow : All (KeepsRow entry) (suppress clock world entry)
  unfolding suppress
  suppress-KeepsRow =
      upsert-KeepsRow _ _ (refl, refl, refl, refl, refl, refl, refl, inl refl) (tt, tt)

  settled_entry-KeepsRow :
      (outcome : PostOutcome) → KeepsRow entry (saved (settled_entry clock world entry outcome))
  unfolding settled_entry attempting
  settled_entry-KeepsRow accepted = (refl, refl, refl, refl, refl, refl, refl, inl refl)
  settled_entry-KeepsRow (refused failure) = (refl, refl, refl, refl, refl, refl, refl, inr refl)

  after_post-KeepsRow :
      (outcome : PostOutcome) → All (KeepsRow entry) (after_post clock world entry outcome)
  unfolding after_post
  after_post-KeepsRow accepted =
      upsert-KeepsRow _ _ (settled_entry-KeepsRow accepted) (tt, (tt, tt))
  after_post-KeepsRow (refused failure) =
      upsert-KeepsRow _ _ (settled_entry-KeepsRow (refused failure))
        (tt, (if_ind (KeepsRow entry) failure.retryable (λ e. tt) (λ e. tt), tt))

  attempt-KeepsRow : All (KeepsRow entry) (attempt clock world entry)
  unfolding attempt attempting
  attempt-KeepsRow =
      upsert-KeepsRow _ _ (refl, refl, refl, refl, refl, refl, refl, inl refl)
        (if_ind (All (KeepsRow entry)) world.stopping_after_save (λ e. tt)
          (λ e. (tt, (tt, after_post-KeepsRow world.outcome))))

  wait_or_attempt-KeepsRow :
      (deadline : Option String) → All (KeepsRow entry) (wait_or_attempt clock world entry deadline)
  unfolding wait_or_attempt
  wait_or_attempt-KeepsRow none = attempt-KeepsRow
  wait_or_attempt-KeepsRow (some deadline) =
      upsert-KeepsRow _ _ (refl, refl, refl, refl, refl, refl, refl, inl refl) (tt, (tt, tt))

  -- Every row that a delivery saves keeps the identity and the payload of the given one and counts
  -- at most one attempt more.
  pub deliver_unlocked-KeepsRow : All (KeepsRow entry) (deliver_unlocked clock world entry)
  unfolding deliver_unlocked
  deliver_unlocked-KeepsRow =
      if_ind (All (KeepsRow entry)) world.stopping (λ e. tt)
        (λ e.
          if_ind (All (KeepsRow entry))
            (is_start_or_update entry.event_type && run_ended_delivered clock world entry)
            (λ e. suppress-KeepsRow)
            (λ e.
              if_ind (All (KeepsRow entry)) (not (has_url clock world)) (λ e. block-KeepsRow _ _)
                (λ e.
                  if_ind (All (KeepsRow entry)) (not (family_enabled clock world entry))
                    (λ e. block-KeepsRow _ _)
                    (λ e.
                      if_ind (All (KeepsRow entry)) (not (world.is_publishable entry.event))
                        (λ e. block-KeepsRow _ _)
                        (λ e. wait_or_attempt-KeepsRow (waits_until clock world entry.event))))))
