-- ===== src/Webhook/Model.antt =====
-- packages/agent/src/externalWebhookDispatch.ts: a row of the outbox. Of an event the fields stand
-- that the delivery reads.
use tirion_watch.Prelude.{ℕ, String, Option, Bool, true, false}

pub data DeliveryState : Type 0 where
  pending retry blocked delivered : DeliveryState

pub data EventType : Type 0 where
  run_start run_update run_ended commit_attributed : EventType

pub data RunState : Type 0 where
  running settling : RunState

pub record RunEnded : Type 0 where
  pub run_id : String
  pub coding_harness : String
  pub runtime : String
  pub basis : String
  pub delayed : Bool
  pub ended_at : String

-- The payload of an event, by its kind; the text is its `eventId`.
pub data WebhookEvent : Type 0 where
  started : String → String → WebhookEvent
  updated : String → String → RunState → WebhookEvent
  ended : String → RunEnded → WebhookEvent
  attributed : String → String → WebhookEvent

pub record WebhookOutboxEntry : Type 0 where
  pub key : String
  pub event : WebhookEvent
  pub event_type : EventType
  pub subject_id : String
  pub payload_hash : String
  pub delivery_state : DeliveryState
  pub attempts : ℕ
  pub queued_at : String
  pub first_attempt_at : Option String
  pub last_attempt_at : Option String
  pub delivered_at : Option String
  pub next_attempt_at : Option String
  pub last_error_code : Option String
  pub created_at : String
  pub updated_at : String

-- `Date.parse(text)` and `new Date(ms).toISOString()` of the host; `none` is `NaN`.
pub record Clock : Type 0 where
  pub parse : String → Option ℕ
  pub to_iso : ℕ → String

abbrev pub is_delivered : DeliveryState → Bool
is_delivered delivered = true
is_delivered _ = false

abbrev pub is_pending : DeliveryState → Bool
is_pending pending = true
is_pending _ = false

abbrev pub is_retry : DeliveryState → Bool
is_retry retry = true
is_retry _ = false

abbrev pub is_blocked : DeliveryState → Bool
is_blocked blocked = true
is_blocked _ = false
