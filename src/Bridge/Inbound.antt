-- ===== src/Bridge/Inbound.antt =====
-- Incoming deliveries (`processInboundDelivery` of src/bridge/worker.ts). The broker and the
-- failures of SQLite are parameters: a settlement of a delivery fails with an error code or not.
pub mod Custody
mod Tests
use balcony_agent_bridge.Base.{
  ℕ, String, Bool, true, false, not, ◌&&◌, ◌||◌, Option, none, some, List, any, max, ◌==◌,
  if◌then◌else◌, is_some,
}
use balcony_agent_bridge.Time.{to_iso_string}
use balcony_agent_bridge.Contracts.Envelope.{Envelope, Platform}
use balcony_agent_bridge.Store.Schema.{Database}
use balcony_agent_bridge.Store.Inbox.{
  PersistStatus, inserted, duplicate, collision, persist_incoming,
}
use balcony_agent_bridge.Store.Deliveries.{record_delivery_attempt}

-- The fields of the configuration that the handler reads.
pub record BridgeConfig : Type 0 where
  pub system_id : String
  pub authorized_node_ids : List String

-- `InboundDelivery`; the body is what `parseEnvelope` gives, or nothing where it throws.
pub record InboundDelivery : Type 0 where
  pub body : Option Envelope
  pub broker_message_id : String
  pub delivery_count : ℕ
  pub session_id : Option String

-- What the handler asks of the broker.
pub data Settlement : Type 0 where
  complete abandon : Settlement
  dead_letter : String → Settlement

-- The readings of the clock, in the order of the handler.
pub record Clock : Type 0 where
  pub started : ℕ
  pub received : ℕ
  pub finished : ℕ

-- What a delivery led to: the settlement that was asked for, the database, and whether the handler
-- threw.
pub record Processed : Type 0 where
  pub settlement : Settlement
  pub database : Database
  pub threw : Bool

abbrev pub status_text : PersistStatus → String
status_text inserted = "inserted"
status_text duplicate = "duplicate"
status_text collision = "collision"

-- `delivery.sessionId && delivery.sessionId !== envelope.conversation_id`
abbrev pub session_differs : Option String → Envelope → Bool
session_differs none e = false
session_differs (some session) e = not (session == "") && not (session == e.conversation_id)

module _ (platform : Platform) (config : BridgeConfig) (broker : Settlement → Option String)
    (clock : Clock) where
  -- `recordInboundAttempt`
  unfoldable pub record_inbound_attempt :
      InboundDelivery → String → String → Option String → Database → Database
  record_inbound_attempt delivery message_id outcome error_code =
      record_delivery_attempt platform (record {
        is_outbound = false;
        message_id = message_id;
        attempt_number = max 1 delivery.delivery_count;
        started_at_utc = to_iso_string clock.started;
        finished_at_utc = to_iso_string clock.finished;
        outcome = outcome;
        error_code = error_code;
      })

  -- A refusal: where the broker fails to dead-letter, the handler throws and records nothing.
  unfoldable pub refuse : InboundDelivery → String → String → Database → Processed
  refuse delivery message_id reason db = elim (broker (dead_letter reason)) [
    | some _ ↦ record { settlement = dead_letter reason; database = db; threw = true }
    | none ↦ record {
      settlement = dead_letter reason;
      database = record_inbound_attempt delivery message_id "dead-lettered" (some reason) db;
      threw = false;
    }
  ]

  -- `deadLetterInvalidEnvelope`, which goes on where the broker fails.
  unfoldable pub dead_letter_invalid_envelope : InboundDelivery → Database → Processed
  dead_letter_invalid_envelope delivery db = record {
    settlement = dead_letter "EnvelopeValidationFailed";
    database =
        record_inbound_attempt delivery delivery.broker_message_id "dead-lettered"
          (some "EnvelopeValidationFailed") db;
    threw = false;
  }

  -- The completion of a delivery whose message the inbox holds.
  unfoldable pub confirm : InboundDelivery → Envelope → PersistStatus → Database → Processed
  confirm delivery e status db = elim (broker complete) [
    | none ↦ record {
      settlement = complete;
      database = record_inbound_attempt delivery e.message_id (status_text status) none db;
      threw = false;
    }
    | some code ↦ record {
      settlement = complete;
      database = record_inbound_attempt delivery e.message_id "settlement-uncertain" (some code) db;
      threw = false;
    }
  ]

  -- After `persistIncoming`.
  unfoldable pub settle_persisted :
      InboundDelivery → Envelope → PersistStatus → Database → Processed
  settle_persisted delivery e collision db =
      refuse delivery e.message_id "MessageIdentityCollision" db
  settle_persisted delivery e inserted db = confirm delivery e inserted db
  settle_persisted delivery e duplicate db = confirm delivery e duplicate db

  -- The call of `persistIncoming`, which fails where SQLite does.
  unfoldable pub take_in : InboundDelivery → Envelope → Option String → Database → Processed
  take_in delivery e (some code) db = record {
    settlement = abandon;
    database = record_inbound_attempt delivery e.message_id "retry" (some code) db;
    threw = false;
  }
  take_in delivery e none db =
      let (status, db') = persist_incoming e delivery.delivery_count clock.received true db in
      settle_persisted delivery e status db'

  -- `processInboundDelivery`
  unfoldable pub process_inbound_delivery : InboundDelivery → Option String → Database → Processed
  process_inbound_delivery delivery failure db = elim delivery.body [
    | none ↦ dead_letter_invalid_envelope delivery db
    | some e ↦
        if not (e.target_system == config.system_id)
        then refuse delivery e.message_id "WrongTargetSystem" db
        else if not (any (λ id. id == e.origin_system) config.authorized_node_ids)
        then refuse delivery e.message_id "UnauthorizedOriginNode" db
        else if session_differs delivery.session_id e
        then refuse delivery e.message_id "SessionMismatch" db
        else take_in delivery e failure db
  ]
