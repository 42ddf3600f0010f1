-- ===== src/Application.antt =====
-- The service behind the tools of an agent (src/application/agent-bridge-service.ts): sending,
-- asking a peer, continuing and reading a conversation, and replies. `clock` is the instant that the
-- code reads where its caller gives none.
pub mod Conversations
pub mod Results
pub mod Sending
pub mod Threads
mod Tests
use balcony_agent_bridge.Base.{
  ℕ, suc, ◌+◌, ◌*◌, String, Bool, true, false, not, Option, none, some, List, [], ◌∷◌, any,
  if◌then◌else◌, is_some, ◌==◌,
}
use balcony_agent_bridge.Time.{to_iso_string}
use balcony_agent_bridge.Contracts.Payload.{MessagePayload}
use balcony_agent_bridge.Contracts.Identifiers.{system_id}
use balcony_agent_bridge.Contracts.Envelope.{Envelope, MessageKind, Platform}
use balcony_agent_bridge.Contracts.Envelope.Creation.{
  EnvelopeInput, non_empty, or_else, draws_of, create_envelope,
}
use balcony_agent_bridge.Store.Schema.{
  OutboxState, InboxState, Database, validation, state_transition, Result, ok, err, ◌>>=◌,
}
use balcony_agent_bridge.Store.Outbox.{EnqueueResult, Comparison, no_options, enqueue_envelope}
use balcony_agent_bridge.Store.Claims.{ClaimedMessage, claim_inbox, renew_claim}
use balcony_agent_bridge.Store.Settlement.{
  Outcome, acknowledge, Verdict, outcome_of, target_state, settle_inbox_with_reply,
}
use balcony_agent_bridge.Store.Queries.{
  InboxItem, OutboxItem, get_inbox_message, get_outbox_message, list_inbox,
}
use balcony_agent_bridge.Bridge.Inbound.{BridgeConfig}

-- Seven days, in milliseconds.
abbrev pub week : ℕ
week = 7 * 24 * 60 * 60 * 1000

-- `SendMessageInput`
pub record SendInput : Type 0 where
  pub idempotency_key : String
  pub target_node_id : String
  pub kind : MessageKind
  pub stream_id : String
  pub payload : MessagePayload
  pub conversation_id : Option String
  pub correlation_id : Option String
  pub causation_id : Option String
  pub sequence_number : Option ℕ
  pub expires_at_utc : Option String
  pub now : Option ℕ

-- What a sender is told; a message that is told is accepted.
pub record SendResult : Type 0 where
  pub duplicate : Bool
  pub message_id : String
  pub state : OutboxState
  pub conversation_id : String
  pub queued_at_utc : String

-- The input of `settleWithReply`.
pub record SettleInput : Type 0 where
  pub original_message_id : String
  pub consumer_id : String
  pub claim_token : String
  pub outcome : Verdict
  pub idempotency_key : String
  pub kind : MessageKind
  pub payload : MessagePayload
  pub reason : Option String

abbrev pub instant_or : Option ℕ → ℕ → ℕ
instant_or none clock = clock
instant_or (some now) clock = now

abbrev pub sequence_of : Option ℕ → ℕ
sequence_of none = 0
sequence_of (some n) = n

-- `createEnvelope` as the service calls it: a refusal throws, and the draws are counted.
unfoldable pub created : Platform → EnvelopeInput → ℕ → Database → Result (Envelope × Database)
created platform input now db = elim (create_envelope platform input now db.draws) [
  | none ↦ err (validation "BridgeEnvelope")
  | some e ↦ ok (e, record db { draws = draws_of input db.draws })
]

module _ (platform : Platform) (config : BridgeConfig) where
  -- `requireAuthorizedRemoteNode`
  unfoldable pub require_authorized_remote_node : String → Result String
  require_authorized_remote_node value = elim (system_id value) [
    | none ↦ err (state_transition "Target node is not authorized")
    | some peer ↦
        if peer == config.system_id
        then err (state_transition "Target node is not authorized")
        else if any (λ node. node == peer) config.authorized_node_ids
        then ok peer
        else err (state_transition "Target node is not authorized")
  ]

  abbrev pub send_input : SendInput → String → ℕ → EnvelopeInput
  send_input input target clock = record {
    idempotency_key = input.idempotency_key;
    origin_system = config.system_id;
    target_system = target;
    kind = input.kind;
    conversation_id = non_empty input.conversation_id;
    correlation_id = input.correlation_id;
    causation_id = input.causation_id;
    stream_id = input.stream_id;
    sequence_number = input.sequence_number;
    expires_at_utc = some (or_else input.expires_at_utc (to_iso_string (clock + week)));
    payload = input.payload;
  }

  -- What `send` answers once the message is accepted.
  unfoldable pub read_back : EnqueueResult → Option OutboxItem → Result SendResult
  read_back result none = err (state_transition "Accepted outbox message could not be read back")
  read_back result (some item) = ok (record {
    duplicate = result.duplicate;
    message_id = result.message_id;
    state = result.state;
    conversation_id = item.envelope.conversation_id;
    queued_at_utc = item.envelope.created_at_utc;
  })

  -- `send`
  unfoldable pub send : SendInput → ℕ → Database → Result (SendResult × Database)
  send input clock db = do
    target ← require_authorized_remote_node input.target_node_id
    (e, drawn) ← created platform (send_input input target clock) (instant_or input.now clock) db
    let comparison : Comparison = record {
      match_conversation_id = is_some input.conversation_id;
      match_expires_at_utc = is_some input.expires_at_utc;
    }
    (result, db') ← enqueue_envelope e comparison drawn
    answer ← read_back result (get_outbox_message result.message_id db')
    ok (answer, db')

  abbrev pub reply_input :
      Envelope → String → String → MessageKind → MessagePayload → ℕ → EnvelopeInput
  reply_input original target key kind payload now = record {
    idempotency_key = key;
    origin_system = config.system_id;
    target_system = target;
    kind = kind;
    conversation_id = some original.conversation_id;
    correlation_id = original.correlation_id;
    causation_id = some original.message_id;
    stream_id = original.stream_id;
    sequence_number = some (sequence_of original.sequence_number + 1);
    expires_at_utc = some (to_iso_string (now + week));
    payload = payload;
  }

  -- `createReplyEnvelope`
  unfoldable pub create_reply_envelope :
      String → String → MessageKind → MessagePayload → ℕ → Database → Result (Envelope × Database)
  create_reply_envelope original_id key kind payload now db =
      elim (get_inbox_message original_id db) [
        | none ↦ err (state_transition "Cannot reply because inbox message does not exist")
        | some original ↦ do
          target ← require_authorized_remote_node original.envelope.origin_system
          created platform (reply_input original.envelope target key kind payload now) now db
      ]

  -- `reply`
  unfoldable pub reply :
      String
      → String
      → MessageKind
      → MessagePayload
      → ℕ
      → Database
      → Result ((EnqueueResult × String) × Database)
  reply original_id key kind payload clock db = do
    (e, drawn) ← create_reply_envelope original_id key kind payload clock db
    (result, db') ← enqueue_envelope e no_options drawn
    ok ((result, e.created_at_utc), db')

  -- `settleWithReply`
  unfoldable pub settle_with_reply : SettleInput → ℕ → Database → Result (EnqueueResult × Database)
  settle_with_reply input now db = do
    (e, drawn) ←
        create_reply_envelope input.original_message_id input.idempotency_key input.kind
          input.payload now db
    settle_inbox_with_reply platform input.original_message_id input.consumer_id input.claim_token
        input.outcome e input.reason now drawn

  -- `readMessage`
  unfoldable pub read_message : String → Database → Result InboxItem
  read_message id db = elim (get_inbox_message id db) [
    | none ↦ err (state_transition "Inbox message does not exist")
    | some item ↦ ok item
  ]
