-- ===== src/Application/Conversations.antt =====
-- Asking a peer, continuing a conversation, and reading its state and its items (`askAgent`,
-- `continueAgent`, `getAgentThread` of src/application/agent-bridge-service.ts).
use balcony_agent_bridge.Base.{
  ℕ, suc, String, Bool, true, false, not, ◌&&◌, ◌||◌, Option, none, some, List, [], ◌∷◌, any, max,
  if◌then◌else◌, is_some, is_text, ◌==◌,
}
use balcony_agent_bridge.Contracts.Payload.{ReadOnlyDispatch, CoordinationResult, MessagePayload}
use balcony_agent_bridge.Contracts.Envelope.{
  Envelope, task_request, task_result, same_kind, agent_coordination, Platform,
}
use balcony_agent_bridge.Contracts.Envelope.Creation.{non_empty}
use balcony_agent_bridge.Store.Schema.{
  OutboxState, sent, InboxState, Database, state_transition, idempotency_conflict, Result, ok, err,
  ◌>>=◌, ◌>>◌, guard,
}
use balcony_agent_bridge.Store.Queries.{
  InboxItem, OutboxItem, ConversationItem, get_inbox_message, get_outbox_message,
  get_outbox_by_idempotency, find_initial_coordination_request, list_conversation,
}
use balcony_agent_bridge.Bridge.Inbound.{BridgeConfig}
use balcony_agent_bridge.Application.{SendInput, SendResult, require_authorized_remote_node, send}

-- `AskAgentInput`
pub record AskInput : Type 0 where
  pub idempotency_key : String
  pub target_node_id : String
  pub project_id : String
  pub subject : String
  pub request : String
  pub intent : String
  pub timeout_seconds : ℕ
  pub conversation_id : Option String
  pub expires_at_utc : Option String
  pub evidence_mode : Option String

-- `ContinueAgentInput`
pub record ContinueInput : Type 0 where
  pub idempotency_key : String
  pub previous_result_message_id : String
  pub subject : String
  pub request : String
  pub intent : String
  pub timeout_seconds : ℕ
  pub expires_at_utc : Option String

-- The payload of a request to a peer, which is read only.
abbrev pub request_payload : String → String → String → String → ℕ → Option String → MessagePayload
request_payload project subject request intent timeout evidence_mode = record {
  subject = subject;
  body = request;
  project = some project;
  repository = none;
  task_reference = none;
  evidence = [];
  dispatch = some (record {
    executor = "codex_cli";
    access = "read_only";
    timeout_seconds = some timeout;
    evidence_mode = evidence_mode;
  });
  coordination_request =
      some (record { protocol_version = "1.0"; intent = intent; access_mode = "read_only" });
  coordination_result = none;
  consultation_context = none;
}

abbrev pub is_sent : OutboxState → Bool
is_sent sent = true
is_sent _ = false

-- How far a request has got.
abbrev pub progress_of : OutboxState → String
progress_of s = if is_sent s then "waiting" else "queued"

-- What the caller of `askAgent` or `continueAgent` is told beside the answer of `send`.
pub record AskResult : Type 0 where
  pub request : SendResult
  pub status : String
  pub sequence_number : ℕ

abbrev pub is_open : InboxState → Bool
is_open InboxState.available = true
is_open InboxState.processed = true
is_open _ = false

abbrev pub mode_of : Option ReadOnlyDispatch → Option String
mode_of none = none
mode_of (some d) = non_empty d.evidence_mode

-- `Math.max(-1, …) + 1` of the sequence numbers, a missing one counting as -1.
abbrev pub after_all : List ConversationItem → ℕ
after_all [] = 0
after_all (i ∷ items) =
    max (elim i.envelope.sequence_number [ none ↦ 0 | some n ↦ suc n ]) (after_all items)

abbrev pub next_sequence : Option OutboxItem → List ConversationItem → ℕ
next_sequence none thread = after_all thread
next_sequence (some follow_up) thread = elim follow_up.envelope.sequence_number [
  | none ↦ after_all thread
  | some n ↦ n
]

-- A coordination message of the thread that names another project.
abbrev pub strays : String → ConversationItem → Bool
strays project i =
    (is_some i.envelope.payload.coordination_request
      || is_some i.envelope.payload.coordination_result)
    && is_some i.envelope.payload.project
    && not (is_text i.envelope.payload.project project)

-- Whether the last item is the message.
abbrev pub ends_with : String → List ConversationItem → Bool
ends_with id [] = false
ends_with id (i ∷ []) = i.envelope.message_id == id
ends_with id (i ∷ j ∷ items) = ends_with id (j ∷ items)

abbrev pub not_empty {ℓ} : {A : Type ℓ} → List A → Bool
not_empty [] = false
not_empty (x ∷ xs) = true

module _ (platform : Platform) (config : BridgeConfig) where
  abbrev pub ask_input : AskInput → String → SendInput
  ask_input input target = record {
    idempotency_key = input.idempotency_key;
    target_node_id = target;
    kind = task_request;
    stream_id = agent_coordination;
    payload =
        request_payload input.project_id input.subject input.request input.intent
          input.timeout_seconds (non_empty input.evidence_mode);
    conversation_id = non_empty input.conversation_id;
    correlation_id = none;
    causation_id = none;
    sequence_number = some 0;
    expires_at_utc = non_empty input.expires_at_utc;
    now = none;
  }

  -- The checks of `askAgent` on a conversation that the caller names.
  unfoldable pub check_conversation :
      String → Option String → Option OutboxItem → Database → Result (Unit {0})
  check_conversation key none existing db = ok tt
  check_conversation key (some conversation) (some existing) db =
      guard (existing.envelope.conversation_id == conversation) (idempotency_conflict key)
  check_conversation key (some conversation) none db = do
    items ← list_conversation conversation 1 none db
    guard (not (not_empty items))
        (state_transition "A new coordination request cannot reuse an existing conversation")

  -- `askAgent`
  unfoldable pub ask_agent : AskInput → ℕ → Database → Result (AskResult × Database)
  ask_agent input clock db = do
    target ← require_authorized_remote_node platform config input.target_node_id
    check_conversation input.idempotency_key (non_empty input.conversation_id)
        (get_outbox_by_idempotency target input.idempotency_key db) db
    (request, db') ← send platform config (ask_input input target) clock db
    ok (record { request = request; status = progress_of request.state; sequence_number = 0 }, db')

  abbrev pub continue_input : ContinueInput → Envelope → String → Option String → ℕ → SendInput
  continue_input input previous project mode sequence = record {
    idempotency_key = input.idempotency_key;
    target_node_id = previous.origin_system;
    kind = task_request;
    stream_id = agent_coordination;
    payload =
        request_payload project input.subject input.request input.intent input.timeout_seconds mode;
    conversation_id = some previous.conversation_id;
    correlation_id = none;
    causation_id = some previous.message_id;
    sequence_number = some sequence;
    expires_at_utc = non_empty input.expires_at_utc;
    now = none;
  }

  -- The last part of `continueAgent`, once the result and its request are known.
  unfoldable pub continue_thread :
      ContinueInput
      → Envelope
      → String
      → Option String
      → ℕ
      → Database
      → Result (AskResult × Database)
  continue_thread input previous project mode clock db = do
    thread ←
        list_conversation previous.conversation_id 100
          (some (config.system_id, previous.origin_system)) db
    let follow_up = get_outbox_by_idempotency previous.origin_system input.idempotency_key db
    guard (is_some follow_up || ends_with previous.message_id thread)
        (state_transition "The coordination thread already contains a newer turn")
    guard (not (any (strays project) thread))
        (state_transition "The coordination thread contains more than one project")
    let sequence = next_sequence follow_up thread
    (request, db') ←
        send platform config (continue_input input previous project mode sequence) clock db
    ok (
      record { request = request; status = progress_of request.state; sequence_number = sequence },
      db',
    )

  abbrev pub is_prior_request : Envelope → OutboxItem → Bool
  is_prior_request previous prior =
      same_kind prior.envelope.kind task_request
      && is_some prior.envelope.payload.coordination_request
      && prior.envelope.origin_system == config.system_id
      && prior.envelope.target_system == previous.origin_system
      && prior.envelope.conversation_id == previous.conversation_id

  -- The request that the previous result answers, and its project.
  unfoldable pub continue_request :
      ContinueInput → Envelope → Option OutboxItem → ℕ → Database → Result (AskResult × Database)
  continue_request input previous none clock db =
      err (state_transition "The previous result is not linked to a local coordination request")
  continue_request input previous (some prior) clock db = elim prior.envelope.payload.project [
    | none ↦
        err (state_transition "The previous result is not linked to a local coordination request")
    | some project ↦ do
      guard (is_prior_request previous prior)
          (state_transition "The previous result is not linked to a local coordination request")
      continue_thread input previous project (mode_of prior.envelope.payload.dispatch) clock db
  ]

  abbrev pub is_peer_result : InboxItem → Bool
  is_peer_result previous =
      is_open previous.state
      && previous.authenticated_ingress
      && same_kind previous.envelope.kind task_result
      && any (λ node. node == previous.envelope.origin_system) config.authorized_node_ids

  unfoldable pub continue_result :
      ContinueInput
      → InboxItem
      → Option CoordinationResult
      → ℕ
      → Database
      → Result (AskResult × Database)
  continue_result input previous none clock db =
      err (state_transition "The previous result is not a completed peer coordination result")
  continue_result input previous (some metadata) clock db = do
    guard (is_peer_result previous && metadata.outcome == "completed")
        (state_transition "The previous result is not a completed peer coordination result")
    continue_request input previous.envelope (get_outbox_message metadata.request_message_id db)
        clock db

  -- `continueAgent`
  unfoldable pub continue_agent : ContinueInput → ℕ → Database → Result (AskResult × Database)
  continue_agent input clock db = elim (get_inbox_message input.previous_result_message_id db) [
    | none ↦
        err (state_transition "The previous result is not a completed peer coordination result")
    | some previous ↦
        continue_result input previous previous.envelope.payload.coordination_result clock db
  ]

  -- `getAgentThread`, whose answer shows fields of these items.
  unfoldable pub get_agent_thread : String → ℕ → Database → Result (List ConversationItem)
  get_agent_thread conversation limit db =
      elim (find_initial_coordination_request conversation config.system_id db) [
        | none ↦ err (state_transition "Coordination thread does not exist")
        | some initial ↦
            list_conversation conversation limit
              (some (config.system_id, initial.envelope.target_system)) db
      ]
