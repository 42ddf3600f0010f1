-- ===== src/Coordination/Run/Peer.antt =====
-- A run that waits for the peer (`advancePeerWait` of
-- src/coordination/autonomous-consultation-coordinator.ts).
use balcony_agent_bridge.Base.{
  ℕ, ◌+◌, String, Bool, true, false, not, ◌&&◌, Option, none, some, [], ◌∷◌, ◌++◌, any, leb,
  if◌then◌else◌, is_text, ◌==◌, ◌+++◌, decimal,
}
use balcony_agent_bridge.Time.{to_iso_string, add_seconds}
use balcony_agent_bridge.Contracts.Payload.{MessagePayload}
use balcony_agent_bridge.Contracts.Envelope.{
  Envelope, task_request, same_kind, agent_coordination, Platform,
}
use balcony_agent_bridge.Contracts.Evidence.{PeerInformationRequest}
use balcony_agent_bridge.Store.Schema.{ConsultationRun}
use balcony_agent_bridge.Store.Claims.{ClaimedMessage}
use balcony_agent_bridge.Store.Consultation.Contract.{consultation_request_fingerprint}
use balcony_agent_bridge.Store.Queries.{
  InboxItem, OutboxItem, get_outbox_message, find_inbox_reply_to,
}
use balcony_agent_bridge.Application.{SendInput, send}
use balcony_agent_bridge.Coordination.{M, pure, of_result, stored, ◌>>=◌, ◌>>◌, Coordinator}
use balcony_agent_bridge.Coordination.Evidence.{parsed_bundle, peer_evidence_item}
use balcony_agent_bridge.Coordination.Run.{
  World, is_quarantined, is_completed_result, release, save, fail,
}
use balcony_agent_bridge.Coordination.Run.Turn.{add_evidence}

-- The reply that a nested request waits for, checked once more.
abbrev pub is_peer_result : String → ConsultationRun → Envelope → InboxItem → Bool
is_peer_result system run nested reply =
    nested.stream_id == agent_coordination
    && not (is_quarantined reply.state)
    && reply.envelope.origin_system == nested.target_system
    && reply.envelope.target_system == system
    && reply.envelope.stream_id == agent_coordination
    && reply.envelope.conversation_id == nested.conversation_id
    && is_text reply.envelope.correlation_id run.root_request_id
    && is_text reply.envelope.payload.project run.project

abbrev pub nested_payload : ConsultationRun → PeerInformationRequest → String → MessagePayload
nested_payload run request fingerprint = record {
  subject = request.subject;
  body = request.request;
  project = some run.project;
  repository = none;
  task_reference = none;
  evidence = [];
  dispatch = some (record {
    executor = "codex_cli";
    access = "read_only";
    timeout_seconds = none;
    evidence_mode = some "pinned_git";
  });
  coordination_request =
      some
        (record { protocol_version = "1.0"; intent = request.intent; access_mode = "read_only" });
  coordination_result = none;
  consultation_context = some (record {
    protocol_version = "1.0";
    root_request_id = run.root_request_id;
    parent_request_id = some run.request_message_id;
    depth = run.depth + 1;
    max_depth = run.max_depth;
    ancestry_fingerprints = run.ancestry_fingerprints ++ fingerprint ∷ [];
  });
}

-- The request to the peer; it gets an answer before the run's deadline or never.
abbrev pub nested_request :
    ConsultationRun → ClaimedMessage → PeerInformationRequest → String → ℕ → SendInput
nested_request run claim request fingerprint now = record {
  idempotency_key =
      "consultation-peer:" +++ run.request_message_id +++ ":" +++ decimal 16 run.round_count;
  target_node_id = claim.envelope.origin_system;
  kind = task_request;
  stream_id = agent_coordination;
  payload = nested_payload run request fingerprint;
  conversation_id = none;
  correlation_id = some run.root_request_id;
  causation_id = some run.request_message_id;
  sequence_number = some 0;
  expires_at_utc = some run.deadline_at_utc;
  now = some now;
}

module _ (platform : Platform) (c : Coordinator) (w : World) where
  abbrev pub waiting : ConsultationRun → String → ℕ → ConsultationRun
  waiting run nested now = record run {
    nested_task_id = some nested;
    next_attempt_at_utc =
        some (to_iso_string (add_seconds now c.policy.peer_poll_interval_seconds));
  }

  -- The first part of `advancePeerWait`: the request is not sent yet.
  unfoldable pub ask_peer : PeerInformationRequest → ConsultationRun → ClaimedMessage → ℕ → M Bool
  ask_peer request run claim now =
      let fingerprint =
        consultation_request_fingerprint platform run.project request.subject request.request in
      if leb run.max_depth run.depth
      then (fail platform c run claim "CONSULTATION_DEPTH_LIMIT" now >> pure true)
      else if any (λ f. f == fingerprint) run.ancestry_fingerprints
      then (fail platform c run claim "CONSULTATION_CYCLE_DETECTED" now >> pure true)
      else (do
        nested ←
            stored (send platform c.config (nested_request run claim request fingerprint now) now)
        next ← save platform c (waiting run nested.message_id now) now
        release platform c claim next.state now
        pure true)

  -- Its second part: the request was sent.
  unfoldable pub take_reply :
      Envelope → InboxItem → ConsultationRun → ClaimedMessage → ℕ → M (Unit {0})
  take_reply nested reply run claim now =
      if not (is_peer_result c.config.system_id run nested reply)
      then fail platform c run claim "CONSULTATION_PEER_RESULT_INVALID" now
      else if not (is_completed_result reply.envelope.payload.coordination_result)
      then fail platform c run claim "CONSULTATION_PEER_FAILED" now
      else (let item = peer_evidence_item platform reply.envelope in
          do
            added ← of_result (
                parsed_bundle platform (record {
                  schema_version = "1.0";
                  project = run.project;
                  generated_at_utc = to_iso_string now;
                  total_bytes = item.byte_length;
                  git_snapshot = none;
                  items = item ∷ [];
                }))
            add_evidence platform c w added run claim now)

  unfoldable pub poll_peer :
      String → Envelope → Option InboxItem → ConsultationRun → ClaimedMessage → ℕ → M Bool
  poll_peer nested_id nested none run claim now = do
    next ← save platform c (waiting run nested_id now) now
    release platform c claim next.state now
    pure false
  poll_peer nested_id nested (some reply) run claim now =
      take_reply nested reply run claim now >> pure true

  unfoldable pub await_peer :
      String → Option OutboxItem → ConsultationRun → ClaimedMessage → ℕ → M Bool
  await_peer nested_id none run claim now db =
      (fail platform c run claim "CONSULTATION_PEER_RESULT_INVALID" now >> pure true) db
  await_peer nested_id (some nested) run claim now db =
      if same_kind nested.envelope.kind task_request
      then poll_peer nested_id nested.envelope
          (find_inbox_reply_to nested_id nested.envelope.target_system c.config.system_id
            nested.envelope.conversation_id db)
          run claim now db
      else (fail platform c run claim "CONSULTATION_PEER_RESULT_INVALID" now >> pure true) db

  -- `advancePeerWait`
  unfoldable pub advance_peer_wait :
      Option PeerInformationRequest → Option String → ConsultationRun → ClaimedMessage → ℕ → M Bool
  advance_peer_wait none nested run claim now db =
      (fail platform c run claim "CONSULTATION_PEER_REQUEST_INVALID" now >> pure true) db
  advance_peer_wait (some request) none run claim now db = ask_peer request run claim now db
  advance_peer_wait (some request) (some nested_id) run claim now db =
      await_peer nested_id (get_outbox_message nested_id db) run claim now db
