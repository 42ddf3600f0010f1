-- ===== src/Application/Results.antt =====
-- What has become of a task (`getAgentResult` of src/application/agent-bridge-service.ts).
use balcony_agent_bridge.Base.{
  String, Bool, true, false, ◌&&◌, Option, none, some, if◌then◌else◌, is_some, ◌==◌,
}
use balcony_agent_bridge.Contracts.Payload.{CoordinationResult}
use balcony_agent_bridge.Contracts.Envelope.{task_request, same_kind}
use balcony_agent_bridge.Store.Schema.{
  OutboxState, sent, quarantined, expired, InboxState, Database, state_transition, Result, ok, err,
  ◌>>◌, guard,
}
use balcony_agent_bridge.Store.Queries.{
  InboxItem, OutboxItem, get_outbox_message, find_inbox_reply_to,
}
use balcony_agent_bridge.Bridge.Inbound.{BridgeConfig}

-- What `getAgentResult` answers.
pub record TaskResult : Type 0 where
  pub conversation_id : String
  pub status : String
  pub delivery_state : OutboxState
  pub result : Option InboxItem

abbrev pub outcome_or_completed : Option CoordinationResult → String
outcome_or_completed none = "completed"
outcome_or_completed (some metadata) = metadata.outcome

abbrev pub is_quarantined_item : InboxState → Bool
is_quarantined_item InboxState.quarantined = true
is_quarantined_item _ = false

abbrev pub waiting_status : OutboxState → String
waiting_status sent = "waiting"
waiting_status quarantined = "failed"
waiting_status expired = "failed"
waiting_status _ = "queued"

module _ (config : BridgeConfig) where
  unfoldable pub task_result_of : OutboxItem → Option InboxItem → Result TaskResult
  task_result_of request none = ok (record {
    conversation_id = request.envelope.conversation_id;
    status = waiting_status request.state;
    delivery_state = request.state;
    result = none;
  })
  task_result_of request (some reply) =
      if reply.envelope.origin_system == request.envelope.target_system
        && reply.envelope.target_system == config.system_id
        && reply.envelope.conversation_id == request.envelope.conversation_id
      then ok (record {
        conversation_id = request.envelope.conversation_id;
        status =
            if is_quarantined_item reply.state
            then "failed"
            else outcome_or_completed reply.envelope.payload.coordination_result;
        delivery_state = request.state;
        result = some reply;
      })
      else err (state_transition "Coordination task has a result from an unexpected route")

  -- `getAgentResult`
  unfoldable pub get_agent_result : String → Database → Result TaskResult
  get_agent_result task db = elim (get_outbox_message task db) [
    | none ↦ err (state_transition "Coordination task does not exist")
    | some request ↦ do
      guard
          (same_kind request.envelope.kind task_request
            && is_some request.envelope.payload.coordination_request)
          (state_transition "Coordination task does not exist")
      task_result_of request (
          find_inbox_reply_to task request.envelope.target_system config.system_id
            request.envelope.conversation_id db)
  ]
