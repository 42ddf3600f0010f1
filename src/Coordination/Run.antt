-- ===== src/Coordination/Run.antt =====
-- One pass of the coordinator (`runOnce`, `processClaim` and the parts that it calls). The child
-- process and the evidence provider are parameters; `operation_time` is the clock that the code
-- reads after they return.
pub mod Begin
pub mod Turn
pub mod Peer
pub mod Advance
use balcony_agent_bridge.Base.{
  ℕ, suc, ◌+◌, ◌-◌, ◌*◌, ◌/◌, String, Bool, true, false, not, ◌&&◌, ◌||◌, Option, none, some, List,
  [], ◌∷◌, ◌++◌, any, ltb, leb, min, max, if◌then◌else◌, is_some, is_text, text_le, take_units,
  ◌==◌, ◌+++◌, decimal,
}
use balcony_agent_bridge.Time.{to_iso_string, add_seconds, date_parse}
use balcony_agent_bridge.Contracts.Payload.{
  ReadOnlyDispatch, CoordinationResult, ConsultationContext, MessagePayload,
}
use balcony_agent_bridge.Contracts.Envelope.{
  Envelope, task_request, task_result, same_kind, agent_coordination, Platform,
}
use balcony_agent_bridge.Contracts.Evidence.{EvidenceBundle, PeerInformationRequest}
use balcony_agent_bridge.Store.Schema.{
  InboxState, RunState, pending_child, needs_information, waiting_peer, completed, failed,
  ConsultationRun, Database, Error, dispatch_rejected, evidence_policy, codex_execution, Result, ok,
  err,
}
use balcony_agent_bridge.Store.Claims.{ClaimedMessage, claim_autonomous_consultation_inbox}
use balcony_agent_bridge.Store.Settlement.{Verdict, Outcome, acknowledge}
use balcony_agent_bridge.Store.Authorization.Access as Access
use balcony_agent_bridge.Store.Authorization.Access.{authorize_claimed_resource_access}
use balcony_agent_bridge.Store.Status.{record_consultation_coordinator_heartbeat}
use balcony_agent_bridge.Store.Consultation.{
  EnsureResult, ensure_consultation_run, save_consultation_run,
}
use balcony_agent_bridge.Store.Consultation.Contract.{consultation_request_fingerprint}
use balcony_agent_bridge.Store.Queries.{
  InboxItem, OutboxItem, get_outbox_message, find_inbox_reply_to,
}
use balcony_agent_bridge.Bridge.Outbound.{code_of}
use balcony_agent_bridge.Application.{SendInput, SettleInput, send, settle_with_reply}
use balcony_agent_bridge.Coordination.{
  M, pure, throw, of_result, stored, ignored, after, ◌>>=◌, ◌>>◌, Coordinator,
}
use balcony_agent_bridge.Coordination.Evidence.{
  parsed_bundle, empty_evidence, merge_evidence, peer_evidence_item, build_evidence_references,
}
use balcony_agent_bridge.Coordination.Child as Child
use balcony_agent_bridge.Coordination.Child.{ChildTurn, parse_child_result}

-- What the child is asked, and within which bounds.
pub record ChildInput : Type 0 where
  pub subject : String
  pub request : String
  pub evidence : EvidenceBundle
  pub timeout_seconds : ℕ
  pub max_output_bytes : ℕ

-- `EvidenceCollectionInput`
pub record CollectionInput : Type 0 where
  pub project : String
  pub project_root : String
  pub paths : List String
  pub now : ℕ

-- What a pass meets: the child's answer, the collected evidence, the clock.
pub record World : Type 0 where
  pub execute : ChildInput → Result (Option ChildTurn)
  pub collect : CollectionInput → Result EvidenceBundle
  pub operation_time : ℕ → ℕ

abbrev pub is_failed : RunState → Bool
is_failed failed = true
is_failed _ = false

abbrev pub state_text : RunState → String
state_text pending_child = "pending_child"
state_text needs_information = "needs_information"
state_text waiting_peer = "waiting_peer"
state_text completed = "completed"
state_text failed = "failed"

abbrev number_or : ℕ → Option ℕ → ℕ
number_or n none = n
number_or n (some m) = m

abbrev timeout_of : Option ReadOnlyDispatch → ℕ
timeout_of none = 300
timeout_of (some d) = number_or 300 d.timeout_seconds

-- `withoutTransientRequests`
unfoldable pub without_transient_requests : ConsultationRun → ConsultationRun
without_transient_requests r = record r {
  requested_evidence = none;
  peer_request = none;
  nested_task_id = none;
  next_attempt_at_utc = none;
}

-- The errors with which `processClaim` fails the run; others are thrown.
abbrev pub fails_run : Error → Bool
fails_run (evidence_policy text) = true
fails_run (dispatch_rejected text) = true
fails_run (codex_execution code) = not (code == "CODEX_ABORTED")
fails_run _ = false

abbrev pub is_dispatch_rejection : Error → Bool
is_dispatch_rejection (dispatch_rejected text) = true
is_dispatch_rejection _ = false

abbrev pub is_quarantined : InboxState → Bool
is_quarantined InboxState.quarantined = true
is_quarantined _ = false

abbrev pub is_completed_result : Option CoordinationResult → Bool
is_completed_result none = false
is_completed_result (some r) = r.outcome == "completed"

-- The payload of a result.
abbrev pub result_payload : Option String → String → String → MessagePayload
result_payload project subject body = record {
  subject = take_units 200 subject;
  body = body;
  project = project;
  repository = none;
  task_reference = none;
  evidence = [];
  dispatch = none;
  coordination_request = none;
  coordination_result = none;
  consultation_context = none;
}

abbrev pub coordination_result : String → String → CoordinationResult
coordination_result id outcome = record {
  protocol_version = "1.0";
  request_message_id = id;
  outcome = outcome;
}

module _ (platform : Platform) (c : Coordinator) where
  -- `release`
  unfoldable pub release : ClaimedMessage → RunState → ℕ → M (Unit {0})
  release claim reason now = ignored (
      stored (
        acknowledge platform claim.envelope.message_id c.consumer_id claim.claim_token Outcome.retry
          (some (state_text reason)) now))

  abbrev pub completion : ConsultationRun → ClaimedMessage → String → SettleInput
  completion run claim answer =
      let plain =
        result_payload (some run.project)
          ("Consultation completed: " +++ claim.envelope.payload.subject) answer in
      record {
        original_message_id = run.request_message_id;
        consumer_id = c.consumer_id;
        claim_token = claim.claim_token;
        outcome = Verdict.processed;
        idempotency_key = "consultation-result:" +++ run.request_message_id;
        kind = task_result;
        payload = record plain {
          evidence = build_evidence_references platform run;
          coordination_result = some (coordination_result run.request_message_id "completed");
        };
        reason = none;
      }

  -- `complete`
  unfoldable pub complete : ConsultationRun → ClaimedMessage → ℕ → M (Unit {0})
  complete run claim now = elim run.final_answer [
    | none ↦ throw (dispatch_rejected "The completed consultation has no final answer.")
    | some answer ↦
        ignored (stored (settle_with_reply platform c.config (completion run claim answer) now))
  ]

  abbrev pub failure : ConsultationRun → ClaimedMessage → SettleInput
  failure run claim =
      let plain =
        result_payload (some run.project)
          ("Consultation stopped: " +++ claim.envelope.payload.subject)
          "The bounded consultation stopped at a configured safety limit or evidence boundary." in
      record {
        original_message_id = run.request_message_id;
        consumer_id = c.consumer_id;
        claim_token = claim.claim_token;
        outcome = Verdict.rejected;
        idempotency_key = "consultation-failure:" +++ run.request_message_id;
        kind = task_result;
        payload = record plain {
          coordination_result = some (coordination_result run.request_message_id "rejected");
        };
        reason = run.error_code;
      }

  -- `settleFailure`
  unfoldable pub settle_failure : ConsultationRun → ClaimedMessage → ℕ → M (Unit {0})
  settle_failure run claim now =
      ignored (stored (settle_with_reply platform c.config (failure run claim) now))

  abbrev pub initial_failure : ClaimedMessage → String → SettleInput
  initial_failure claim code =
      let plain =
        result_payload none ("Consultation stopped: " +++ claim.envelope.payload.subject)
          "The bounded consultation stopped at a configured project or evidence boundary." in
      record {
        original_message_id = claim.envelope.message_id;
        consumer_id = c.consumer_id;
        claim_token = claim.claim_token;
        outcome = Verdict.rejected;
        idempotency_key = "consultation-failure:" +++ claim.envelope.message_id;
        kind = task_result;
        payload = record plain {
          coordination_result = some (coordination_result claim.envelope.message_id "rejected");
        };
        reason = some code;
      }

  -- `settleInitialFailure`
  unfoldable pub settle_initial_failure : ClaimedMessage → String → ℕ → M (Unit {0})
  settle_initial_failure claim code now =
      ignored (stored (settle_with_reply platform c.config (initial_failure claim code) now))

  -- `saveConsultationRun` of a run at its own version.
  unfoldable pub save : ConsultationRun → ℕ → M ConsultationRun
  save run now = stored (save_consultation_run platform run run.version now)

  abbrev pub as_failed : ConsultationRun → String → ConsultationRun
  as_failed run code = record (without_transient_requests run) {
    state = failed;
    error_code = some code;
  }

  -- `fail`
  unfoldable pub fail : ConsultationRun → ClaimedMessage → String → ℕ → M (Unit {0})
  fail run claim code now =
      if is_failed run.state
      then settle_failure run claim now
      else (do failed_run ← save (as_failed run code) now; settle_failure failed_run claim now)

-- `recordHeartbeat`
unfoldable pub record_coordinator_heartbeat :
    Coordinator → String → Option String → ℕ → Database → Database
record_coordinator_heartbeat c = record_consultation_coordinator_heartbeat c.consumer_id
