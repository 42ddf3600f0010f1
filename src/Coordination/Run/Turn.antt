-- ===== src/Coordination/Run/Turn.antt =====
-- A turn of the child and the evidence that it asks for (`executeChild`, `collectLocalEvidence` of
-- src/coordination/autonomous-consultation-coordinator.ts).
use balcony_agent_bridge.Base.{
  ℕ, ◌+◌, ◌-◌, ◌/◌, String, Option, none, some, List, leb, min, max, if◌then◌else◌, is_some,
}
use balcony_agent_bridge.Time.{date_parse}
use balcony_agent_bridge.Contracts.Envelope.{Platform}
use balcony_agent_bridge.Contracts.Evidence.{EvidenceBundle}
use balcony_agent_bridge.Store.Schema.{
  pending_child, needs_information, waiting_peer, completed, ConsultationRun,
}
use balcony_agent_bridge.Store.Claims.{ClaimedMessage}
use balcony_agent_bridge.Store.Consultation.Contract.{no_paths}
use balcony_agent_bridge.Coordination.{M, of_result, ◌>>=◌, Coordinator}
use balcony_agent_bridge.Coordination.Evidence.{merge_evidence}
use balcony_agent_bridge.Coordination.Child as Child
use balcony_agent_bridge.Coordination.Child.{ChildTurn, parse_child_result}
use balcony_agent_bridge.Coordination.Run.{
  ChildInput, World, timeout_of, without_transient_requests, release, complete, save, fail,
}

abbrev pub child_input : ConsultationRun → ClaimedMessage → ℕ → ℕ → ChildInput
child_input run claim most now = record {
  subject = claim.envelope.payload.subject;
  request = claim.envelope.payload.body;
  evidence = run.evidence;
  timeout_seconds = max 1 (
      min (timeout_of claim.envelope.payload.dispatch)
        ((date_parse run.deadline_at_utc - now) / 1000));
  max_output_bytes = most;
}

-- The run after a turn of the child.
unfoldable pub after_turn : ChildTurn → ConsultationRun → ConsultationRun
after_turn (Child.completed answer paths) run = record (without_transient_requests run) {
  state = completed;
  round_count = run.round_count + 1;
  final_answer = some answer;
  final_evidence_paths = paths;
}
after_turn (Child.needs_information reason requested peer paths) run =
    record (without_transient_requests run) {
      state = if is_some requested then needs_information else waiting_peer;
      round_count = run.round_count + 1;
      requested_evidence = requested;
      peer_request = peer;
    }

abbrev pub with_evidence : EvidenceBundle → ConsultationRun → ConsultationRun
with_evidence evidence run = record (without_transient_requests run) {
  state = pending_child;
  evidence = evidence;
}

module _ (platform : Platform) (c : Coordinator) (w : World) where
  -- What follows a turn of the child that was accepted.
  unfoldable pub finish_turn : ChildTurn → ConsultationRun → ClaimedMessage → ℕ → M (Unit {0})
  finish_turn turn run claim completed_at = do
    next ← save platform c (after_turn turn run) completed_at
    elim turn [
      | Child.completed answer paths ↦ complete platform c next claim completed_at
      | Child.needs_information reason requested peer paths ↦
          release platform c claim next.state completed_at
    ]

  -- `executeChild`
  unfoldable pub execute_child : ConsultationRun → ClaimedMessage → ℕ → M (Unit {0})
  execute_child run claim now =
      if leb run.max_rounds run.round_count
      then fail platform c run claim "CONSULTATION_ROUND_LIMIT" now
      else (do
        output ← of_result (w.execute (child_input run claim c.policy.max_output_bytes now))
        turn ← of_result (parse_child_result platform c.on_windows output run.evidence)
        finish_turn turn run claim (w.operation_time now))

  -- A run that gets more evidence waits for the child again.
  unfoldable pub add_evidence : EvidenceBundle → ConsultationRun → ClaimedMessage → ℕ → M (Unit {0})
  add_evidence added run claim now = do
    evidence ← of_result (merge_evidence platform run.evidence added now)
    next ← save platform c (with_evidence evidence run) now
    release platform c claim next.state now

  unfoldable pub collect_paths :
      Option (List String) → String → ConsultationRun → ClaimedMessage → ℕ → M (Unit {0})
  collect_paths none root run claim now =
      fail platform c run claim "CONSULTATION_EVIDENCE_INVALID" now
  collect_paths (some paths) root run claim now = do
    collected ← of_result (
        w.collect (record { project = run.project; project_root = root; paths = paths; now = now }))
    add_evidence collected run claim (w.operation_time now)

  -- `collectLocalEvidence`
  unfoldable pub collect_local_evidence : ConsultationRun → ClaimedMessage → ℕ → M (Unit {0})
  collect_local_evidence run claim now = elim (c.project_path run.project) [
    | none ↦ fail platform c run claim "CONSULTATION_EVIDENCE_INVALID" now
    | some root ↦
        if no_paths run.requested_evidence
        then fail platform c run claim "CONSULTATION_EVIDENCE_INVALID" now
        else collect_paths run.requested_evidence root run claim now
  ]
