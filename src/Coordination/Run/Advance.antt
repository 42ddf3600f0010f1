-- ===== src/Coordination/Run/Advance.antt =====
-- How a claimed consultation advances (`processClaim`, `runOnce` of
-- src/coordination/autonomous-consultation-coordinator.ts).
use balcony_agent_bridge.Base.{
  ℕ, suc, Bool, true, false, Option, none, some, List, [], ◌∷◌, if◌then◌else◌, text_le,
}
use balcony_agent_bridge.Time.{to_iso_string}
use balcony_agent_bridge.Contracts.Envelope.{Platform}
use balcony_agent_bridge.Store.Schema.{
  RunState, pending_child, needs_information, waiting_peer, completed, failed, ConsultationRun,
  Database, Result, ok, err,
}
use balcony_agent_bridge.Store.Claims.{ClaimedMessage, claim_autonomous_consultation_inbox}
use balcony_agent_bridge.Bridge.Outbound.{code_of}
use balcony_agent_bridge.Coordination.{M, pure, stored, ◌>>=◌, ◌>>◌, Coordinator}
use balcony_agent_bridge.Coordination.Run.{
  World, fails_run, is_dispatch_rejection, complete, settle_failure, settle_initial_failure, fail,
}
use balcony_agent_bridge.Coordination.Run.Begin.{begin_run}
use balcony_agent_bridge.Coordination.Run.Turn.{execute_child, collect_local_evidence}
use balcony_agent_bridge.Coordination.Run.Peer.{advance_peer_wait}

module _ (platform : Platform) (c : Coordinator) (w : World) where
  unfoldable pub advance_by_state : RunState → ConsultationRun → ClaimedMessage → ℕ → M Bool
  advance_by_state pending_child run claim now =
      execute_child platform c w run claim now >> pure true
  advance_by_state needs_information run claim now =
      collect_local_evidence platform c w run claim now >> pure true
  advance_by_state waiting_peer run claim now =
      advance_peer_wait platform c w run.peer_request run.nested_task_id run claim now
  advance_by_state completed run claim now = complete platform c run claim now >> pure true
  advance_by_state failed run claim now = settle_failure platform c run claim now >> pure true

  -- The second part of `processClaim`.
  unfoldable pub advance_run : ConsultationRun → ClaimedMessage → ℕ → M Bool
  advance_run run claim now =
      if text_le run.deadline_at_utc (to_iso_string now)
      then (fail platform c run claim "CONSULTATION_TIMED_OUT" now >> pure true)
      else advance_by_state run.state run claim now

  -- Its handlers: an error of policy fails the run, others are thrown on.
  unfoldable pub or_fail :
      ConsultationRun → ClaimedMessage → ℕ → Result Bool × Database → Result Bool × Database
  or_fail run claim now (ok done, db) = (ok done, db)
  or_fail run claim now (err thrown, db) =
      if fails_run thrown
      then (fail platform c run claim (code_of thrown) now >> pure true) db
      else (err thrown, db)

  unfoldable pub with_run :
      ClaimedMessage → ℕ → Result (Option ConsultationRun) × Database → Result Bool × Database
  with_run claim now (ok none, db) = (ok false, db)
  with_run claim now (ok (some run), db) = or_fail run claim now (advance_run run claim now db)
  with_run claim now (err thrown, db) =
      if is_dispatch_rejection thrown
      then (settle_initial_failure platform c claim (code_of thrown) now >> pure true) db
      else (err thrown, db)

  -- `processClaim`
  unfoldable pub process_claim : ClaimedMessage → ℕ → M Bool
  process_claim claim now db = with_run claim now (begin_run platform c claim now db)

  unfoldable pub process_claims : List ClaimedMessage → ℕ → M ℕ
  process_claims [] now = pure 0
  process_claims (claim ∷ claims) now = do
    progressed ← process_claim claim now
    rest ← process_claims claims now
    pure (if progressed then suc rest else rest)

  -- `runOnce`
  unfoldable pub run_once : ℕ → M ℕ
  run_once now = do
    claims ← stored (
        claim_autonomous_consultation_inbox platform c.consumer_id 1 c.policy.claim_lease_seconds
          now)
    process_claims claims now
