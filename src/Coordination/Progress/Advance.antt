-- ===== src/Coordination/Progress/Advance.antt =====
-- A pass over a claimed run keeps the runs moving (`processClaim` of
-- src/coordination/autonomous-consultation-coordinator.ts).
use balcony_agent_bridge.Coordination.Run.Turn as Turn
use balcony_agent_bridge.Coordination.Run.Peer as Peer
use balcony_agent_bridge.Base.{
  ℕ, String, Bool, Option, none, some, ◌≡◌, refl, inl, inr, arith, Bool-cases, leb, any, text_le,
  ◌==◌,
}
use balcony_agent_bridge.Time.{to_iso_string}
use balcony_agent_bridge.Contracts.Envelope.{Envelope, Platform, same_kind, task_request}
use balcony_agent_bridge.Contracts.Evidence.{PeerInformationRequest}
use balcony_agent_bridge.Store.Schema.{
  RunState, pending_child, needs_information, waiting_peer, completed, failed, ConsultationRun,
  Database, Result, ok, err,
}
use balcony_agent_bridge.Store.Claims.{ClaimedMessage}
use balcony_agent_bridge.Store.Consultation.Contract.{consultation_request_fingerprint}
use balcony_agent_bridge.Store.Queries.{InboxItem, OutboxItem, get_outbox_message}
use balcony_agent_bridge.Application.{send}
use balcony_agent_bridge.Coordination.{stored, Coordinator}
use balcony_agent_bridge.Coordination.Frames.{send-runs}
use balcony_agent_bridge.Coordination.Evidence.{parsed_bundle}
use balcony_agent_bridge.Coordination.Run as Run
use balcony_agent_bridge.Coordination.Run.{World, without_transient_requests}
use balcony_agent_bridge.Coordination.Run.Advance as Advance
use balcony_agent_bridge.Coordination.Run.Turn.{after_turn, with_evidence, child_input}
use balcony_agent_bridge.Coordination.Run.Peer.{waiting, nested_request}
use balcony_agent_bridge.Coordination.Progress.{Moves, Kept}
use balcony_agent_bridge.Coordination.Progress.Steps.{
  saved_as, after-Kept, stored-Kept, save-Kept, release-Kept, complete-Kept, settle_failure-Kept,
  fail-Kept,
}
use balcony_agent_bridge.Coordination.Progress.Turns.{
  failed-Kept, execute_child-Kept, add_evidence-Kept, collect-Kept,
}

module _ (platform : Platform) (c : Coordinator) (w : World) (run : ConsultationRun)
    (start : Database) (claim : ClaimedMessage) where
  waiting-Moves :
      (nested : String) (now : ℕ)
      → run.state ≡ waiting_peer
      → (v : ℕ) (u : String) → Moves run (saved_as (waiting platform c w run nested now) v u)
  waiting-Moves nested now h v u = record {
    message_id = refl;
    conversation = refl;
    project = refl;
    root = refl;
    deadline = refl;
    ancestry = refl;
    depth = refl;
    max_depth = refl;
    max_rounds = refl;
    state = ground arith;
    rounds = omega arith;
    turn = λ t. absurd (ground arith);
    bound = λ b. b;
    final = λ f. absurd (ground arith);
  }

  ask_peer-Kept :
      (request : PeerInformationRequest) (now : ℕ) (db : Database)
      → run.state ≡ waiting_peer
      → Kept run start db
      → Kept run start (Peer.ask_peer platform c w request run claim now db).1
  unfolding Peer.ask_peer
  ask_peer-Kept request now db h k =
      let fingerprint =
        consultation_request_fingerprint platform run.project request.subject request.request in
      let input = nested_request run claim request fingerprint now in
      elim (Bool-cases (leb run.max_depth run.depth)) [
        | inl deep ↦ rw deep (failed-Kept platform c w run start claim _ now db k)
        | inr room ↦ elim (Bool-cases (any (λ f. f == fingerprint) run.ancestry_fingerprints)) [
          | inl cycle ↦ rw (room, cycle) (failed-Kept platform c w run start claim _ now db k)
          | inr fresh ↦
              rw (room, fresh)
                (after-Kept run start (stored (send platform c.config input now) db) _
                  (stored-Kept run start (send platform c.config input now) db
                    (λ r db' o. send-runs platform c.config input now r db db' o) k)
                  (λ nested db1 k1.
                    after-Kept run start (Run.save platform c _ now db1) _
                      (save-Kept platform c run start
                        (waiting platform c w run nested.message_id now) now db1 refl refl
                        (λ _. waiting-Moves nested.message_id now h) k1)
                      (λ next db2 k2.
                        after-Kept run start (Run.release platform c claim next.state now db2) _
                          (release-Kept platform c run start claim next.state now db2 k2)
                          (λ _ db3 k3. k3))))
        ]
      ]

  take_reply-Kept :
      (nested : Envelope) (reply : InboxItem) (now : ℕ) (db : Database)
      → run.state ≡ waiting_peer
      → Kept run start db
      → Kept run start (Peer.take_reply platform c w nested reply run claim now db).1
  unfolding Peer.take_reply
  take_reply-Kept nested reply now db h k =
      elim (Bool-cases (Peer.is_peer_result c.config.system_id run nested reply)) [
        | inr other ↦ rw other (fail-Kept platform c run start claim _ now db k)
        | inl fits ↦
            elim (Bool-cases (Run.is_completed_result reply.envelope.payload.coordination_result)) [
              | inr failed_there ↦
                  rw (fits, failed_there) (fail-Kept platform c run start claim _ now db k)
              | inl completed_there ↦
                  rw (fits, completed_there)
                    (after-Kept run start (parsed_bundle platform _, db) _ k
                      (λ added db1 k1.
                        add_evidence-Kept platform c w run start claim added now db1 (ground arith)
                          k1))
            ]
      ]

  poll_peer-Kept :
      (id : String) (nested : Envelope) (reply : Option InboxItem) (now : ℕ) (db : Database)
      → run.state ≡ waiting_peer
      → Kept run start db
      → Kept run start (Peer.poll_peer platform c w id nested reply run claim now db).1
  unfolding Peer.poll_peer
  poll_peer-Kept id nested none now db h k =
      after-Kept run start (Run.save platform c (waiting platform c w run id now) now db) _
        (save-Kept platform c run start (waiting platform c w run id now) now db refl refl
          (λ _. waiting-Moves id now h) k)
        (λ next db1 k1.
          after-Kept run start (Run.release platform c claim next.state now db1) _
            (release-Kept platform c run start claim next.state now db1 k1) (λ _ db2 k2. k2))
  poll_peer-Kept id nested (some reply) now db h k =
      after-Kept run start (Peer.take_reply platform c w nested reply run claim now db) _
        (take_reply-Kept nested reply now db h k) (λ _ db1 k1. k1)

  await_peer-Kept :
      (id : String) (nested : Option OutboxItem) (now : ℕ) (db : Database)
      → run.state ≡ waiting_peer
      → Kept run start db
      → Kept run start (Peer.await_peer platform c w id nested run claim now db).1
  unfolding Peer.await_peer
  await_peer-Kept id none now db h k = failed-Kept platform c w run start claim _ now db k
  await_peer-Kept id (some nested) now db h k =
      elim (Bool-cases (same_kind nested.envelope.kind task_request)) [
        | inr other ↦ rw other (failed-Kept platform c w run start claim _ now db k)
        | inl request ↦ rw request (poll_peer-Kept id nested.envelope _ now db h k)
      ]

  advance_peer_wait-Kept :
      (request : Option PeerInformationRequest) (nested : Option String) (now : ℕ) (db : Database)
      → run.state ≡ waiting_peer
      → Kept run start db
      → Kept run start (Peer.advance_peer_wait platform c w request nested run claim now db).1
  unfolding Peer.advance_peer_wait
  advance_peer_wait-Kept none nested now db h k =
      failed-Kept platform c w run start claim _ now db k
  advance_peer_wait-Kept (some request) none now db h k = ask_peer-Kept request now db h k
  advance_peer_wait-Kept (some request) (some id) now db h k =
      await_peer-Kept id (get_outbox_message id db) now db h k

  advance_by_state-Kept :
      (state : RunState) (now : ℕ) (db : Database)
      → run.state ≡ state
      → Kept run start db
      → Kept run start (Advance.advance_by_state platform c w state run claim now db).1
  unfolding Advance.advance_by_state
  advance_by_state-Kept pending_child now db h k =
      after-Kept run start (Turn.execute_child platform c w run claim now db) _
        (execute_child-Kept platform c w run start claim now db h k) (λ _ db1 k1. k1)
  advance_by_state-Kept needs_information now db h k =
      after-Kept run start (Turn.collect_local_evidence platform c w run claim now db) _
        (collect-Kept platform c w run start claim now db h k) (λ _ db1 k1. k1)
  advance_by_state-Kept waiting_peer now db h k =
      advance_peer_wait-Kept run.peer_request run.nested_task_id now db h k
  advance_by_state-Kept completed now db h k =
      after-Kept run start (Run.complete platform c run claim now db) _
        (complete-Kept platform c run start run claim now db k) (λ _ db1 k1. k1)
  advance_by_state-Kept failed now db h k =
      after-Kept run start (Run.settle_failure platform c run claim now db) _
        (settle_failure-Kept platform c run start run claim now db k) (λ _ db1 k1. k1)

  advance_run-Kept :
      (now : ℕ) (db : Database)
      → Kept run start db
      → Kept run start (Advance.advance_run platform c w run claim now db).1
  unfolding Advance.advance_run
  advance_run-Kept now db k = elim (Bool-cases (text_le run.deadline_at_utc (to_iso_string now))) [
    | inl late ↦ rw late (failed-Kept platform c w run start claim _ now db k)
    | inr in_time ↦ rw in_time (advance_by_state-Kept run.state now db refl k)
  ]

  or_fail-Kept :
      (now : ℕ) (done : Result Bool × Database)
      → Kept run start done.1
      → Kept run start (Advance.or_fail platform c w run claim now done).1
  unfolding Advance.or_fail
  or_fail-Kept now (ok done, db) k = k
  or_fail-Kept now (err thrown, db) k = elim (Bool-cases (Run.fails_run thrown)) [
    | inl policy ↦ rw policy (failed-Kept platform c w run start claim _ now db k)
    | inr other ↦ rw other k
  ]

  -- All that a pass does with a run that it has.
  pub run_pass-Kept :
      (now : ℕ) (db : Database)
      → Kept run start db
      → Kept run start
          (Advance.or_fail platform c w run claim now
            (Advance.advance_run platform c w run claim now db)).1
  run_pass-Kept now db k = or_fail-Kept now _ (advance_run-Kept now db k)
