-- ===== src/Coordination/Progress/Turns.antt =====
-- A turn of the child and the evidence that is added (`executeChild`, `collectLocalEvidence` of
-- src/coordination/autonomous-consultation-coordinator.ts) move a run forward.
use balcony_agent_bridge.Coordination.Run.Turn as Turn
use balcony_agent_bridge.Base.{
  ℕ, String, true, Option, none, some, List, ◌≡◌, refl, inl, inr, arith, Bool-cases, Option-cases,
  leb,
}
use balcony_agent_bridge.Contracts.Envelope.{Platform}
use balcony_agent_bridge.Contracts.Evidence.{EvidenceBundle}
use balcony_agent_bridge.Store.Schema.{
  pending_child, needs_information, ConsultationRun, Database, ok,
}
use balcony_agent_bridge.Store.Claims.{ClaimedMessage}
use balcony_agent_bridge.Store.Consultation.Contract.{no_paths, is_valid_run}
use balcony_agent_bridge.Coordination.{after, Coordinator}
use balcony_agent_bridge.Coordination.Evidence.{merge_evidence}
use balcony_agent_bridge.Coordination.Child as Child
use balcony_agent_bridge.Coordination.Child.{ChildTurn, parse_child_result}
use balcony_agent_bridge.Coordination.Run as Run
use balcony_agent_bridge.Coordination.Run.{World, without_transient_requests}
use balcony_agent_bridge.Coordination.Run.Turn.{after_turn, with_evidence, child_input}
use balcony_agent_bridge.Coordination.Progress.{Moves, can_become, Kept}
use balcony_agent_bridge.Coordination.Progress.Steps.{
  saved_as, after-Kept, save-Kept, release-Kept, complete-Kept, fail-Kept,
}

-- A turn of the child is a move of a run that waits for it.
turn-Moves :
    (platform : Platform) (turn : ChildTurn) (run : ConsultationRun)
    → run.state ≡ pending_child
    → is_valid_run platform (after_turn turn run) ≡ true
    → (v : ℕ) (u : String) → Moves run (saved_as (after_turn turn run) v u)
unfolding after_turn without_transient_requests is_valid_run
turn-Moves platform (Child.completed answer paths) run at_child valid v u = record {
  message_id = refl;
  conversation = refl;
  project = refl;
  root = refl;
  deadline = refl;
  ancestry = refl;
  depth = refl;
  max_depth = refl;
  max_rounds = refl;
  state = ground arith;
  rounds = omega arith;
  turn = λ t. omega arith;
  bound = λ b. ground arith;
  final = λ f. absurd (ground arith);
}
turn-Moves platform (Child.needs_information reason requested peer paths) run at_child valid v u =
    record {
      message_id = refl;
      conversation = refl;
      project = refl;
      root = refl;
      deadline = refl;
      ancestry = refl;
      depth = refl;
      max_depth = refl;
      max_rounds = refl;
      state = ground arith;
      rounds = omega arith;
      turn = λ t. omega arith;
      bound = λ b. ground arith;
      final = λ f. absurd (ground arith);
    }

-- More evidence takes a run that waits for it back to the child.
evidence-Moves :
    (evidence : EvidenceBundle) (run : ConsultationRun)
    → can_become run.state pending_child ≡ true
    → (v : ℕ) (u : String) → Moves run (saved_as (with_evidence evidence run) v u)
unfolding without_transient_requests
evidence-Moves evidence run h v u = record {
  message_id = refl;
  conversation = refl;
  project = refl;
  root = refl;
  deadline = refl;
  ancestry = refl;
  depth = refl;
  max_depth = refl;
  max_rounds = refl;
  state = h;
  rounds = omega arith;
  turn = λ t. absurd (ground arith);
  bound = λ b. b;
  final = λ f. absurd (ground arith);
}

module _ (platform : Platform) (c : Coordinator) (w : World) (run : ConsultationRun)
    (start : Database) (claim : ClaimedMessage) where
  -- The failure of the run, after which a pass has made progress.
  pub failed-Kept :
      (code : String) (now : ℕ) (db : Database)
      → Kept run start db
      → Kept run start
          (after (Run.fail platform c run claim code now db) (λ _ db'. (ok true, db'))).1
  failed-Kept code now db k =
      after-Kept run start (Run.fail platform c run claim code now db) _
        (fail-Kept platform c run start claim code now db k) (λ _ db' k'. k')

  finish_turn-Kept :
      (turn : ChildTurn) (now : ℕ) (db : Database)
      → run.state ≡ pending_child
      → Kept run start db
      → Kept run start (Turn.finish_turn platform c w turn run claim now db).1
  unfolding Turn.finish_turn after_turn without_transient_requests
  finish_turn-Kept (Child.completed answer paths) now db at_child k =
      let turn = Child.completed answer paths in
      after-Kept run start (Run.save platform c (after_turn turn run) now db) _
        (save-Kept platform c run start (after_turn turn run) now db refl refl
          (λ valid. turn-Moves platform turn run at_child valid) k)
        (λ next db' k'. complete-Kept platform c run start next claim now db' k')
  finish_turn-Kept (Child.needs_information reason requested peer paths) now db at_child k =
      let turn = Child.needs_information reason requested peer paths in
      after-Kept run start (Run.save platform c (after_turn turn run) now db) _
        (save-Kept platform c run start (after_turn turn run) now db refl refl
          (λ valid. turn-Moves platform turn run at_child valid) k)
        (λ next db' k'. release-Kept platform c run start claim next.state now db' k')

  pub execute_child-Kept :
      (now : ℕ) (db : Database)
      → run.state ≡ pending_child
      → Kept run start db
      → Kept run start (Turn.execute_child platform c w run claim now db).1
  unfolding Turn.execute_child
  execute_child-Kept now db at_child k = elim (Bool-cases (leb run.max_rounds run.round_count)) [
    | inl spent ↦ rw spent (fail-Kept platform c run start claim _ now db k)
    | inr open_run ↦ rw open_run (
        after-Kept run start (w.execute (child_input run claim c.policy.max_output_bytes now), db) _
          k
          (λ output db1 k1.
            after-Kept run start (parse_child_result platform c.on_windows output run.evidence, db1)
              _ k1 (λ turn db2 k2. finish_turn-Kept turn (w.operation_time now) db2 at_child k2)))
  ]

  pub add_evidence-Kept :
      (added : EvidenceBundle) (now : ℕ) (db : Database)
      → can_become run.state pending_child ≡ true
      → Kept run start db
      → Kept run start (Turn.add_evidence platform c w added run claim now db).1
  unfolding Turn.add_evidence without_transient_requests
  add_evidence-Kept added now db h k =
      after-Kept run start (merge_evidence platform run.evidence added now, db) _ k
        (λ evidence db1 k1.
          after-Kept run start (Run.save platform c (with_evidence evidence run) now db1) _
            (save-Kept platform c run start (with_evidence evidence run) now db1 refl refl
              (λ _. evidence-Moves evidence run h) k1)
            (λ next db2 k2. release-Kept platform c run start claim next.state now db2 k2))

  collect_paths-Kept :
      (paths : Option (List String)) (root : String) (now : ℕ) (db : Database)
      → run.state ≡ needs_information
      → Kept run start db
      → Kept run start (Turn.collect_paths platform c w paths root run claim now db).1
  unfolding Turn.collect_paths
  collect_paths-Kept none root now db h k = fail-Kept platform c run start claim _ now db k
  collect_paths-Kept (some paths) root now db h k =
      after-Kept run start (w.collect _, db) _ k
        (λ collected db1 k1.
          add_evidence-Kept collected (w.operation_time now) db1 (ground arith) k1)

  pub collect-Kept :
      (now : ℕ) (db : Database)
      → run.state ≡ needs_information
      → Kept run start db
      → Kept run start (Turn.collect_local_evidence platform c w run claim now db).1
  unfolding Turn.collect_local_evidence
  collect-Kept now db h k = elim (Option-cases (c.project_path run.project)) [
    | inl unknown ↦
        rw (unknown, Turn.collect_local_evidence) (fail-Kept platform c run start claim _ now db k)
    | inr (root, known) ↦ elim (Bool-cases (no_paths run.requested_evidence)) [
      | inl empty ↦
          rw (known, empty, Turn.collect_local_evidence)
            (fail-Kept platform c run start claim _ now db k)
      | inr some_path ↦
          rw (known, some_path, Turn.collect_local_evidence)
            (collect_paths-Kept run.requested_evidence root now db h k)
    ]
  ]
