-- ===== src/Coordination/Progress/Steps.antt =====
-- The parts of a pass keep the runs moving (src/coordination/autonomous-consultation-coordinator.ts).
use balcony_agent_bridge.Base.{
  ℕ, ◌+◌, String, true, false, some, List, ◌≡◌, refl, sym, subst, ◌∙◌, inl, inr, arith, All,
  All-weaken, Bool-cases, Option-cases, eq_iff,
}
use balcony_agent_bridge.Base.Table.{update}
use balcony_agent_bridge.Base.Table.Laws.{All-update}
use balcony_agent_bridge.Base.Table.Growth.{Grows, Grows-trans, Grows-update_rows}
use balcony_agent_bridge.Base.Table.Keys.{Distinct, Distinct-update}
use balcony_agent_bridge.Time.{to_iso_string}
use balcony_agent_bridge.Contracts.Envelope.{Platform}
use balcony_agent_bridge.Store.Schema.{
  RunState, ConsultationRun, Database, Result, ok, err, Result-cases,
}
use balcony_agent_bridge.Store.Claims.{ClaimedMessage}
use balcony_agent_bridge.Store.Settlement.{Outcome, acknowledge}
use balcony_agent_bridge.Store.Consultation.{is_run_at, save_consultation_run}
use balcony_agent_bridge.Store.Consultation.Contract.{is_valid_run}
use balcony_agent_bridge.Application.{SettleInput, settle_with_reply}
use balcony_agent_bridge.Coordination.{M, after, stored, ignored, Coordinator}
use balcony_agent_bridge.Coordination.Frames.{acknowledge-runs, settle_with_reply-runs}
use balcony_agent_bridge.Coordination.Run as Run
use balcony_agent_bridge.Coordination.Run.{without_transient_requests, as_failed}
use balcony_agent_bridge.Coordination.Progress.{Moves, Moves-refl, Moves-trans, run_key, Kept}

-- A run that was saved in place of `run` at its version.
abbrev pub saved_as : ConsultationRun → ℕ → String → ConsultationRun
saved_as next version updated = record next { version = version; updated_at_utc = updated }

module _ (run : ConsultationRun) (start : Database) where
  pub Kept-same : (db db' : Database) → db'.runs ≡ db.runs → Kept run start db → Kept run start db'
  Kept-same db db' e k = record {
    moved = record {
      grows =
          subst (λ (rows : List ConsultationRun). Grows Moves start.runs rows) (sym e)
            k.moved.grows;
      distinct =
          subst (λ (rows : List ConsultationRun). Distinct run_key rows) (sym e) k.moved.distinct;
    };
    current =
        subst
          (λ (rows : List ConsultationRun).
            All (λ r. is_run_at run.request_message_id run.version r ≡ true → r ≡ run) rows)
          (sym e) k.current;
  }

  pub after-Kept :
      {A B : Type 0} (m : Result A × Database) (next : A → M B)
      → Kept run start m.1
      → ((a : A) (db : Database) → Kept run start db → Kept run start (next a db).1)
      → Kept run start (after m next).1
  after-Kept (ok a, db) next k f = f a db k
  after-Kept (err thrown, db) next k f = k

  pub stored-Kept :
      {A : Type 0} (call : Database → Result (A × Database)) (db : Database)
      → ((a : A) (db' : Database) → call db ≡ ok (a, db') → db'.runs ≡ db.runs)
      → Kept run start db
      → Kept run start (stored call db).1
  stored-Kept call db same k = elim (Result-cases (call db)) [
    | inl ((a, db'), done) ↦ rw done (Kept-same db db' (same a db' done) k)
    | inr (thrown, refused) ↦ rw refused k
  ]

  -- A call whose answer is dropped.
  pub called-Kept :
      {A : Type 0} (call : Database → Result (A × Database)) (db : Database)
      → ((a : A) (db' : Database) → call db ≡ ok (a, db') → db'.runs ≡ db.runs)
      → Kept run start db
      → Kept run start (ignored (stored call) db).1
  called-Kept call db same k =
      after-Kept (stored call db) _ (stored-Kept call db same k) (λ a db' k'. k')

module _ (platform : Platform) (c : Coordinator) (run : ConsultationRun) (start : Database) where
  -- The rows that a save replaces are the run.
  module _ (next : ConsultationRun) (updated : String)
      (same_id : next.request_message_id ≡ run.request_message_id)
      (change : (v : ℕ) (u : String) → Moves run (saved_as next v u)) where
    abbrev replaced : List ConsultationRun → List ConsultationRun
    replaced rows =
        update (is_run_at run.request_message_id run.version)
          (λ _. saved_as next (run.version + 1) updated) rows

    replaced-Kept :
        (db db' : Database) → db'.runs ≡ replaced db.runs → Kept run start db → Kept run start db'
    replaced-Kept db db' e k = record {
      moved = record {
        grows =
            subst (λ (rows : List ConsultationRun). Grows Moves start.runs rows) (sym e)
              (Grows-trans Moves Moves-trans start.runs db.runs _ k.moved.grows (
                Grows-update_rows Moves Moves-refl _ _ db.runs (
                  All-weaken
                    (λ r is h.
                      subst (λ x. Moves x (saved_as next (run.version + 1) updated)) (sym (is h))
                        (change (run.version + 1) updated))
                    db.runs k.current)));
        distinct =
            subst (λ (rows : List ConsultationRun). Distinct run_key rows) (sym e)
              (Distinct-update run_key _ _ db.runs
                (λ r h.
                  same_id
                  ∙ sym ((eq_iff r.request_message_id run.request_message_id).0 (ground arith)))
                k.moved.distinct);
      };
      current =
          subst
            (λ (rows : List ConsultationRun).
              All (λ r. is_run_at run.request_message_id run.version r ≡ true → r ≡ run) rows)
            (sym e)
            (All-update (λ r. is_run_at run.request_message_id run.version r ≡ true → r ≡ run) _ _
              db.runs (λ r is h k. absurd (ground arith)) k.current);
    }

  -- A save of a run that moved on from `run`, at its version.
  pub save-Kept :
      (next : ConsultationRun) (now : ℕ) (db : Database)
      → next.request_message_id ≡ run.request_message_id
      → next.version ≡ run.version
      → (is_valid_run platform next ≡ true → (v : ℕ) (u : String) → Moves run (saved_as next v u))
      → Kept run start db
      → Kept run start (Run.save platform c next now db).1
  unfolding Run.save save_consultation_run
  save-Kept next now db same_id same_version change k =
      elim (Result-cases (save_consultation_run platform next next.version now db)) [
        | inr (thrown, refused) ↦ rw refused k
        | inl ((saved, db'), done) ↦
            let valid : is_valid_run platform next ≡ true = ground arith in
            let runs : db'.runs
                ≡ update (is_run_at next.request_message_id next.version)
                    (λ _. saved_as next (next.version + 1) (to_iso_string now)) db.runs =
              ground arith in
            rw done (
              replaced-Kept next (to_iso_string now) same_id (change valid) db db'
                (subst
                  (λ (n : ℕ).
                    db'.runs
                    ≡ update (is_run_at run.request_message_id n)
                        (λ _. saved_as next (n + 1) (to_iso_string now)) db.runs)
                  same_version
                  (subst
                    (λ (i : String).
                      db'.runs
                      ≡ update (is_run_at i next.version)
                          (λ _. saved_as next (next.version + 1) (to_iso_string now)) db.runs)
                    same_id runs))
                k)
      ]

  pub settle-Kept :
      (input : SettleInput) (now : ℕ) (db : Database)
      → Kept run start db
      → Kept run start (ignored (stored (settle_with_reply platform c.config input now)) db).1
  settle-Kept input now db k =
      called-Kept run start (settle_with_reply platform c.config input now) db
        (λ r db' o. settle_with_reply-runs platform c.config input now r db db' o) k

  pub release-Kept :
      (claim : ClaimedMessage) (reason : RunState) (now : ℕ) (db : Database)
      → Kept run start db
      → Kept run start (Run.release platform c claim reason now db).1
  unfolding Run.release
  release-Kept claim reason now db k =
      let id = claim.envelope.message_id in
      let text = some (Run.state_text reason) in
      called-Kept run start
        (acknowledge platform id c.consumer_id claim.claim_token Outcome.retry text now) db
        (λ s db' o.
          acknowledge-runs platform id c.consumer_id claim.claim_token Outcome.retry text now s db
            db' o)
        k

  pub complete-Kept :
      (next : ConsultationRun) (claim : ClaimedMessage) (now : ℕ) (db : Database)
      → Kept run start db
      → Kept run start (Run.complete platform c next claim now db).1
  unfolding Run.complete
  complete-Kept next claim now db k = elim (Option-cases next.final_answer) [
    | inl missing ↦ rw missing k
    | inr (answer, given) ↦ rw given (settle-Kept _ now db k)
  ]

  pub settle_failure-Kept :
      (next : ConsultationRun) (claim : ClaimedMessage) (now : ℕ) (db : Database)
      → Kept run start db
      → Kept run start (Run.settle_failure platform c next claim now db).1
  unfolding Run.settle_failure
  settle_failure-Kept next claim now db k = settle-Kept _ now db k

  failed-Moves :
      (code : String)
      → Run.is_failed run.state ≡ false
      → (v : ℕ) (u : String) → Moves run (saved_as (as_failed platform c run code) v u)
  unfolding without_transient_requests
  failed-Moves code h v u = record {
    message_id = refl;
    conversation = refl;
    project = refl;
    root = refl;
    deadline = refl;
    ancestry = refl;
    depth = refl;
    max_depth = refl;
    max_rounds = refl;
    state = ground arith;
    rounds = omega arith;
    turn = λ t. absurd (ground arith);
    bound = λ b. b;
    final = λ f. absurd (ground arith);
  }

  pub fail-Kept :
      (claim : ClaimedMessage) (code : String) (now : ℕ) (db : Database)
      → Kept run start db
      → Kept run start (Run.fail platform c run claim code now db).1
  unfolding Run.fail without_transient_requests
  fail-Kept claim code now db k = elim (Bool-cases (Run.is_failed run.state)) [
    | inl already ↦ rw already (settle_failure-Kept run claim now db k)
    | inr open_run ↦ rw open_run (
        after-Kept run start (Run.save platform c (as_failed platform c run code) now db) _
          (save-Kept (as_failed platform c run code) now db refl refl
            (λ _. failed-Moves code open_run) k)
          (λ next db' k'. settle_failure-Kept next claim now db' k'))
  ]
