-- ===== src/Coordination/Progress/Begun.antt =====
-- The first part of `processClaim` of src/coordination/autonomous-consultation-coordinator.ts keeps the
-- runs moving, and the run that it answers with is the table's.
use balcony_agent_bridge.Base.{
  ℕ, String, Option, none, some, ◌≡◌, refl, subst, ap, inl, inr, Bool-cases, Option-cases, ltb,
}
use balcony_agent_bridge.Contracts.Envelope.{Envelope, Platform}
use balcony_agent_bridge.Store.Schema.{
  ConsultationRun, Database, Error, Result, ok, err, Result-cases,
}
use balcony_agent_bridge.Store.Claims.{ClaimedMessage}
use balcony_agent_bridge.Store.Authorization.Access as Access
use balcony_agent_bridge.Store.Authorization.Access.{authorize_claimed_resource_access}
use balcony_agent_bridge.Store.Consultation.{ensure_consultation_run}
use balcony_agent_bridge.Store.Consultation.Contract.{consultation_request_fingerprint}
use balcony_agent_bridge.Coordination.{after, stored, Coordinator}
use balcony_agent_bridge.Coordination.Frames.{authorize-runs}
use balcony_agent_bridge.Coordination.Evidence.{empty_evidence}
use balcony_agent_bridge.Coordination.Run.Begin as Begin
use balcony_agent_bridge.Coordination.Progress.{Moved, Moved-trans, Current}
use balcony_agent_bridge.Coordination.Progress.Ensured.{Moved-same, ensure-Moved}

-- What an action leaves: the runs moved, and its answer is as stated.
pub record Leaves {A : Type 0} (P : A → Database → Type 0) (start : Database)
    (m : Result A × Database) : Type 0 where
  pub moved : Moved start m.1
  pub holds : (a : A) → m.0 ≡ ok a → P a m.1

module _ {A : Type 0} (P : A → Database → Type 0) (start : Database) where
  after-Leaves :
      {B : Type 0} (m : Result B × Database) (next : B → Database → Result A × Database)
      → Moved start m.1
      → ((b : B) (db : Database) → m ≡ (ok b, db) → Moved start db → Leaves P start (next b db))
      → Leaves P start (after m next)
  after-Leaves (ok b, db) next k f = f b db refl k
  after-Leaves (err thrown, db) next k f = record { moved = k; holds = λ a e. absurd (cc e) }

  throws-Leaves :
      (thrown : Error) (db : Database) → Moved start db → Leaves P start (err thrown, db)
  throws-Leaves thrown db k = record { moved = k; holds = λ a e. absurd (cc e) }

-- A call of the store that leaves the runs as they are.
pub stored-Moved :
    {A : Type 0} (start : Database) (call : Database → Result (A × Database)) (db : Database)
    → ((a : A) (db' : Database) → call db ≡ ok (a, db') → db'.runs ≡ db.runs)
    → Moved start db
    → Moved start (stored call db).1
stored-Moved start call db same k = elim (Result-cases (call db)) [
  | inl ((a, db'), done) ↦
      rw done (Moved-trans start db db' k (Moved-same db db' (same a db' done) k.distinct))
  | inr (thrown, refused) ↦ rw refused k
]

-- An optional run is the table's.
abbrev pub Known : Option ConsultationRun → Database → Type 0
Known none db = Unit {0}
Known (some run) db = Current run db

module _ (platform : Platform) (c : Coordinator) (start : Database) where
  ensured-Leaves :
      (new : ConsultationRun) (db : Database)
      → Moved start db
      → Leaves
          (λ result. Current result.run)
          start
          (stored (ensure_consultation_run platform new) db)
  ensured-Leaves new db k = elim (Result-cases (ensure_consultation_run platform new db)) [
    | inr (thrown, refused) ↦ rw refused (throws-Leaves _ start thrown db k)
    | inl ((result, db'), done) ↦
        let (moved, current) = ensure-Moved platform new result db db' k.distinct done in
        rw done (record {
          moved = Moved-trans start db db' k moved;
          holds = λ r e. let same : r ≡ result = cc e in rw same current;
        })
  ]

  ensure_run-Leaves :
      (e : Envelope) (project : String) (now : ℕ) (db : Database)
      → Moved start db
      → Leaves Current start (Begin.ensure_run platform c e project now db)
  unfolding Begin.ensure_run
  ensure_run-Leaves e project now db k =
      let fingerprint =
        consultation_request_fingerprint platform project e.payload.subject e.payload.body in
      elim (Bool-cases (Begin.is_local platform c e project)) [
        | inr foreign ↦ rw foreign (throws-Leaves _ start _ db k)
        | inl local ↦
            elim (Bool-cases (Begin.ancestry_fits e.payload.consultation_context fingerprint)) [
              | inr unfit ↦ rw (local, unfit) (throws-Leaves _ start _ db k)
              | inl fit ↦
                  elim (Bool-cases (
                    ltb (Begin.max_depth_of e.payload.consultation_context c.policy.max_depth)
                      (Begin.depth_of e.payload.consultation_context))) [
                        | inl deep ↦ rw (local, fit, deep) (throws-Leaves _ start _ db k)
                        | inr room ↦
                            rw (local, fit, room)
                              (after-Leaves Current start (empty_evidence platform project now, db)
                                _ k
                                (λ evidence db1 _ k1.
                                  let new =
                                    Begin.new_run platform c e project fingerprint evidence now in
                                  let done = ensured-Leaves new db1 k1 in
                                  after-Leaves Current start
                                    (stored (ensure_consultation_run platform new) db1) _ done.moved
                                    (λ result db2 is k2. record {
                                      moved = k2;
                                      holds = λ run same.
                                          let eq : run ≡ result.run = cc same in
                                          rw eq (
                                            subst (λ m. Current result.run m.1) is
                                              (done.holds result (ap (λ m. m.0) is)));
                                    })))
                      ]
            ]
      ]

  run_of_decision-Leaves :
      (decision : Access.Decision) (e : Envelope) (project : String) (now : ℕ) (db : Database)
      → Moved start db
      → Leaves Known start (Begin.run_of_decision platform c decision e project now db)
  unfolding Begin.run_of_decision
  run_of_decision-Leaves (Access.approval_pending id) e project now db k = record {
    moved = k;
    holds = λ o same. let eq : o ≡ none = cc same in rw eq tt;
  }
  run_of_decision-Leaves (Access.authorized basis approval) e project now db k =
      let run = ensure_run-Leaves e project now db k in
      after-Leaves Known start (Begin.ensure_run platform c e project now db) _ run.moved
        (λ r db1 is k1. record {
          moved = k1;
          holds = λ o same.
              let eq : o ≡ some r = cc same in
              rw eq (subst (λ m. Current r m.1) is (run.holds r (ap (λ m. m.0) is)));
        })
  run_of_decision-Leaves (Access.duplicate id) e project now db k = throws-Leaves Known start _ db k
  run_of_decision-Leaves (Access.denied id) e project now db k = throws-Leaves Known start _ db k

  pub begin_run-Leaves :
      (claim : ClaimedMessage) (now : ℕ) (db : Database)
      → Moved start db
      → Leaves Known start (Begin.begin_run platform c claim now db)
  unfolding Begin.begin_run
  begin_run-Leaves claim now db k = elim (Option-cases claim.envelope.payload.project) [
    | inl nameless ↦ rw (nameless, Begin.begin_run) (throws-Leaves Known start _ db k)
    | inr (project, named) ↦
        let call =
          authorize_claimed_resource_access platform claim.envelope.message_id c.consumer_id
            claim.claim_token project c.config.system_id now in
        rw (named, Begin.begin_run)
          (after-Leaves Known start (stored call db) _
            (stored-Moved start call db
              (λ d db' o. authorize-runs platform _ _ _ _ _ now d db db' o) k)
            (λ decision db1 _ k1.
              run_of_decision-Leaves decision claim.envelope project now db1 k1))
  ]
