-- ===== src/Coordination/Progress/History.antt =====
-- Every pass of the coordinator (`runOnce` of
-- src/coordination/autonomous-consultation-coordinator.ts) moves the runs forward.
use balcony_agent_bridge.Base.{
  ℕ, suc, String, Bool, true, Option, none, some, List, [], ◌∷◌, ◌≡◌, refl, ap, inl, inr,
  Bool-cases, ◌==◌, if◌then◌else◌,
}
use balcony_agent_bridge.Base.Table.Growth.{find-Grows}
use balcony_agent_bridge.Base.Table.Keys.{Distinct}
use balcony_agent_bridge.Contracts.Envelope.{Platform}
use balcony_agent_bridge.Store.Schema.{ConsultationRun, Database, Result, ok, err}
use balcony_agent_bridge.Store.Claims.{ClaimedMessage, claim_autonomous_consultation_inbox}
use balcony_agent_bridge.Store.Consultation.{is_run, get_consultation_run}
use balcony_agent_bridge.Application.{settle_with_reply}
use balcony_agent_bridge.Bridge.Outbound.{code_of}
use balcony_agent_bridge.Coordination.{after, stored, Coordinator}
use balcony_agent_bridge.Coordination.Frames.{claim-runs, settle_with_reply-runs}
use balcony_agent_bridge.Coordination.Run as Run
use balcony_agent_bridge.Coordination.Run.Begin as Begin
use balcony_agent_bridge.Coordination.Run.{World}
use balcony_agent_bridge.Coordination.Run.Advance as Advance
use balcony_agent_bridge.Coordination.Progress.{Moves, run_key, Moved, Moved-refl}
use balcony_agent_bridge.Coordination.Progress.Advance.{run_pass-Kept}
use balcony_agent_bridge.Coordination.Progress.Begun.{Leaves, stored-Moved, Known, begin_run-Leaves}

module _ (platform : Platform) (c : Coordinator) (start : Database) (w : World) where
  with_run-Moved :
      (claim : ClaimedMessage) (now : ℕ) (m : Result (Option ConsultationRun) × Database)
      → Leaves Known start m
      → Moved start (Advance.with_run platform c w claim now m).1
  unfolding Advance.with_run Run.settle_initial_failure
  with_run-Moved claim now (ok none, db) l = l.moved
  with_run-Moved claim now (ok (some run), db) l =
      let kept =
        run_pass-Kept platform c w run start claim now db
          (record { moved = l.moved; current = l.holds (some run) refl }) in
      kept.moved
  with_run-Moved claim now (err thrown, db) l =
      elim (Bool-cases (Run.is_dispatch_rejection thrown)) [
        | inr other ↦ rw other l.moved
        | inl rejected ↦
            let input = Run.initial_failure platform c claim (code_of thrown) in
            let call = settle_with_reply platform c.config input now in
            rw rejected (
              settled (stored call db) (
                stored-Moved start call db
                  (λ r db' o. settle_with_reply-runs platform c.config input now r db db' o)
                  l.moved))
      ]
    where
      settled :
          {A : Type 0} (m : Result A × Database)
          → Moved start m.1
          → Moved start (after (after m (λ _ db'. (ok (tt {0}), db'))) (λ _ db'. (ok true, db'))).1
      settled (ok a, db') k = k
      settled (err thrown', db') k = k

  process_claims-Moved :
      (claims : List ClaimedMessage) (now : ℕ) (db : Database)
      → Moved start db
      → Moved start (Advance.process_claims platform c w claims now db).1
  unfolding Advance.process_claims Advance.process_claim
  process_claims-Moved [] now db k = k
  process_claims-Moved (claim ∷ claims) now db k =
      let pass =
        with_run-Moved claim now (Begin.begin_run platform c claim now db)
          (begin_run-Leaves platform c start claim now db k) in
      more (Advance.with_run platform c w claim now (Begin.begin_run platform c claim now db)) pass
        (λ db'. process_claims-Moved claims now db')
    where
      more :
          (m : Result Bool × Database)
          → Moved start m.1
          → ((db' : Database)
              → Moved start db'
              → Moved start (Advance.process_claims platform c w claims now db').1)
          → Moved start
              (after m (λ progressed. λ db'.
                after
                  (Advance.process_claims platform c w claims now db')
                  (λ rest db''. (ok (if progressed then suc rest else rest), db'')))).1
      more (err thrown, db') k' rest = k'
      more (ok progressed, db') k' rest =
          last (Advance.process_claims platform c w claims now db') (rest db' k')
        where
          last :
              (m : Result ℕ × Database)
              → Moved start m.1
              → Moved start (after m (λ n db''. (ok (if progressed then suc n else n), db''))).1
          last (ok n, db'') k'' = k''
          last (err thrown, db'') k'' = k''

-- Whatever the child, the provider and the peer answer, and whether a pass of the coordinator
-- succeeds or throws: a run that the store has before the pass is there after it. It keeps its
-- message, conversation, project, root, deadline, ancestry, depth and limits, its rounds never
-- decrease and stay within their limit, a turn of the child takes a round, a completed run can only
-- fail, and a failed one never changes.
pub run_once-Moves :
    (platform : Platform) (c : Coordinator) (w : World) (now : ℕ) (db : Database) (id : String)
    (r : ConsultationRun)
    → Distinct run_key db.runs
    → get_consultation_run id db ≡ some r
    → (s : ConsultationRun) × (get_consultation_run id (Advance.run_once platform c w now db).1
        ≡ some s)
      × Moves r s
unfolding Advance.run_once get_consultation_run
run_once-Moves platform c w now db id r d found =
    let call =
      claim_autonomous_consultation_inbox platform c.consumer_id 1 c.policy.claim_lease_seconds
        now in
    let claimed =
      stored-Moved db call db
        (λ m db' o. claim-runs platform c.consumer_id 1 c.policy.claim_lease_seconds now m db db' o)
        (Moved-refl db d) in
    let all = pass (stored call db) claimed in
    find-Grows Moves (is_run id) (λ x y m. ap (λ (k : String). k == id) m.message_id) db.runs
      (after (stored call db) (λ claims. Advance.process_claims platform c w claims now)).1.runs r
      all.grows found
  where
    pass :
        (m : Result (List ClaimedMessage) × Database)
        → Moved db m.1
        → Moved db (after m (λ claims. Advance.process_claims platform c w claims now)).1
    pass (ok claims, db') k = process_claims-Moved platform c db w claims now db' k
    pass (err thrown, db') k = k
