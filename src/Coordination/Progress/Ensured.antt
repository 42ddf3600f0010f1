-- ===== src/Coordination/Progress/Ensured.antt =====
-- The runs that `ensureConsultationRun` of src/storage/database.ts leaves.
use balcony_agent_bridge.Base.{
  String, true, some, List, [], ◌∷◌, ◌++◌, ◌≡◌, refl, sym, subst, ap, ◌∙◌, inl, inr, arith, All,
  All-append, All-weaken, Bool-cases, Option-cases, eq_iff, ◌==◌,
}
use balcony_agent_bridge.Base.Table.{find}
use balcony_agent_bridge.Base.Table.Growth.{Grows, Grows-append}
use balcony_agent_bridge.Base.Table.Keys.{
  Fresh, Distinct, Distinct-append_one, find-none-Fresh, find_self,
}
use balcony_agent_bridge.Contracts.Envelope.{Platform}
use balcony_agent_bridge.Store.Schema.{ConsultationRun, Database, ok}
use balcony_agent_bridge.Store.Consultation.{
  is_run, is_run_at, get_consultation_run, EnsureResult, ensure_consultation_run,
}
use balcony_agent_bridge.Coordination.Progress.{
  Moves, Moves-refl, run_key, Moved, Moved-refl, Current,
}

pub Moved-same : (db db' : Database) → db'.runs ≡ db.runs → Distinct run_key db.runs → Moved db db'
Moved-same db db' e d =
    let here = Moved-refl db d in
    record {
      grows = subst (λ (rows : List ConsultationRun). Grows Moves db.runs rows) (sym e) here.grows;
      distinct = subst (λ (rows : List ConsultationRun). Distinct run_key rows) (sym e) d;
    }

-- The run that is found is the only one with its identifier.
found-Current :
    (id : String) (run : ConsultationRun) (rows : List ConsultationRun)
    → Distinct run_key rows
    → find (is_run id) rows ≡ some run
    → run.request_message_id ≡ id
    → All (λ r. is_run_at run.request_message_id run.version r ≡ true → r ≡ run) rows
found-Current id run rows d found same =
    All-weaken
      (λ r self h.
        let key : r.request_message_id ≡ id =
          (eq_iff r.request_message_id run.request_message_id).0 (ground arith) ∙ same in
        let found_r : find (is_run id) rows ≡ some r =
          subst (λ (k : String). find (is_run k) rows ≡ some r) key self in
        cc (found, found_r))
      rows (find_self run_key rows d)

found_id :
    (id : String) (rows : List ConsultationRun) (run : ConsultationRun)
    → find (is_run id) rows ≡ some run
    → run.request_message_id ≡ id
unfolding find
found_id id [] run e = cc
found_id id (r ∷ rows) run e = elim (Bool-cases (r.request_message_id == id)) [
  | inl hit ↦
      let same : r ≡ run = ground arith in
      ap (λ (x : ConsultationRun). x.request_message_id) (sym same)
      ∙ (eq_iff r.request_message_id id).0 hit
  | inr miss ↦ found_id id rows run (ground arith)
]

new_run-Current :
    (run : ConsultationRun) (rows : List ConsultationRun)
    → Fresh run_key run.request_message_id rows
    → All (λ r. is_run_at run.request_message_id run.version r ≡ true → r ≡ run) (rows ++ run ∷ [])
new_run-Current run rows f =
    All-append (λ r. is_run_at run.request_message_id run.version r ≡ true → r ≡ run) rows
      (run ∷ [])
      (All-weaken
        (λ r other h.
          absurd (other ((eq_iff r.request_message_id run.request_message_id).0 (ground arith))))
        rows f)
      ((λ _. refl), tt)

-- A run that was created or found is the one of the table.
pub ensure-Moved :
    (platform : Platform) (run : ConsultationRun) (result : EnsureResult) (db db' : Database)
    → Distinct run_key db.runs
    → ensure_consultation_run platform run db ≡ ok (result, db')
    → Moved db db' × Current result.run db'
unfolding ensure_consultation_run get_consultation_run
ensure-Moved platform run result db db' d o =
    elim (Option-cases (find (is_run run.request_message_id) db.runs)) [
      | inl new ↦
          let runs : db'.runs ≡ db.runs ++ run ∷ [] = ground arith in
          let same : result.run ≡ run = ground arith in
          let fresh = find-none-Fresh run_key run.request_message_id db.runs new in
          (
            record {
              grows =
                  subst (λ (rows : List ConsultationRun). Grows Moves db.runs rows) (sym runs)
                    (Grows-append Moves Moves-refl db.runs (run ∷ []));
              distinct =
                  subst (λ (rows : List ConsultationRun). Distinct run_key rows) (sym runs)
                    (Distinct-append_one run_key db.runs run fresh d);
            },
            rw (same, runs) (new_run-Current run db.runs fresh),
          )
      | inr (existing, known) ↦
          let runs : db'.runs ≡ db.runs = ground arith in
          let same : result.run ≡ existing = ground arith in
          (
            Moved-same db db' runs d,
            rw (same, runs)
                (found-Current run.request_message_id existing db.runs d known
                  (found_id run.request_message_id db.runs existing known)),
          )
    ]
