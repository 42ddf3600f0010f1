-- ===== src/Store/Consultation/Versions.antt =====
-- Saving a run is optimistic: versions only grow, and of two savers of one version one fails.
use balcony_agent_bridge.Base.{
  ℕ, ◌+◌, ◌≤◌, String, Bool, true, false, none, some, List, [], ◌∷◌, ◌++◌, ◌≡◌, refl, sym, ap, ◌∙◌,
  inl, inr, arith, eq_iff, eq_refl, Option-cases, ◌==◌,
}
use balcony_agent_bridge.Base.Table.{update, count, find}
use balcony_agent_bridge.Base.Table.Laws.{find-append_none}
use balcony_agent_bridge.Base.Table.Growth.{
  Grows, Grows-refl, Grows-trans, Grows-append, Grows-update, find-Grows,
}
use balcony_agent_bridge.Contracts.Envelope.{Platform}
use balcony_agent_bridge.Store.Schema.{ConsultationRun, Database, Error, Result-cases, ok, err}
use balcony_agent_bridge.Store.Consultation.{
  is_run, is_run_at, get_consultation_run, same_consultation_identity, EnsureResult,
  ensure_consultation_run, save_consultation_run,
}

-- After an update whose new rows fail the test, no row passes it.
count-update_none :
    (p : ConsultationRun → Bool) (f : ConsultationRun → ConsultationRun)
    (rows : List ConsultationRun)
    → ((r : ConsultationRun) → p (f r) ≡ false)
    → count p (update p f rows) ≡ 0
unfolding count update
count-update_none p f [] fails = refl
count-update_none p f (r ∷ rows) fails = ground (arith, fails r, count-update_none p f rows fails)

-- Two savers that start from one version cannot both succeed: once the run of a message was saved
-- at a version, a save of that message's run that expects the same version fails.
pub save_stale :
    (platform : Platform) (c c' saved : ConsultationRun) (version now now' : ℕ) (db db' : Database)
    → save_consultation_run platform c version now db ≡ ok (saved, db')
    → c'.request_message_id ≡ c.request_message_id
    → (e : Error) × (save_consultation_run platform c' version now' db' ≡ err e)
unfolding save_consultation_run
save_stale platform c c' saved version now now' db db' o same =
    elim (Result-cases (save_consultation_run platform c' version now' db')) [
      | inr failed ↦ failed
      | inl (_, done) ↦ absurd (ground (arith, none_left))
    ]
  where
    saved_version : saved.version ≡ version + 1
    saved_version = ground arith

    runs : db'.runs ≡ update (is_run_at c.request_message_id version) (λ _. saved) db.runs
    runs = ground arith

    none_left : count (is_run_at c'.request_message_id version) db'.runs ≡ 0
    none_left =
        rw (same, runs)
          (count-update_none (is_run_at c.request_message_id version) (λ _. saved) db.runs
            (λ r. ground (arith, saved_version)))

-- A successful operation.
pub data Step (platform : Platform) (db db' : Database) : Type 0 where
  ensures :
      (run : ConsultationRun) (result : EnsureResult)
      → ensure_consultation_run platform run db ≡ ok (result, db')
      → Step platform db db'
  saves :
      (candidate saved : ConsultationRun) (version now : ℕ)
      → save_consultation_run platform candidate version now db ≡ ok (saved, db')
      → Step platform db db'

-- Any sequence of them.
pub data Reach (platform : Platform) (db : Database) : Database → Type 0 where
  here : Reach platform db db
  next :
      {db' db'' : Database}
      → Reach platform db db'
      → Step platform db' db''
      → Reach platform db db''

-- How a run may change.
record Moves (r s : ConsultationRun) : Type 0 where
  message_id : s.request_message_id ≡ r.request_message_id
  version : r.version ≤ s.version
  unchanged : s.version ≡ r.version → s ≡ r

Moves-refl : (r : ConsultationRun) → Moves r r
Moves-refl r = record { message_id = refl; version = omega arith; unchanged = λ _. refl }

Moves-trans : (r s t : ConsultationRun) → Moves r s → Moves s t → Moves r t
Moves-trans r s t a b = record {
  message_id = b.message_id ∙ a.message_id;
  version = omega (arith, a.version, b.version);
  unchanged = λ e.
      b.unchanged (omega (arith, a.version, b.version, e))
      ∙ a.unchanged (omega (arith, a.version, b.version, e));
}

Step-Grows :
    (platform : Platform) (db db' : Database) → Step platform db db' → Grows Moves db.runs db'.runs
unfolding ensure_consultation_run save_consultation_run
Step-Grows platform db db' (ensures run result o) =
    elim (Option-cases (get_consultation_run run.request_message_id db)) [
      | inl new ↦
          let same : db'.runs ≡ db.runs ++ run ∷ [] = ground arith in
          rw same (Grows-append Moves Moves-refl db.runs (run ∷ []))
      | inr (existing, known) ↦
          let same : db'.runs ≡ db.runs = ground arith in
          rw same (Grows-refl Moves Moves-refl db.runs)
    ]
Step-Grows platform db db' (saves c saved version now o) =
    let same : db'.runs ≡ update (is_run_at c.request_message_id version) (λ _. saved) db.runs =
      ground arith in
    let id : saved.request_message_id ≡ c.request_message_id = ground arith in
    let next_version : saved.version ≡ version + 1 = ground arith in
    rw same (
      Grows-update Moves Moves-refl _ (λ _. saved) db.runs
        (λ r h. record {
          message_id =
              id ∙ sym ((eq_iff r.request_message_id c.request_message_id).0 (ground arith));
          version = ground (arith, next_version);
          unchanged = λ e. absurd (ground (arith, next_version));
        }))

Reach-Grows :
    (platform : Platform) (db db' : Database) → Reach platform db db' → Grows Moves db.runs db'.runs
Reach-Grows platform db _ here = Grows-refl Moves Moves-refl db.runs
Reach-Grows platform db db' (next r s) =
    Grows-trans Moves Moves-trans db.runs _ db'.runs (Reach-Grows platform db _ r)
      (Step-Grows platform _ db' s)

-- A consultation run is found again after any sequence of operations, its version has not
-- decreased, and while its version is the same the whole run is.
pub run_versions :
    (platform : Platform) (id : String) (r : ConsultationRun) (db db' : Database)
    → Reach platform db db'
    → get_consultation_run id db ≡ some r
    → (s : ConsultationRun) × (get_consultation_run id db' ≡ some s)
      × (r.version ≤ s.version)
      × (s.version ≡ r.version → s ≡ r)
unfolding get_consultation_run
run_versions platform id r db db' steps found =
    let (s, found', moves) =
      find-Grows Moves (is_run id) (λ x y m. ap (λ (k : String). k == id) m.message_id) db.runs
        db'.runs r (Reach-Grows platform db db' steps) found in
    (s, found', moves.version, moves.unchanged)

found_new :
    (run : ConsultationRun) (db : Database)
    → get_consultation_run run.request_message_id db ≡ none
    → get_consultation_run run.request_message_id (record db { runs = db.runs ++ run ∷ [] })
      ≡ some run
unfolding get_consultation_run find
found_new run db new =
    find-append_none (is_run run.request_message_id) db.runs (run ∷ []) new ∙ simp eq_refl

-- The run that is answered is the one in the store.
ensured_run :
    (platform : Platform) (run : ConsultationRun) (result : EnsureResult) (db db' : Database)
    → ensure_consultation_run platform run db ≡ ok (result, db')
    → get_consultation_run run.request_message_id db' ≡ some result.run
unfolding ensure_consultation_run
ensured_run platform run result db db' o =
    elim (Option-cases (get_consultation_run run.request_message_id db)) [
      | inl new ↦
          let table : db' ≡ record db { runs = db.runs ++ run ∷ [] } = ground arith in
          let same : result.run ≡ run = ground arith in rw (table, same) (found_new run db new)
      | inr (existing, known) ↦
          let table : db' ≡ db = ground arith in
          let same : result.run ≡ existing = ground arith in rw (table, same) known
    ]

-- Ensuring the run of a message again, with whatever run and after any sequence of ensures and saves,
-- either fails or answers with the run that is then in the store, not created, and writes nothing;
-- that run has the identity of the run that is offered, and is the first answer's unless it was saved
-- since.
pub ensure_again :
    (platform : Platform) (run run' : ConsultationRun) (result result' : EnsureResult)
    (db db1 db2 db3 : Database)
    → ensure_consultation_run platform run db ≡ ok (result, db1)
    → Reach platform db1 db2
    → run'.request_message_id ≡ run.request_message_id
    → ensure_consultation_run platform run' db2 ≡ ok (result', db3)
    → (db3 ≡ db2)
      × (result'.created ≡ false)
      × (get_consultation_run run.request_message_id db2 ≡ some result'.run)
      × (same_consultation_identity result'.run run' ≡ true)
      × (result.run.version ≤ result'.run.version)
      × (result'.run.version ≡ result.run.version → result'.run ≡ result.run)
unfolding ensure_consultation_run
ensure_again platform run run' result result' db db1 db2 db3 o steps same_id o' =
    let (s, found, version, unchanged) =
      run_versions platform run.request_message_id result.run db1 db2 steps
        (ensured_run platform run result db db1 o) in
    let known : get_consultation_run run'.request_message_id db2 ≡ some s = rw same_id found in
    let answered : result' ≡ record { run = s; created = false } = ground arith in
    let run_answered : result'.run ≡ s = ap (λ (x : EnsureResult). x.run) answered in
    (
      ground arith,
      ap (λ (x : EnsureResult). x.created) answered,
      rw run_answered found,
      rw run_answered (ground arith),
      rw run_answered version,
      rw run_answered unchanged,
    )
