-- ===== src/Store/Status/Heartbeats.antt =====
-- What a heartbeat changes in the status (`recordRuntimeHeartbeat`, `getStatus` of
-- src/storage/database.ts).
use balcony_agent_bridge.Base.{
  ℕ, ◌+◌, ◌≤◌, String, true, false, Option, none, some, List, [], ◌∷◌, ◌++◌, ◌≡◌, refl, inl, inr,
  arith, Option-cases, Bool-cases, subst, is_some, if◌then◌else◌, ◌==◌,
}
use balcony_agent_bridge.Base.Table.{find, update}
use balcony_agent_bridge.Time.{to_iso_string, date_parse}
use balcony_agent_bridge.Store.Schema.{
  RuntimeComponent, bridge, dispatcher, consultation_coordinator, RuntimeRow, Database,
}
use balcony_agent_bridge.Store.Queries.{found}
use balcony_agent_bridge.Store.Status.{
  same_component, is_component, safe_code, record_runtime_heartbeat, healthy, degraded,
  RuntimeReport, effective_runtime_status, report, BridgeStatus, get_status, bridge_stale_after_ms,
  dispatcher_stale_after_ms,
}

-- The part of the status that is about a component, and after what time it counts as stale.
abbrev pub report_of : RuntimeComponent → BridgeStatus → Option RuntimeReport
report_of bridge s = s.bridge_runtime
report_of dispatcher s = s.dispatcher_runtime
report_of consultation_coordinator s = s.consultation_runtime

abbrev pub stale_after : RuntimeComponent → ℕ
stale_after bridge = bridge_stale_after_ms
stale_after dispatcher = dispatcher_stale_after_ms
stale_after consultation_coordinator = dispatcher_stale_after_ms

-- The status shows the row of the component.
report_of-find :
    (c : RuntimeComponent) (now : ℕ) (db : Database)
    → report_of c (get_status now db)
      ≡ found (report now (stale_after c)) (find (is_component c) db.runtime)
unfolding get_status
report_of-find bridge now db = refl
report_of-find dispatcher now db = refl
report_of-find consultation_coordinator now db = refl

module _ (row : RuntimeRow) where
  find-append_row :
      (d : RuntimeComponent) (rows : List RuntimeRow)
      → find (is_component d) (rows ++ row ∷ []) ≡ (
          if is_some (find (is_component d) rows)
          then find (is_component d) rows
          else if is_component d row
          then some row
          else none)
  unfolding find
  find-append_row d [] = refl
  find-append_row d (r ∷ rows) = ground (arith, find-append_row d rows)

  -- Only the row of the component is replaced.
  find-replaced :
      (c d : RuntimeComponent) (rows : List RuntimeRow)
      → row.component ≡ c
      → find (is_component d) (update (is_component c) (λ _. row) rows) ≡ (
          if same_component c d
          then (if is_some (find (is_component c) rows) then some row else none)
          else find (is_component d) rows)
  unfolding find update
  find-replaced c d [] own = ground arith
  find-replaced c d (r ∷ rows) own = ground (arith, own, find-replaced c d rows own)

new_row : RuntimeComponent → String → String → Option String → ℕ → RuntimeRow
new_row c instance_id status code now = record {
  component = c;
  instance_id = instance_id;
  status = status;
  heartbeat_at_utc = to_iso_string now;
  last_error = safe_code code;
}

same_component-eq : (c d : RuntimeComponent) → same_component c d ≡ true → c ≡ d
same_component-eq bridge bridge h = refl
same_component-eq dispatcher dispatcher h = refl
same_component-eq consultation_coordinator consultation_coordinator h = refl
same_component-eq bridge dispatcher h = cc
same_component-eq bridge consultation_coordinator h = cc
same_component-eq dispatcher bridge h = cc
same_component-eq dispatcher consultation_coordinator h = cc
same_component-eq consultation_coordinator bridge h = cc
same_component-eq consultation_coordinator dispatcher h = cc

some_or_none : (o : Option RuntimeRow) → (if is_some o then o else none) ≡ o
some_or_none none = refl
some_or_none (some r) = refl

-- The row of a component that had none stands at the end.
appended :
    (c d : RuntimeComponent) (rows : List RuntimeRow) (row : RuntimeRow)
    → find (is_component c) rows ≡ none
    → (if is_some (find (is_component d) rows)
        then find (is_component d) rows
        else if same_component c d
        then some row
        else none)
      ≡ (if same_component c d then some row else find (is_component d) rows)
appended c d rows row first = elim (Bool-cases (same_component c d)) [
  | inl same ↦
      let absent : find (is_component d) rows ≡ none =
        subst (λ (k : RuntimeComponent). find (is_component k) rows ≡ none)
          (same_component-eq c d same) first in
      rw (absent, same) refl
  | inr other ↦ rw other (some_or_none (find (is_component d) rows))
]

find-recorded :
    (c d : RuntimeComponent) (instance_id status : String) (code : Option String) (now : ℕ)
    (db : Database)
    → find (is_component d) (record_runtime_heartbeat c instance_id status code now db).runtime ≡ (
        if same_component c d
        then some (new_row c instance_id status code now)
        else find (is_component d) db.runtime)
unfolding record_runtime_heartbeat new_row
find-recorded c d instance_id status code now db =
    let row = new_row c instance_id status code now in
    elim (Option-cases (find (is_component c) db.runtime)) [
      | inl first ↦
          rw (first, record_runtime_heartbeat, find-append_row row d db.runtime)
            (appended c d db.runtime row first)
      | inr (old, known) ↦
          rw (known, record_runtime_heartbeat, find-replaced row c d db.runtime refl, known) refl
    ]

-- After a heartbeat the status shows it: the component is healthy or degraded as it reported, with
-- the instant and the error code of the report, until the time after which it counts as stale. What
-- the status shows of the other components is unchanged.
pub heartbeat_reported :
    (c : RuntimeComponent) (instance_id status : String) (code : Option String) (now later : ℕ)
    (db : Database)
    → date_parse (to_iso_string now) ≡ now
    → later ≤ now + stale_after c
    → let db' = record_runtime_heartbeat c instance_id status code now db in
      ((r : RuntimeReport) × (report_of c (get_status later db') ≡ some r)
        × (r.heartbeat_at_utc ≡ to_iso_string now)
        × (r.reported_status ≡ status)
        × (r.last_error_code ≡ safe_code code)
        × (r.health.status ≡ (if status == "healthy" then healthy else degraded)))
      × ((d : RuntimeComponent)
          → same_component c d ≡ false
          → report_of d (get_status later db') ≡ report_of d (get_status later db))
unfolding effective_runtime_status new_row
heartbeat_reported c instance_id status code now later db denoted fresh =
    let db' = record_runtime_heartbeat c instance_id status code now db in
    let row = new_row c instance_id status code now in
    (
      (
        report later (stale_after c) row,
        rw
            (
              report_of-find c later db',
              find-recorded c c instance_id status code now db,
              same_component_refl c,
            )
            refl,
        refl,
        refl,
        refl,
        rw denoted (ground (arith, fresh)),
      ),
      λ d other.
          rw
            (
              report_of-find d later db',
              report_of-find d later db,
              find-recorded c d instance_id status code now db,
              other,
            )
            refl,
    )
  where
    same_component_refl : (c : RuntimeComponent) → same_component c c ≡ true
    same_component_refl bridge = refl
    same_component_refl dispatcher = refl
    same_component_refl consultation_coordinator = refl
