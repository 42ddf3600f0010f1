-- ===== src/Store/Status.antt =====
-- Heartbeats and the status summary (`recordRuntimeHeartbeat`, `effectiveRuntimeStatus`, `getStatus`
-- of src/storage/database.ts).
pub mod Counts
pub mod Heartbeats
mod Tests
use balcony_agent_bridge.Base.{
  ℕ, ◌+◌, ◌-◌, ◌*◌, ◌/◌, String, Bool, true, false, not, ◌||◌, Option, none, some, List, [], ◌∷◌,
  ◌++◌, ltb, if◌then◌else◌, text_le, ◌==◌, length,
}
use balcony_agent_bridge.Base.Table.{update, count, find, select}
use balcony_agent_bridge.Time.{to_iso_string, date_parse}
use balcony_agent_bridge.Security.{normalize_error_code}
use balcony_agent_bridge.Contracts.Evidence.{EvidenceItem}
use balcony_agent_bridge.Store.Schema.{
  OutboxState, OutboxRow, InboxState, InboxRow, RunState, ConsultationRun, RuntimeComponent, bridge,
  dispatcher, consultation_coordinator, RuntimeRow, Database,
}
use balcony_agent_bridge.Store.Queries.{same_inbox_state, found}

abbrev pub same_component : RuntimeComponent → RuntimeComponent → Bool
same_component bridge bridge = true
same_component dispatcher dispatcher = true
same_component consultation_coordinator consultation_coordinator = true
same_component _ _ = false

abbrev pub is_component : RuntimeComponent → RuntimeRow → Bool
is_component c r = same_component r.component c

-- `lastErrorCode ? normalizeErrorCode(lastErrorCode) : null`
abbrev pub safe_code : Option String → Option String
safe_code none = none
safe_code (some c) = if c == "" then none else some (normalize_error_code c)

-- `recordRuntimeHeartbeat`
unfoldable pub record_runtime_heartbeat :
    RuntimeComponent → String → String → Option String → ℕ → Database → Database
record_runtime_heartbeat c instance_id status last_error_code now db =
    let row : RuntimeRow = record {
      component = c;
      instance_id = instance_id;
      status = status;
      heartbeat_at_utc = to_iso_string now;
      last_error = safe_code last_error_code;
    } in
    elim (find (is_component c) db.runtime) [
      | none ↦ record db { runtime = db.runtime ++ row ∷ [] }
      | some _ ↦ record db { runtime = update (is_component c) (λ _. row) db.runtime }
    ]

-- `recordBridgeHeartbeat`
unfoldable pub record_bridge_heartbeat : String → String → Option String → ℕ → Database → Database
record_bridge_heartbeat = record_runtime_heartbeat bridge

-- `recordDispatcherHeartbeat`
unfoldable pub record_dispatcher_heartbeat :
    String → String → Option String → ℕ → Database → Database
record_dispatcher_heartbeat = record_runtime_heartbeat dispatcher

-- `recordConsultationCoordinatorHeartbeat`
unfoldable pub record_consultation_coordinator_heartbeat :
    String → String → Option String → ℕ → Database → Database
record_consultation_coordinator_heartbeat = record_runtime_heartbeat consultation_coordinator

pub data Health : Type 0 where
  healthy degraded stale : Health

pub record RuntimeHealth : Type 0 where
  pub status : Health
  pub age_seconds : ℕ

-- `effectiveRuntimeStatus`. An age below zero counts as zero.
unfoldable pub effective_runtime_status : RuntimeRow → ℕ → ℕ → RuntimeHealth
effective_runtime_status r now stale_after_ms =
    let age_ms = now - date_parse r.heartbeat_at_utc in
    record {
      status =
          if ltb stale_after_ms age_ms
          then stale
          else if r.status == "healthy"
          then healthy
          else degraded;
      age_seconds = age_ms / 1000;
    }

abbrev pub bridge_stale_after_ms : ℕ
bridge_stale_after_ms = 30 * 60 * 1000

abbrev pub dispatcher_stale_after_ms : ℕ
dispatcher_stale_after_ms = 10 * 60 * 1000

abbrev pub same_outbox_state : OutboxState → OutboxState → Bool
same_outbox_state OutboxState.pending OutboxState.pending = true
same_outbox_state OutboxState.leased OutboxState.leased = true
same_outbox_state OutboxState.sent OutboxState.sent = true
same_outbox_state OutboxState.quarantined OutboxState.quarantined = true
same_outbox_state OutboxState.expired OutboxState.expired = true
same_outbox_state _ _ = false

abbrev pub same_run_state : RunState → RunState → Bool
same_run_state RunState.pending_child RunState.pending_child = true
same_run_state RunState.needs_information RunState.needs_information = true
same_run_state RunState.waiting_peer RunState.waiting_peer = true
same_run_state RunState.completed RunState.completed = true
same_run_state RunState.failed RunState.failed = true
same_run_state _ _ = false

-- `countByState`: the number of rows in each state.
unfoldable pub count_by_state {ℓ κ} :
    {A : Type ℓ} {S : Type κ} → (A → S) → (S → S → Bool) → List A → S → ℕ
count_by_state state same rows s = count (λ r. same (state r) s) rows

-- MIN of a text column.
abbrev earliest : Option String → List OutboxRow → Option String
earliest best [] = best
earliest none (r ∷ rs) = earliest (some r.created_at_utc) rs
earliest (some b) (r ∷ rs) =
    earliest (some (if text_le b r.created_at_utc then b else r.created_at_utc)) rs

abbrev waits : OutboxRow → Bool
waits r =
    same_outbox_state r.state OutboxState.pending || same_outbox_state r.state OutboxState.leased

abbrev is_nonempty : List EvidenceItem → Bool
is_nonempty [] = false
is_nonempty (i ∷ items) = true

abbrev sum_over : (ConsultationRun → ℕ) → List ConsultationRun → ℕ
sum_over f [] = 0
sum_over f (r ∷ rs) = f r + sum_over f rs

-- What the status says of a component.
pub record RuntimeReport : Type 0 where
  pub heartbeat_at_utc : String
  pub health : RuntimeHealth
  pub reported_status : String
  pub last_error_code : Option String

abbrev report : ℕ → ℕ → RuntimeRow → RuntimeReport
report now stale_after_ms r = record {
  heartbeat_at_utc = r.heartbeat_at_utc;
  health = effective_runtime_status r now stale_after_ms;
  reported_status = r.status;
  last_error_code = r.last_error;
}

-- `BridgeStatus`
pub record BridgeStatus : Type 0 where
  pub outbox : OutboxState → ℕ
  pub inbox : InboxState → ℕ
  pub consultation : RunState → ℕ
  pub runs_with_evidence : ℕ
  pub evidence_items : ℕ
  pub evidence_bytes : ℕ
  pub oldest_pending_created_at_utc : Option String
  pub bridge_runtime : Option RuntimeReport
  pub dispatcher_runtime : Option RuntimeReport
  pub consultation_runtime : Option RuntimeReport

-- `getStatus`
unfoldable pub get_status : ℕ → Database → BridgeStatus
get_status now db = record {
  outbox = count_by_state (λ (r : OutboxRow). r.state) same_outbox_state db.outbox;
  inbox = count_by_state (λ (r : InboxRow). r.state) same_inbox_state db.inbox;
  consultation = count_by_state (λ (r : ConsultationRun). r.state) same_run_state db.runs;
  runs_with_evidence = count (λ (r : ConsultationRun). is_nonempty r.evidence.items) db.runs;
  evidence_items = sum_over (λ r. length r.evidence.items) db.runs;
  evidence_bytes = sum_over (λ r. r.evidence.total_bytes) db.runs;
  oldest_pending_created_at_utc = earliest none (select waits db.outbox);
  bridge_runtime = found (report now bridge_stale_after_ms) (find (is_component bridge) db.runtime);
  dispatcher_runtime =
      found (report now dispatcher_stale_after_ms) (find (is_component dispatcher) db.runtime);
  consultation_runtime =
      found (report now dispatcher_stale_after_ms)
        (find (is_component consultation_coordinator) db.runtime);
}
