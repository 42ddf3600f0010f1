-- ===== src/Store/Consultation.antt =====
-- Consultation runs (`getConsultationRun`, `ensureConsultationRun`, `saveConsultationRun` of
-- src/storage/database.ts). A row's `version` column repeats the run's, so a row is the run.
pub mod Contract
pub mod Versions
mod Tests
use balcony_agent_bridge.Base.{
  ℕ, ◌+◌, String, Bool, true, false, ◌&&◌, Option, none, some, List, [], ◌∷◌, ◌++◌, eqb, ◌==◌,
  if◌then◌else◌,
}
use balcony_agent_bridge.Base.Table.{update, count, find}
use balcony_agent_bridge.Time.{to_iso_string}
use balcony_agent_bridge.Contracts.Envelope.{Platform}
use balcony_agent_bridge.Store.Schema.{
  ConsultationRun, Database, validation, state_transition, Result, ok, err, ◌>>=◌, ◌>>◌, guard,
}
use balcony_agent_bridge.Store.Consultation.Contract.{is_valid_run}

abbrev pub is_run : String → ConsultationRun → Bool
is_run id run = run.request_message_id == id

-- `getConsultationRun`
unfoldable pub get_consultation_run : String → Database → Option ConsultationRun
get_consultation_run id db = find (is_run id) db.runs

-- `sameConsultationIdentity`
unfoldable pub same_consultation_identity : ConsultationRun → ConsultationRun → Bool
same_consultation_identity left right =
    left.request_message_id == right.request_message_id
    && left.conversation_id == right.conversation_id
    && left.root_request_id == right.root_request_id
    && left.project == right.project
    && eqb left.depth right.depth

-- `EnsureConsultationRunResult`
pub record EnsureResult : Type 0 where
  pub run : ConsultationRun
  pub created : Bool

abbrev pub is_run_at : String → ℕ → ConsultationRun → Bool
is_run_at id version run = is_run id run && eqb run.version version

module _ (platform : Platform) where
  -- `ensureConsultationRun`
  unfoldable pub ensure_consultation_run :
      ConsultationRun → Database → Result (EnsureResult × Database)
  ensure_consultation_run run db = do
    guard (is_valid_run platform run) (validation "ConsultationRun")
    guard (eqb run.version 0) (state_transition "A new consultation run must begin at version 0")
    elim (get_consultation_run run.request_message_id db) [
      | none ↦ ok (record { run = run; created = true }, record db { runs = db.runs ++ run ∷ [] })
      | some existing ↦
          if same_consultation_identity existing run
          then ok (record { run = existing; created = false }, db)
          else err (state_transition "Consultation run already exists with different identity")
    ]

  -- `saveConsultationRun`
  unfoldable pub save_consultation_run :
      ConsultationRun → ℕ → ℕ → Database → Result (ConsultationRun × Database)
  save_consultation_run candidate expected_version now db = do
    guard (is_valid_run platform candidate) (validation "ConsultationRun")
    guard (eqb candidate.version expected_version)
        (state_transition "Consultation run version does not match the expected version")
    let updated : ConsultationRun = record candidate {
      version = expected_version + 1;
      updated_at_utc = to_iso_string now;
    }
    guard (is_valid_run platform updated) (validation "ConsultationRun")
    let current = is_run_at candidate.request_message_id expected_version
    guard (eqb (count current db.runs) 1) (state_transition "Consultation run has a stale version")
    ok (updated, record db { runs = update current (λ _. updated) db.runs })
