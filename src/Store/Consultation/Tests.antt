-- ===== src/Store/Consultation/Tests.antt =====
-- A consultation run that is created and saved.
use balcony_agent_bridge.Base.{◌+◌, ◌≤◌, true, false, none, some, [], ◌∷◌, ◌≡◌, refl}
use balcony_agent_bridge.Base.Table.{update, count, find}
use balcony_agent_bridge.Time.{to_iso_string}
use balcony_agent_bridge.Contracts.Evidence.{is_valid_bundle, all_different}
use balcony_agent_bridge.Store.Consultation.Contract.{is_valid_run}
use balcony_agent_bridge.Store.Schema.{ConsultationRun, RunState, Database, Error, ok, err}
use balcony_agent_bridge.Store.Consultation.{
  get_consultation_run, same_consultation_identity, ensure_consultation_run, save_consultation_run,
}
use balcony_agent_bridge.Store.Consultation.Versions.{
  save_stale, run_versions, ensure_again, here, next, saves,
}
use balcony_agent_bridge.Samples.{empty_database, morning, plain_platform}

-- All that a run of these operations computes with.
consultation : Unit {0}
unfolding update count find to_iso_string get_consultation_run same_consultation_identity
    ensure_consultation_run save_consultation_run is_valid_run is_valid_bundle all_different
consultation = tt

abbrev first_run : ConsultationRun
first_run = record {
  request_message_id = "m1";
  conversation_id = "c1";
  root_request_id = "m1";
  project = "atlas";
  state = RunState.pending_child;
  round_count = 0;
  depth = 0;
  max_rounds = 4;
  max_depth = 2;
  ancestry_fingerprints = "f1" ∷ [];
  deadline_at_utc = "2026-01-01T08:00:00.000Z";
  evidence = record {
    schema_version = "1.0";
    project = "atlas";
    generated_at_utc = "2026-01-01T06:00:00.000Z";
    total_bytes = 0;
    git_snapshot = none;
    items = [];
  };
  requested_evidence = none;
  peer_request = none;
  nested_task_id = none;
  next_attempt_at_utc = none;
  error_code = none;
  final_answer = none;
  final_evidence_paths = [];
  version = 0;
  created_at_utc = "2026-01-01T06:00:00.000Z";
  updated_at_utc = "2026-01-01T06:00:00.000Z";
}

abbrev ensured : Database
ensured = record empty_database { runs = first_run ∷ [] }

ensure_first :
    ensure_consultation_run plain_platform first_run empty_database
    ≡ ok (record { run = first_run; created = true }, ensured)
unfolding consultation
ensure_first = refl

abbrev later_run : ConsultationRun
later_run = record first_run { state = RunState.completed; final_answer = some "42" }

abbrev saved_run : ConsultationRun
saved_run = record later_run { version = 1; updated_at_utc = "2026-01-01T06:00:00.000Z" }

abbrev saved : Database
saved = record empty_database { runs = saved_run ∷ [] }

save_first :
    save_consultation_run plain_platform later_run 0 morning ensured ≡ ok (saved_run, saved)
unfolding consultation
save_first = refl

save_stale_example :
    (e : Error) × (save_consultation_run plain_platform first_run 0 (morning + 5) saved ≡ err e)
save_stale_example =
    save_stale plain_platform later_run first_run saved_run 0 morning (morning + 5) ensured saved
      save_first refl

found_first : get_consultation_run "m1" ensured ≡ some first_run
unfolding consultation
found_first = refl

run_versions_example :
    (s : ConsultationRun) × (get_consultation_run "m1" saved ≡ some s)
    × (first_run.version ≤ s.version)
    × (s.version ≡ first_run.version → s ≡ first_run)
run_versions_example =
    run_versions plain_platform "m1" first_run ensured saved
      (next here (saves later_run saved_run 0 morning save_first)) found_first

ensure_later :
    ensure_consultation_run plain_platform first_run saved
    ≡ ok (record { run = saved_run; created = false }, saved)
unfolding consultation
ensure_later = refl

ensure_again_example :
    (saved ≡ saved)
    × (false ≡ false)
    × (get_consultation_run "m1" saved ≡ some saved_run)
    × (same_consultation_identity saved_run first_run ≡ true)
    × (first_run.version ≤ saved_run.version)
    × (saved_run.version ≡ first_run.version → saved_run ≡ first_run)
ensure_again_example =
    ensure_again plain_platform first_run first_run (record { run = first_run; created = true })
      (record { run = saved_run; created = false }) empty_database ensured saved saved ensure_first
      (next here (saves later_run saved_run 0 morning save_first)) refl ensure_later
