-- ===== src/Coordination/Tests.antt =====
-- A pass of the coordinator on a claimable request, and evidence that is merged.
use balcony_agent_bridge.Base.{
  ℕ, String, true, false, none, some, List, [], ◌∷◌, ◌++◌, map, ◌≡◌, refl, text_le, text_lt, digit,
  decimal, join, utf16_length, take_units,
}
use balcony_agent_bridge.Base.Table.{update, count, find, select, insert_sorted, sort_by}
use balcony_agent_bridge.Base.Table.Keys.{Distinct}
use balcony_agent_bridge.Time.{to_iso_string, add_seconds, date_parse}
use balcony_agent_bridge.Security.{trim, is_white}
use balcony_agent_bridge.Contracts.Json.{canonical_json, quoted, visit}
use balcony_agent_bridge.Contracts.Payload.{payload_json}
use balcony_agent_bridge.Contracts.Identifiers.{system_id, resource_id}
use balcony_agent_bridge.Contracts.Envelope.{Envelope, hash_payload, issues, parse_envelope}
use balcony_agent_bridge.Contracts.Envelope.Fields.{
  bounded, is_fingerprint, is_dispatch, is_coordination_request, is_coordination_result,
  is_consultation_context, evidence_references, message_payload, envelope_core,
}
use balcony_agent_bridge.Contracts.Envelope.Creation.{candidate, create_envelope}
use balcony_agent_bridge.Contracts.Evidence.{
  EvidenceSource, EvidenceItem, EvidenceBundle, utf8_length, with_slashes, all_different, path_key,
  is_valid_item, is_valid_bundle, sum_bytes,
}
use balcony_agent_bridge.Store.Schema.{
  GrantState, RunState, ConsultationRun, Database, evidence_policy, Result, ok, err,
}
use balcony_agent_bridge.Store.Outbox.{
  new_outbox_row, enqueue_envelope_row, insert_or_ignore, existing_operation, get_outbox_operation,
  same_idempotent_operation, other_root,
}
use balcony_agent_bridge.Store.Inbox.{new_inbox_row}
use balcony_agent_bridge.Store.Claims.{
  claimed_message, hash_token, recover_claims, claimable_rows, claim_rows, claim_inbox_where,
  claim_autonomous_consultation_inbox,
}
use balcony_agent_bridge.Store.Settlement.{
  truncate, stored_reason, settle_claim, acknowledge, existing_reply, resolve_reply, enqueue_reply,
  replay_reply, settle_held, settle_inbox_with_reply,
}
use balcony_agent_bridge.Store.Authorization.{
  get_resource, is_peer_authorized, insert_audit, hash_authorization_value,
}
use balcony_agent_bridge.Store.Authorization.Requests.{
  expire_request, expire_rows, expire_requests, get_request, park_claim,
}
use balcony_agent_bridge.Store.Authorization.Access.{
  current_approval, audit_access, access_by_state, access_again, access_first, access_by_request,
  access_resource, access_of, access_row, authorize_claimed_resource_access,
}
use balcony_agent_bridge.Store.Consultation.{
  get_consultation_run, same_consultation_identity, ensure_consultation_run, save_consultation_run,
}
use balcony_agent_bridge.Store.Consultation.Contract.{
  normalize_fingerprint_part, consultation_request_fingerprint, is_valid_run,
}
use balcony_agent_bridge.Store.Queries.{get_inbox_message}
use balcony_agent_bridge.Application.{
  created, require_authorized_remote_node, create_reply_envelope, settle_with_reply,
}
use balcony_agent_bridge.Coordination.{Coordinator}
use balcony_agent_bridge.Coordination.Evidence.{
  empty_evidence, put_item, put_items, merge_evidence, build_evidence_references, revisions_differ,
}
use balcony_agent_bridge.Coordination.Evidence.Merging.{has_path, latest, merge-latest}
use balcony_agent_bridge.Coordination.Child as Child
use balcony_agent_bridge.Coordination.Child.{parse_child_result}
use balcony_agent_bridge.Coordination.Run.{
  World, ChildInput, CollectionInput, without_transient_requests, release, complete, settle_failure,
  settle_initial_failure, save, fail,
}
use balcony_agent_bridge.Coordination.Run.Begin.{ensure_run, run_of_decision, begin_run}
use balcony_agent_bridge.Coordination.Run.Turn.{after_turn, finish_turn, execute_child}
use balcony_agent_bridge.Coordination.Run.Advance.{
  advance_by_state, advance_run, or_fail, with_run, process_claim, process_claims, run_once,
}
use balcony_agent_bridge.Coordination.Progress.{Moves, run_key}
use balcony_agent_bridge.Coordination.Progress.History.{run_once-Moves}
use balcony_agent_bridge.Samples.{
  request, payload, read_only_dispatch, empty_database, morning, hex_platform,
}

-- All that a pass computes with.
pass : Unit {0}
unfolding update count find select insert_sorted sort_by to_iso_string add_seconds date_parse
    text_le text_lt digit decimal join utf16_length take_units trim is_white canonical_json quoted
    visit payload_json system_id resource_id hash_payload issues parse_envelope bounded
    is_fingerprint is_dispatch is_coordination_request is_coordination_result
    is_consultation_context evidence_references message_payload envelope_core candidate
    create_envelope utf8_length with_slashes all_different path_key is_valid_item is_valid_bundle
    new_outbox_row enqueue_envelope_row insert_or_ignore existing_operation get_outbox_operation
    same_idempotent_operation other_root new_inbox_row claimed_message hash_token recover_claims
    claimable_rows claim_rows claim_inbox_where claim_autonomous_consultation_inbox truncate
    stored_reason settle_claim acknowledge existing_reply resolve_reply enqueue_reply replay_reply
    settle_held settle_inbox_with_reply get_resource is_peer_authorized insert_audit
    hash_authorization_value expire_request expire_rows expire_requests get_request park_claim
    current_approval audit_access access_by_state access_again access_first access_by_request
    access_resource access_of access_row authorize_claimed_resource_access get_consultation_run
    same_consultation_identity ensure_consultation_run save_consultation_run
    normalize_fingerprint_part consultation_request_fingerprint is_valid_run get_inbox_message
    created require_authorized_remote_node create_reply_envelope settle_with_reply empty_evidence
    build_evidence_references parse_child_result without_transient_requests release complete
    settle_failure settle_initial_failure save fail ensure_run run_of_decision begin_run after_turn
    finish_turn execute_child advance_by_state advance_run or_fail with_run process_claim
    process_claims run_once
pass = tt

abbrev morning_text : String
morning_text = "2026-01-01T06:00:00.000Z"

abbrev coordinator : Coordinator
coordinator = record {
  config = record { system_id = "SYS-B"; authorized_node_ids = "SYS-A" ∷ [] };
  consumer_id = "w1";
  policy = record {
    max_rounds = 4;
    max_depth = 2;
    run_timeout_seconds = 36000;
    claim_lease_seconds = 600;
    max_output_bytes = 65536;
    peer_poll_interval_seconds = 5;
  };
  project_path = λ project. some "/projects/atlas";
  on_windows = false;
}

-- A child that answers at once.
abbrev world : World
world = record {
  execute = λ (input : ChildInput). ok (some (Child.completed "It compiles." []));
  collect = λ (input : CollectionInput). err (evidence_policy "no evidence");
  operation_time = λ now. now;
}

-- The request, with an answer that needs pinned evidence.
abbrev consultation : Envelope
consultation = record request {
  payload = record payload {
    dispatch = some (record read_only_dispatch { evidence_mode = some "pinned_git" });
  };
}

abbrev asked : Database
asked = record empty_database {
  inbox = new_inbox_row consultation 1 morning_text true ∷ [];
  resources =
      record {
        resource_id = "atlas";
        enabled = true;
        created_at_utc = morning_text;
        updated_at_utc = morning_text;
      }
      ∷ [];
  grants =
      record {
        peer_system_id = "SYS-A";
        resource_id = "atlas";
        state = GrantState.active;
        granted_at_utc = morning_text;
        revoked_at_utc = none;
      }
      ∷ [];
}

-- The run of the request before its first turn.
abbrev waiting_run : ConsultationRun
waiting_run = record {
  request_message_id = "m1";
  conversation_id = "c1";
  root_request_id = "m1";
  project = "atlas";
  state = RunState.pending_child;
  round_count = 0;
  depth = 0;
  max_rounds = 4;
  max_depth = 2;
  ancestry_fingerprints = "f1" ∷ [];
  deadline_at_utc = "2026-01-01T10:00:00.000Z";
  evidence = record {
    schema_version = "1.0";
    project = "atlas";
    generated_at_utc = morning_text;
    total_bytes = 0;
    git_snapshot = none;
    items = [];
  };
  requested_evidence = none;
  peer_request = none;
  nested_task_id = none;
  next_attempt_at_utc = none;
  error_code = none;
  final_answer = none;
  final_evidence_paths = [];
  version = 0;
  created_at_utc = morning_text;
  updated_at_utc = morning_text;
}

abbrev started : Database
started = record asked { runs = waiting_run ∷ [] }

abbrev after_pass : Database → Result ℕ × Database
after_pass db = run_once hex_platform coordinator world morning db

-- A pass makes a run, takes the child's turn and replies.
one_progressed : (after_pass asked).0 ≡ ok 1
unfolding pass
one_progressed = refl

abbrev runs_of : Database → List (RunState × ℕ)
runs_of db = map (λ (r : ConsultationRun). (r.state, r.round_count)) db.runs

one_completed : runs_of (after_pass started).1 ≡ (RunState.completed, 1) ∷ []
unfolding pass
one_completed = refl

found_waiting : get_consultation_run "m1" started ≡ some waiting_run
unfolding pass
found_waiting = refl

one_run : Distinct run_key started.runs
one_run = (tt, tt)

run_once-Moves_example :
    (s : ConsultationRun) × (get_consultation_run "m1"
        (run_once hex_platform coordinator world morning started).1
      ≡ some s)
    × Moves waiting_run s
run_once-Moves_example =
    run_once-Moves hex_platform coordinator world morning started "m1" waiting_run one_run
      found_waiting

-- Two items of one path.
abbrev note : String → String → EvidenceItem
note path content = record {
  path = path;
  source = EvidenceSource.local_project;
  source_message_id = none;
  git_commit = none;
  git_blob_oid = none;
  content = content;
  sha256 = hex_platform.sha256 content;
  byte_length = 3;
  modified_at_utc = morning_text;
}

abbrev bundle : List EvidenceItem → EvidenceBundle
bundle items = record {
  schema_version = "1.0";
  project = "atlas";
  generated_at_utc = morning_text;
  total_bytes = sum_bytes items;
  git_snapshot = none;
  items = items;
}

abbrev before : EvidenceBundle
before = bundle (note "a.txt" "old" ∷ note "b.txt" "two" ∷ [])

abbrev added : EvidenceBundle
added = bundle (note "a.txt" "new" ∷ [])

abbrev merged : EvidenceBundle
merged = bundle (note "a.txt" "new" ∷ note "b.txt" "two" ∷ [])

merge_notes : merge_evidence hex_platform before added morning ≡ ok merged
unfolding pass put_item put_items merge_evidence
merge_notes = refl

merge-latest_example :
    (find (has_path hex_platform "a.txt") merged.items
      ≡ latest hex_platform "a.txt" (before.items ++ added.items))
    × (is_valid_bundle hex_platform merged ≡ true)
    × (merged.project ≡ before.project)
    × (merged.total_bytes ≡ sum_bytes merged.items)
    × (revisions_differ before.git_snapshot added.git_snapshot ≡ false)
merge-latest_example = merge-latest hex_platform before added merged morning "a.txt" merge_notes
