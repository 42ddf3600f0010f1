-- ===== src/Store/Authorization/Access/Tests.antt =====
-- An access on a concrete approval.
use balcony_agent_bridge.Base.{
  String, true, none, some, List, [], ◌∷◌, ◌++◌, ◌≡◌, refl, text_le, text_lt,
}
use balcony_agent_bridge.Base.Table.{update, count, find, select, insert_sorted, sort_by}
use balcony_agent_bridge.Base.Table.Keys.{Distinct}
use balcony_agent_bridge.Time.{to_iso_string, add_seconds}
use balcony_agent_bridge.Security.{trim}
use balcony_agent_bridge.Contracts.Identifiers.{system_id, resource_id}
use balcony_agent_bridge.Store.Schema.{
  InboxRow, Resource, RequestState, RunState, ConsultationRun, AuthorizationRequest,
  AuthorizationAudit, Database, Result, ok, err,
}
use balcony_agent_bridge.Store.Inbox.{new_inbox_row}
use balcony_agent_bridge.Store.Claims.{with_claim, hash_token}
use balcony_agent_bridge.Store.Authorization.{
  get_resource, is_peer_authorized, insert_audit, hash_authorization_value,
}
use balcony_agent_bridge.Store.Authorization.Requests.{
  has_request, expire_request, expire_rows, expire_requests, get_request, park_claim,
}
use balcony_agent_bridge.Store.Authorization.Access.{
  approve_once, same_request_recovery, Decision, authorized, current_approval, audit_access,
  access_by_state, access_again, access_first, access_by_request, access_resource, access_of,
  access_row, authorize_claimed_resource_access,
}
use balcony_agent_bridge.Store.Authorization.Access.Soundness.{Authorized, authorize_sound}
use balcony_agent_bridge.Store.Authorization.Access.Once.{Later, approve_once_spent}
use balcony_agent_bridge.Store.Authorization.Moves.{is_final, can_become}
use balcony_agent_bridge.Store.Authorization.Steps.{Reach, here, next, accesses}
use balcony_agent_bridge.Store.Authorization.History.{
  request_key, request_history, audit_append_only,
}
use balcony_agent_bridge.Samples.{request, empty_database, morning, plain_platform}

-- All that an access computes with.
access : Unit {0}
unfolding update count find select insert_sorted sort_by to_iso_string add_seconds text_le text_lt
    trim system_id resource_id new_inbox_row hash_token get_resource is_peer_authorized insert_audit
    hash_authorization_value expire_request expire_rows expire_requests get_request park_claim
    current_approval audit_access access_by_state access_again access_first access_by_request
    access_resource access_of access_row authorize_claimed_resource_access
access = tt

abbrev morning_text : String
morning_text = "2026-01-01T06:00:00.000Z"

abbrev held_row : InboxRow
held_row =
    with_claim "w1" "h:token" "2026-01-01T06:01:00.000Z" (new_inbox_row request 1 morning_text true)

abbrev atlas : Resource
atlas = record {
  resource_id = "atlas";
  enabled = true;
  created_at_utc = morning_text;
  updated_at_utc = morning_text;
}

abbrev identity : String
identity =
    hash_authorization_value plain_platform
      ("SYS-A" ∷ "atlas" ∷ "task_request" ∷ "agent-coordination" ∷ "k1" ∷ [])

abbrev approved_request : AuthorizationRequest
approved_request = record {
  request_id = "m1";
  request_identity = identity;
  request_fingerprint = hash_authorization_value plain_platform (identity ∷ "h1" ∷ []);
  peer_system_id = "SYS-A";
  resource_id = "atlas";
  state = RequestState.approved_once;
  requested_at_utc = morning_text;
  decided_at_utc = some morning_text;
  decided_by = some "operator";
  temporary_expires_at_utc = none;
  consumed_at_utc = none;
  reason = none;
  updated_at_utc = morning_text;
}

abbrev approved_database : Database
approved_database = record empty_database {
  inbox = held_row ∷ [];
  resources = atlas ∷ [];
  requests = approved_request ∷ [];
}

abbrev database_of : Result (Decision × Database) → Database
database_of (ok (d, db)) = db
database_of (err e) = empty_database

abbrev run : Database → Result (Decision × Database)
run db =
    authorize_claimed_resource_access plain_platform "m1" "w1" "token" " Atlas " "operator" morning
      db

abbrev spent_database : Database
spent_database = database_of (run approved_database)

access_approved : run approved_database ≡ ok (authorized approve_once (some "m1"), spent_database)
unfolding access
access_approved = refl

access_denied_again : run spent_database ≡ ok (Decision.denied (some "m1"), spent_database)
unfolding access
access_denied_again = refl

one_request : Distinct request_key approved_database.requests
one_request = (tt, tt)

spends : Reach plain_platform approved_database spent_database
spends = next here (
    accesses "m1" "w1" "token" " Atlas " "operator" morning (authorized approve_once (some "m1"))
      access_approved)

authorize_sound_example :
    Authorized plain_platform "m1" "w1" "token" " Atlas " "operator" morning approved_database
      spent_database approve_once
      (some "m1")
authorize_sound_example =
    authorize_sound plain_platform "m1" "w1" "token" " Atlas " "operator" morning approved_database
      spent_database approve_once (some "m1") one_request access_approved

-- The consultation of the message has begun.
abbrev begun_run : ConsultationRun
begun_run = record {
  request_message_id = "m1";
  conversation_id = "c1";
  root_request_id = "m1";
  project = "atlas";
  state = RunState.pending_child;
  round_count = 0;
  max_rounds = 4;
  depth = 0;
  max_depth = 2;
  deadline_at_utc = "2026-01-01T12:00:00.000Z";
  ancestry_fingerprints = [];
  evidence = record {
    schema_version = "1.0";
    project = "atlas";
    generated_at_utc = "2026-01-01T06:00:00.000Z";
    total_bytes = 0;
    git_snapshot = none;
    items = [];
  };
  requested_evidence = none;
  peer_request = none;
  nested_task_id = none;
  next_attempt_at_utc = none;
  error_code = none;
  final_answer = none;
  final_evidence_paths = [];
  version = 0;
  created_at_utc = morning_text;
  updated_at_utc = morning_text;
}

abbrev begun_database : Database
begun_database = record approved_database { runs = begun_run ∷ [] }

abbrev spent_begun : Database
spent_begun = database_of (run begun_database)

access_begun : run begun_database ≡ ok (authorized approve_once (some "m1"), spent_begun)
unfolding access
access_begun = refl

access_recovered : run spent_begun ≡ ok (authorized same_request_recovery (some "m1"), spent_begun)
unfolding access
access_recovered = refl

approve_once_spent_example : Later "m1" spent_begun.runs same_request_recovery (some "m1")
approve_once_spent_example =
    approve_once_spent plain_platform "m1" "w1" "w1" "token" "token" " Atlas " " Atlas " "operator"
      "operator" morning morning begun_database spent_begun spent_begun spent_begun
      same_request_recovery (some "m1") (some "m1") one_request access_begun here access_recovered

found_request : find (has_request "m1") approved_database.requests ≡ some approved_request
unfolding access
found_request = refl

request_history_example :
    (s : AuthorizationRequest) × (find (has_request "m1") spent_database.requests ≡ some s)
    × (s.request_identity ≡ approved_request.request_identity)
    × (s.request_fingerprint ≡ approved_request.request_fingerprint)
    × (s.peer_system_id ≡ approved_request.peer_system_id)
    × (s.resource_id ≡ approved_request.resource_id)
    × (can_become approved_request.state s.state ≡ true)
    × (is_final approved_request.state ≡ true → s ≡ approved_request)
request_history_example =
    request_history plain_platform "m1" approved_request approved_database spent_database spends
      found_request

audit_append_only_example :
    (more : List AuthorizationAudit) × (spent_database.audit ≡ approved_database.audit ++ more)
audit_append_only_example = audit_append_only plain_platform approved_database spent_database spends
