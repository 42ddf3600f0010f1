-- ===== src/Store/System/Parking.antt =====
-- A message on concrete values that is parked for an approval and released by it: received, claimed,
-- its access asked for, the approval decided.
use balcony_agent_bridge.Base.{
  ◌+◌, Bool, true, false, none, List, [], ◌∷◌, ◌≡◌, refl, text_le, text_lt,
}
use balcony_agent_bridge.Base.Table.{update, count, find, select, insert_sorted, sort_by}
use balcony_agent_bridge.Time.{to_iso_string, add_seconds}
use balcony_agent_bridge.Security.{trim}
use balcony_agent_bridge.Contracts.Identifiers.{matches_system, system_id, resource_id}
use balcony_agent_bridge.Store.Schema.{
  InboxState, InboxRow, RequestState, AuditEvent, Database, Result, ok, err,
}
use balcony_agent_bridge.Store.Inbox.{
  same_inbound_message, new_inbox_row, receive_known, receive, persist_incoming,
}
use balcony_agent_bridge.Store.Claims.{
  ClaimedMessage, claimed_message, hash_token, recover_claims, claimable_rows, claim_rows,
  claim_inbox_where,
}
use balcony_agent_bridge.Store.Authorization.{
  get_resource, is_peer_authorized, is_peer_authorized_for_resource, insert_audit,
  hash_authorization_value,
}
use balcony_agent_bridge.Store.Authorization.Requests as Requests
use balcony_agent_bridge.Store.Authorization.Requests.{
  expire_request, expire_rows, expire_requests, get_request, park_claim, requeue_request, decided,
  write_decision, decide_row, decide_request,
}
use balcony_agent_bridge.Store.Authorization.Access.{
  Decision, approval_pending, current_approval, audit_access, access_by_state, access_again,
  access_first, access_by_request, access_resource, access_of, access_row,
  authorize_claimed_resource_access,
}
use balcony_agent_bridge.Store.Authorization.Steps.{accesses, decides}
use balcony_agent_bridge.Store.Lifecycle.Steps.{receives, claims}
use balcony_agent_bridge.Store.System.{
  IsValid, Reach, here, next, incoming, authorizing, system-IsValid,
}
use balcony_agent_bridge.Samples.{request, empty_database, morning, plain_platform}

-- All that the operations compute with.
parking : Unit {0}
unfolding update count find select insert_sorted sort_by to_iso_string add_seconds text_le text_lt
    trim matches_system system_id resource_id same_inbound_message new_inbox_row receive_known
    receive persist_incoming claimed_message hash_token recover_claims claimable_rows claim_rows
    claim_inbox_where get_resource is_peer_authorized is_peer_authorized_for_resource insert_audit
    hash_authorization_value expire_request expire_rows expire_requests get_request park_claim
    requeue_request decided write_decision decide_row decide_request current_approval audit_access
    access_by_state access_again access_first access_by_request access_resource access_of access_row
    authorize_claimed_resource_access
parking = tt

abbrev all_rows : InboxRow → Bool
all_rows r = true

abbrev start : Database
start = record empty_database {
  resources =
      record {
        resource_id = "atlas";
        enabled = true;
        created_at_utc = "2026-01-01T06:00:00.000Z";
        updated_at_utc = "2026-01-01T06:00:00.000Z";
      }
      ∷ [];
}

abbrev received : Database
received = (persist_incoming request 1 morning true start).1

abbrev database_of {ℓ} : {A : Type ℓ} → Result (A × Database) → Database
database_of (ok (a, db)) = db
database_of (err e) = empty_database

abbrev messages_of : Result (List ClaimedMessage × Database) → List ClaimedMessage
messages_of (ok (m, db)) = m
messages_of (err e) = []

abbrev claim_run : Result (List ClaimedMessage × Database)
claim_run = claim_inbox_where plain_platform "w1" 5 60 all_rows morning false received

abbrev claimed_database : Database
claimed_database = database_of claim_run

claim_request : claim_run ≡ ok (messages_of claim_run, claimed_database)
unfolding parking
claim_request = refl

abbrev access_run : Result (Decision × Database)
access_run =
    authorize_claimed_resource_access plain_platform "m1" "w1" "token" "atlas" "operator" morning
      claimed_database

abbrev parked_database : Database
parked_database = database_of access_run

access_request : access_run ≡ ok (approval_pending "m1", parked_database)
unfolding parking
access_request = refl

abbrev approval : Requests.Decision
approval = record {
  state = RequestState.approved_once;
  event = AuditEvent.approved_once;
  temporary_expires_at_utc = none;
  reason = none;
}

abbrev only_database : Result Database → Database
only_database (ok db) = db
only_database (err e) = empty_database

abbrev decide_run : Result Database
decide_run = decide_request plain_platform "m1" "operator" approval (morning + 1000) parked_database

abbrev released_database : Database
released_database = only_database decide_run

decide_approval : decide_run ≡ ok released_database
unfolding parking
decide_approval = refl

abbrev states_of : List InboxRow → List InboxState
states_of [] = []
states_of (r ∷ rows) = r.state ∷ states_of rows

parked_once : states_of parked_database.inbox ≡ InboxState.quarantined ∷ []
unfolding parking
parked_once = refl

released_once : states_of released_database.inbox ≡ InboxState.available ∷ []
unfolding parking
released_once = refl

start-IsValid : IsValid start
start-IsValid = record {
  outbox = record { sound = tt; ids = tt; operations = tt };
  inbox = record { sound = tt; ids = tt };
}

released_steps : Reach plain_platform start released_database
released_steps =
    next
      (next
        (next (next here (incoming (receives request 1 morning true refl))) (
          incoming (claims "w1" 5 60 all_rows morning false (messages_of claim_run) claim_request)))
        (authorizing (
          accesses "m1" "w1" "token" "atlas" "operator" morning (approval_pending "m1")
            access_request)))
      (authorizing (decides "m1" "operator" approval (morning + 1000) decide_approval))

system-IsValid_example : IsValid released_database
system-IsValid_example =
    system-IsValid plain_platform start released_database start-IsValid released_steps
