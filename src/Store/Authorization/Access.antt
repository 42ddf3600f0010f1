-- ===== src/Store/Authorization/Access.antt =====
-- `authorizeClaimedResourceAccess` of src/storage/database.ts.
pub mod Granted
pub mod Soundness
pub mod Once
mod Tests
use balcony_agent_bridge.Base.{
  ℕ, ◌+◌, String, Bool, true, false, not, ◌&&◌, ◌||◌, Option, none, some, List, [], ◌∷◌, ◌++◌, eqb,
  if◌then◌else◌, ◌==◌, is_some, is_text, is_at_most, is_after, text_lt, text_le,
}
use balcony_agent_bridge.Base.Table.{update, count, find, select, sort_by}
use balcony_agent_bridge.Time.{to_iso_string}
use balcony_agent_bridge.Contracts.Identifiers.{resource_id, system_id}
use balcony_agent_bridge.Contracts.Envelope.{
  MessageKind, message, task_request, task_result, status, acknowledgement, heartbeat, Envelope,
  Platform,
}
use balcony_agent_bridge.Store.Schema.{
  InboxRow, RequestState, pending, approved_once, approved_temporary, revoked, expired, consumed,
  AuthorizationRequest, AuditEvent, ConsultationRun, Database, Error, state_transition,
  constraint_failed, Result, ok, err, ◌>>=◌, ◌>>◌, guard,
}
use balcony_agent_bridge.Store.Inbox.{has_id}
use balcony_agent_bridge.Store.Claims.{hash_token, is_held, invalid_claim}
use balcony_agent_bridge.Store.Authorization.{
  parsed, assert_non_empty, get_resource, is_enabled, is_peer_authorized, AuditInput, insert_audit,
  hash_authorization_value,
}
use balcony_agent_bridge.Store.Authorization.Requests.{
  has_request, is_once, is_temporary, get_request, park_claim, expire_requests,
}

-- `ResourceAccessDecision`
pub data Basis : Type 0 where
  persistent_grant temporary_approval approve_once same_request_recovery : Basis

pub data Decision : Type 0 where
  authorized : Basis → Option String → Decision
  approval_pending : String → Decision
  duplicate : String → Decision
  denied : Option String → Decision

abbrev pub kind_text : MessageKind → String
kind_text message = "message"
kind_text task_request = "task_request"
kind_text task_result = "task_result"
kind_text status = "status"
kind_text acknowledgement = "acknowledgement"
kind_text heartbeat = "heartbeat"

-- A temporary approval of the pair that has not run out, the last to do so first.
abbrev pub is_current : String → String → String → AuthorizationRequest → Bool
is_current peer resource now_utc r =
    r.peer_system_id == peer
    && r.resource_id == resource
    && is_temporary r.state
    && is_after r.temporary_expires_at_utc now_utc

abbrev pub expiry_text : AuthorizationRequest → String
expiry_text r = elim r.temporary_expires_at_utc [ none ↦ "" | some time ↦ time ]

abbrev pub expires_last : AuthorizationRequest → AuthorizationRequest → Bool
expires_last a b =
    text_lt (expiry_text b) (expiry_text a)
    || (expiry_text a == expiry_text b && text_le a.request_id b.request_id)

abbrev pub first : List AuthorizationRequest → Option AuthorizationRequest
first [] = none
first (r ∷ rs) = some r

unfoldable pub current_approval : String → String → String → Database → Option AuthorizationRequest
current_approval peer resource now_utc db =
    first (sort_by expires_last (select (is_current peer resource now_utc) db.requests))

abbrev pub has_identity : String → AuthorizationRequest → Bool
has_identity identity r = r.request_identity == identity

abbrev pub is_approved_once : String → AuthorizationRequest → Bool
is_approved_once id r = has_request id r && is_once r.state

abbrev pub as_consumed : String → AuthorizationRequest → AuthorizationRequest
as_consumed now_utc r = record r {
  state = consumed;
  consumed_at_utc = some now_utc;
  updated_at_utc = now_utc;
}

abbrev pub has_run : String → ConsultationRun → Bool
has_run id run = run.request_message_id == id

-- The claim under which the access is asked for.
pub record Access : Type 0 where
  pub request_message_id : String
  pub consumer_id : String
  pub claim_token : String
  pub actor_id : String
  pub peer_system_id : String
  pub resource_id : String
  pub request_identity : String
  pub request_fingerprint : String
  pub now_utc : String

module _ (platform : Platform) where
  unfoldable pub audit_access : Access → String → AuditEvent → RequestState → AuditInput
  audit_access a id event state = record {
    request_id = id;
    event = event;
    state = state;
    actor_id = a.actor_id;
    peer_system_id = a.peer_system_id;
    resource_id = a.resource_id;
    occurred_at_utc = a.now_utc;
    reason = none;
  }

  -- The answer to a request that was made before: the switch over its state.
  unfoldable pub access_by_state :
      Access → AuthorizationRequest → RequestState → Database → Result (Decision × Database)
  access_by_state a existing pending db = do
    db' ← park_claim platform a.request_message_id a.consumer_id a.claim_token a.now_utc db
    ok (approval_pending existing.request_id, db')
  access_by_state a existing approved_once db = ok (
    authorized approve_once (some existing.request_id),
    insert_audit platform (audit_access a existing.request_id AuditEvent.consumed consumed)
        (record db {
          requests =
              update (is_approved_once existing.request_id) (as_consumed a.now_utc) db.requests;
        }),
  )
  access_by_state a existing consumed db =
      if is_some (find (has_run existing.request_id) db.runs)
      then ok (authorized same_request_recovery (some existing.request_id), db)
      else ok (Decision.denied (some existing.request_id), db)
  access_by_state a existing approved_temporary db =
      if is_after existing.temporary_expires_at_utc a.now_utc
      then ok (authorized temporary_approval (some existing.request_id), db)
      else ok (Decision.denied (some existing.request_id), db)
  access_by_state a existing _ db = ok (Decision.denied (some existing.request_id), db)

  unfoldable pub access_again :
      Access → AuthorizationRequest → Database → Result (Decision × Database)
  access_again a existing db =
      if not (existing.request_id == a.request_message_id)
        || not (existing.request_fingerprint == a.request_fingerprint)
      then ok (duplicate existing.request_id, db)
      else access_by_state a existing existing.state db

  abbrev pub new_request : Access → AuthorizationRequest
  new_request a = record {
    request_id = a.request_message_id;
    request_identity = a.request_identity;
    request_fingerprint = a.request_fingerprint;
    peer_system_id = a.peer_system_id;
    resource_id = a.resource_id;
    state = pending;
    requested_at_utc = a.now_utc;
    decided_at_utc = none;
    decided_by = none;
    temporary_expires_at_utc = none;
    consumed_at_utc = none;
    reason = none;
    updated_at_utc = a.now_utc;
  }

  -- The first request: its insertion, its audit record, and the parking of the claim.
  unfoldable pub access_first : Access → Database → Result (Decision × Database)
  access_first a db = do
    guard (not (is_some (get_request a.request_message_id db)))
        (constraint_failed "authorization_requests.request_id")
    db' ← park_claim platform a.request_message_id a.consumer_id a.claim_token a.now_utc (
        insert_audit platform (audit_access a a.request_message_id AuditEvent.requested pending)
          (record db { requests = db.requests ++ new_request a ∷ [] }))
    ok (approval_pending a.request_message_id, db')

  unfoldable pub access_by_request : Access → Database → Result (Decision × Database)
  access_by_request a db = elim (find (has_identity a.request_identity) db.requests) [
    | some existing ↦ access_again a existing db
    | none ↦ access_first a db
  ]

  -- A grant decides first, then a temporary approval of the pair, then the message's own request.
  unfoldable pub access_resource : Access → Database → Result (Decision × Database)
  access_resource a db =
      if not (is_enabled (get_resource a.resource_id db))
      then ok (Decision.denied none, db)
      else if is_peer_authorized a.peer_system_id a.resource_id db
      then ok (authorized persistent_grant none, db)
      else elim (current_approval a.peer_system_id a.resource_id a.now_utc db) [
        | some approval ↦ ok (
          authorized temporary_approval (some approval.request_id),
          insert_audit platform
              (audit_access a approval.request_id AuditEvent.temporary_used approved_temporary) db,
        )
        | none ↦ access_by_request a db
      ]

  unfoldable pub access_of :
      String → String → String → String → String → String → String → InboxRow → Access
  access_of id consumer token actor peer resource now_utc row =
      let identity = hash_authorization_value platform (
        peer
        ∷ resource
        ∷ kind_text row.envelope.kind
        ∷ row.envelope.stream_id
        ∷ row.envelope.idempotency_key
        ∷ []) in
      record {
        request_message_id = id;
        consumer_id = consumer;
        claim_token = token;
        actor_id = actor;
        peer_system_id = peer;
        resource_id = resource;
        request_identity = identity;
        request_fingerprint =
            hash_authorization_value platform (identity ∷ row.payload_sha256 ∷ []);
        now_utc = now_utc;
      }

  -- The tests on the claimed message itself.
  unfoldable pub access_row :
      String
      → String
      → String
      → String
      → Option String
      → String
      → InboxRow
      → Database
      → Result (Decision × Database)
  access_row id consumer token actor none now_utc row db = ok (Decision.denied none, db)
  access_row id consumer token actor (some resource) now_utc row db =
      if not row.authenticated_ingress || not (is_text row.envelope.payload.project resource)
      then ok (Decision.denied none, db)
      else elim (system_id row.envelope.origin_system) [
        | none ↦ ok (Decision.denied none, db)
        | some peer ↦
            access_resource (access_of id consumer token actor peer resource now_utc row) db
      ]

  -- `authorizeClaimedResourceAccess`
  unfoldable pub authorize_claimed_resource_access :
      String → String → String → String → String → ℕ → Database → Result (Decision × Database)
  authorize_claimed_resource_access id consumer token resource_value actor_value now db = do
    assert_non_empty id "requestMessageId"
    assert_non_empty consumer "consumerId"
    assert_non_empty token "claimToken"
    actor ← parsed "actorId" (system_id actor_value)
    let now_utc = to_iso_string now
    let current = expire_requests platform now_utc db
    elim (find (has_id id) current.inbox) [
      | none ↦ err invalid_claim
      | some row ↦
          if is_held id consumer (hash_token platform token) now_utc row
          then access_row id consumer token actor (resource_id resource_value) now_utc row current
          else err invalid_claim
    ]
