-- ===== src/Store/Authorization/Requests.antt =====
-- Authorization requests of src/storage/database.ts: expiry, decisions, revocation.
use balcony_agent_bridge.Base.{
  ℕ, String, Bool, true, false, not, ◌&&◌, ◌||◌, Option, none, some, List, [], ◌∷◌, eqb, ltb,
  if◌then◌else◌, ◌==◌, is_some, is_at_most, text_le,
}
use balcony_agent_bridge.Base.Table.{update, count, find, select, sort_by}
use balcony_agent_bridge.Time.{to_iso_string, date_parse}
use balcony_agent_bridge.Contracts.Identifiers.{resource_id, system_id}
use balcony_agent_bridge.Contracts.Envelope.{Platform}
use balcony_agent_bridge.Store.Schema.{
  available, quarantined, InboxRow, RequestState, pending, approved_once, approved_temporary,
  denied, revoked, expired, consumed, AuthorizationRequest, GrantState, AuditEvent, Database,
  state_transition, Result, ok, err, ◌>>=◌, ◌>>◌, guard,
}
use balcony_agent_bridge.Store.Inbox.{is_quarantined}
use balcony_agent_bridge.Store.Claims.{without_claim, is_held, hash_token, invalid_claim}
use balcony_agent_bridge.Store.Authorization.{
  parsed, assert_non_empty, get_resource, get_grant, is_grant, is_active, is_enabled,
  is_peer_authorized_for_resource, insert_audit,
}

abbrev pub is_temporary : RequestState → Bool
is_temporary approved_temporary = true
is_temporary _ = false

abbrev pub is_once : RequestState → Bool
is_once approved_once = true
is_once _ = false

abbrev pub is_waiting : RequestState → Bool
is_waiting pending = true
is_waiting _ = false

abbrev pub is_revoked : RequestState → Bool
is_revoked revoked = true
is_revoked _ = false

abbrev pub has_request : String → AuthorizationRequest → Bool
has_request id r = r.request_id == id

-- `getAuthorizationRequestRow`
unfoldable pub get_request : String → Database → Option AuthorizationRequest
get_request id db = find (has_request id) db.requests

abbrev pub is_lapsed : String → AuthorizationRequest → Bool
is_lapsed now_utc r = is_temporary r.state && is_at_most r.temporary_expires_at_utc now_utc

abbrev pub is_lapsed_request : String → String → AuthorizationRequest → Bool
is_lapsed_request id now_utc r = has_request id r && is_lapsed now_utc r

abbrev pub as_expired : String → AuthorizationRequest → AuthorizationRequest
as_expired now_utc r = record r { state = expired; updated_at_utc = now_utc }

abbrev pub decider : AuthorizationRequest → String
decider r = elim r.decided_by [ none ↦ r.peer_system_id | some actor ↦ actor ]

abbrev pub by_request_id : AuthorizationRequest → AuthorizationRequest → Bool
by_request_id a b = text_le a.request_id b.request_id

abbrev pub is_temporary_of : String → String → AuthorizationRequest → Bool
is_temporary_of peer resource r =
    r.peer_system_id == peer && r.resource_id == resource && is_temporary r.state

abbrev pub is_temporary_request : String → AuthorizationRequest → Bool
is_temporary_request id r = has_request id r && is_temporary r.state

abbrev pub as_revoked :
    String → String → Option String → AuthorizationRequest → AuthorizationRequest
as_revoked now_utc actor reason r = record r {
  state = revoked;
  decided_at_utc = some now_utc;
  decided_by = some actor;
  reason = reason;
  updated_at_utc = now_utc;
}

-- `parkClaimForApproval`, after the platform's hash of the token.
abbrev pub as_parked : InboxRow → InboxRow
as_parked r =
    let parked = without_claim quarantined r in
    record parked { last_error = some "Authorization approval pending" }

abbrev pub as_requeued : InboxRow → InboxRow
as_requeued r = let free = without_claim available r in record free { last_error = none }

-- `requeueAuthorizationRequest`
unfoldable pub requeue_request : String → Database → Database
requeue_request id db = record db {
  inbox = update (λ r. r.message_id == id && is_quarantined r.state) as_requeued db.inbox;
}

-- What a decision asks for.
pub record Decision : Type 0 where
  pub state : RequestState
  pub event : AuditEvent
  pub temporary_expires_at_utc : Option String
  pub reason : Option String

abbrev pub is_denial : RequestState → Bool
is_denial denied = true
is_denial _ = false

abbrev pub same_state : RequestState → RequestState → Bool
same_state pending pending = true
same_state approved_once approved_once = true
same_state approved_temporary approved_temporary = true
same_state denied denied = true
same_state revoked revoked = true
same_state expired expired = true
same_state consumed consumed = true
same_state _ _ = false

abbrev pub as_decided : String → String → Decision → AuthorizationRequest → AuthorizationRequest
as_decided now_utc actor decision r = record r {
  state = decision.state;
  decided_at_utc = some now_utc;
  decided_by = some actor;
  temporary_expires_at_utc = decision.temporary_expires_at_utc;
  reason = decision.reason;
  updated_at_utc = now_utc;
}

abbrev pub is_request_in : String → RequestState → AuthorizationRequest → Bool
is_request_in id state r = has_request id r && same_state r.state state

unfoldable pub revoke_grant : String → String → String → Database → Database
revoke_grant now_utc peer resource db = record db {
  grants =
      update (λ g. is_grant peer resource g && is_active g.state)
        (λ g. record g { state = GrantState.revoked; revoked_at_utc = some now_utc }) db.grants;
}

module _ (platform : Platform) where
  -- `parkClaimForApproval`
  unfoldable pub park_claim : String → String → String → String → Database → Result Database
  park_claim id consumer token now_utc db = do
    let held = is_held id consumer (hash_token platform token) now_utc
    guard (eqb (count held db.inbox) 1) invalid_claim
    ok (record db { inbox = update held as_parked db.inbox })

  -- One round of the loop of `expireAuthorizationRequests`.
  unfoldable pub expire_request : String → AuthorizationRequest → Database → Database
  expire_request now_utc row db =
      let lapsed = is_lapsed_request row.request_id now_utc in
      let written : Database = record db {
        requests = update lapsed (as_expired now_utc) db.requests;
      } in
      if eqb (count lapsed db.requests) 1
      then insert_audit platform
          (record {
            request_id = row.request_id;
            event = AuditEvent.expired;
            state = expired;
            actor_id = decider row;
            peer_system_id = row.peer_system_id;
            resource_id = row.resource_id;
            occurred_at_utc = now_utc;
            reason = none;
          })
          written
      else written

  unfoldable pub expire_rows : String → List AuthorizationRequest → Database → Database
  expire_rows now_utc [] db = db
  expire_rows now_utc (row ∷ rows) db = expire_rows now_utc rows (expire_request now_utc row db)

  -- `expireAuthorizationRequests`
  unfoldable pub expire_requests : String → Database → Database
  expire_requests now_utc db =
      expire_rows now_utc (sort_by by_request_id (select (is_lapsed now_utc) db.requests)) db

  -- One round of the loop of `revokePeerResource` over the pair's temporary approvals.
  unfoldable pub revoke_temporary :
      String → String → String → String → AuthorizationRequest → Database → Database
  revoke_temporary now_utc actor peer resource row db =
      insert_audit platform
        (record {
          request_id = row.request_id;
          event = AuditEvent.revoked;
          state = revoked;
          actor_id = actor;
          peer_system_id = peer;
          resource_id = resource;
          occurred_at_utc = now_utc;
          reason = some "persistent-grant-revoked";
        })
        (record db {
          requests =
              update (is_temporary_request row.request_id)
                (as_revoked now_utc actor (some "persistent-grant-revoked")) db.requests;
        })

  unfoldable pub revoke_rows :
      String → String → String → String → List AuthorizationRequest → Database → Result Database
  revoke_rows now_utc actor peer resource [] db = ok db
  revoke_rows now_utc actor peer resource (row ∷ rows) db =
      let rest =
        revoke_rows now_utc actor peer resource rows
          (revoke_temporary now_utc actor peer resource row db) in
      if eqb (count (is_temporary_request row.request_id) db.requests) 1
      then rest
      else err (state_transition "Temporary authorization changed concurrently")

  -- `revokePeerResource`
  unfoldable pub revoke_peer_resource : String → String → ℕ → String → Database → Result Database
  revoke_peer_resource peer_value resource_value now actor_value db = do
    peer ← parsed "systemId" (system_id peer_value)
    resource ← parsed "resourceId" (resource_id resource_value)
    actor ← parsed "actorId" (system_id actor_value)
    guard (is_some (get_grant peer resource db)) (state_transition "Grant does not exist")
    revoke_rows (to_iso_string now) actor peer resource
        (select (is_temporary_of peer resource) db.requests)
        (revoke_grant (to_iso_string now) peer resource db)

  -- The update, the audit record and the requeue with which a decision or a revocation ends.
  unfoldable pub decided :
      AuthorizationRequest
      → String
      → AuditEvent
      → (AuthorizationRequest → AuthorizationRequest)
      → RequestState
      → Option String
      → String
      → Database
      → Database
  decided row actor event change state reason now_utc db = requeue_request row.request_id (
      insert_audit platform
        (record {
          request_id = row.request_id;
          event = event;
          state = state;
          actor_id = actor;
          peer_system_id = row.peer_system_id;
          resource_id = row.resource_id;
          occurred_at_utc = now_utc;
          reason = reason;
        })
        (record db {
          requests = update (is_request_in row.request_id row.state) change db.requests;
        }))

  unfoldable pub write_decision :
      AuthorizationRequest
      → String
      → AuditEvent
      → (AuthorizationRequest → AuthorizationRequest)
      → RequestState
      → Option String
      → String
      → Database
      → Result Database
  write_decision row actor event change state reason now_utc db =
      if eqb (count (is_request_in row.request_id row.state) db.requests) 1
      then ok (decided row actor event change state reason now_utc db)
      else err (state_transition "Authorization request changed concurrently")

  unfoldable pub decide_row :
      AuthorizationRequest → String → Decision → String → Database → Result Database
  decide_row row actor decision now_utc db =
      if same_state row.state decision.state then ok db else do
        guard (is_waiting row.state)
            (state_transition "Only a pending authorization request can be decided")
        guard (is_enabled (get_resource row.resource_id db))
            (state_transition "Authorization request resource is unavailable")
        guard
            (is_denial decision.state
              || not (is_peer_authorized_for_resource row.peer_system_id row.resource_id db))
            (state_transition "Authorization request already has a persistent grant")
        write_decision row actor decision.event (as_decided now_utc actor decision) decision.state
            decision.reason now_utc db

  -- `decideAuthorizationRequest`
  unfoldable pub decide_request : String → String → Decision → ℕ → Database → Result Database
  decide_request id actor_value decision now db = do
    assert_non_empty id "requestId"
    actor ← parsed "actorId" (system_id actor_value)
    let now_utc = to_iso_string now
    let current = expire_requests now_utc db
    elim (get_request id current) [
      | none ↦ err (state_transition "Authorization request does not exist")
      | some row ↦ decide_row row actor decision now_utc current
    ]

  -- `approveAuthorizationRequestOnce`
  unfoldable pub approve_once : String → String → ℕ → Database → Result Database
  approve_once id actor = decide_request id actor (record {
    state = approved_once;
    event = AuditEvent.approved_once;
    temporary_expires_at_utc = none;
    reason = none;
  })

  -- `approveAuthorizationRequestTemporary` and `parseUtcInstant`
  unfoldable pub approve_temporary : String → String → String → ℕ → Database → Result Database
  approve_temporary id actor expires_at_utc now db = do
    let expires_at = date_parse expires_at_utc
    guard (to_iso_string expires_at == expires_at_utc)
        (state_transition "expiresAtUtc must be a canonical UTC timestamp")
    guard (ltb now expires_at)
        (state_transition "Temporary approval expiry must be later than the decision time")
    decide_request id actor
        (record {
          state = approved_temporary;
          event = AuditEvent.approved_temporary;
          temporary_expires_at_utc = some (to_iso_string expires_at);
          reason = none;
        })
        now db

  -- `denyAuthorizationRequest`, for a reason that `parseAuthorizationReason` let pass.
  unfoldable pub deny_request : String → String → Option String → ℕ → Database → Result Database
  deny_request id actor reason = decide_request id actor (record {
    state = denied;
    event = AuditEvent.denied;
    temporary_expires_at_utc = none;
    reason = reason;
  })

  unfoldable pub revoke_row :
      AuthorizationRequest → String → Option String → String → Database → Result Database
  revoke_row row actor reason now_utc db = if is_revoked row.state then ok db else do
    guard (is_once row.state || is_temporary row.state)
        (state_transition "Only an active approval can be revoked")
    write_decision row actor AuditEvent.revoked (as_revoked now_utc actor reason) revoked reason
        now_utc db

  -- `revokeAuthorizationRequest`, for a reason that `parseAuthorizationReason` let pass.
  unfoldable pub revoke_request : String → String → Option String → ℕ → Database → Result Database
  revoke_request id actor_value reason now db = do
    assert_non_empty id "requestId"
    actor ← parsed "actorId" (system_id actor_value)
    let now_utc = to_iso_string now
    let current = expire_requests now_utc db
    elim (get_request id current) [
      | none ↦ err (state_transition "Authorization request does not exist")
      | some row ↦ revoke_row row actor reason now_utc current
    ]
