-- ===== src/Store/Authorization/Steps/Decisions.antt =====
-- The expiry, decision and revocation of requests, and the changes to resources and grants
-- (src/storage/database.ts), keep what their row changes keep.
use balcony_agent_bridge.Base.{
  ℕ, String, Bool, true, ◌||◌, Option, some, List, [], ◌∷◌, ◌≡◌, subst, inl, inr, arith, Bool-cases,
  Option-cases, eqb,
}
use balcony_agent_bridge.Base.Table.{count, select}
use balcony_agent_bridge.Time.{to_iso_string}
use balcony_agent_bridge.Contracts.Envelope.{Platform}
use balcony_agent_bridge.Contracts.Identifiers.{system_id, resource_id}
use balcony_agent_bridge.Store.Schema.{
  Resource, RequestState, revoked, AuthorizationRequest, AuditEvent, AuthorizationAudit, Database,
  ok,
}
use balcony_agent_bridge.Store.Authorization as Authorization
use balcony_agent_bridge.Store.Authorization.{AuditInput, audit_record, insert_audit}
use balcony_agent_bridge.Store.Authorization.Requests as Requests
use balcony_agent_bridge.Store.Authorization.Moves.{
  Moves, Kept, expired-Moves, revoked-Moves, decided-Moves,
}

module _ {ℓ} (platform : Platform)
    (P : List AuthorizationRequest → List AuthorizationAudit → Type ℓ) (kept : Kept P) where
  abbrev On : Database → Type ℓ
  On db = P db.requests db.audit

  expire_request_keeps :
      (now_utc : String) (row : AuthorizationRequest) (db : Database)
      → On db
      → On (Requests.expire_request platform now_utc row db)
  unfolding Requests.expire_request insert_audit
  expire_request_keeps now_utc row db h =
      let lapsed = Requests.is_lapsed_request row.request_id now_utc in
      let written =
        kept.change lapsed (Requests.as_expired now_utc) db.requests db.audit
          (λ r p. expired-Moves now_utc r (ground arith)) h in
      elim (Bool-cases (eqb (count lapsed db.requests) 1)) [
        | inl one ↦ rw one (kept.record_event _ db.audit _ written)
        | inr other ↦ rw other written
      ]

  expire_rows_keeps :
      (now_utc : String) (rows : List AuthorizationRequest) (db : Database)
      → On db
      → On (Requests.expire_rows platform now_utc rows db)
  unfolding Requests.expire_rows
  expire_rows_keeps now_utc [] db h = h
  expire_rows_keeps now_utc (row ∷ rows) db h =
      expire_rows_keeps now_utc rows _ (expire_request_keeps now_utc row db h)

  pub expire_requests_keeps :
      (now_utc : String) (db : Database) → On db → On (Requests.expire_requests platform now_utc db)
  unfolding Requests.expire_requests
  expire_requests_keeps now_utc db h = expire_rows_keeps now_utc _ db h

  revoke_temporary_keeps :
      (now_utc actor peer resource : String) (row : AuthorizationRequest) (db : Database)
      → On db
      → On (Requests.revoke_temporary platform now_utc actor peer resource row db)
  unfolding Requests.revoke_temporary insert_audit
  revoke_temporary_keeps now_utc actor peer resource row db h = kept.record_event _ db.audit _ (
      kept.change (Requests.is_temporary_request row.request_id) _ db.requests db.audit
        (λ r p. revoked-Moves now_utc actor (some "persistent-grant-revoked") r (ground arith)) h)

  revoke_rows_keeps :
      (now_utc actor peer resource : String) (rows : List AuthorizationRequest) (db db' : Database)
      → On db
      → Requests.revoke_rows platform now_utc actor peer resource rows db ≡ ok db'
      → On db'
  unfolding Requests.revoke_rows
  revoke_rows_keeps now_utc actor peer resource [] db db' h o =
      let same : db ≡ db' = ground arith in subst On same h
  revoke_rows_keeps now_utc actor peer resource (row ∷ rows) db db' h o =
      revoke_rows_keeps now_utc actor peer resource rows
        (Requests.revoke_temporary platform now_utc actor peer resource row db) db'
        (revoke_temporary_keeps now_utc actor peer resource row db h) (ground arith)

  pub revoke_peer_resource_keeps :
      (peer_value resource_value : String) (now : ℕ) (actor_value : String) (db db' : Database)
      → On db
      → Requests.revoke_peer_resource platform peer_value resource_value now actor_value db ≡ ok db'
      → On db'
  unfolding Requests.revoke_peer_resource Requests.revoke_grant
  revoke_peer_resource_keeps peer_value resource_value now actor_value db db' h o =
      elim (Option-cases (system_id peer_value)) [
        | inl bad ↦ absurd (ground arith)
        | inr (peer, peer_ok) ↦ elim (Option-cases (resource_id resource_value)) [
          | inl bad ↦ absurd (ground arith)
          | inr (resource, resource_ok) ↦ elim (Option-cases (system_id actor_value)) [
            | inl bad ↦ absurd (ground arith)
            | inr (actor, actor_ok) ↦
                revoke_rows_keeps (to_iso_string now) actor peer resource _ _ db' h
                  (unwrap peer resource actor peer_ok resource_ok actor_ok o)
          ]
        ]
      ]
    where
      unwrap :
          (peer resource actor : String)
          → system_id peer_value ≡ some peer
          → resource_id resource_value ≡ some resource
          → system_id actor_value ≡ some actor
          → Requests.revoke_peer_resource platform peer_value resource_value now actor_value db
            ≡ ok db'
          → Requests.revoke_rows platform
              (to_iso_string now)
              actor
              peer
              resource
              (select (Requests.is_temporary_of peer resource) db.requests)
              (Requests.revoke_grant (to_iso_string now) peer resource db)
            ≡ ok db'
      unwrap peer resource actor a b c e = ground arith

  module _ (row : AuthorizationRequest) (actor : String) (event : AuditEvent)
      (f : AuthorizationRequest → AuthorizationRequest) (state : RequestState)
      (reason : Option String) (now_utc : String) (db : Database)
      (moves : (r : AuthorizationRequest)
        → Requests.is_request_in row.request_id row.state r ≡ true
        → Moves r (f r)) where
    decided_keeps : On db → On (Requests.decided platform row actor event f state reason now_utc db)
    unfolding Requests.decided Requests.requeue_request insert_audit
    decided_keeps h = kept.record_event _ db.audit _ (
        kept.change (Requests.is_request_in row.request_id row.state) f db.requests db.audit moves
          h)

    write_decision_keeps :
        (db' : Database)
        → On db
        → Requests.write_decision platform row actor event f state reason now_utc db ≡ ok db'
        → On db'
    unfolding Requests.write_decision
    write_decision_keeps db' h o =
        let same : Requests.decided platform row actor event f state reason now_utc db ≡ db' =
          ground arith in
        subst On same (decided_keeps h)

  decide_row_keeps :
      (row : AuthorizationRequest) (actor : String) (decision : Requests.Decision)
      (now_utc : String) (db db' : Database)
      → On db
      → Requests.decide_row platform row actor decision now_utc db ≡ ok db'
      → On db'
  unfolding Requests.decide_row
  decide_row_keeps row actor decision now_utc db db' h o =
      elim (Bool-cases (Requests.same_state row.state decision.state)) [
        | inl done ↦ let same : db ≡ db' = ground arith in subst On same h
        | inr other ↦
            let waits : Requests.is_waiting row.state ≡ true = ground arith in
            write_decision_keeps row actor decision.event
              (Requests.as_decided now_utc actor decision) decision.state decision.reason now_utc db
              (λ r p. decided-Moves now_utc actor decision r (ground arith)) db' h (ground arith)
      ]

  revoke_row_keeps :
      (row : AuthorizationRequest) (actor : String) (reason : Option String) (now_utc : String)
      (db db' : Database)
      → On db
      → Requests.revoke_row platform row actor reason now_utc db ≡ ok db'
      → On db'
  unfolding Requests.revoke_row
  revoke_row_keeps row actor reason now_utc db db' h o =
      elim (Bool-cases (Requests.is_revoked row.state)) [
        | inl done ↦ let same : db ≡ db' = ground arith in subst On same h
        | inr other ↦
            let open_row : (Requests.is_once row.state || Requests.is_temporary row.state) ≡ true =
              ground arith in
            write_decision_keeps row actor AuditEvent.revoked
              (Requests.as_revoked now_utc actor reason) revoked reason now_utc db
              (λ r p. revoked-Moves now_utc actor reason r (ground arith)) db' h (ground arith)
      ]

  pub decide_request_keeps :
      (id actor : String) (decision : Requests.Decision) (now : ℕ) (db db' : Database)
      → On db
      → Requests.decide_request platform id actor decision now db ≡ ok db'
      → On db'
  unfolding Requests.decide_request
  decide_request_keeps id actor decision now db db' h o = elim (Option-cases (system_id actor)) [
    | inl bad ↦ absurd (ground arith)
    | inr (a, known) ↦
        let current = Requests.expire_requests platform (to_iso_string now) db in
        elim (Option-cases (Requests.get_request id current)) [
          | inl missing ↦ absurd (ground arith)
          | inr (row, found) ↦
              decide_row_keeps row a decision (to_iso_string now) current db'
                (expire_requests_keeps (to_iso_string now) db h) (ground arith)
        ]
  ]

  pub revoke_request_keeps :
      (id actor : String) (reason : Option String) (now : ℕ) (db db' : Database)
      → On db
      → Requests.revoke_request platform id actor reason now db ≡ ok db'
      → On db'
  unfolding Requests.revoke_request
  revoke_request_keeps id actor reason now db db' h o = elim (Option-cases (system_id actor)) [
    | inl bad ↦ absurd (ground arith)
    | inr (a, known) ↦
        let current = Requests.expire_requests platform (to_iso_string now) db in
        elim (Option-cases (Requests.get_request id current)) [
          | inl missing ↦ absurd (ground arith)
          | inr (row, found) ↦
              revoke_row_keeps row a reason (to_iso_string now) current db'
                (expire_requests_keeps (to_iso_string now) db h) (ground arith)
        ]
  ]

  pub register_keeps :
      (value : String) (now : ℕ) (answer : Resource × Bool) (db db' : Database)
      → On db
      → Authorization.register_resource value now db ≡ ok (answer, db')
      → On db'
  unfolding Authorization.register_resource
  register_keeps value now answer db db' h o = elim (Option-cases (resource_id value)) [
    | inl bad ↦ absurd (ground arith)
    | inr (id, known) ↦
        let requests : db.requests ≡ db'.requests = ground arith in
        let audit : db.audit ≡ db'.audit = ground arith in rw (← requests, ← audit) h
  ]

  pub enable_keeps :
      (value : String) (enabled : Bool) (now : ℕ) (db db' : Database)
      → On db
      → Authorization.set_resource_enabled value enabled now db ≡ ok db'
      → On db'
  unfolding Authorization.set_resource_enabled
  enable_keeps value enabled now db db' h o =
      let requests : db.requests ≡ db'.requests = ground arith in
      let audit : db.audit ≡ db'.audit = ground arith in rw (← requests, ← audit) h

  pub grant_keeps :
      (peer resource : String) (now : ℕ) (db db' : Database)
      → On db
      → Authorization.grant_peer_resource peer resource now db ≡ ok db'
      → On db'
  unfolding Authorization.grant_peer_resource
  grant_keeps peer resource now db db' h o =
      let requests : db.requests ≡ db'.requests = ground arith in
      let audit : db.audit ≡ db'.audit = ground arith in rw (← requests, ← audit) h
