-- ===== src/Store/Authorization/Steps/Accesses.antt =====
-- `authorizeClaimedResourceAccess` (src/storage/database.ts) keeps what its row changes keep.
use balcony_agent_bridge.Base.{
  ℕ, String, not, ◌||◌, Option, none, some, List, [], ◌∷◌, ◌++◌, ◌≡◌, subst, inl, inr, arith,
  Bool-cases, Option-cases, ◌==◌, is_text,
}
use balcony_agent_bridge.Base.Table.{update, find}
use balcony_agent_bridge.Time.{to_iso_string}
use balcony_agent_bridge.Contracts.Envelope.{Platform}
use balcony_agent_bridge.Contracts.Identifiers.{system_id, resource_id}
use balcony_agent_bridge.Store.Schema.{
  InboxRow, RequestState, pending, approved_once, approved_temporary, denied, revoked, expired,
  consumed, AuthorizationRequest, AuditEvent, AuthorizationAudit, Database, ok, Result-cases,
}
use balcony_agent_bridge.Store.Inbox.{has_id}
use balcony_agent_bridge.Store.Authorization as Authorization
use balcony_agent_bridge.Store.Authorization.{AuditInput, audit_record, insert_audit}
use balcony_agent_bridge.Store.Authorization.Requests as Requests
use balcony_agent_bridge.Store.Authorization.Access as Access
use balcony_agent_bridge.Store.Authorization.Moves.{Kept, consumed-Moves}
use balcony_agent_bridge.Store.Authorization.Steps.Decisions.{expire_requests_keeps}

module _ {ℓ} (platform : Platform)
    (P : List AuthorizationRequest → List AuthorizationAudit → Type ℓ) (kept : Kept P) where
  abbrev On : Database → Type ℓ
  On db = P db.requests db.audit

  park_claim_keeps :
      (id consumer token now_utc : String) (db db' : Database)
      → On db
      → Requests.park_claim platform id consumer token now_utc db ≡ ok db'
      → On db'
  unfolding Requests.park_claim
  park_claim_keeps id consumer token now_utc db db' h o =
      let requests : db.requests ≡ db'.requests = ground arith in
      let audit : db.audit ≡ db'.audit = ground arith in rw (← requests, ← audit) h

  access_by_state_keeps :
      (a : Access.Access) (existing : AuthorizationRequest) (state : RequestState)
      (db db' : Database) (d : Access.Decision)
      → On db
      → Access.access_by_state platform a existing state db ≡ ok (d, db')
      → On db'
  unfolding Access.access_by_state insert_audit
  access_by_state_keeps a existing pending db db' d h o =
      elim (Result-cases (
        Requests.park_claim platform a.request_message_id a.consumer_id a.claim_token a.now_utc
          db)) [
            | inl (parked, done) ↦
                let same : parked ≡ db' = ground arith in
                subst On same (park_claim_keeps _ _ _ _ db parked h done)
            | inr (_, failed) ↦ absurd (ground arith)
          ]
  access_by_state_keeps a existing approved_once db db' d h o =
      let used = Access.is_approved_once existing.request_id in
      let written =
        kept.record_event _ db.audit
          (audit_record platform db.draws
            (Access.audit_access platform a existing.request_id AuditEvent.consumed consumed))
          (kept.change used (Access.as_consumed a.now_utc) db.requests db.audit
            (λ r p. consumed-Moves a.now_utc r (ground arith)) h) in
      let requests : update used (Access.as_consumed a.now_utc) db.requests ≡ db'.requests =
        ground arith in
      let audit : db.audit
            ++ audit_record platform db.draws
                (Access.audit_access platform a existing.request_id AuditEvent.consumed consumed)
              ∷ []
          ≡ db'.audit =
        ground arith in
      rw (← requests, ← audit) written
  access_by_state_keeps a existing consumed db db' d h o =
      let same : db ≡ db' = ground arith in subst On same h
  access_by_state_keeps a existing approved_temporary db db' d h o =
      let same : db ≡ db' = ground arith in subst On same h
  access_by_state_keeps a existing denied db db' d h o =
      let same : db ≡ db' = ground arith in subst On same h
  access_by_state_keeps a existing revoked db db' d h o =
      let same : db ≡ db' = ground arith in subst On same h
  access_by_state_keeps a existing expired db db' d h o =
      let same : db ≡ db' = ground arith in subst On same h

  access_again_keeps :
      (a : Access.Access) (existing : AuthorizationRequest) (db db' : Database)
      (d : Access.Decision)
      → On db
      → Access.access_again platform a existing db ≡ ok (d, db')
      → On db'
  unfolding Access.access_again
  access_again_keeps a existing db db' d h o =
      elim (Bool-cases (
        not (existing.request_id == a.request_message_id)
        || not (existing.request_fingerprint == a.request_fingerprint))) [
          | inl other ↦ let same : db ≡ db' = ground arith in subst On same h
          | inr own ↦ access_by_state_keeps a existing existing.state db db' d h (ground arith)
        ]

  access_first_keeps :
      (a : Access.Access) (db db' : Database) (d : Access.Decision)
      → On db
      → Access.access_first platform a db ≡ ok (d, db')
      → On db'
  unfolding Access.access_first Requests.get_request Requests.park_claim insert_audit
  access_first_keeps a db db' d h o =
      let free : find (Requests.has_request a.request_message_id) db.requests ≡ none =
        ground arith in
      let written =
        kept.record_event _ db.audit
          (audit_record platform db.draws
            (Access.audit_access platform a a.request_message_id AuditEvent.requested pending))
          (kept.insert (Access.new_request platform a) db.requests db.audit free h) in
      let requests : db.requests ++ Access.new_request platform a ∷ [] ≡ db'.requests =
        ground arith in
      let audit : db.audit
            ++ audit_record platform db.draws
                (Access.audit_access platform a a.request_message_id AuditEvent.requested pending)
              ∷ []
          ≡ db'.audit =
        ground arith in
      rw (← requests, ← audit) written

  access_by_request_keeps :
      (a : Access.Access) (db db' : Database) (d : Access.Decision)
      → On db
      → Access.access_by_request platform a db ≡ ok (d, db')
      → On db'
  unfolding Access.access_by_request
  access_by_request_keeps a db db' d h o =
      elim (Option-cases (find (Access.has_identity a.request_identity) db.requests)) [
        | inl new ↦ access_first_keeps a db db' d h (ground arith)
        | inr (existing, known) ↦ access_again_keeps a existing db db' d h (ground arith)
      ]

  access_resource_keeps :
      (a : Access.Access) (db db' : Database) (d : Access.Decision)
      → On db
      → Access.access_resource platform a db ≡ ok (d, db')
      → On db'
  unfolding Access.access_resource insert_audit
  access_resource_keeps a db db' d h o =
      elim (Bool-cases (Authorization.is_enabled (Authorization.get_resource a.resource_id db))) [
        | inr disabled ↦ let same : db ≡ db' = ground arith in subst On same h
        | inl enabled ↦
            elim (Bool-cases (Authorization.is_peer_authorized a.peer_system_id a.resource_id db)) [
              | inl granted ↦ let same : db ≡ db' = ground arith in subst On same h
              | inr free ↦
                  elim (Option-cases
                    (Access.current_approval a.peer_system_id a.resource_id a.now_utc db)) [
                      | inl none_current ↦ access_by_request_keeps a db db' d h (ground arith)
                      | inr (r, current) ↦
                          let written =
                            kept.record_event db.requests db.audit
                              (audit_record platform db.draws (
                                Access.audit_access platform a r.request_id
                                  AuditEvent.temporary_used approved_temporary))
                              h in
                          let requests : db.requests ≡ db'.requests = ground arith in
                          let audit : db.audit
                                ++ audit_record platform db.draws (
                                    Access.audit_access platform a r.request_id
                                      AuditEvent.temporary_used approved_temporary)
                                  ∷ []
                              ≡ db'.audit =
                            ground arith in
                          rw (← requests, ← audit) written
                    ]
            ]
      ]

  access_row_keeps :
      (id consumer token actor : String) (resource : Option String) (now_utc : String)
      (row : InboxRow) (db db' : Database) (d : Access.Decision)
      → On db
      → Access.access_row platform id consumer token actor resource now_utc row db ≡ ok (d, db')
      → On db'
  unfolding Access.access_row
  access_row_keeps id consumer token actor none now_utc row db db' d h o =
      let same : db ≡ db' = ground arith in subst On same h
  access_row_keeps id consumer token actor (some resource) now_utc row db db' d h o =
      elim (Bool-cases
        (not row.authenticated_ingress || not (is_text row.envelope.payload.project resource))) [
          | inl refused ↦ let same : db ≡ db' = ground arith in subst On same h
          | inr fits ↦ elim (Option-cases (system_id row.envelope.origin_system)) [
            | inl unknown ↦ let same : db ≡ db' = ground arith in subst On same h
            | inr (peer, known) ↦
                access_resource_keeps
                  (Access.access_of platform id consumer token actor peer resource now_utc row) db
                  db' d h (ground arith)
          ]
        ]

  pub authorize_keeps :
      (id consumer token resource actor : String) (now : ℕ) (d : Access.Decision)
      (db db' : Database)
      → On db
      → Access.authorize_claimed_resource_access platform id consumer token resource actor now db
        ≡ ok (d, db')
      → On db'
  unfolding Access.authorize_claimed_resource_access
  authorize_keeps id consumer token resource actor now d db db' h o =
      elim (Option-cases (system_id actor)) [
        | inl bad ↦ absurd (ground arith)
        | inr (a, known) ↦
            let current = Requests.expire_requests platform (to_iso_string now) db in
            elim (Option-cases (find (has_id id) current.inbox)) [
              | inl missing ↦ absurd (ground arith)
              | inr (row, found) ↦
                  access_row_keeps id consumer token a (resource_id resource) (to_iso_string now)
                    row current db' d
                    (expire_requests_keeps platform P kept (to_iso_string now) db h) (ground arith)
            ]
      ]
