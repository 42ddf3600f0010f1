-- ===== src/Store/Authorization/Steps/AccessEffects.antt =====
-- `authorizeClaimedResourceAccess` (src/storage/database.ts) makes one update of the inbox at most: it
-- parks the claim whose access waits for an approval.
use balcony_agent_bridge.Base.{
  ℕ, String, not, ◌||◌, Option, none, some, [], ◌∷◌, ◌++◌, ◌≡◌, refl, inl, inr, arith, Bool-cases,
  Option-cases, ◌==◌, is_text,
}
use balcony_agent_bridge.Base.Table.{find}
use balcony_agent_bridge.Time.{to_iso_string}
use balcony_agent_bridge.Contracts.Envelope.{Platform}
use balcony_agent_bridge.Contracts.Identifiers.{system_id, resource_id}
use balcony_agent_bridge.Store.Schema.{
  InboxRow, RequestState, pending, approved_once, approved_temporary, denied, revoked, expired,
  consumed, AuthorizationRequest, AuditEvent, Database, Result, ok, err, Result-cases,
}
use balcony_agent_bridge.Store.Inbox.{has_id}
use balcony_agent_bridge.Store.Authorization as Authorization
use balcony_agent_bridge.Store.Authorization.{insert_audit}
use balcony_agent_bridge.Store.Authorization.Requests as Requests
use balcony_agent_bridge.Store.Authorization.Access as Access
use balcony_agent_bridge.Store.Authorization.Steps.Inbox.{
  Effect, Same-Effect, after, unchanged, expire_requests-Same, park_claim-Effect,
}

module _ (platform : Platform) where
  access_by_state-Effect :
      (a : Access.Access) (existing : AuthorizationRequest) (state : RequestState)
      (db db' : Database) (d : Access.Decision)
      → Access.access_by_state platform a existing state db ≡ ok (d, db')
      → Effect db db'
  unfolding Access.access_by_state insert_audit
  access_by_state-Effect a existing pending db db' d o =
      elim (Result-cases (
        Requests.park_claim platform a.request_message_id a.consumer_id a.claim_token a.now_utc
          db)) [
            | inl (parked, done) ↦
                park_claim-Effect platform a.request_message_id a.consumer_id a.claim_token
                  a.now_utc db db' (ground arith)
            | inr (_, failed) ↦ absurd (ground arith)
          ]
  access_by_state-Effect a existing approved_once db db' d o =
      Same-Effect db db' (record { inbox = ground arith; outbox = ground arith })
  access_by_state-Effect a existing consumed db db' d o = unchanged db db' (ground arith)
  access_by_state-Effect a existing approved_temporary db db' d o = unchanged db db' (ground arith)
  access_by_state-Effect a existing denied db db' d o = unchanged db db' (ground arith)
  access_by_state-Effect a existing revoked db db' d o = unchanged db db' (ground arith)
  access_by_state-Effect a existing expired db db' d o = unchanged db db' (ground arith)

  access_again-Effect :
      (a : Access.Access) (existing : AuthorizationRequest) (db db' : Database)
      (d : Access.Decision)
      → Access.access_again platform a existing db ≡ ok (d, db')
      → Effect db db'
  unfolding Access.access_again
  access_again-Effect a existing db db' d o =
      elim (Bool-cases (
        not (existing.request_id == a.request_message_id)
        || not (existing.request_fingerprint == a.request_fingerprint))) [
          | inl other ↦ unchanged db db' (ground arith)
          | inr own ↦ access_by_state-Effect a existing existing.state db db' d (ground arith)
        ]

  access_first-Effect :
      (a : Access.Access) (db db' : Database) (d : Access.Decision)
      → Access.access_first platform a db ≡ ok (d, db')
      → Effect db db'
  unfolding Access.access_first insert_audit
  access_first-Effect a db db' d o =
      let inserted =
        insert_audit platform
          (Access.audit_access platform a a.request_message_id AuditEvent.requested pending)
          (record db { requests = db.requests ++ Access.new_request platform a ∷ [] }) in
      after db inserted db' (record { inbox = refl; outbox = refl })
        (park_claim-Effect platform a.request_message_id a.consumer_id a.claim_token a.now_utc
          inserted db'
          (parked
            (Requests.park_claim platform a.request_message_id a.consumer_id a.claim_token a.now_utc
              inserted)
            refl))
    where
      parked :
          (r : Result Database)
          → Requests.park_claim platform a.request_message_id a.consumer_id a.claim_token a.now_utc
              (insert_audit platform
                (Access.audit_access platform a a.request_message_id AuditEvent.requested pending)
                (record db { requests = db.requests ++ Access.new_request platform a ∷ [] }))
            ≡ r
          → r ≡ ok db'
      parked (ok x) e = ground arith
      parked (err x) e = absurd (ground arith)

  access_by_request-Effect :
      (a : Access.Access) (db db' : Database) (d : Access.Decision)
      → Access.access_by_request platform a db ≡ ok (d, db')
      → Effect db db'
  unfolding Access.access_by_request
  access_by_request-Effect a db db' d o =
      elim (Option-cases (find (Access.has_identity a.request_identity) db.requests)) [
        | inl new ↦ access_first-Effect a db db' d (ground arith)
        | inr (existing, known) ↦ access_again-Effect a existing db db' d (ground arith)
      ]

  access_resource-Effect :
      (a : Access.Access) (db db' : Database) (d : Access.Decision)
      → Access.access_resource platform a db ≡ ok (d, db')
      → Effect db db'
  unfolding Access.access_resource insert_audit
  access_resource-Effect a db db' d o =
      elim (Bool-cases (Authorization.is_enabled (Authorization.get_resource a.resource_id db))) [
        | inr disabled ↦ unchanged db db' (ground arith)
        | inl enabled ↦
            elim (Bool-cases (Authorization.is_peer_authorized a.peer_system_id a.resource_id db)) [
              | inl granted ↦ unchanged db db' (ground arith)
              | inr free ↦
                  elim (Option-cases
                    (Access.current_approval a.peer_system_id a.resource_id a.now_utc db)) [
                      | inl none_current ↦ access_by_request-Effect a db db' d (ground arith)
                      | inr (r, current) ↦
                          Same-Effect db db'
                            (record { inbox = ground arith; outbox = ground arith })
                    ]
            ]
      ]

  access_row-Effect :
      (id consumer token actor : String) (resource : Option String) (now_utc : String)
      (row : InboxRow) (db db' : Database) (d : Access.Decision)
      → Access.access_row platform id consumer token actor resource now_utc row db ≡ ok (d, db')
      → Effect db db'
  unfolding Access.access_row
  access_row-Effect id consumer token actor none now_utc row db db' d o =
      unchanged db db' (ground arith)
  access_row-Effect id consumer token actor (some resource) now_utc row db db' d o =
      elim (Bool-cases
        (not row.authenticated_ingress || not (is_text row.envelope.payload.project resource))) [
          | inl refused ↦ unchanged db db' (ground arith)
          | inr fits ↦ elim (Option-cases (system_id row.envelope.origin_system)) [
            | inl unknown ↦ unchanged db db' (ground arith)
            | inr (peer, known) ↦
                access_resource-Effect
                  (Access.access_of platform id consumer token actor peer resource now_utc row) db
                  db' d (ground arith)
          ]
        ]

  pub authorize-Effect :
      (id consumer token resource actor : String) (now : ℕ) (d : Access.Decision)
      (db db' : Database)
      → Access.authorize_claimed_resource_access platform id consumer token resource actor now db
        ≡ ok (d, db')
      → Effect db db'
  unfolding Access.authorize_claimed_resource_access
  authorize-Effect id consumer token resource actor now d db db' o =
      elim (Option-cases (system_id actor)) [
        | inl bad ↦ absurd (ground arith)
        | inr (a, known) ↦
            let current = Requests.expire_requests platform (to_iso_string now) db in
            elim (Option-cases (find (has_id id) current.inbox)) [
              | inl missing ↦ absurd (ground arith)
              | inr (row, found) ↦
                  after db current db' (expire_requests-Same platform (to_iso_string now) db) (
                    access_row-Effect id consumer token a (resource_id resource) (to_iso_string now)
                      row current db' d (ground arith))
            ]
      ]
