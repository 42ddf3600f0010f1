-- ===== src/Store/Authorization/Steps/Effects.antt =====
-- Each operation on grants and authorization requests (src/storage/database.ts) makes one update of
-- the inbox at most.
use balcony_agent_bridge.Base.{
  ℕ, String, Option, some, ◌≡◌, inl, inr, arith, Bool-cases, Option-cases,
}
use balcony_agent_bridge.Base.Table.{select}
use balcony_agent_bridge.Time.{to_iso_string}
use balcony_agent_bridge.Contracts.Envelope.{Platform}
use balcony_agent_bridge.Contracts.Identifiers.{system_id, resource_id}
use balcony_agent_bridge.Store.Schema.{revoked, AuthorizationRequest, AuditEvent, Database, ok}
use balcony_agent_bridge.Store.Authorization as Authorization
use balcony_agent_bridge.Store.Authorization.{insert_audit}
use balcony_agent_bridge.Store.Authorization.Requests as Requests
use balcony_agent_bridge.Store.Authorization.Steps.{
  Step, registers, enables, grants, revokes_grant, expires, decides, revokes, accesses,
}
use balcony_agent_bridge.Store.Authorization.Steps.Inbox.{
  Same, Effect, Same-Effect, after, unchanged, expire_requests-Same, revoke_rows-Same,
  write_decision-Effect,
}
use balcony_agent_bridge.Store.Authorization.Steps.AccessEffects.{authorize-Effect}

module _ (platform : Platform) where
  revoke_peer_resource-Same :
      (peer_value resource_value : String) (now : ℕ) (actor_value : String) (db db' : Database)
      → Requests.revoke_peer_resource platform peer_value resource_value now actor_value db ≡ ok db'
      → Same db db'
  unfolding Requests.revoke_peer_resource Requests.revoke_grant
  revoke_peer_resource-Same peer_value resource_value now actor_value db db' o =
      elim (Option-cases (system_id peer_value)) [
        | inl bad ↦ absurd (ground arith)
        | inr (peer, peer_ok) ↦ elim (Option-cases (resource_id resource_value)) [
          | inl bad ↦ absurd (ground arith)
          | inr (resource, resource_ok) ↦ elim (Option-cases (system_id actor_value)) [
            | inl bad ↦ absurd (ground arith)
            | inr (actor, actor_ok) ↦
                let s =
                  revoke_rows-Same platform (to_iso_string now) actor peer resource _ _ db'
                    (unwrap peer resource actor peer_ok resource_ok actor_ok o) in
                record { inbox = s.inbox; outbox = s.outbox }
          ]
        ]
      ]
    where
      unwrap :
          (peer resource actor : String)
          → system_id peer_value ≡ some peer
          → resource_id resource_value ≡ some resource
          → system_id actor_value ≡ some actor
          → Requests.revoke_peer_resource platform peer_value resource_value now actor_value db
            ≡ ok db'
          → Requests.revoke_rows platform
              (to_iso_string now)
              actor
              peer
              resource
              (select (Requests.is_temporary_of peer resource) db.requests)
              (Requests.revoke_grant (to_iso_string now) peer resource db)
            ≡ ok db'
      unwrap peer resource actor a b c e = ground arith

  decide_row-Effect :
      (row : AuthorizationRequest) (actor : String) (decision : Requests.Decision)
      (now_utc : String) (db db' : Database)
      → Requests.decide_row platform row actor decision now_utc db ≡ ok db'
      → Effect db db'
  unfolding Requests.decide_row
  decide_row-Effect row actor decision now_utc db db' o =
      elim (Bool-cases (Requests.same_state row.state decision.state)) [
        | inl done ↦ unchanged db db' (ground arith)
        | inr other ↦
            write_decision-Effect platform row actor decision.event
              (Requests.as_decided now_utc actor decision) decision.state decision.reason now_utc db
              db' (ground arith)
      ]

  revoke_row-Effect :
      (row : AuthorizationRequest) (actor : String) (reason : Option String) (now_utc : String)
      (db db' : Database)
      → Requests.revoke_row platform row actor reason now_utc db ≡ ok db'
      → Effect db db'
  unfolding Requests.revoke_row
  revoke_row-Effect row actor reason now_utc db db' o =
      elim (Bool-cases (Requests.is_revoked row.state)) [
        | inl done ↦ unchanged db db' (ground arith)
        | inr other ↦
            write_decision-Effect platform row actor AuditEvent.revoked
              (Requests.as_revoked now_utc actor reason) revoked reason now_utc db db'
              (ground arith)
      ]

  decide_request-Effect :
      (id actor : String) (decision : Requests.Decision) (now : ℕ) (db db' : Database)
      → Requests.decide_request platform id actor decision now db ≡ ok db'
      → Effect db db'
  unfolding Requests.decide_request
  decide_request-Effect id actor decision now db db' o = elim (Option-cases (system_id actor)) [
    | inl bad ↦ absurd (ground arith)
    | inr (a, known) ↦
        let current = Requests.expire_requests platform (to_iso_string now) db in
        elim (Option-cases (Requests.get_request id current)) [
          | inl missing ↦ absurd (ground arith)
          | inr (row, found) ↦
              after db current db' (expire_requests-Same platform (to_iso_string now) db)
                (decide_row-Effect row a decision (to_iso_string now) current db' (ground arith))
        ]
  ]

  revoke_request-Effect :
      (id actor : String) (reason : Option String) (now : ℕ) (db db' : Database)
      → Requests.revoke_request platform id actor reason now db ≡ ok db'
      → Effect db db'
  unfolding Requests.revoke_request
  revoke_request-Effect id actor reason now db db' o = elim (Option-cases (system_id actor)) [
    | inl bad ↦ absurd (ground arith)
    | inr (a, known) ↦
        let current = Requests.expire_requests platform (to_iso_string now) db in
        elim (Option-cases (Requests.get_request id current)) [
          | inl missing ↦ absurd (ground arith)
          | inr (row, found) ↦
              after db current db' (expire_requests-Same platform (to_iso_string now) db)
                (revoke_row-Effect row a reason (to_iso_string now) current db' (ground arith))
        ]
  ]

  pub Step-Effect : (db db' : Database) → Step platform db db' → Effect db db'
  unfolding Authorization.register_resource Authorization.set_resource_enabled
      Authorization.grant_peer_resource
  Step-Effect db db' (registers value now answer o) = elim (Option-cases (resource_id value)) [
    | inl bad ↦ absurd (ground arith)
    | inr (id, known) ↦ Same-Effect db db' (record { inbox = ground arith; outbox = ground arith })
  ]
  Step-Effect db db' (enables value enabled now o) =
      Same-Effect db db' (record { inbox = ground arith; outbox = ground arith })
  Step-Effect db db' (grants peer resource now o) =
      Same-Effect db db' (record { inbox = ground arith; outbox = ground arith })
  Step-Effect db db' (revokes_grant peer resource now actor o) =
      Same-Effect db db' (revoke_peer_resource-Same peer resource now actor db db' o)
  Step-Effect db db' (expires now o) =
      rw o (Same-Effect db _ (expire_requests-Same platform (to_iso_string now) db))
  Step-Effect db db' (decides id actor decision now o) =
      decide_request-Effect id actor decision now db db' o
  Step-Effect db db' (revokes id actor reason now o) =
      revoke_request-Effect id actor reason now db db' o
  Step-Effect db db' (accesses id consumer token resource actor now d o) =
      authorize-Effect platform id consumer token resource actor now d db db' o
