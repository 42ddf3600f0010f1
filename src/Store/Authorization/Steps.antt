-- ===== src/Store/Authorization/Steps.antt =====
-- The operations on grants and authorization requests as steps, and the rule by which they keep a
-- property of the requests and of the audit.
mod Decisions
mod Accesses
pub mod Inbox
pub mod Effects
mod AccessEffects
use balcony_agent_bridge.Base.{
  ℕ, String, Bool, true, false, not, ◌||◌, Option, none, some, List, [], ◌∷◌, ◌++◌, ◌≡◌, refl, sym,
  subst, inl, inr, arith, Bool-cases, Option-cases, eqb, ◌==◌, is_text,
}
use balcony_agent_bridge.Base.Table.{update, count, find, select}
use balcony_agent_bridge.Time.{to_iso_string}
use balcony_agent_bridge.Contracts.Envelope.{Platform}
use balcony_agent_bridge.Contracts.Identifiers.{system_id, resource_id}
use balcony_agent_bridge.Store.Schema.{
  InboxRow, Resource, RequestState, pending, approved_once, approved_temporary, denied, revoked,
  expired, consumed, AuthorizationRequest, AuditEvent, AuthorizationAudit, Database, ok,
  Result-cases,
}
use balcony_agent_bridge.Store.Inbox.{has_id}
use balcony_agent_bridge.Store.Authorization as Authorization
use balcony_agent_bridge.Store.Authorization.{AuditInput, audit_record, insert_audit}
use balcony_agent_bridge.Store.Authorization.Requests as Requests
use balcony_agent_bridge.Store.Authorization.Access as Access
use balcony_agent_bridge.Store.Authorization.Moves.{
  is_final, can_become, Moves, Kept, expired-Moves, revoked-Moves, decided-Moves, consumed-Moves,
}
use balcony_agent_bridge.Store.Authorization.Steps.Decisions.{
  expire_requests_keeps, revoke_peer_resource_keeps, decide_request_keeps, revoke_request_keeps,
  register_keeps, enable_keeps, grant_keeps,
}
use balcony_agent_bridge.Store.Authorization.Steps.Accesses.{authorize_keeps}

-- A successful operation.
pub data Step (platform : Platform) (db db' : Database) : Type 0 where
  registers :
      (value : String) (now : ℕ) (answer : Resource × Bool)
      → Authorization.register_resource value now db ≡ ok (answer, db')
      → Step platform db db'
  enables :
      (value : String) (enabled : Bool) (now : ℕ)
      → Authorization.set_resource_enabled value enabled now db ≡ ok db'
      → Step platform db db'
  grants :
      (peer resource : String) (now : ℕ)
      → Authorization.grant_peer_resource peer resource now db ≡ ok db'
      → Step platform db db'
  revokes_grant :
      (peer resource : String) (now : ℕ) (actor : String)
      → Requests.revoke_peer_resource platform peer resource now actor db ≡ ok db'
      → Step platform db db'
  expires :
      (now : ℕ)
      → db' ≡ Requests.expire_requests platform (to_iso_string now) db
      → Step platform db db'
  decides :
      (id actor : String) (decision : Requests.Decision) (now : ℕ)
      → Requests.decide_request platform id actor decision now db ≡ ok db'
      → Step platform db db'
  revokes :
      (id actor : String) (reason : Option String) (now : ℕ)
      → Requests.revoke_request platform id actor reason now db ≡ ok db'
      → Step platform db db'
  accesses :
      (id consumer token resource actor : String) (now : ℕ) (decision : Access.Decision)
      → Access.authorize_claimed_resource_access platform id consumer token resource actor now db
        ≡ ok (decision, db')
      → Step platform db db'

-- Any sequence of them.
pub data Reach (platform : Platform) (db : Database) : Database → Type 0 where
  here : Reach platform db db
  next :
      {db' db'' : Database}
      → Reach platform db db'
      → Step platform db' db''
      → Reach platform db db''

-- A kept property is kept by every operation.
module _ {ℓ} (platform : Platform)
    (P : List AuthorizationRequest → List AuthorizationAudit → Type ℓ) (kept : Kept P) where
  abbrev On : Database → Type ℓ
  On db = P db.requests db.audit

  pub Step-keeps : (db db' : Database) → On db → Step platform db db' → On db'
  Step-keeps db db' h (registers value now answer o) =
      register_keeps platform P kept value now answer db db' h o
  Step-keeps db db' h (enables value enabled now o) =
      enable_keeps platform P kept value enabled now db db' h o
  Step-keeps db db' h (grants peer resource now o) =
      grant_keeps platform P kept peer resource now db db' h o
  Step-keeps db db' h (revokes_grant peer resource now actor o) =
      revoke_peer_resource_keeps platform P kept peer resource now actor db db' h o
  Step-keeps db db' h (expires now o) =
      subst On (sym o) (expire_requests_keeps platform P kept (to_iso_string now) db h)
  Step-keeps db db' h (decides id actor decision now o) =
      decide_request_keeps platform P kept id actor decision now db db' h o
  Step-keeps db db' h (revokes id actor reason now o) =
      revoke_request_keeps platform P kept id actor reason now db db' h o
  Step-keeps db db' h (accesses id consumer token resource actor now d o) =
      authorize_keeps platform P kept id consumer token resource actor now d db db' h o

  pub Reach_keeps : {db db' : Database} → On db → Reach platform db db' → On db'
  Reach_keeps h here = h
  Reach_keeps h (next r s) = Step-keeps _ _ (Reach_keeps h r) s
