-- ===== src/Store/Authorization.antt =====
-- Resources, grants to peers, and the requests that a person decides (src/storage/database.ts).
-- Identifiers that a table holds passed their schemas when they were written, and pass them again.
pub mod Requests
pub mod Access
pub mod Moves
pub mod Steps
pub mod History
use balcony_agent_bridge.Base.{
  ℕ, suc, ◌+◌, String, Bool, true, false, not, ◌&&◌, ◌||◌, Option, none, some, List, [], ◌∷◌, ◌++◌,
  if◌then◌else◌, ◌==◌, ◌+++◌, is_some,
}
use balcony_agent_bridge.Base.Table.{update, count, find}
use balcony_agent_bridge.Time.{to_iso_string}
use balcony_agent_bridge.Security.{trim}
use balcony_agent_bridge.Contracts.Identifiers.{resource_id, system_id}
use balcony_agent_bridge.Contracts.Envelope.{Platform}
use balcony_agent_bridge.Store.Schema.{
  Resource, GrantState, active, revoked, PeerResourceGrant, RequestState, AuditEvent,
  AuthorizationAudit, Database, Error, range_error, validation, state_transition, Result, ok, err,
  ◌>>=◌, ◌>>◌, guard,
}

-- `Schema.parse` of a text.
abbrev pub parsed : String → Option String → Result String
parsed name none = err (validation name)
parsed name (some s) = ok s

-- `assertNonEmpty`
abbrev pub assert_non_empty : String → String → Result (Unit {0})
assert_non_empty value name = guard (not (trim value == "")) (range_error name)

abbrev pub has_resource : String → Resource → Bool
has_resource id r = r.resource_id == id

-- `getResource`
unfoldable pub get_resource : String → Database → Option Resource
get_resource id db = find (has_resource id) db.resources

-- `resource?.enabled`
abbrev pub is_enabled : Option Resource → Bool
is_enabled none = false
is_enabled (some r) = r.enabled

-- `registerResource`
unfoldable pub register_resource : String → ℕ → Database → Result ((Resource × Bool) × Database)
register_resource value now db = do
  id ← parsed "resourceId" (resource_id value)
  elim (get_resource id db) [
    | some existing ↦ ok ((existing, false), db)
    | none ↦
        let resource : Resource = record {
          resource_id = id;
          enabled = true;
          created_at_utc = to_iso_string now;
          updated_at_utc = to_iso_string now;
        } in
        ok ((resource, true), record db { resources = db.resources ++ resource ∷ [] })
  ]

-- `setResourceEnabled`
unfoldable pub set_resource_enabled : String → Bool → ℕ → Database → Result Database
set_resource_enabled value enabled now db = do
  id ← parsed "resourceId" (resource_id value)
  guard (is_some (get_resource id db)) (state_transition "Resource does not exist")
  ok (record db {
    resources =
        update (has_resource id)
          (λ r. record r { enabled = enabled; updated_at_utc = to_iso_string now }) db.resources;
  })

abbrev pub is_grant : String → String → PeerResourceGrant → Bool
is_grant peer resource g = g.peer_system_id == peer && g.resource_id == resource

abbrev pub is_active : GrantState → Bool
is_active active = true
is_active revoked = false

-- `getPeerResourceGrant`
unfoldable pub get_grant : String → String → Database → Option PeerResourceGrant
get_grant peer resource db = find (is_grant peer resource) db.grants

-- `grantPeerResource`
unfoldable pub grant_peer_resource : String → String → ℕ → Database → Result Database
grant_peer_resource peer_value resource_value now db = do
  peer ← parsed "systemId" (system_id peer_value)
  resource ← parsed "resourceId" (resource_id resource_value)
  guard (is_some (get_resource resource db)) (state_transition "Resource does not exist")
  ok (elim (get_grant peer resource db) [
    | none ↦
        let grant : PeerResourceGrant = record {
          peer_system_id = peer;
          resource_id = resource;
          state = active;
          granted_at_utc = to_iso_string now;
          revoked_at_utc = none;
        } in
        record db { grants = db.grants ++ grant ∷ [] }
    | some existing ↦ if is_active existing.state then db else record db {
      grants =
          update (is_grant peer resource)
            (λ g. record g {
              state = active;
              granted_at_utc = to_iso_string now;
              revoked_at_utc = none;
            })
            db.grants;
    }
  ])

-- The row of `isPeerAuthorizedForResource`, for parsed identifiers.
abbrev pub is_open_grant : String → String → PeerResourceGrant → Bool
is_open_grant peer resource g =
    is_grant peer resource g && is_active g.state && not (is_some g.revoked_at_utc)

unfoldable pub is_peer_authorized : String → String → Database → Bool
is_peer_authorized peer resource db =
    is_some (find (is_open_grant peer resource) db.grants) && is_enabled (get_resource resource db)

-- `isPeerAuthorizedForResource`
unfoldable pub is_peer_authorized_for_resource : String → String → Database → Bool
is_peer_authorized_for_resource peer_value resource_value db = elim (system_id peer_value) [
  | none ↦ false
  | some peer ↦ elim (resource_id resource_value) [
    | none ↦ false
    | some resource ↦ is_peer_authorized peer resource db
  ]
]

-- What an audit record says, and `insertAuthorizationAudit`, which takes the next random identifier.
pub record AuditInput : Type 0 where
  pub request_id : String
  pub event : AuditEvent
  pub state : RequestState
  pub actor_id : String
  pub peer_system_id : String
  pub resource_id : String
  pub occurred_at_utc : String
  pub reason : Option String

module _ (platform : Platform) where
  abbrev pub audit_record : ℕ → AuditInput → AuthorizationAudit
  audit_record draws input = record {
    event_id = platform.random_uuid draws;
    request_id = input.request_id;
    event = input.event;
    state = input.state;
    actor_id = input.actor_id;
    peer_system_id = input.peer_system_id;
    resource_id = input.resource_id;
    occurred_at_utc = input.occurred_at_utc;
    reason = input.reason;
  }

  unfoldable pub insert_audit : AuditInput → Database → Database
  insert_audit input db = record db {
    audit = db.audit ++ audit_record db.draws input ∷ [];
    draws = suc db.draws;
  }

  -- `hashAuthorizationValue`: each part is followed by a zero character.
  abbrev pub terminated : List String → String
  terminated [] = ""
  terminated (part ∷ parts) = part +++ "\0" +++ terminated parts

  unfoldable pub hash_authorization_value : List String → String
  hash_authorization_value parts = platform.sha256 (terminated parts)
