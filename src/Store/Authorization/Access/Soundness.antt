-- ===== src/Store/Authorization/Access/Soundness.antt =====
-- Access to a resource is authorized only on a basis that the database holds.
use balcony_agent_bridge.Base.{
  ℕ, String, true, Option, none, some, List, [], ◌∷◌, ◌≡◌, refl, ap, ◌∙◌, subst, inl, inr, arith,
  eq_iff, Bool-cases, Option-cases, eqb, is_text,
}
use balcony_agent_bridge.Base.Table.{count, find}
use balcony_agent_bridge.Base.Table.Keys.{Distinct}
use balcony_agent_bridge.Time.{to_iso_string}
use balcony_agent_bridge.Contracts.Envelope.{Platform}
use balcony_agent_bridge.Contracts.Identifiers.{system_id, resource_id}
use balcony_agent_bridge.Store.Schema.{InboxRow, Resource, AuthorizationRequest, Database, ok}
use balcony_agent_bridge.Store.Inbox.{has_id}
use balcony_agent_bridge.Store.Claims.{hash_token, is_held}
use balcony_agent_bridge.Store.Authorization.{get_resource, has_resource, is_enabled, insert_audit}
use balcony_agent_bridge.Store.Authorization.Requests.{
  is_lapsed_request, expire_request, expire_rows, expire_requests,
}
use balcony_agent_bridge.Store.Authorization.Access.{
  Basis, authorized, access_of, access_row, authorize_claimed_resource_access,
}
use balcony_agent_bridge.Store.Authorization.Steps.{here, next, expires}
use balcony_agent_bridge.Store.Authorization.History.{request_key, Reach-Distinct}
use balcony_agent_bridge.Store.Authorization.Access.Granted.{Granted, resource_sound}

-- The tables that the expiry of requests leaves alone.
record Frame (db db' : Database) : Type 0 where
  inbox : db'.inbox ≡ db.inbox
  resources : db'.resources ≡ db.resources
  grants : db'.grants ≡ db.grants
  runs : db'.runs ≡ db.runs

module _ (platform : Platform) (now_utc : String) where
  expire_request-Frame :
      (row : AuthorizationRequest) (db : Database)
      → Frame db (expire_request platform now_utc row db)
  unfolding expire_request insert_audit
  expire_request-Frame row db =
      elim (Bool-cases (eqb (count (is_lapsed_request row.request_id now_utc) db.requests) 1)) [
        | inl one ↦ rw one (record { inbox = refl; resources = refl; grants = refl; runs = refl })
        | inr other ↦
            rw other (record { inbox = refl; resources = refl; grants = refl; runs = refl })
      ]

  expire_rows-Frame :
      (rows : List AuthorizationRequest) (db : Database)
      → Frame db (expire_rows platform now_utc rows db)
  unfolding expire_rows
  expire_rows-Frame [] db = record { inbox = refl; resources = refl; grants = refl; runs = refl }
  expire_rows-Frame (row ∷ rows) db =
      let one = expire_request-Frame row db in
      let rest = expire_rows-Frame rows (expire_request platform now_utc row db) in
      record {
        inbox = rest.inbox ∙ one.inbox;
        resources = rest.resources ∙ one.resources;
        grants = rest.grants ∙ one.grants;
        runs = rest.runs ∙ one.runs;
      }

  expire_requests-Frame : (db : Database) → Frame db (expire_requests platform now_utc db)
  unfolding expire_requests
  expire_requests-Frame db = expire_rows-Frame _ db

  pub expire_requests-runs : (db : Database) → (expire_requests platform now_utc db).runs ≡ db.runs
  expire_requests-runs db = (expire_requests-Frame db).runs

-- What an authorized access rests on, for the message, the peer and the resource of the caller.
pub record Authorized (platform : Platform) (id consumer token resource_value actor_value : String)
    (now : ℕ) (db db' : Database) (basis : Basis) (approval : Option String) : Type 0 where
  pub row : InboxRow
  pub peer : String
  pub resource : String
  pub actor : String
  pub found : find (has_id id) db.inbox ≡ some row
  pub held : is_held id consumer (hash_token platform token) (to_iso_string now) row ≡ true
  pub authenticated : row.authenticated_ingress ≡ true
  pub named : resource_id resource_value ≡ some resource
  pub project : row.envelope.payload.project ≡ some resource
  pub sender : system_id row.envelope.origin_system ≡ some peer
  pub enabled : is_enabled (get_resource resource db) ≡ true
  pub granted :
      Granted
        (access_of platform id consumer token actor peer resource (to_iso_string now) row)
        (expire_requests platform (to_iso_string now) db)
        db'
        basis
        approval

is_text-some : (o : Option String) (k : String) → is_text o k ≡ true → o ≡ some k
is_text-some none k h = absurd (ground arith)
is_text-some (some s) k h = ap some ((eq_iff s k).0 h)

module _ (platform : Platform) (id consumer token resource_value actor_value : String) (now : ℕ)
    (db db' : Database) (basis : Basis) (approval : Option String)
    (d : Distinct request_key db.requests) where
  abbrev current : Database
  current = expire_requests platform (to_iso_string now) db

  enabled_before :
      (resource : String)
      → is_enabled (get_resource resource current) ≡ true
      → is_enabled (get_resource resource db) ≡ true
  unfolding get_resource
  enabled_before resource h =
      subst (λ (rows : List Resource). is_enabled (find (has_resource resource) rows) ≡ true)
        (expire_requests-Frame platform (to_iso_string now) db).resources h

  row_sound :
      (actor : String) (resource : Option String) (row : InboxRow)
      → find (has_id id) db.inbox ≡ some row
      → is_held id consumer (hash_token platform token) (to_iso_string now) row ≡ true
      → resource_id resource_value ≡ resource
      → access_row platform id consumer token actor resource (to_iso_string now) row current
        ≡ ok (authorized basis approval, db')
      → Authorized platform id consumer token resource_value actor_value now db db' basis approval
  unfolding access_row access_of
  row_sound actor none row found held named o = absurd (ground arith)
  row_sound actor (some resource) row found held named o =
      elim (Option-cases (system_id row.envelope.origin_system)) [
        | inl unknown ↦ absurd (ground arith)
        | inr (peer, sender) ↦
            let (enabled, granted) =
              resource_sound platform
                (access_of platform id consumer token actor peer resource (to_iso_string now) row)
                current db' basis approval
                (Reach-Distinct platform db current d (next here (expires now refl)))
                (ground arith) in
            record {
              row = row;
              peer = peer;
              resource = resource;
              actor = actor;
              found = found;
              held = held;
              authenticated = ground arith;
              named = named;
              project = is_text-some row.envelope.payload.project resource (ground arith);
              sender = sender;
              enabled = enabled_before resource enabled;
              granted = granted;
            }
      ]

-- An access is only authorized to the consumer that holds the live claim of a message, with its
-- token; the message came authenticated, names the resource that is asked for, which is enabled,
-- and its sender is known; and one of the grounds of `Granted` holds for that sender and resource.
pub authorize_sound :
    (platform : Platform) (id consumer token resource_value actor_value : String) (now : ℕ)
    (db db' : Database) (basis : Basis) (approval : Option String)
    → Distinct request_key db.requests
    → authorize_claimed_resource_access platform id consumer token resource_value actor_value now db
      ≡ ok (authorized basis approval, db')
    → Authorized platform id consumer token resource_value actor_value now db db' basis approval
unfolding authorize_claimed_resource_access
authorize_sound platform id consumer token resource_value actor_value now db db' basis approval d
      o =
    elim (Option-cases (system_id actor_value)) [
      | inl bad ↦ absurd (ground arith)
      | inr (actor, known) ↦
          let same = (expire_requests-Frame platform (to_iso_string now) db).inbox in
          elim (Option-cases
            (find (has_id id) (expire_requests platform (to_iso_string now) db).inbox)) [
              | inl missing ↦ absurd (ground arith)
              | inr (row, found) ↦
                  row_sound platform id consumer token resource_value actor_value now db db' basis
                    approval d actor (resource_id resource_value) row
                    (subst (λ (rows : List InboxRow). find (has_id id) rows ≡ some row) same found)
                    (ground arith) refl (ground arith)
            ]
    ]
