-- ===== src/Store/Authorization/Access/Once.antt =====
-- An approval for one use authorizes once.
use balcony_agent_bridge.Base.{
  ℕ, String, Option, some, none, List, ◌≡◌, refl, sym, inl, inr, Option-cases, ap, ◌∙◌, subst, ◌≢◌,
  arith, eq_refl,
}
use balcony_agent_bridge.Base.Table.{find}
use balcony_agent_bridge.Base.Table.Laws.{find-update, All-find}
use balcony_agent_bridge.Base.Table.Keys.{Distinct, find_self}
use balcony_agent_bridge.Time.{to_iso_string}
use balcony_agent_bridge.Contracts.Envelope.{Platform}
use balcony_agent_bridge.Store.Schema.{
  approved_once, consumed, AuthorizationRequest, ConsultationRun, Database, ok,
}
use balcony_agent_bridge.Store.Authorization.Requests.{has_request, expire_requests}
use balcony_agent_bridge.Store.Authorization.Access.{
  Basis, persistent_grant, temporary_approval, approve_once, same_request_recovery, authorized,
  has_run, Access, has_identity, is_approved_once, as_consumed, access_of,
  authorize_claimed_resource_access,
}
use balcony_agent_bridge.Store.Authorization.Access.Granted.{
  Granted, by_grant, by_pair, by_own_temporary, by_own_approval, by_recovery, Held,
}
use balcony_agent_bridge.Store.Authorization.Access.Soundness.{
  authorize_sound, expire_requests-runs,
}
use balcony_agent_bridge.Store.Authorization.Steps.{Reach, here, next, expires, accesses}
use balcony_agent_bridge.Store.Authorization.History.{request_key, Reach-Distinct, request_history}

identity-Held :
    (db : Database) (identity : String) (r : AuthorizationRequest)
    → Distinct request_key db.requests
    → find (has_identity identity) db.requests ≡ some r
    → Held db r
identity-Held db identity r d found =
    All-find (Held db) (has_identity identity) db.requests r (find_self request_key db.requests d)
      found

-- The request on which an approval for one use was granted, before and after.
record Spent (a : Access) (db db' : Database) : Type 0 where
  request : AuthorizationRequest
  own : request.request_id ≡ a.request_message_id
  before : find (has_request a.request_message_id) db.requests ≡ some request
  approved : request.state ≡ approved_once
  after :
      find (has_request a.request_message_id) db'.requests ≡ some (as_consumed a.now_utc request)

Granted-Spent :
    (a : Access) (db db' : Database) (basis : Basis) (approval : Option String)
    → Distinct request_key db.requests
    → basis ≡ approve_once
    → Granted a db db' basis approval
    → Spent a db db'
Granted-Spent a db db' _ _ d e (by_own_approval r known own print state requests) =
    let held = identity-Held db a.request_identity r d known in
    record {
      request = r;
      own = own;
      before = subst (λ k. find (has_request k) db.requests ≡ some r) own held;
      approved = state;
      after =
          subst (λ k. find (has_request k) db'.requests ≡ some (as_consumed a.now_utc r)) own
            (rw requests (
              find-update (is_approved_once r.request_id) (has_request r.request_id)
                (as_consumed a.now_utc) db.requests (λ x. refl)
              ∙ ground (arith, held, state, eq_refl r.request_id)));
    }
Granted-Spent a db db' _ _ d e g = absurd (ground arith)

module _ (platform : Platform) (id consumer token resource actor : String) (now : ℕ)
    (db db' : Database) (approval : Option String) (d : Distinct request_key db.requests) where
  abbrev current : Database
  current = expire_requests platform (to_iso_string now) db

  current-Distinct : Distinct request_key current.requests
  current-Distinct = Reach-Distinct platform db current d (next here (expires now refl))

  -- The request under the message's identifier, as the authorization found it and left it.
  request_spent :
      authorize_claimed_resource_access platform id consumer token resource actor now db
        ≡ ok (authorized approve_once approval, db')
      → (r : AuthorizationRequest) × (find (has_request id) current.requests ≡ some r)
        × (r.state ≡ approved_once)
        × (find (has_request id) db'.requests ≡ some (as_consumed (to_iso_string now) r))
  unfolding access_of
  request_spent o =
      let found =
        authorize_sound platform id consumer token resource actor now db db' approve_once approval d
          o in
      let s =
        Granted-Spent
          (access_of platform id consumer token found.actor found.peer found.resource
            (to_iso_string now) found.row)
          current db' approve_once approval current-Distinct refl found.granted in
      (s.request, s.before, s.approved, s.after)

-- On what a message may be authorized after its approval for one use was spent: a grant; a temporary
-- approval that is another request's; or its own request again, when its consultation has begun.
pub data Later (id : String) (runs : List ConsultationRun) : Basis → Option String → Type 0 where
  on_grant : Later id runs persistent_grant none
  on_other_request : (other : String) → other ≢ id → Later id runs temporary_approval (some other)
  recovers :
      (run : ConsultationRun)
      → find (has_run id) runs ≡ some run
      → Later id runs same_request_recovery (some id)

-- The request of the message is consumed.
module _ (a : Access) (db db' : Database) (s : AuthorizationRequest)
    (d : Distinct request_key db.requests)
    (spent : find (has_request a.request_message_id) db.requests ≡ some s)
    (state : s.state ≡ consumed) where
  own-consumed :
      (r : AuthorizationRequest)
      → Held db r
      → r.request_id ≡ a.request_message_id
      → r.state ≡ consumed
  own-consumed r held own =
      let found = subst (λ k. find (has_request k) db.requests ≡ some r) own held in
      let same : s ≡ r = ground (arith, found, spent) in
      subst (λ (x : AuthorizationRequest). x.state ≡ consumed) same state

  Granted-Later :
      (basis : Basis) (approval : Option String)
      → Granted a db db' basis approval
      → Later a.request_message_id db.runs basis approval
  Granted-Later _ _ (by_grant granted same) = on_grant
  Granted-Later _ _ (by_pair r held current same) =
      on_other_request r.request_id (λ own. absurd (ground (arith, own-consumed r held own)))
  Granted-Later _ _ (by_own_temporary r known own print temporary unexpired same) =
      let used = own-consumed r (identity-Held db a.request_identity r d known) own in
      absurd (cc (temporary, used))
  Granted-Later _ _ (by_own_approval r known own print approved requests) =
      let used = own-consumed r (identity-Held db a.request_identity r d known) own in
      absurd (cc (approved, used))
  Granted-Later _ _ (by_recovery r known own print used begun same) =
      elim (Option-cases (find (has_run r.request_id) db.runs)) [
        | inl missing ↦ absurd (ground arith)
        | inr (run, found) ↦
            subst (λ k. Later a.request_message_id db.runs same_request_recovery (some k)) (sym own)
              (recovers run (subst (λ k. find (has_run k) db.runs ≡ some run) own found))
      ]

-- An approval for one use authorizes once: when it authorized the access of a message, a later access
-- of that message is only authorized on a grant, on a temporary approval that is another request's,
-- or as the recovery of a consultation of this message that is in the store, whatever operations on
-- grants and requests lie between.
pub approve_once_spent :
    (platform : Platform)
    (id consumer consumer' token token' resource resource' actor actor' : String) (now now' : ℕ)
    (db db1 db2 db3 : Database) (basis : Basis) (approval approval' : Option String)
    → Distinct request_key db.requests
    → authorize_claimed_resource_access platform id consumer token resource actor now db
      ≡ ok (authorized approve_once approval, db1)
    → Reach platform db1 db2
    → authorize_claimed_resource_access platform id consumer' token' resource' actor' now' db2
      ≡ ok (authorized basis approval', db3)
    → Later id db2.runs basis approval'
unfolding access_of
approve_once_spent platform id consumer consumer' token token' resource resource' actor actor' now
      now' db db1 db2 db3 basis approval approval' d o steps o' =
    let d1 = Reach-Distinct platform db db1 d (
      next here
        (accesses id consumer token resource actor now (authorized approve_once approval) o)) in
    let d2 = Reach-Distinct platform db1 db2 d1 steps in
    let current = expire_requests platform (to_iso_string now') db2 in
    let (r, _, _, spent) =
      request_spent platform id consumer token resource actor now db db1 approval d o in
    let (s, found, _, _, _, _, _, final) =
      request_history platform id (as_consumed (to_iso_string now) r) db1 current
        (next steps (expires now' refl)) spent in
    let state : s.state ≡ consumed = ap (λ (x : AuthorizationRequest). x.state) (final refl) in
    let access =
      authorize_sound platform id consumer' token' resource' actor' now' db2 db3 basis approval' d2
        o' in
    subst (λ (runs : List ConsultationRun). Later id runs basis approval')
      (expire_requests-runs platform (to_iso_string now') db2)
      (Granted-Later
        (access_of platform id consumer' token' access.actor access.peer access.resource
          (to_iso_string now') access.row)
        current db3 s (Reach-Distinct platform db2 current d2 (next here (expires now' refl))) found
        state basis approval' access.granted)
