-- ===== src/Store/Authorization/Access/Granted.antt =====
-- The grounds on which a resource is authorized, in `authorizeClaimedResourceAccess` of
-- src/storage/database.ts.
use balcony_agent_bridge.Base.{
  String, true, Option, none, some, List, [], ◌∷◌, ◌≡◌, refl, subst, inl, inr, arith, eq_iff,
  Bool-cases, Option-cases, is_some, is_after, All,
}
use balcony_agent_bridge.Base.Table.{update, find}
use balcony_agent_bridge.Base.Table.Laws.{All-select, All-sort_by, select_sound}
use balcony_agent_bridge.Base.Table.Keys.{Distinct, find_self}
use balcony_agent_bridge.Contracts.Envelope.{Platform}
use balcony_agent_bridge.Store.Schema.{
  RequestState, pending, approved_once, approved_temporary, denied, revoked, expired, consumed,
  AuthorizationRequest, Database, Result, ok, Result-cases, ◌>>=◌,
}
use balcony_agent_bridge.Store.Authorization.{
  get_resource, is_enabled, is_peer_authorized, insert_audit,
}
use balcony_agent_bridge.Store.Authorization.Requests.{has_request, park_claim}
use balcony_agent_bridge.Store.Authorization.Access.{
  Basis, persistent_grant, temporary_approval, approve_once, same_request_recovery, Decision,
  authorized, approval_pending, Access, is_current, current_approval, first, expires_last,
  has_identity, is_approved_once, as_consumed, has_run, access_by_state, access_again, access_first,
  access_by_request, access_resource,
}
use balcony_agent_bridge.Store.Authorization.History.{request_key}

-- A request as the table holds it.
abbrev pub Held : Database → AuthorizationRequest → Type 0
Held db r = find (has_request r.request_id) db.requests ≡ some r

-- Why an access was authorized: on a live grant; on a temporary approval of the pair that has not
-- run out; on an approval of this very request, which is consumed; or again, on this request,
-- consumed before, whose consultation has begun.
pub data Granted (a : Access) (db db' : Database) : Basis → Option String → Type 0 where
  by_grant :
      is_peer_authorized a.peer_system_id a.resource_id db ≡ true
      → db' ≡ db
      → Granted a db db' persistent_grant none
  by_pair :
      (r : AuthorizationRequest)
      → Held db r
      → is_current a.peer_system_id a.resource_id a.now_utc r ≡ true
      → db'.requests ≡ db.requests
      → Granted a db db' temporary_approval (some r.request_id)
  by_own_temporary :
      (r : AuthorizationRequest)
      → find (has_identity a.request_identity) db.requests ≡ some r
      → r.request_id ≡ a.request_message_id
      → r.request_fingerprint ≡ a.request_fingerprint
      → r.state ≡ approved_temporary
      → is_after r.temporary_expires_at_utc a.now_utc ≡ true
      → db' ≡ db
      → Granted a db db' temporary_approval (some r.request_id)
  by_own_approval :
      (r : AuthorizationRequest)
      → find (has_identity a.request_identity) db.requests ≡ some r
      → r.request_id ≡ a.request_message_id
      → r.request_fingerprint ≡ a.request_fingerprint
      → r.state ≡ approved_once
      → db'.requests ≡ update (is_approved_once r.request_id) (as_consumed a.now_utc) db.requests
      → Granted a db db' approve_once (some r.request_id)
  by_recovery :
      (r : AuthorizationRequest)
      → find (has_identity a.request_identity) db.requests ≡ some r
      → r.request_id ≡ a.request_message_id
      → r.request_fingerprint ≡ a.request_fingerprint
      → r.state ≡ consumed
      → is_some (find (has_run r.request_id) db.runs) ≡ true
      → db' ≡ db
      → Granted a db db' same_request_recovery (some r.request_id)

first-All {ℓ} :
    (P : AuthorizationRequest → Type ℓ) (rs : List AuthorizationRequest) (r : AuthorizationRequest)
    → All P rs
    → first rs ≡ some r
    → P r
first-All P [] r h e = absurd (ground arith)
first-All P (x ∷ rs) r h e = let same : x ≡ r = ground arith in subst P same h.0

module _ (platform : Platform) (a : Access) (db db' : Database) (basis : Basis)
    (approval : Option String) where
  abbrev Answer : Result (Decision × Database)
  Answer = ok (authorized basis approval, db')

  park_never :
      (answer : String)
      → (park_claim platform a.request_message_id a.consumer_id a.claim_token a.now_utc db >>= λ x.
          ok (approval_pending answer, x))
        ≡ Answer
      → ⊥
  park_never answer o =
      elim (Result-cases
        (park_claim platform a.request_message_id a.consumer_id a.claim_token a.now_utc db)) [
          | inl (x, done) ↦ ground arith
          | inr (e, failed) ↦ ground arith
        ]

  module _ (r : AuthorizationRequest)
      (known : find (has_identity a.request_identity) db.requests ≡ some r)
      (own : r.request_id ≡ a.request_message_id)
      (print : r.request_fingerprint ≡ a.request_fingerprint) where
    state_sound :
        (s : RequestState)
        → r.state ≡ s
        → access_by_state platform a r s db ≡ Answer
        → Granted a db db' basis approval
    unfolding access_by_state insert_audit
    state_sound pending e o = absurd (park_never r.request_id o)
    state_sound approved_once e o =
        let same_basis : approve_once ≡ basis = ground arith in
        let same_approval : some r.request_id ≡ approval = ground arith in
        let requests : db'.requests
            ≡ update (is_approved_once r.request_id) (as_consumed a.now_utc) db.requests =
          ground arith in
        rw (← same_basis, ← same_approval) (by_own_approval r known own print e requests)
    state_sound consumed e o =
        let same_basis : same_request_recovery ≡ basis = ground arith in
        let same_approval : some r.request_id ≡ approval = ground arith in
        rw (← same_basis, ← same_approval)
          (by_recovery r known own print e (ground arith) (ground arith))
    state_sound approved_temporary e o =
        let same_basis : temporary_approval ≡ basis = ground arith in
        let same_approval : some r.request_id ≡ approval = ground arith in
        rw (← same_basis, ← same_approval)
          (by_own_temporary r known own print e (ground arith) (ground arith))
    state_sound denied e o = absurd (ground arith)
    state_sound revoked e o = absurd (ground arith)
    state_sound expired e o = absurd (ground arith)

  again_sound :
      (r : AuthorizationRequest)
      → find (has_identity a.request_identity) db.requests ≡ some r
      → access_again platform a r db ≡ Answer
      → Granted a db db' basis approval
  unfolding access_again
  again_sound r known o =
      state_sound r known ((eq_iff r.request_id a.request_message_id).0 (ground arith))
        ((eq_iff r.request_fingerprint a.request_fingerprint).0 (ground arith)) r.state refl
        (ground arith)

  first_never : access_first platform a db ≡ Answer → ⊥
  unfolding access_first park_claim
  first_never o = ground arith

  request_sound : access_by_request platform a db ≡ Answer → Granted a db db' basis approval
  unfolding access_by_request
  request_sound o = elim (Option-cases (find (has_identity a.request_identity) db.requests)) [
    | inl new ↦ absurd (first_never (ground arith))
    | inr (r, known) ↦ again_sound r known (ground arith)
  ]

  current-Held :
      (r : AuthorizationRequest)
      → Distinct request_key db.requests
      → current_approval a.peer_system_id a.resource_id a.now_utc db ≡ some r
      → Held db r × (is_current a.peer_system_id a.resource_id a.now_utc r ≡ true)
  unfolding current_approval
  current-Held r d e =
      let p = is_current a.peer_system_id a.resource_id a.now_utc in
      (
        first-All (Held db) _ r
            (All-sort_by (Held db) expires_last _
              (All-select (Held db) p db.requests (find_self request_key db.requests d)))
            e,
        first-All (λ x. p x ≡ true) _ r
            (All-sort_by (λ x. p x ≡ true) expires_last _ (select_sound p db.requests)) e,
      )

  pub resource_sound :
      Distinct request_key db.requests
      → access_resource platform a db ≡ Answer
      → (is_enabled (get_resource a.resource_id db) ≡ true) × Granted a db db' basis approval
  unfolding access_resource insert_audit
  resource_sound d o = elim (Bool-cases (is_enabled (get_resource a.resource_id db))) [
    | inr disabled ↦ absurd (ground arith)
    | inl enabled ↦ elim (Bool-cases (is_peer_authorized a.peer_system_id a.resource_id db)) [
      | inl granted ↦
          let same_basis : persistent_grant ≡ basis = ground arith in
          let same_approval : none ≡ approval = ground arith in
          (enabled, rw (← same_basis, ← same_approval) (by_grant granted (ground arith)))
      | inr free ↦
          elim (Option-cases (current_approval a.peer_system_id a.resource_id a.now_utc db)) [
            | inl none_current ↦ (enabled, request_sound (ground arith))
            | inr (r, current) ↦
                let same_basis : temporary_approval ≡ basis = ground arith in
                let same_approval : some r.request_id ≡ approval = ground arith in
                let (held, fits) = current-Held r d current in
                (enabled, rw (← same_basis, ← same_approval) (by_pair r held fits (ground arith)))
          ]
    ]
  ]
