-- ===== src/Store/Authorization/Moves.antt =====
-- How the operations change an authorization request, and what a property needs so that they keep it.
use balcony_agent_bridge.Base.{
  String, Bool, true, false, ◌||◌, Option, none, List, [], ◌∷◌, ◌++◌, ◌≡◌, refl, arith,
}
use balcony_agent_bridge.Base.Table.{update, find}
use balcony_agent_bridge.Store.Schema.{
  RequestState, pending, approved_once, approved_temporary, denied, revoked, expired, consumed,
  AuthorizationRequest, AuthorizationAudit,
}
use balcony_agent_bridge.Store.Authorization.Requests as Requests
use balcony_agent_bridge.Store.Authorization.Access as Access

-- Denied, revoked, expired and consumed requests are decided for good.
abbrev pub is_final : RequestState → Bool
is_final pending = false
is_final approved_once = false
is_final approved_temporary = false
is_final _ = true

-- Where a request may get, by any number of steps.
abbrev pub can_become : RequestState → RequestState → Bool
can_become pending s = true
can_become approved_once approved_once = true
can_become approved_once revoked = true
can_become approved_once consumed = true
can_become approved_temporary approved_temporary = true
can_become approved_temporary revoked = true
can_become approved_temporary expired = true
can_become denied denied = true
can_become revoked revoked = true
can_become expired expired = true
can_become consumed consumed = true
can_become _ _ = false

-- How a request may change.
pub record Moves (r s : AuthorizationRequest) : Type 0 where
  pub request_id : s.request_id ≡ r.request_id
  pub identity : s.request_identity ≡ r.request_identity
  pub fingerprint : s.request_fingerprint ≡ r.request_fingerprint
  pub peer : s.peer_system_id ≡ r.peer_system_id
  pub resource : s.resource_id ≡ r.resource_id
  pub state : can_become r.state s.state ≡ true
  pub final : is_final r.state ≡ true → s ≡ r

pub expired-Moves :
    (now_utc : String) (r : AuthorizationRequest)
    → Requests.is_lapsed now_utc r ≡ true
    → Moves r (Requests.as_expired now_utc r)
expired-Moves now_utc r h = record {
  request_id = refl;
  identity = refl;
  fingerprint = refl;
  peer = refl;
  resource = refl;
  state = ground arith;
  final = λ k. absurd (ground arith);
}

pub revoked-Moves :
    (now_utc actor : String) (reason : Option String) (r : AuthorizationRequest)
    → (Requests.is_once r.state || Requests.is_temporary r.state) ≡ true
    → Moves r (Requests.as_revoked now_utc actor reason r)
revoked-Moves now_utc actor reason r h = record {
  request_id = refl;
  identity = refl;
  fingerprint = refl;
  peer = refl;
  resource = refl;
  state = ground arith;
  final = λ k. absurd (ground arith);
}

pub decided-Moves :
    (now_utc actor : String) (decision : Requests.Decision) (r : AuthorizationRequest)
    → Requests.is_waiting r.state ≡ true
    → Moves r (Requests.as_decided now_utc actor decision r)
decided-Moves now_utc actor decision r h = record {
  request_id = refl;
  identity = refl;
  fingerprint = refl;
  peer = refl;
  resource = refl;
  state = ground arith;
  final = λ k. absurd (ground arith);
}

pub consumed-Moves :
    (now_utc : String) (r : AuthorizationRequest)
    → Requests.is_once r.state ≡ true
    → Moves r (Access.as_consumed now_utc r)
consumed-Moves now_utc r h = record {
  request_id = refl;
  identity = refl;
  fingerprint = refl;
  peer = refl;
  resource = refl;
  state = ground arith;
  final = λ k. absurd (ground arith);
}

-- A property of the requests and the audit that is kept by a new request under a new identifier, by
-- a change of requests and by a new audit record.
pub record Kept {ℓ} (P : List AuthorizationRequest → List AuthorizationAudit → Type ℓ)
    : Type ℓ where
  pub insert :
      (r : AuthorizationRequest) (rows : List AuthorizationRequest)
      (audit : List AuthorizationAudit)
      → find (Requests.has_request r.request_id) rows ≡ none
      → P rows audit
      → P (rows ++ r ∷ []) audit
  pub change :
      (p : AuthorizationRequest → Bool) (f : AuthorizationRequest → AuthorizationRequest)
      (rows : List AuthorizationRequest) (audit : List AuthorizationAudit)
      → ((r : AuthorizationRequest) → p r ≡ true → Moves r (f r))
      → P rows audit
      → P (update p f rows) audit
  pub record_event :
      (rows : List AuthorizationRequest) (audit : List AuthorizationAudit) (e : AuthorizationAudit)
      → P rows audit
      → P rows (audit ++ e ∷ [])
