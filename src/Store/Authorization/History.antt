-- ===== src/Store/Authorization/History.antt =====
-- What becomes of an authorization request, and of the audit.
use balcony_agent_bridge.Base.{
  String, true, some, List, [], ◌∷◌, ◌++◌, ◌≡◌, refl, ap, ◌∙◌, arith, ◌==◌,
}
use balcony_agent_bridge.Base.Table.{find}
use balcony_agent_bridge.Base.Table.Keys.{
  Distinct, Distinct-append_one, Distinct-update, find-none-Fresh, has_key,
}
use balcony_agent_bridge.Base.Table.Growth.{
  Grows, Grows-refl, Grows-trans, Grows-append, Grows-update, find-Grows,
}
use balcony_agent_bridge.Contracts.Envelope.{Platform}
use balcony_agent_bridge.Store.Schema.{
  RequestState, AuthorizationRequest, AuthorizationAudit, Database,
}
use balcony_agent_bridge.Store.Authorization.Requests.{has_request}
use balcony_agent_bridge.Store.Authorization.Moves.{is_final, can_become, Moves}
use balcony_agent_bridge.Store.Authorization.Steps.{Reach, Reach_keeps}

abbrev pub request_key : AuthorizationRequest → String
request_key r = r.request_id

-- Any sequence of operations keeps the identifiers of the requests distinct.
pub Reach-Distinct :
    (platform : Platform) (db db' : Database)
    → Distinct request_key db.requests
    → Reach platform db db'
    → Distinct request_key db'.requests
Reach-Distinct platform db db' d steps =
    Reach_keeps platform (λ rows _. Distinct request_key rows)
      (record {
        insert = λ r rows _ free h.
            Distinct-append_one request_key rows r
              (find-none-Fresh request_key r.request_id rows free) h;
        change = λ p f rows _ moves h.
            Distinct-update request_key p f rows (λ r k. (moves r k).request_id) h;
        record_event = λ rows _ _ h. h;
      })
      d steps

can_become_refl : (s : RequestState) → can_become s s ≡ true
can_become_refl s = ground arith

can_become_trans :
    (a b c : RequestState) → can_become a b ≡ true → can_become b c ≡ true → can_become a c ≡ true
can_become_trans a b c h k = ground arith

Moves-refl : (r : AuthorizationRequest) → Moves r r
Moves-refl r = record {
  request_id = refl;
  identity = refl;
  fingerprint = refl;
  peer = refl;
  resource = refl;
  state = can_become_refl r.state;
  final = λ _. refl;
}

Moves-trans : (r s t : AuthorizationRequest) → Moves r s → Moves s t → Moves r t
Moves-trans r s t a b = record {
  request_id = b.request_id ∙ a.request_id;
  identity = b.identity ∙ a.identity;
  fingerprint = b.fingerprint ∙ a.fingerprint;
  peer = b.peer ∙ a.peer;
  resource = b.resource ∙ a.resource;
  state = can_become_trans r.state s.state t.state a.state b.state;
  final = λ h.
      b.final (ap (λ (x : AuthorizationRequest). is_final x.state) (a.final h) ∙ h) ∙ a.final h;
}

Reach-Grows :
    (platform : Platform) (db db' : Database)
    → Reach platform db db'
    → Grows Moves db.requests db'.requests
Reach-Grows platform db db' steps =
    Reach_keeps platform (λ rows _. Grows Moves db.requests rows)
      (record {
        insert = λ r rows _ free g.
            Grows-trans Moves Moves-trans db.requests rows _ g
              (Grows-append Moves Moves-refl rows _);
        change = λ p f rows _ moves g.
            Grows-trans Moves Moves-trans db.requests rows _ g
              (Grows-update Moves Moves-refl p f rows moves);
        record_event = λ rows _ _ g. g;
      })
      (Grows-refl Moves Moves-refl db.requests) steps

-- An authorization request is found again after any sequence of operations. Its identity, its
-- fingerprint, its peer and its resource stay; its state follows the order pending, then approved
-- or denied, then revoked, consumed (an approval for one use) or expired (a temporary one); and a
-- request that was denied, revoked, expired or consumed never changes again.
pub request_history :
    (platform : Platform) (id : String) (r : AuthorizationRequest) (db db' : Database)
    → Reach platform db db'
    → find (has_request id) db.requests ≡ some r
    → (s : AuthorizationRequest) × (find (has_request id) db'.requests ≡ some s)
      × (s.request_identity ≡ r.request_identity)
      × (s.request_fingerprint ≡ r.request_fingerprint)
      × (s.peer_system_id ≡ r.peer_system_id)
      × (s.resource_id ≡ r.resource_id)
      × (can_become r.state s.state ≡ true)
      × (is_final r.state ≡ true → s ≡ r)
request_history platform id r db db' steps found =
    let (s, found', moves) =
      find-Grows Moves (has_key request_key id) (λ x y m. ap (λ (k : String). k == id) m.request_id)
        db.requests db'.requests r (Reach-Grows platform db db' steps) found in
    (
      s, found', moves.identity, moves.fingerprint, moves.peer, moves.resource, moves.state,
      moves.final,
    )

append_assoc : (xs ys zs : List AuthorizationAudit) → (xs ++ ys) ++ zs ≡ xs ++ (ys ++ zs)
append_assoc [] ys zs = refl
append_assoc (x ∷ xs) ys zs = ap (λ l. x ∷ l) (append_assoc xs ys zs)

append_nil : (xs : List AuthorizationAudit) → xs ≡ xs ++ []
append_nil [] = refl
append_nil (x ∷ xs) = ap (λ l. x ∷ l) (append_nil xs)

-- The audit is only ever appended to: no operation removes, reorders or rewrites an audit record.
pub audit_append_only :
    (platform : Platform) (db db' : Database)
    → Reach platform db db'
    → (more : List AuthorizationAudit) × (db'.audit ≡ db.audit ++ more)
audit_append_only platform db db' steps =
    Reach_keeps platform (λ _ audit. (more : List AuthorizationAudit) × (audit ≡ db.audit ++ more))
      (record {
        insert = λ _ _ _ _ h. h;
        change = λ _ _ _ _ _ h. h;
        record_event = λ _ audit e h.
            (h.0 ++ e ∷ [], ap (λ l. l ++ e ∷ []) h.1 ∙ append_assoc db.audit h.0 (e ∷ []));
      })
      ([], append_nil db.audit) steps
