-- ===== src/Store/Authorization/Steps/Inbox.antt =====
-- What the operations on grants and authorization requests do to the inbox: a claim is parked
-- (`parkClaimForApproval`), a parked message is released (`requeueAuthorizationRequest` of
-- src/storage/database.ts). They leave the outbox alone.
use balcony_agent_bridge.Base.{
  ◌≤◌, String, Bool, true, false, ◌&&◌, Option, List, [], ◌∷◌, ◌≡◌, refl, sym, ◌∙◌, ap, ◌⊎◌, inl,
  inr, arith, Bool-cases, eqb, ◌==◌,
}
use balcony_agent_bridge.Base.Table.{update, count}
use balcony_agent_bridge.Contracts.Envelope.{Platform}
use balcony_agent_bridge.Store.Schema.{
  available, quarantined, InboxRow, RequestState, AuthorizationRequest, AuditEvent, Database, ok,
}
use balcony_agent_bridge.Store.Inbox.{is_quarantined}
use balcony_agent_bridge.Store.Claims.{hash_token, is_held}
use balcony_agent_bridge.Store.Lifecycle.Rows.{IsSound, Moves, Moves-refl, Moves-of_open}
use balcony_agent_bridge.Store.Authorization.{insert_audit}
use balcony_agent_bridge.Store.Authorization.Requests as Requests

-- A held back message is made available again: its envelope and its columns stay.
pub record Releases (r s : InboxRow) : Type 0 where
  pub envelope : s.envelope ≡ r.envelope
  pub message_id : s.message_id ≡ r.message_id
  pub sound : IsSound r → IsSound s
  pub attempts : r.attempt_count ≤ s.attempt_count
  pub authenticated : r.authenticated_ingress ≡ true → s.authenticated_ingress ≡ true
  pub held_back : r.state ≡ quarantined
  pub free : s.state ≡ available

abbrev pub Passes : InboxRow → InboxRow → Type 0
Passes r s = Moves r s ⊎ Releases r s

parked-Passes :
    (id consumer token_hash now_utc : String) (r : InboxRow)
    → is_held id consumer token_hash now_utc r ≡ true
    → Passes r (Requests.as_parked r)
parked-Passes id consumer token_hash now_utc r h =
    inl (Moves-of_open r _ refl (omega arith) (λ _. refl) (λ k. k) (ground arith))

requeued-Passes :
    (id : String) (r : InboxRow)
    → (r.message_id == id && is_quarantined r.state) ≡ true
    → Passes r (Requests.as_requeued r)
requeued-Passes id r h = inr (record {
  envelope = refl;
  message_id = refl;
  sound = λ s. record {
    message_id = s.message_id;
    origin_system = s.origin_system;
    kind = s.kind;
    stream_id = s.stream_id;
    causation_id = s.causation_id;
    payload_sha256 = s.payload_sha256;
    claim = refl;
  };
  attempts = omega arith;
  authenticated = λ k. k;
  held_back = ground arith;
  free = refl;
})

-- Both tables of messages are left alone.
pub record Same (db db' : Database) : Type 0 where
  pub inbox : db'.inbox ≡ db.inbox
  pub outbox : db'.outbox ≡ db.outbox

Same-trans : (db db' db'' : Database) → Same db db' → Same db' db'' → Same db db''
Same-trans db db' db'' a b = record { inbox = b.inbox ∙ a.inbox; outbox = b.outbox ∙ a.outbox }

-- One update of the inbox, and none of the outbox.
pub record Effect (db db' : Database) : Type 0 where
  pub picks : InboxRow → Bool
  pub change : InboxRow → InboxRow
  pub passes : (r : InboxRow) → picks r ≡ true → Passes r (change r)
  pub inbox : db'.inbox ≡ update picks change db.inbox
  pub outbox : db'.outbox ≡ db.outbox

update_nothing : (rows : List InboxRow) → update (λ _. false) (λ r. r) rows ≡ rows
unfolding update
update_nothing [] = refl
update_nothing (r ∷ rows) = ap (λ (x : List InboxRow). r ∷ x) (update_nothing rows)

pub Same-Effect : (db db' : Database) → Same db db' → Effect db db'
Same-Effect db db' s = record {
  picks = λ _. false;
  change = λ r. r;
  passes = λ r _. inl (Moves-refl r);
  inbox = s.inbox ∙ sym (update_nothing db.inbox);
  outbox = s.outbox;
}

pub after : (db db' db'' : Database) → Same db db' → Effect db' db'' → Effect db db''
after db db' db'' s e = record {
  picks = e.picks;
  change = e.change;
  passes = e.passes;
  inbox = e.inbox ∙ ap (update e.picks e.change) s.inbox;
  outbox = e.outbox ∙ s.outbox;
}

pub unchanged : (db db' : Database) → db ≡ db' → Effect db db'
unchanged db db' e = Same-Effect db db' (record {
  inbox = ap (λ (x : Database). x.inbox) (sym e);
  outbox = ap (λ (x : Database). x.outbox) (sym e);
})

module _ (platform : Platform) where
  expire_request-Same :
      (now_utc : String) (row : AuthorizationRequest) (db : Database)
      → Same db (Requests.expire_request platform now_utc row db)
  unfolding Requests.expire_request insert_audit
  expire_request-Same now_utc row db =
      elim (Bool-cases
        (eqb (count (Requests.is_lapsed_request row.request_id now_utc) db.requests) 1)) [
          | inl one ↦ rw one (record { inbox = refl; outbox = refl })
          | inr other ↦ rw other (record { inbox = refl; outbox = refl })
        ]

  expire_rows-Same :
      (now_utc : String) (rows : List AuthorizationRequest) (db : Database)
      → Same db (Requests.expire_rows platform now_utc rows db)
  unfolding Requests.expire_rows
  expire_rows-Same now_utc [] db = record { inbox = refl; outbox = refl }
  expire_rows-Same now_utc (row ∷ rows) db =
      Same-trans db _ _ (expire_request-Same now_utc row db)
        (expire_rows-Same now_utc rows (Requests.expire_request platform now_utc row db))

  pub expire_requests-Same :
      (now_utc : String) (db : Database) → Same db (Requests.expire_requests platform now_utc db)
  unfolding Requests.expire_requests
  expire_requests-Same now_utc db = expire_rows-Same now_utc _ db

  pub expires-Effect :
      (now_utc : String) (db : Database) → Effect db (Requests.expire_requests platform now_utc db)
  expires-Effect now_utc db = Same-Effect db _ (expire_requests-Same now_utc db)

  revoke_temporary-Same :
      (now_utc actor peer resource : String) (row : AuthorizationRequest) (db : Database)
      → Same db (Requests.revoke_temporary platform now_utc actor peer resource row db)
  unfolding Requests.revoke_temporary insert_audit
  revoke_temporary-Same now_utc actor peer resource row db = record { inbox = refl; outbox = refl }

  pub revoke_rows-Same :
      (now_utc actor peer resource : String) (rows : List AuthorizationRequest) (db db' : Database)
      → Requests.revoke_rows platform now_utc actor peer resource rows db ≡ ok db'
      → Same db db'
  unfolding Requests.revoke_rows
  revoke_rows-Same now_utc actor peer resource [] db db' o = record {
    inbox = ground arith;
    outbox = ground arith;
  }
  revoke_rows-Same now_utc actor peer resource (row ∷ rows) db db' o =
      Same-trans db _ db' (revoke_temporary-Same now_utc actor peer resource row db) (
        revoke_rows-Same now_utc actor peer resource rows
          (Requests.revoke_temporary platform now_utc actor peer resource row db) db'
          (ground arith))

  module _ (row : AuthorizationRequest) (actor : String) (event : AuditEvent)
      (f : AuthorizationRequest → AuthorizationRequest) (state : RequestState)
      (reason : Option String) (now_utc : String) (db : Database) where
    decided-Effect : Effect db (Requests.decided platform row actor event f state reason now_utc db)
    unfolding Requests.decided Requests.requeue_request insert_audit
    decided-Effect = record {
      picks = λ r. r.message_id == row.request_id && is_quarantined r.state;
      change = Requests.as_requeued;
      passes = λ r h. requeued-Passes row.request_id r h;
      inbox = refl;
      outbox = refl;
    }

    pub write_decision-Effect :
        (db' : Database)
        → Requests.write_decision platform row actor event f state reason now_utc db ≡ ok db'
        → Effect db db'
    unfolding Requests.write_decision
    write_decision-Effect db' o =
        let same : Requests.decided platform row actor event f state reason now_utc db ≡ db' =
          ground arith in
        rw (← same) decided-Effect

  pub park_claim-Effect :
      (id consumer token now_utc : String) (db db' : Database)
      → Requests.park_claim platform id consumer token now_utc db ≡ ok db'
      → Effect db db'
  unfolding Requests.park_claim
  park_claim-Effect id consumer token now_utc db db' o = record {
    picks = is_held id consumer (hash_token platform token) now_utc;
    change = Requests.as_parked;
    passes = λ r h. parked-Passes id consumer (hash_token platform token) now_utc r h;
    inbox = ground arith;
    outbox = ground arith;
  }
