-- ===== src/Store/Lifecycle/Rows.antt =====
-- What every row of the inbox satisfies, and how a row may change.
use balcony_agent_bridge.Base.{
  ℕ, ◌≤◌, String, Bool, true, false, ◌&&◌, Option, some, ◌≡◌, refl, ap, ◌∙◌, ◌⊎◌, inl, inr, arith,
  is_some, is_at_most,
}
use balcony_agent_bridge.Store.Schema.{InboxState, InboxRow, available, claimed, quarantined}
use balcony_agent_bridge.Store.Inbox.{is_claimed, quarantine_row, receive_again}
use balcony_agent_bridge.Store.Claims.{is_available_message, without_claim, with_claim, is_held}
use balcony_agent_bridge.Store.Settlement.{
  Outcome, Verdict, Reply, outcome_of, as_settled, with_result,
}

-- The claim columns of a claimed row are filled.
abbrev pub claim_filled : InboxState → Option String → Option String → Option String → Bool
claim_filled claimed owner hash until = is_some owner && is_some hash && is_some until
claim_filled _ owner hash until = true

-- The columns that repeat fields of the envelope agree with it.
pub record IsSound (r : InboxRow) : Type 0 where
  pub message_id : r.message_id ≡ r.envelope.message_id
  pub origin_system : r.origin_system ≡ r.envelope.origin_system
  pub kind : r.kind ≡ r.envelope.kind
  pub stream_id : r.stream_id ≡ r.envelope.stream_id
  pub causation_id : r.causation_id ≡ r.envelope.causation_id
  pub payload_sha256 : r.payload_sha256 ≡ r.envelope.payload_sha256
  pub claim : claim_filled r.state r.claim_owner r.claim_token_hash r.claim_until_utc ≡ true

abbrev pub row_id : InboxRow → String
row_id r = r.message_id

-- Settled, or held back.
abbrev pub is_closed : InboxState → Bool
is_closed available = false
is_closed claimed = false
is_closed _ = true

-- The reply that a settled row records.
abbrev pub result_of : InboxRow → Option String × Option String × Option String
result_of r = (r.result_message_id, r.result_idempotency_key, r.result_payload_sha256)

-- How a row may change: its message stays, an authenticated row stays so, attempts only grow, and a
-- closed row keeps its reply and its state, or is quarantined.
pub record Moves (r s : InboxRow) : Type 0 where
  pub envelope : s.envelope ≡ r.envelope
  pub message_id : s.message_id ≡ r.message_id
  pub sound : IsSound r → IsSound s
  pub attempts : r.attempt_count ≤ s.attempt_count
  pub authenticated : r.authenticated_ingress ≡ true → s.authenticated_ingress ≡ true
  pub closed : is_closed r.state ≡ true → (s.state ≡ r.state) ⊎ (s.state ≡ quarantined)
  pub result : is_closed r.state ≡ true → result_of s ≡ result_of r

pub Moves-refl : (r : InboxRow) → Moves r r
Moves-refl r = record {
  envelope = refl;
  message_id = refl;
  sound = λ h. h;
  attempts = omega arith;
  authenticated = λ h. h;
  closed = λ _. inl refl;
  result = λ _. refl;
}

module _ (r s t : InboxRow) (a : Moves r s) (b : Moves s t) where
  still_closed : is_closed r.state ≡ true → is_closed s.state ≡ true
  still_closed h = ground (arith, a.closed h)

  pub Moves-trans : Moves r t
  Moves-trans = record {
    envelope = b.envelope ∙ a.envelope;
    message_id = b.message_id ∙ a.message_id;
    sound = λ h. b.sound (a.sound h);
    attempts = omega (arith, a.attempts, b.attempts);
    authenticated = λ h. b.authenticated (a.authenticated h);
    closed = λ h. ground (arith, a.closed h, b.closed (still_closed h));
    result = λ h. b.result (still_closed h) ∙ a.result h;
  }

-- A change of the columns that describe reception and settlement.
module _ (r s : InboxRow)
    (same : s ≡ record r {
      state = s.state;
      claim_owner = s.claim_owner;
      claim_token_hash = s.claim_token_hash;
      claim_until_utc = s.claim_until_utc;
      attempt_count = s.attempt_count;
      last_received_at_utc = s.last_received_at_utc;
      broker_delivery_count = s.broker_delivery_count;
      processed_at_utc = s.processed_at_utc;
      last_error = s.last_error;
      result_message_id = s.result_message_id;
      result_idempotency_key = s.result_idempotency_key;
      result_payload_sha256 = s.result_payload_sha256;
      authenticated_ingress = s.authenticated_ingress;
    })
    (grows : r.attempt_count ≤ s.attempt_count)
    (filled : claim_filled r.state r.claim_owner r.claim_token_hash r.claim_until_utc ≡ true
      → claim_filled s.state s.claim_owner s.claim_token_hash s.claim_until_utc ≡ true)
    (signed : r.authenticated_ingress ≡ true → s.authenticated_ingress ≡ true) where
  pub Moves-of_columns :
      (is_closed r.state ≡ true → (s.state ≡ r.state) ⊎ (s.state ≡ quarantined))
      → (is_closed r.state ≡ true → result_of s ≡ result_of r)
      → Moves r s
  Moves-of_columns closed result = record {
    envelope = ap (λ (x : InboxRow). x.envelope) same;
    message_id = ap (λ (x : InboxRow). x.message_id) same;
    sound = λ h. rw same (record {
      message_id = h.message_id;
      origin_system = h.origin_system;
      kind = h.kind;
      stream_id = h.stream_id;
      causation_id = h.causation_id;
      payload_sha256 = h.payload_sha256;
      claim = filled h.claim;
    });
    attempts = grows;
    authenticated = signed;
    closed = closed;
    result = result;
  }

  -- Of an open row nothing else is asked.
  pub Moves-of_open : is_closed r.state ≡ false → Moves r s
  Moves-of_open open_row =
      Moves-of_columns (λ h. absurd (cc (open_row, h))) (λ h. absurd (cc (open_row, h)))

pub quarantine-Moves :
    (now_utc : String) (n : ℕ) (reason : String) (r : InboxRow)
    → Moves r (quarantine_row now_utc n reason r)
quarantine-Moves now_utc n reason r =
    Moves-of_columns r _ refl (omega arith) (λ _. refl) (λ h. h) (λ _. inr refl) (λ _. refl)

pub receive_again-Moves :
    (now_utc : String) (n : ℕ) (authenticated : Bool) (r : InboxRow)
    → Moves r (receive_again now_utc n authenticated r)
receive_again-Moves now_utc n authenticated r =
    Moves-of_columns r _ refl (omega arith) (λ h. h) (λ h. ground arith) (λ _. inl refl) (λ _. refl)

pub recover-Moves :
    (now_utc : String) (r : InboxRow)
    → (is_claimed r.state && is_at_most r.claim_until_utc now_utc) ≡ true
    → Moves r (without_claim available r)
recover-Moves now_utc r h = Moves-of_open r _ refl (omega arith) (λ _. refl) (λ k. k) (ground arith)

pub claim-Moves :
    (consumer token_hash until id : String) (r : InboxRow)
    → is_available_message id r ≡ true
    → Moves r (with_claim consumer token_hash until r)
claim-Moves consumer token_hash until id r h =
    Moves-of_open r _ refl (omega arith) (λ _. refl) (λ k. k) (ground arith)

module _ (id consumer token_hash now_utc : String) (r : InboxRow)
    (h : is_held id consumer token_hash now_utc r ≡ true) where
  held_open : is_closed r.state ≡ false
  held_open = ground arith

  pub renew-Moves : (until : String) → Moves r (record r { claim_until_utc = some until })
  renew-Moves until = Moves-of_open r _ refl (omega arith) (λ k. ground arith) (λ k. k) held_open

  pub settle-Moves :
      (outcome : Outcome) (reason : Option String) → Moves r (as_settled outcome now_utc reason r)
  settle-Moves outcome reason =
      Moves-of_open r _ refl (omega arith) (λ k. ground arith) (λ k. k) held_open

  pub reply-Moves :
      (verdict : Verdict) (reason : Option String) (reply : Reply)
      → Moves r (with_result (outcome_of verdict) now_utc reason reply r)
  reply-Moves verdict reason reply =
      Moves-of_open r _ refl (omega arith) (λ k. ground arith) (λ k. k) held_open
