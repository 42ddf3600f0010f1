-- ===== src/Store/Outbox/Rows.antt =====
-- What every row of the outbox satisfies, and that every operation keeps it.
use balcony_agent_bridge.Base.{
  ℕ, ◌<◌, ◌≤◌, String, Bool, true, false, not, ◌&&◌, ◌||◌, Option, List, ◌∷◌, ◌≡◌, refl, ap, ◌∙◌,
  inl, inr, arith, is_some, All, is_at_most,
}
use balcony_agent_bridge.Base.Table.{update, count}
use balcony_agent_bridge.Base.Table.Keys.{Distinct}
use balcony_agent_bridge.Time.{to_iso_string, add_seconds}
use balcony_agent_bridge.Store.Schema.{
  OutboxState, OutboxRow, pending, leased, quarantined, expired, Database, ok, Result-cases,
}
use balcony_agent_bridge.Store.Outbox.{
  LeasedMessage, is_leased, is_pending, without_lease, with_lease, lease_rows, lease_table,
  leased_message, lease_outbox, is_leased_by, is_pending_message, as_sent, as_failed, as_retry,
}

-- A leased row names its owner and the end of its lease, and no other row does.
abbrev pub lease_fits : OutboxState → Option String → Option String → Bool
lease_fits leased owner until = is_some owner && is_some until
lease_fits _ owner until = not (is_some owner) && not (is_some until)

-- The columns that repeat fields of the envelope agree with it.
pub record IsSound (r : OutboxRow) : Type 0 where
  pub message_id : r.message_id ≡ r.envelope.message_id
  pub idempotency_key : r.idempotency_key ≡ r.envelope.idempotency_key
  pub target_system : r.target_system ≡ r.envelope.target_system
  pub kind : r.kind ≡ r.envelope.kind
  pub stream_id : r.stream_id ≡ r.envelope.stream_id
  pub payload_sha256 : r.payload_sha256 ≡ r.envelope.payload_sha256
  pub created_at_utc : r.created_at_utc ≡ r.envelope.created_at_utc
  pub expires_at_utc : r.expires_at_utc ≡ r.envelope.expires_at_utc
  pub lease : lease_fits r.state r.lease_owner r.lease_until_utc ≡ true

abbrev pub row_id : OutboxRow → String
row_id r = r.message_id

abbrev pub operation_key : OutboxRow → String × String
operation_key r = (r.target_system, r.idempotency_key)

-- The table: sound rows, and both uniqueness constraints.
pub record IsValid (rows : List OutboxRow) : Type 0 where
  pub sound : All IsSound rows
  pub ids : Distinct row_id rows
  pub operations : Distinct operation_key rows

-- A message that was sent, refused for good or expired.
abbrev pub is_final : OutboxState → Bool
is_final pending = false
is_final leased = false
is_final _ = true

-- How a row may change: the message stays, a final row stays as it is, attempts only grow.
pub record Moves (r s : OutboxRow) : Type 0 where
  pub envelope : s.envelope ≡ r.envelope
  pub message_id : s.message_id ≡ r.message_id
  pub key : operation_key s ≡ operation_key r
  pub kind : s.kind ≡ r.kind
  pub stream_id : s.stream_id ≡ r.stream_id
  pub sound : IsSound r → IsSound s
  pub attempts : r.attempt_count ≤ s.attempt_count
  pub final : is_final r.state ≡ true → s ≡ r

pub Moves-refl : (r : OutboxRow) → Moves r r
Moves-refl r = record {
  envelope = refl;
  message_id = refl;
  key = refl;
  kind = refl;
  stream_id = refl;
  sound = λ h. h;
  attempts = omega arith;
  final = λ _. refl;
}

pub Moves-trans : (r s t : OutboxRow) → Moves r s → Moves s t → Moves r t
Moves-trans r s t a b = record {
  envelope = b.envelope ∙ a.envelope;
  message_id = b.message_id ∙ a.message_id;
  key = b.key ∙ a.key;
  kind = b.kind ∙ a.kind;
  stream_id = b.stream_id ∙ a.stream_id;
  sound = λ h. b.sound (a.sound h);
  attempts = omega (arith, a.attempts, b.attempts);
  final = λ h. b.final (rw (a.final h) h) ∙ a.final h;
}

-- A row that still waits or is leased, changed in its delivery columns only.
module _ (r s : OutboxRow) (live : is_final r.state ≡ false)
    (same : s ≡ record r {
      state = s.state;
      attempt_count = s.attempt_count;
      next_attempt_at_utc = s.next_attempt_at_utc;
      lease_owner = s.lease_owner;
      lease_until_utc = s.lease_until_utc;
      sent_at_utc = s.sent_at_utc;
      last_error_code = s.last_error_code;
      last_error = s.last_error;
    })
    (grows : r.attempt_count ≤ s.attempt_count)
    (fits : lease_fits s.state s.lease_owner s.lease_until_utc ≡ true) where
  Moves-of_live : Moves r s
  Moves-of_live = record {
    envelope = ap (λ (x : OutboxRow). x.envelope) same;
    message_id = ap (λ (x : OutboxRow). x.message_id) same;
    key = ap operation_key same;
    kind = ap (λ (x : OutboxRow). x.kind) same;
    stream_id = ap (λ (x : OutboxRow). x.stream_id) same;
    sound = λ h. rw same (record {
      message_id = h.message_id;
      idempotency_key = h.idempotency_key;
      target_system = h.target_system;
      kind = h.kind;
      stream_id = h.stream_id;
      payload_sha256 = h.payload_sha256;
      created_at_utc = h.created_at_utc;
      expires_at_utc = h.expires_at_utc;
      lease = fits;
    });
    attempts = grows;
    final = λ h. absurd (cc (live, h));
  }

pub recover-Moves :
    (now_utc : String) (r : OutboxRow)
    → (is_leased r.state && is_at_most r.lease_until_utc now_utc) ≡ true
    → Moves r (without_lease pending r)
recover-Moves now_utc r h = Moves-of_live r _ (ground arith) refl (omega arith) refl

pub expire-Moves :
    (now_utc : String) (r : OutboxRow)
    → ((is_pending r.state || is_leased r.state) && is_at_most r.expires_at_utc now_utc) ≡ true
    → Moves r (without_lease expired r)
expire-Moves now_utc r h = Moves-of_live r _ (ground arith) refl (omega arith) refl

pub lease-Moves :
    (owner until id : String) (r : OutboxRow)
    → is_pending_message id r ≡ true
    → Moves r (with_lease owner until r)
lease-Moves owner until id r h = Moves-of_live r _ (ground arith) refl (omega arith) refl

module _ (id owner : String) (r : OutboxRow) (h : is_leased_by id owner r ≡ true) where
  live : is_final r.state ≡ false
  live = ground arith

  pub as_sent-Moves : (now_utc : String) → Moves r (as_sent now_utc r)
  as_sent-Moves now_utc = Moves-of_live r _ live refl (omega arith) refl

  pub as_failed-Moves : (code : String) → Moves r (as_failed quarantined code r)
  as_failed-Moves code = Moves-of_live r _ live refl (omega arith) refl

  pub as_retry-Moves : (retry_at code : String) → Moves r (as_retry retry_at code r)
  as_retry-Moves retry_at code = Moves-of_live r _ live refl (omega arith) refl

-- The parts of a lease that succeeded.
pub lease_rows-eq-ok :
    (owner until : String) (row : OutboxRow) (picked rows : List OutboxRow) (m : List LeasedMessage)
    (rows' : List OutboxRow)
    → lease_rows owner until (row ∷ picked) rows ≡ ok (m, rows')
    → (ms : List LeasedMessage) × (lease_rows owner until picked
          (update (is_pending_message row.message_id) (with_lease owner until) rows)
        ≡ ok (ms, rows'))
      × (count (is_pending_message row.message_id) rows ≡ 1)
      × (m ≡ leased_message owner until row ∷ ms)
unfolding lease_rows
lease_rows-eq-ok owner until row picked rows m rows' e =
    elim (Result-cases (
      lease_rows owner until picked
        (update (is_pending_message row.message_id) (with_lease owner until) rows))) [
          | inl ((ms, rest), e') ↦ (ms, ground arith, ground arith, ground arith)
          | inr (_, e') ↦ absurd (ground arith)
        ]

pub lease_outbox-eq-ok :
    (owner : String) (limit lease_seconds now : ℕ) (db db' : Database) (m : List LeasedMessage)
    → lease_outbox owner limit lease_seconds now db ≡ ok (m, db')
    → (lease_table owner limit
          (to_iso_string now)
          (to_iso_string (add_seconds now lease_seconds))
          db.outbox
        ≡ ok (m, db'.outbox))
      × (0 < limit)
      × (0 < lease_seconds)
      × (db' ≡ record db { outbox = db'.outbox })
unfolding lease_outbox
lease_outbox-eq-ok owner limit lease_seconds now db db' m e = ground arith
