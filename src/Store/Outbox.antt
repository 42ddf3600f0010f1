-- ===== src/Store/Outbox.antt =====
-- The outbox of src/storage/database.ts: enqueueing, leasing and settling of outgoing messages.
-- `now` is the instant that the code takes from its clock or its caller.
pub mod Rows
pub mod Steps
pub mod Invariant
pub mod Idempotency
pub mod Leases
pub mod Exclusion
mod Tests
use balcony_agent_bridge.Base.{
  ℕ, suc, ◌+◌, String, Bool, true, false, not, ◌&&◌, ◌||◌, Option, none, some, List, [], ◌∷◌, ◌++◌,
  eqb, ltb, if◌then◌else◌, is_text, same_text, same_number, is_at_most, is_some, text_le, text_lt,
  take, ◌==◌,
}
use balcony_agent_bridge.Base.Table.{update, count, find, select, sort_by}
use balcony_agent_bridge.Time.{to_iso_string, add_seconds}
use balcony_agent_bridge.Security.{normalize_error_code}
use balcony_agent_bridge.Contracts.Envelope.{Envelope, task_request, same_kind, agent_coordination}
use balcony_agent_bridge.Store.Schema.{
  OutboxState, OutboxRow, pending, leased, sent, quarantined, expired, Database, Error, range_error,
  state_transition, idempotency_conflict, Result, ok, err, ◌>>=◌, ◌>>◌, guard,
}

-- `EnqueueResult`
pub record EnqueueResult : Type 0 where
  pub message_id : String
  pub state : OutboxState
  pub duplicate : Bool

-- `IdempotencyComparisonOptions`
pub record Comparison : Type 0 where
  pub match_conversation_id : Bool
  pub match_expires_at_utc : Bool

abbrev pub no_options : Comparison
no_options = record { match_conversation_id = false; match_expires_at_utc = false }

-- `LeasedOutboxMessage`
pub record LeasedMessage : Type 0 where
  pub envelope : Envelope
  pub lease_owner : String
  pub lease_until_utc : String
  pub attempt_number : ℕ

abbrev pub is_pending : OutboxState → Bool
is_pending pending = true
is_pending _ = false

abbrev pub is_leased : OutboxState → Bool
is_leased leased = true
is_leased _ = false

-- `sameIdempotentOperation`
unfoldable pub same_idempotent_operation : Envelope → Envelope → Comparison → Bool
same_idempotent_operation left right comparison =
    left.target_system == right.target_system
    && same_kind left.kind right.kind
    && left.stream_id == right.stream_id
    && left.payload_sha256 == right.payload_sha256
    && same_text left.correlation_id right.correlation_id
    && same_text left.causation_id right.causation_id
    && same_number left.sequence_number right.sequence_number
    && (not comparison.match_conversation_id || left.conversation_id == right.conversation_id)
    && (not comparison.match_expires_at_utc || same_text left.expires_at_utc right.expires_at_utc)

-- The rows that the two uniqueness constraints set against a new one.
abbrev pub same_operation_key : String → String → OutboxRow → Bool
same_operation_key target key r = r.target_system == target && r.idempotency_key == key

abbrev pub conflicts : Envelope → OutboxRow → Bool
conflicts e r =
    r.message_id == e.message_id || same_operation_key e.target_system e.idempotency_key r

-- `getOutboxOperation`
unfoldable pub get_outbox_operation : String → String → List OutboxRow → Option OutboxRow
get_outbox_operation target key rows = find (same_operation_key target key) rows

-- The test that makes an envelope the root request of a coordination conversation.
abbrev pub is_coordination_root : Envelope → Bool
is_coordination_root e =
    same_kind e.kind task_request
    && e.stream_id == agent_coordination
    && same_number e.sequence_number (some 0)
    && is_some e.payload.coordination_request

abbrev pub is_root_of : String → OutboxRow → Bool
is_root_of conversation r =
    r.envelope.conversation_id == conversation
    && same_kind r.kind task_request
    && r.stream_id == agent_coordination
    && same_number r.envelope.sequence_number (some 0)
    && is_some r.envelope.payload.coordination_request

unfoldable pub other_root : Envelope → List OutboxRow → Bool
other_root e rows = elim (find (is_root_of e.conversation_id) rows) [
  | none ↦ false
  | some root ↦
      not (root.target_system == e.target_system) || not (root.idempotency_key == e.idempotency_key)
]

unfoldable pub new_outbox_row : Envelope → OutboxRow
new_outbox_row e = record {
  message_id = e.message_id;
  idempotency_key = e.idempotency_key;
  target_system = e.target_system;
  kind = e.kind;
  stream_id = e.stream_id;
  payload_sha256 = e.payload_sha256;
  envelope = e;
  state = pending;
  attempt_count = 0;
  next_attempt_at_utc = e.created_at_utc;
  lease_owner = none;
  lease_until_utc = none;
  created_at_utc = e.created_at_utc;
  expires_at_utc = e.expires_at_utc;
  sent_at_utc = none;
  last_error_code = none;
  last_error = none;
}

-- What `enqueueEnvelopeRow` answers when the insertion was ignored.
unfoldable pub existing_operation : Envelope → Comparison → Option OutboxRow → Result EnqueueResult
existing_operation e comparison none =
    err (state_transition "Outbox message collided with an unrelated existing row")
existing_operation e comparison (some prior) =
    if same_idempotent_operation prior.envelope e comparison
    then ok
        (record { message_id = prior.envelope.message_id; state = prior.state; duplicate = true })
    else err (idempotency_conflict e.idempotency_key)

unfoldable pub insert_or_ignore :
    Envelope → Comparison → List OutboxRow → Result (EnqueueResult × List OutboxRow)
insert_or_ignore e comparison rows = elim (find (conflicts e) rows) [
  | none ↦ ok (
    record { message_id = e.message_id; state = pending; duplicate = false },
    rows ++ new_outbox_row e ∷ [],
  )
  | some _ ↦ do
    result ←
        existing_operation e comparison
          (get_outbox_operation e.target_system e.idempotency_key rows)
    ok (result, rows)
]

-- `enqueueEnvelopeRow`
unfoldable pub enqueue_envelope_row :
    Envelope → Comparison → List OutboxRow → Result (EnqueueResult × List OutboxRow)
enqueue_envelope_row e comparison rows =
    if is_coordination_root e && other_root e rows
    then err (state_transition "A coordination conversation already has a different root request")
    else insert_or_ignore e comparison rows

-- `enqueueEnvelope`, for a parsed envelope.
unfoldable pub enqueue_envelope :
    Envelope → Comparison → Database → Result (EnqueueResult × Database)
enqueue_envelope e comparison db = do
  (result, rows) ← enqueue_envelope_row e comparison db.outbox
  ok (result, record db { outbox = rows })

abbrev pub without_lease : OutboxState → OutboxRow → OutboxRow
without_lease s r = record r { state = s; lease_owner = none; lease_until_utc = none }

-- The two updates with which `leaseOutbox` begins: leases that ran out, and messages that expired.
unfoldable pub recover_leases : String → List OutboxRow → List OutboxRow
recover_leases now_utc rows =
    update (λ r. is_leased r.state && is_at_most r.lease_until_utc now_utc) (without_lease pending)
      rows

unfoldable pub expire_messages : String → List OutboxRow → List OutboxRow
expire_messages now_utc rows =
    update (λ r. (is_pending r.state || is_leased r.state) && is_at_most r.expires_at_utc now_utc)
      (without_lease expired) rows

abbrev pub is_due : String → OutboxRow → Bool
is_due now_utc r = is_pending r.state && text_le r.next_attempt_at_utc now_utc

-- ORDER BY created_at_utc, message_id
abbrev pub older : OutboxRow → OutboxRow → Bool
older a b =
    text_lt a.created_at_utc b.created_at_utc
    || (a.created_at_utc == b.created_at_utc && text_le a.message_id b.message_id)

unfoldable pub due_rows : String → ℕ → List OutboxRow → List OutboxRow
due_rows now_utc limit rows = take limit (sort_by older (select (is_due now_utc) rows))

abbrev pub is_pending_message : String → OutboxRow → Bool
is_pending_message message_id r = r.message_id == message_id && is_pending r.state

abbrev pub with_lease : String → String → OutboxRow → OutboxRow
with_lease owner until r = record r {
  state = leased;
  lease_owner = some owner;
  lease_until_utc = some until;
}

unfoldable pub leased_message : String → String → OutboxRow → LeasedMessage
leased_message owner until row = record {
  envelope = row.envelope;
  lease_owner = owner;
  lease_until_utc = until;
  attempt_number = row.attempt_count + 1;
}

-- The loop of `leaseOutbox` over the selected rows.
unfoldable pub lease_rows :
    String → String → List OutboxRow → List OutboxRow → Result (List LeasedMessage × List OutboxRow)
lease_rows owner until [] rows = ok ([], rows)
lease_rows owner until (row ∷ more) rows =
    let rest =
      lease_rows owner until more
        (update (is_pending_message row.message_id) (with_lease owner until) rows) in
    if eqb (count (is_pending_message row.message_id) rows) 1
    then (do (messages, rows') ← rest; ok (leased_message owner until row ∷ messages, rows'))
    else err (state_transition "Outbox message could not be leased")

-- The transaction of `leaseOutbox`.
unfoldable pub lease_table :
    String → ℕ → String → String → List OutboxRow → Result (List LeasedMessage × List OutboxRow)
lease_table owner limit now_utc until table =
    let rows = expire_messages now_utc (recover_leases now_utc table) in
    lease_rows owner until (due_rows now_utc limit rows) rows

-- `leaseOutbox`
unfoldable pub lease_outbox : String → ℕ → ℕ → ℕ → Database → Result (List LeasedMessage × Database)
lease_outbox owner limit lease_seconds now db = do
  guard (ltb 0 limit) (range_error "limit")
  guard (ltb 0 lease_seconds) (range_error "leaseSeconds")
  (messages, rows) ←
      lease_table owner limit (to_iso_string now) (to_iso_string (add_seconds now lease_seconds))
        db.outbox
  ok (messages, record db { outbox = rows })

abbrev pub is_leased_by : String → String → OutboxRow → Bool
is_leased_by message_id owner r =
    r.message_id == message_id && is_leased r.state && is_text r.lease_owner owner

-- An update that must change one row, or the operation fails.
unfoldable pub settle_lease : String → String → (OutboxRow → OutboxRow) → Database → Result Database
settle_lease message_id owner change db =
    if eqb (count (is_leased_by message_id owner) db.outbox) 1
    then ok (record db { outbox = update (is_leased_by message_id owner) change db.outbox })
    else err (state_transition "Outbox message is not leased by this owner")

abbrev pub as_sent : String → OutboxRow → OutboxRow
as_sent now_utc r = record r {
  state = sent;
  sent_at_utc = some now_utc;
  lease_owner = none;
  lease_until_utc = none;
  last_error_code = none;
  last_error = none;
}

-- `markOutboxSent`
unfoldable pub mark_outbox_sent : String → String → ℕ → Database → Result Database
mark_outbox_sent message_id owner now = settle_lease message_id owner (as_sent (to_iso_string now))

abbrev pub as_failed : OutboxState → String → OutboxRow → OutboxRow
as_failed s error_code r = record r {
  state = s;
  attempt_count = r.attempt_count + 1;
  lease_owner = none;
  lease_until_utc = none;
  last_error_code = some error_code;
  last_error = some error_code;
}

abbrev pub as_retry : String → String → OutboxRow → OutboxRow
as_retry retry_at error_code r =
    let failed = as_failed pending error_code r in record failed { next_attempt_at_utc = retry_at }

-- `releaseOutboxLease`
unfoldable pub release_outbox_lease : String → String → ℕ → String → Database → Result Database
release_outbox_lease message_id owner retry_at error_code =
    settle_lease message_id owner
      (as_retry (to_iso_string retry_at) (normalize_error_code error_code))

-- `quarantineOutbox`
unfoldable pub quarantine_outbox : String → String → String → Database → Result Database
quarantine_outbox message_id owner error_code =
    settle_lease message_id owner (as_failed quarantined (normalize_error_code error_code))
