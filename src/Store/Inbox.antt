-- ===== src/Store/Inbox.antt =====
-- The inbox of src/storage/database.ts: states of a received message, and `persistIncoming`.
pub mod Reception
use balcony_agent_bridge.Base.{
  ℕ, String, Bool, true, false, not, ◌&&◌, ◌||◌, none, some, List, [], ◌∷◌, ◌++◌, max,
  if◌then◌else◌, same_text, same_number, ◌==◌,
}
use balcony_agent_bridge.Base.Table.{update, find}
use balcony_agent_bridge.Time.{to_iso_string}
use balcony_agent_bridge.Contracts.Envelope.{Envelope, same_kind}
use balcony_agent_bridge.Store.Schema.{
  InboxState, InboxRow, available, claimed, quarantined, Database,
}

abbrev pub is_available : InboxState → Bool
is_available available = true
is_available _ = false

abbrev pub is_claimed : InboxState → Bool
is_claimed claimed = true
is_claimed _ = false

abbrev pub is_quarantined : InboxState → Bool
is_quarantined quarantined = true
is_quarantined _ = false

-- `sameInboundMessage`
unfoldable pub same_inbound_message : Envelope → Envelope → Bool
same_inbound_message left right =
    left.schema_version == right.schema_version
    && left.message_id == right.message_id
    && left.idempotency_key == right.idempotency_key
    && left.origin_system == right.origin_system
    && left.target_system == right.target_system
    && same_kind left.kind right.kind
    && left.conversation_id == right.conversation_id
    && same_text left.correlation_id right.correlation_id
    && same_text left.causation_id right.causation_id
    && left.stream_id == right.stream_id
    && same_number left.sequence_number right.sequence_number
    && left.created_at_utc == right.created_at_utc
    && same_text left.expires_at_utc right.expires_at_utc
    && left.payload_sha256 == right.payload_sha256

-- `PersistIncomingResult`, whose identifier is the envelope's.
pub data PersistStatus : Type 0 where
  inserted duplicate collision : PersistStatus

abbrev pub has_id : String → InboxRow → Bool
has_id id r = r.message_id == id

abbrev pub quarantine_row : String → ℕ → String → InboxRow → InboxRow
quarantine_row now_utc delivery_count reason r = record r {
  state = quarantined;
  last_received_at_utc = now_utc;
  broker_delivery_count = delivery_count;
  last_error = some reason;
}

abbrev pub receive_again : String → ℕ → Bool → InboxRow → InboxRow
receive_again now_utc delivery_count authenticated r = record r {
  last_received_at_utc = now_utc;
  broker_delivery_count = max r.broker_delivery_count delivery_count;
  authenticated_ingress = r.authenticated_ingress || authenticated;
}

unfoldable pub new_inbox_row : Envelope → ℕ → String → Bool → InboxRow
new_inbox_row e delivery_count now_utc authenticated = record {
  message_id = e.message_id;
  origin_system = e.origin_system;
  kind = e.kind;
  stream_id = e.stream_id;
  causation_id = e.causation_id;
  payload_sha256 = e.payload_sha256;
  envelope = e;
  state = available;
  claim_owner = none;
  claim_token_hash = none;
  claim_until_utc = none;
  attempt_count = 0;
  first_received_at_utc = now_utc;
  last_received_at_utc = now_utc;
  broker_delivery_count = delivery_count;
  processed_at_utc = none;
  last_error = none;
  result_message_id = none;
  result_idempotency_key = none;
  result_payload_sha256 = none;
  authenticated_ingress = authenticated;
}

abbrev pub changed_hash : String
changed_hash = "Message identity collision: payload hash changed"

abbrev pub changed_metadata : String
changed_metadata = "Message identity collision: signed envelope metadata changed"

-- A delivery whose identifier the inbox holds already.
unfoldable pub receive_known :
    Envelope → ℕ → String → Bool → InboxRow → List InboxRow → PersistStatus × List InboxRow
receive_known e delivery_count now_utc authenticated existing rows =
    if same_inbound_message existing.envelope e
    then (
      duplicate,
      update (has_id e.message_id) (receive_again now_utc delivery_count authenticated) rows,
    )
    else if existing.envelope.origin_system == e.origin_system
    then (
      collision,
      update (has_id e.message_id)
          (quarantine_row now_utc delivery_count (
            if not (existing.payload_sha256 == e.payload_sha256)
            then changed_hash
            else changed_metadata))
          rows,
    )
    else (collision, rows)

-- The transaction of `persistIncoming`.
unfoldable pub receive :
    Envelope → ℕ → String → Bool → List InboxRow → PersistStatus × List InboxRow
receive e delivery_count now_utc authenticated rows = elim (find (has_id e.message_id) rows) [
  | none ↦ (inserted, rows ++ new_inbox_row e delivery_count now_utc authenticated ∷ [])
  | some existing ↦ receive_known e delivery_count now_utc authenticated existing rows
]

-- `persistIncoming`, for a parsed envelope.
unfoldable pub persist_incoming : Envelope → ℕ → ℕ → Bool → Database → PersistStatus × Database
persist_incoming e delivery_count now authenticated db =
    let (status, rows) = receive e delivery_count (to_iso_string now) authenticated db.inbox in
    (status, record db { inbox = rows })
