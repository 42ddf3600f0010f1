-- ===== src/Store/Queries.antt =====
-- The reads of src/storage/database.ts: one message, the replies to a request, a conversation, the
-- inbox. Times and identifiers are compared by their codes, as SQLite does.
pub mod Conversation
use balcony_agent_bridge.Base.{
  ℕ, zero, suc, ◌-◌, String, Bool, true, false, not, ◌&&◌, ◌||◌, Option, none, some, List, [], ◌∷◌,
  ◌++◌, map, any, take, length, eqb, ltb, leb, if◌then◌else◌, is_text, is_some, text_le, text_lt,
  ◌==◌,
}
use balcony_agent_bridge.Base.Table.{find, select, sort_by}
use balcony_agent_bridge.Contracts.Envelope.{
  Envelope, task_request, task_result, same_kind, agent_coordination,
}
use balcony_agent_bridge.Contracts.Envelope.Creation.{non_empty}
use balcony_agent_bridge.Store.Schema.{
  OutboxState, OutboxRow, InboxState, InboxRow, available, claimed, processed, rejected,
  quarantined, Database, range_error, Result, ok, ◌>>=◌, ◌>>◌, guard,
}
use balcony_agent_bridge.Store.Inbox.{has_id}
use balcony_agent_bridge.Store.Claims.{received_first}
use balcony_agent_bridge.Store.Outbox.{get_outbox_operation}

-- `InboxListItem`
pub record InboxItem : Type 0 where
  pub envelope : Envelope
  pub state : InboxState
  pub authenticated_ingress : Bool
  pub claim_owner : Option String
  pub claim_until_utc : Option String

-- `OutboxListItem`
pub record OutboxItem : Type 0 where
  pub envelope : Envelope
  pub state : OutboxState

abbrev pub inbox_item : InboxRow → InboxItem
inbox_item r = record {
  envelope = r.envelope;
  state = r.state;
  authenticated_ingress = r.authenticated_ingress;
  claim_owner = non_empty r.claim_owner;
  claim_until_utc = non_empty r.claim_until_utc;
}

abbrev pub outbox_item : OutboxRow → OutboxItem
outbox_item r = record { envelope = r.envelope; state = r.state }

abbrev pub found {ℓ κ} : {A : Type ℓ} {B : Type κ} → (A → B) → Option A → Option B
found f none = none
found f (some a) = some (f a)

-- `getInboxMessage`
unfoldable pub get_inbox_message : String → Database → Option InboxItem
get_inbox_message id db = found inbox_item (find (has_id id) db.inbox)

abbrev pub is_outbox_message : String → OutboxRow → Bool
is_outbox_message id r = r.message_id == id

-- `getOutboxMessage`
unfoldable pub get_outbox_message : String → Database → Option OutboxItem
get_outbox_message id db = found outbox_item (find (is_outbox_message id) db.outbox)

-- `getOutboxByIdempotency`
unfoldable pub get_outbox_by_idempotency : String → String → Database → Option OutboxItem
get_outbox_by_idempotency target key db =
    found outbox_item (get_outbox_operation target key db.outbox)

abbrev pub first_of {ℓ} : {A : Type ℓ} → List A → Option A
first_of [] = none
first_of (x ∷ xs) = some x

-- The rows that `findInboxReplyTo` selects.
abbrev pub answers : String → String → String → String → InboxRow → Bool
answers request origin target conversation r =
    is_text r.causation_id request
    && same_kind r.kind task_result
    && r.authenticated_ingress
    && r.origin_system == origin
    && r.envelope.target_system == target
    && r.envelope.conversation_id == conversation

-- `findInboxReplyTo`
unfoldable pub find_inbox_reply_to : String → String → String → String → Database → Option InboxItem
find_inbox_reply_to request origin target conversation db = found inbox_item (
    first_of
      (sort_by received_first (select (answers request origin target conversation) db.inbox)))

-- The direction of a conversation's item, with the state of its row.
pub data Delivery : Type 0 where
  outbound : OutboxState → Delivery
  inbound : InboxState → Delivery

-- `ConversationListItem`
pub record ConversationItem : Type 0 where
  pub envelope : Envelope
  pub delivery : Delivery

abbrev pub sent_item : OutboxRow → ConversationItem
sent_item r = record { envelope = r.envelope; delivery = outbound r.state }

abbrev pub received_item : InboxRow → ConversationItem
received_item r = record { envelope = r.envelope; delivery = inbound r.state }

-- `sameConversationRoute`
unfoldable pub same_conversation_route : Envelope → String → String → Bool
same_conversation_route e first second =
    (e.origin_system == first && e.target_system == second)
    || (e.origin_system == second && e.target_system == first)

-- Number.MAX_SAFE_INTEGER stands for a missing sequence number.
abbrev pub sequence_or_last : Option ℕ → ℕ
sequence_or_last none = 9007199254740991
sequence_or_last (some n) = n

-- The order of a conversation's items.
abbrev pub in_turn : ConversationItem → ConversationItem → Bool
in_turn a b =
    let left = sequence_or_last a.envelope.sequence_number in
    let right = sequence_or_last b.envelope.sequence_number in
    ltb left right
    || (eqb left right
        && (text_lt a.envelope.created_at_utc b.envelope.created_at_utc
            || (a.envelope.created_at_utc == b.envelope.created_at_utc
                && text_le a.envelope.message_id b.envelope.message_id)))

abbrev pub drop {ℓ} : {A : Type ℓ} → ℕ → List A → List A
drop zero xs = xs
drop (suc n) [] = []
drop (suc n) (x ∷ xs) = drop n xs

-- `slice(-limit)`
abbrev pub take_last {ℓ} : {A : Type ℓ} → ℕ → List A → List A
take_last n xs = drop (length xs - n) xs

abbrev pub on_route : Option (String × String) → ConversationItem → Bool
on_route none item = true
on_route (some (first, second)) item = same_conversation_route item.envelope first second

abbrev pub in_conversation : String → Envelope → Bool
in_conversation conversation e = e.conversation_id == conversation

-- All items of a conversation; received ones only if they came authenticated.
unfoldable pub conversation_items : String → Database → List ConversationItem
conversation_items conversation db =
    map sent_item (select (λ (r : OutboxRow). in_conversation conversation r.envelope) db.outbox)
    ++ map received_item (
        select
          (λ (r : InboxRow). in_conversation conversation r.envelope && r.authenticated_ingress)
          db.inbox)

-- `listConversation`
unfoldable pub list_conversation :
    String → ℕ → Option (String × String) → Database → Result (List ConversationItem)
list_conversation conversation limit route db = do
  guard (ltb 0 limit) (range_error "limit")
  guard (leb limit 100) (range_error "limit")
  ok (
      take_last limit
        (select (on_route route) (sort_by in_turn (conversation_items conversation db))))

abbrev pub is_initial : String → String → OutboxRow → Bool
is_initial conversation origin r =
    r.envelope.conversation_id == conversation
    && r.envelope.origin_system == origin
    && same_kind r.kind task_request
    && r.stream_id == agent_coordination
    && is_some r.envelope.payload.coordination_request

-- COALESCE of the sequence number with the largest integer of SQLite, then the columns.
abbrev pub sequence_or_largest : Option ℕ → ℕ
sequence_or_largest none = 9223372036854775807
sequence_or_largest (some n) = n

abbrev pub earlier_request : OutboxRow → OutboxRow → Bool
earlier_request a b =
    let left = sequence_or_largest a.envelope.sequence_number in
    let right = sequence_or_largest b.envelope.sequence_number in
    ltb left right
    || (eqb left right
        && (text_lt a.created_at_utc b.created_at_utc
            || (a.created_at_utc == b.created_at_utc && text_le a.message_id b.message_id)))

-- `findInitialCoordinationRequest`
unfoldable pub find_initial_coordination_request :
    String → String → Database → Option ConversationItem
find_initial_coordination_request conversation origin db =
    found sent_item
      (first_of (sort_by earlier_request (select (is_initial conversation origin) db.outbox)))

abbrev pub same_inbox_state : InboxState → InboxState → Bool
same_inbox_state available available = true
same_inbox_state claimed claimed = true
same_inbox_state processed processed = true
same_inbox_state rejected rejected = true
same_inbox_state quarantined quarantined = true
same_inbox_state _ _ = false

-- `listInbox`
unfoldable pub list_inbox : ℕ → List InboxState → Database → Result (List InboxItem)
list_inbox limit states db = do
  guard (ltb 0 limit) (range_error "limit")
  ok (
      map inbox_item (
        take limit (
          sort_by received_first
            (select (λ (r : InboxRow). any (same_inbox_state r.state) states) db.inbox))))
