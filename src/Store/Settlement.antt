-- ===== src/Store/Settlement.antt =====
-- Settling claimed messages (`acknowledge`, `settleInboxWithReply` of src/storage/database.ts).
pub mod Queued
pub mod Replies
pub mod Once
pub mod Authority
use balcony_agent_bridge.Base.{
  ℕ, ◌+◌, ◌-◌, String, Bool, true, false, ◌&&◌, Option, none, some, List, [], ◌∷◌, eqb, leb,
  if◌then◌else◌, is_text, is_some, ◌==◌, ◌+++◌, utf16_length, take_units,
}
use balcony_agent_bridge.Base.Table.{update, count, find}
use balcony_agent_bridge.Time.{to_iso_string}
use balcony_agent_bridge.Contracts.Envelope.{Envelope, same_kind, Platform}
use balcony_agent_bridge.Store.Schema.{
  OutboxState, OutboxRow, quarantined, expired, InboxState, InboxRow, available, Database,
  state_transition, idempotency_conflict, dispatch_result_unavailable, Result, ok, err, ◌>>=◌, ◌>>◌,
  guard,
}
use balcony_agent_bridge.Store.Outbox.{
  EnqueueResult, no_options, get_outbox_operation, enqueue_envelope_row,
}
use balcony_agent_bridge.Store.Inbox.{has_id}
use balcony_agent_bridge.Store.Claims.{hash_token, is_held, invalid_claim}

pub data Outcome : Type 0 where
  processed rejected retry : Outcome

abbrev pub target_state : Outcome → InboxState
target_state processed = InboxState.processed
target_state rejected = InboxState.rejected
target_state retry = available

-- An acknowledgement of a message that was settled the same way before.
abbrev pub settled_same : Outcome → InboxState → Bool
settled_same processed InboxState.processed = true
settled_same rejected InboxState.rejected = true
settled_same _ _ = false

-- `truncate`
unfoldable pub truncate : String → ℕ → String
unfolding utf16_length take_units
truncate value maximum =
    if leb (utf16_length value) maximum then value else take_units (maximum - 3) value +++ "..."

-- `reason ? truncate(reason, 2000) : null`
unfoldable pub stored_reason : Option String → Option String
stored_reason none = none
stored_reason (some r) = if r == "" then none else some (truncate r 2000)

abbrev pub processed_time : Outcome → String → Option String → Option String
processed_time processed now_utc old = some now_utc
processed_time _ now_utc old = old

abbrev pub as_settled : Outcome → String → Option String → InboxRow → InboxRow
as_settled outcome now_utc reason r = record r {
  state = target_state outcome;
  claim_owner = none;
  claim_token_hash = none;
  claim_until_utc = none;
  processed_at_utc = processed_time outcome now_utc r.processed_at_utc;
  last_error = reason;
}

module _ (platform : Platform) where
  -- The update of `acknowledge`, which must change one row.
  unfoldable pub settle_claim :
      String
      → String
      → String
      → Outcome
      → Option String
      → ℕ
      → Database
      → Result (InboxState × Database)
  settle_claim id consumer token outcome reason now db = do
    let held = is_held id consumer (hash_token platform token) (to_iso_string now)
    guard (eqb (count held db.inbox) 1)
        (state_transition "Claim is invalid, expired, or already settled differently")
    ok (
      target_state outcome,
      record db {
        inbox =
            update held (as_settled outcome (to_iso_string now) (stored_reason reason)) db.inbox;
      },
    )

  -- `acknowledge`
  unfoldable pub acknowledge :
      String
      → String
      → String
      → Outcome
      → Option String
      → ℕ
      → Database
      → Result (InboxState × Database)
  acknowledge id consumer token outcome reason now db = elim (find (has_id id) db.inbox) [
    | none ↦ err (state_transition "Inbox message does not exist")
    | some existing ↦
        if settled_same outcome existing.state
        then ok (target_state outcome, db)
        else settle_claim id consumer token outcome reason now db
  ]

-- The outcomes of a settlement with a reply.
pub data Verdict : Type 0 where
  processed rejected : Verdict

abbrev pub outcome_of : Verdict → Outcome
outcome_of processed = Outcome.processed
outcome_of rejected = Outcome.rejected

-- What the outbox answered to the reply: the answer, the envelope that counts, and the table.
pub record Reply : Type 0 where
  pub enqueued : EnqueueResult
  pub authoritative : Envelope
  pub outbox : List OutboxRow

abbrev pub is_undeliverable : OutboxState → Bool
is_undeliverable quarantined = true
is_undeliverable expired = true
is_undeliverable _ = false

-- A conflict is resolved in favour of the row that is there, if it answers the same message.
unfoldable pub existing_reply : Envelope → String → Option OutboxRow → List OutboxRow → Result Reply
existing_reply reply id none outbox = err (idempotency_conflict reply.idempotency_key)
existing_reply reply id (some prior) outbox =
    if same_kind prior.envelope.kind reply.kind
      && prior.envelope.conversation_id == reply.conversation_id
      && is_text prior.envelope.causation_id id
    then (if is_undeliverable prior.state
        then err dispatch_result_unavailable
        else ok (record {
          enqueued = record {
            message_id = prior.envelope.message_id;
            state = prior.state;
            duplicate = true;
          };
          authoritative = prior.envelope;
          outbox = outbox;
        }))
    else err (idempotency_conflict reply.idempotency_key)

unfoldable pub resolve_reply :
    Envelope → String → List OutboxRow → Result (EnqueueResult × List OutboxRow) → Result Reply
resolve_reply reply id outbox (ok (result, rows)) =
    ok (record { enqueued = result; authoritative = reply; outbox = rows })
resolve_reply reply id outbox (err (idempotency_conflict key)) =
    existing_reply reply id (get_outbox_operation reply.target_system reply.idempotency_key outbox)
      outbox
resolve_reply reply id outbox (err e) = err e

unfoldable pub enqueue_reply : Envelope → String → List OutboxRow → Result Reply
enqueue_reply reply id outbox =
    resolve_reply reply id outbox (enqueue_envelope_row reply no_options outbox)

-- A message that was settled with this outcome: the same reply is answered again, another refused.
unfoldable pub replay_reply : Envelope → InboxRow → List OutboxRow → Result EnqueueResult
replay_reply reply existing outbox =
    if is_some existing.result_message_id
      && is_text existing.result_idempotency_key reply.idempotency_key
    then (elim (get_outbox_operation reply.target_system reply.idempotency_key outbox) [
      | none ↦ err (state_transition "Inbox message has inconsistent result metadata")
      | some prior ↦
          if is_text existing.result_message_id prior.envelope.message_id
            && is_text existing.result_payload_sha256 prior.envelope.payload_sha256
          then ok (record {
            message_id = prior.envelope.message_id;
            state = prior.state;
            duplicate = true;
          })
          else err (state_transition "Inbox message has inconsistent result metadata")
    ])
    else err (state_transition "Inbox message was already settled with a different result")

abbrev pub with_result : Outcome → String → Option String → Reply → InboxRow → InboxRow
with_result outcome now_utc reason reply r =
    let settled = as_settled outcome now_utc reason r in
    record settled {
      result_message_id = some reply.enqueued.message_id;
      result_idempotency_key = some reply.authoritative.idempotency_key;
      result_payload_sha256 = some reply.authoritative.payload_sha256;
    }

module _ (platform : Platform) where
  -- The settlement of a message that is still claimed.
  unfoldable pub settle_held :
      String
      → String
      → String
      → Verdict
      → Envelope
      → Option String
      → ℕ
      → InboxRow
      → Database
      → Result (EnqueueResult × Database)
  settle_held id consumer token verdict reply reason now existing db = do
    let now_utc = to_iso_string now
    let held = is_held id consumer (hash_token platform token) now_utc
    guard (held existing) invalid_claim
    answer ← enqueue_reply reply id db.outbox
    guard (eqb (count held db.inbox) 1)
        (state_transition "Claim for inbox message was lost before result settlement")
    ok (
      answer.enqueued,
      record db {
        outbox = answer.outbox;
        inbox =
            update held (with_result (outcome_of verdict) now_utc (stored_reason reason) answer)
              db.inbox;
      },
    )

  -- `settleInboxWithReply`, for a parsed reply.
  unfoldable pub settle_inbox_with_reply :
      String
      → String
      → String
      → Verdict
      → Envelope
      → Option String
      → ℕ
      → Database
      → Result (EnqueueResult × Database)
  settle_inbox_with_reply id consumer token verdict reply reason now db =
      elim (find (has_id id) db.inbox) [
        | none ↦ err (state_transition "Inbox message does not exist")
        | some existing ↦
            if settled_same (outcome_of verdict) existing.state
            then (replay_reply reply existing db.outbox >>= λ answer. ok (answer, db))
            else settle_held id consumer token verdict reply reason now existing db
      ]
