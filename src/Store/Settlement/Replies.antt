-- ===== src/Store/Settlement/Replies.antt =====
-- A settlement with a reply: the message records the reply that stands in the outbox.
use balcony_agent_bridge.Base.{
  ℕ, String, Bool, true, Option, none, some, ◌≡◌, refl, sym, ◌∙◌, ap, inl, inr, ◌⊎◌, arith, eq_iff,
  Bool-cases, Option-cases, is_text,
}
use balcony_agent_bridge.Base.Table.{update, find}
use balcony_agent_bridge.Base.Table.Laws.{find-update}
use balcony_agent_bridge.Time.{to_iso_string}
use balcony_agent_bridge.Contracts.Envelope.{Envelope, Platform}
use balcony_agent_bridge.Store.Schema.{InboxState, InboxRow, OutboxRow, Database, ok, Result-cases}
use balcony_agent_bridge.Store.Outbox.{EnqueueResult, get_outbox_operation}
use balcony_agent_bridge.Store.Outbox.Rows.{IsValid as IsValidOutbox}
use balcony_agent_bridge.Store.Inbox.{has_id}
use balcony_agent_bridge.Store.Claims.{hash_token, is_held}
use balcony_agent_bridge.Store.Settlement.{
  Verdict, outcome_of, target_state, settled_same, with_result, stored_reason, enqueue_reply,
  replay_reply, settle_held, settle_inbox_with_reply,
}
use balcony_agent_bridge.Store.Lifecycle.Invariant.{IsValid}
use balcony_agent_bridge.Store.Settlement.Queued.{enqueue_reply_queues}

-- What a settlement with a reply leaves behind.
pub record Settled (verdict : Verdict) (id : String) (reply : Envelope) (answer : EnqueueResult)
    (db : Database) : Type 0 where
  pub row : InboxRow
  pub found : find (has_id id) db.inbox ≡ some row
  pub state : row.state ≡ target_state (outcome_of verdict)
  pub result_message_id : row.result_message_id ≡ some answer.message_id
  pub result_idempotency_key : row.result_idempotency_key ≡ some reply.idempotency_key
  pub prior : OutboxRow
  pub queued : get_outbox_operation reply.target_system reply.idempotency_key db.outbox ≡ some prior
  pub prior_id : prior.envelope.message_id ≡ answer.message_id
  pub prior_state : prior.state ≡ answer.state
  pub payload : row.result_payload_sha256 ≡ some prior.envelope.payload_sha256

settled-state :
    (verdict : Verdict) (s : InboxState)
    → settled_same (outcome_of verdict) s ≡ true
    → s ≡ target_state (outcome_of verdict)
settled-state verdict s h = ground arith

is_text-some : (o : Option String) (k : String) → is_text o k ≡ true → o ≡ some k
is_text-some none k h = absurd (ground arith)
is_text-some (some s) k h = ap some ((eq_iff s k).0 h)

-- A settlement that is answered again finds what the first one left.
pub replay-Settled :
    (verdict : Verdict) (id : String) (reply : Envelope) (answer : EnqueueResult) (r : InboxRow)
    (db : Database)
    → find (has_id id) db.inbox ≡ some r
    → settled_same (outcome_of verdict) r.state ≡ true
    → replay_reply reply r db.outbox ≡ ok answer
    → Settled verdict id reply answer db
unfolding replay_reply
replay-Settled verdict id reply answer r db found same o =
    elim (Option-cases (get_outbox_operation reply.target_system reply.idempotency_key db.outbox)) [
      | inl absent ↦ absurd (ground arith)
      | inr (prior, queued) ↦ record {
        row = r;
        found = found;
        state = settled-state verdict r.state same;
        result_message_id = is_text-some r.result_message_id answer.message_id (ground arith);
        result_idempotency_key =
            is_text-some r.result_idempotency_key reply.idempotency_key (ground arith);
        prior = prior;
        queued = queued;
        prior_id = ground arith;
        prior_state = ground arith;
        payload = is_text-some r.result_payload_sha256 prior.envelope.payload_sha256 (ground arith);
      }
    ]

module _ (platform : Platform) (id consumer token : String) (verdict : Verdict) (reply : Envelope)
    (reason : Option String) (now : ℕ) (answer : EnqueueResult) (db db' : Database)
    (v : IsValid db.inbox) (w : IsValidOutbox db.outbox) where
  abbrev held : InboxRow → Bool
  held = is_held id consumer (hash_token platform token) (to_iso_string now)

  -- The first settlement of a message.
  held-Settled :
      (r : InboxRow)
      → find (has_id id) db.inbox ≡ some r
      → settle_held platform id consumer token verdict reply reason now r db ≡ ok (answer, db')
      → Settled verdict id reply answer db' × (held r ≡ true)
  unfolding settle_held
  held-Settled r found o = elim (Result-cases (enqueue_reply reply id db.outbox)) [
    | inr (_, failed) ↦ absurd (ground arith)
    | inl (a, enqueued) ↦
        let (queued, key) = enqueue_reply_queues reply id db.outbox w a enqueued in
        let change =
          with_result (outcome_of verdict) (to_iso_string now) (stored_reason reason) a in
        let mine : held r ≡ true = ground arith in
        let same : db' ≡ record db { outbox = a.outbox; inbox = update held change db.inbox } =
          ground arith in
        let same_answer : answer ≡ a.enqueued = ground arith in
        rw (same, same_answer)
          (
            record {
              row = change r;
              found =
                  find-update held (has_id id) change db.inbox (λ x. refl)
                  ∙ ground (arith, found, mine);
              state = refl;
              result_message_id = refl;
              result_idempotency_key = ap some key;
              prior = queued.prior;
              queued = queued.found;
              prior_id = queued.message_id;
              prior_state = queued.state;
              payload = ap some (sym queued.payload);
            },
            mine,
          )
  ]

  pub settle-cases :
      settle_inbox_with_reply platform id consumer token verdict reply reason now db
        ≡ ok (answer, db')
      → (r : InboxRow) × (find (has_id id) db.inbox ≡ some r)
        × Settled verdict id reply answer db'
        × (((settled_same (outcome_of verdict) r.state ≡ true)
              × (replay_reply reply r db.outbox ≡ ok answer)
              × (db' ≡ db))
            ⊎ (held r ≡ true))
  unfolding settle_inbox_with_reply
  settle-cases o = elim (Option-cases (find (has_id id) db.inbox)) [
    | inl missing ↦ absurd (ground arith)
    | inr (r, found) ↦ elim (Bool-cases (settled_same (outcome_of verdict) r.state)) [
      | inl same ↦ elim (Result-cases (replay_reply reply r db.outbox)) [
        | inr (_, failed) ↦ absurd (ground arith)
        | inl (a, replayed) ↦
            let unchanged : db' ≡ db = ground arith in
            let same_answer : answer ≡ a = ground arith in
            rw (unchanged, same_answer)
              (
                r,
                found,
                replay-Settled verdict id reply a r db found same replayed,
                inl (same, replayed, refl),
              )
      ]
      | inr other ↦
          let (left, mine) = held-Settled r found (ground arith) in (r, found, left, inr mine)
    ]
  ]
