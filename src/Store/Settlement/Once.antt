-- ===== src/Store/Settlement/Once.antt =====
-- A message is answered once.
use balcony_agent_bridge.Base.{ℕ, String, true, Option, ◌≡◌, arith, eq_refl}
use balcony_agent_bridge.Contracts.Envelope.{Envelope, Platform}
use balcony_agent_bridge.Store.Schema.{Database, ok}
use balcony_agent_bridge.Store.Outbox.{EnqueueResult}
use balcony_agent_bridge.Store.Outbox.Rows.{IsValid as IsValidOutbox}
use balcony_agent_bridge.Store.Outbox.Idempotency.{again}
use balcony_agent_bridge.Store.Settlement.{
  Verdict, outcome_of, settled_same, replay_reply, settle_inbox_with_reply,
}
use balcony_agent_bridge.Store.Settlement.Replies.{Settled, settle-cases}
use balcony_agent_bridge.Store.Lifecycle.Invariant.{IsValid}

-- On a valid database, a settlement with a reply that succeeds leaves the message settled as its
-- verdict says, and recording the identifier, the key and the payload hash of a message that
-- stands in the outbox under the reply's target and key, the one that was answered.
pub settle_records_reply :
    (platform : Platform) (id consumer token : String) (verdict : Verdict) (reply : Envelope)
    (reason : Option String) (now : ℕ) (answer : EnqueueResult) (db db' : Database)
    → IsValid db.inbox
    → IsValidOutbox db.outbox
    → settle_inbox_with_reply platform id consumer token verdict reply reason now db
      ≡ ok (answer, db')
    → Settled verdict id reply answer db'
settle_records_reply platform id consumer token verdict reply reason now answer db db' v w o =
    let (_, _, left, _) =
      settle-cases platform id consumer token verdict reply reason now answer db db' v w o in
    left

Settled-replays :
    (verdict : Verdict) (id mid time : String) (reply : Envelope) (answer : EnqueueResult)
    (db : Database) (s : Settled verdict id reply answer db)
    → replay_reply (again mid time reply) s.row db.outbox ≡ ok (record answer { duplicate = true })
unfolding replay_reply
Settled-replays verdict id mid time reply answer db s = ground (
  arith,
  s.result_message_id,
  s.result_idempotency_key,
  s.queued,
  s.prior_id,
  s.prior_state,
  s.payload,
  eq_refl answer.message_id,
  eq_refl reply.idempotency_key,
  eq_refl s.prior.envelope.message_id,
  eq_refl s.prior.envelope.payload_sha256,
)

Settled-same :
    (verdict : Verdict) (id : String) (reply : Envelope) (answer : EnqueueResult) (db : Database)
    (s : Settled verdict id reply answer db)
    → settled_same (outcome_of verdict) s.row.state ≡ true
Settled-same verdict id reply answer db s = ground (arith, s.state)

-- Settling the same message again, with the same verdict and the same reply created anew, by
-- whatever caller at whatever time, answers the same reply as a duplicate and changes nothing.
pub settle_again :
    (platform : Platform) (id consumer consumer' token token' mid time : String) (verdict : Verdict)
    (reply : Envelope) (reason reason' : Option String) (now now' : ℕ) (answer : EnqueueResult)
    (db db' : Database)
    → IsValid db.inbox
    → IsValidOutbox db.outbox
    → settle_inbox_with_reply platform id consumer token verdict reply reason now db
      ≡ ok (answer, db')
    → settle_inbox_with_reply platform id consumer' token' verdict
        (again mid time reply)
        reason'
        now'
        db'
      ≡ ok (record answer { duplicate = true }, db')
unfolding settle_inbox_with_reply
settle_again platform id consumer consumer' token token' mid time verdict reply reason reason' now
      now' answer db db' v w o =
    let s =
      settle_records_reply platform id consumer token verdict reply reason now answer db db' v w
        o in
    ground (
      arith,
      s.found,
      Settled-same verdict id reply answer db' s,
      Settled-replays verdict id mid time reply answer db' s,
    )
