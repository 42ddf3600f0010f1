-- ===== src/Store/System/Tests.antt =====
-- The life of a message on concrete values: received, claimed, settled with a reply.
use balcony_agent_bridge.Base.{
  ◌+◌, Bool, true, false, List, [], ◌≡◌, refl, ◌⊎◌, ◌≢◌, arith, some, none, All, text_le, text_lt,
  ◌==◌, eq_iff,
}
use balcony_agent_bridge.Base.Table.{update, count, find, select, insert_sorted, sort_by}
use balcony_agent_bridge.Time.{to_iso_string, add_seconds}
use balcony_agent_bridge.Security.{trim}
use balcony_agent_bridge.Contracts.Envelope.{Envelope}
use balcony_agent_bridge.Store.Schema.{
  InboxState, InboxRow, available, processed, quarantined, Database, Result, ok, err,
}
use balcony_agent_bridge.Store.Outbox.{
  EnqueueResult, new_outbox_row, enqueue_envelope_row, insert_or_ignore, existing_operation,
  get_outbox_operation, same_idempotent_operation, other_root,
}
use balcony_agent_bridge.Store.Schema as Schema
use balcony_agent_bridge.Store.Outbox.Idempotency.{again}
use balcony_agent_bridge.Store.Inbox.{
  duplicate, has_id, same_inbound_message, new_inbox_row, receive_known, receive, persist_incoming,
}
use balcony_agent_bridge.Store.Inbox.Reception.{persist_apart}
use balcony_agent_bridge.Store.Claims.{
  ClaimedMessage, claimed_message, hash_token, recover_claims, claimable_rows, claim_rows,
  claim_inbox_where, is_held,
}
use balcony_agent_bridge.Store.Claims.Loop.{ClaimOutcome, claim_inbox_total}
use balcony_agent_bridge.Store.Claims.Exclusion.{claim_exclusive}
use balcony_agent_bridge.Store.Settlement.{
  Outcome, Verdict, target_state, settled_same, as_settled, stored_reason, settle_claim,
  acknowledge, existing_reply, resolve_reply, enqueue_reply, replay_reply, settle_held,
  settle_inbox_with_reply,
}
use balcony_agent_bridge.Store.Settlement.Authority.{acknowledge_authority, claim_then_acknowledge}
use balcony_agent_bridge.Store.Settlement.Replies.{Settled}
use balcony_agent_bridge.Store.Settlement.Once.{settle_records_reply, settle_again}
use balcony_agent_bridge.Store.Lifecycle.Steps.{receives, claims, replies}
use balcony_agent_bridge.Store.Authorization.Requests.{expire_rows, expire_requests}
use balcony_agent_bridge.Store.Authorization.Steps.{expires}
use balcony_agent_bridge.Store.System.{
  IsValid, Reach, here, next, incoming, authorizing, system-IsValid,
}
use balcony_agent_bridge.Store.System.Answers.{
  MessageKept, Released, inbox_message_kept, settle_once,
}
use balcony_agent_bridge.Samples.{request, reply, empty_database, morning, plain_platform}

-- All that a run computes with.
inbox : Unit {0}
unfolding update count find select insert_sorted sort_by to_iso_string add_seconds text_le text_lt
    trim expire_rows expire_requests new_outbox_row enqueue_envelope_row insert_or_ignore
    existing_operation get_outbox_operation same_idempotent_operation other_root
    same_inbound_message new_inbox_row receive_known receive persist_incoming claimed_message
    hash_token recover_claims claimable_rows claim_rows claim_inbox_where stored_reason settle_claim
    acknowledge existing_reply resolve_reply enqueue_reply replay_reply settle_held
    settle_inbox_with_reply
inbox = tt

abbrev all_rows : InboxRow → Bool
all_rows r = true

abbrev value_of {ℓ} : {A : Type ℓ} → A → Result (A × Database) → A
value_of default (ok (a, db)) = a
value_of default (err e) = default

abbrev database_of {ℓ} : {A : Type ℓ} → Result (A × Database) → Database
database_of (ok (a, db)) = db
database_of (err e) = empty_database

abbrev received : Database
received = (persist_incoming request 1 morning true empty_database).1

abbrev claim_run : Result (List ClaimedMessage × Database)
claim_run = claim_inbox_where plain_platform "w1" 5 60 all_rows morning false received

abbrev claimed_messages : List ClaimedMessage
claimed_messages = value_of [] claim_run

abbrev claimed_database : Database
claimed_database = database_of claim_run

claim_request : claim_run ≡ ok (claimed_messages, claimed_database)
unfolding inbox
claim_request = refl

claim_nothing :
    claim_inbox_where plain_platform "w2" 5 60 all_rows (morning + 1000) false claimed_database
    ≡ ok ([], claimed_database)
unfolding inbox
claim_nothing = refl

abbrev settle_run : Result (EnqueueResult × Database)
settle_run =
    settle_inbox_with_reply plain_platform "m1" "w1" "token" Verdict.processed reply none morning
      claimed_database

abbrev answer : EnqueueResult
answer = record { message_id = "m5"; state = Schema.OutboxState.pending; duplicate = false }

abbrev settled_database : Database
settled_database = database_of settle_run

settle_request : settle_run ≡ ok (answer, settled_database)
unfolding inbox
settle_request = refl

empty-IsValid : IsValid empty_database
empty-IsValid = record {
  outbox = record { sound = tt; ids = tt; operations = tt };
  inbox = record { sound = tt; ids = tt };
}

claimed_steps : Reach plain_platform empty_database claimed_database
claimed_steps =
    next (next here (incoming (receives request 1 morning true refl)))
      (incoming (claims "w1" 5 60 all_rows morning false claimed_messages claim_request))

claimed-IsValid : IsValid claimed_database
claimed-IsValid =
    system-IsValid plain_platform empty_database claimed_database empty-IsValid claimed_steps

received-IsValid : IsValid received
received-IsValid =
    system-IsValid plain_platform empty_database received empty-IsValid
      (next here (incoming (receives request 1 morning true refl)))

abbrev forged : Envelope
forged = record request { origin_system = "SYS-C" }

abbrev received_row : InboxRow
unfolding inbox
received_row = new_inbox_row request 1 "2026-01-01T06:00:00.000Z" true

found_request : find (has_id "m1") received.inbox ≡ some received_row
unfolding inbox
found_request = refl

other_sender : received_row.envelope.origin_system ≢ forged.origin_system
unfolding inbox
other_sender same = ground (arith, (eq_iff "SYS-A" "SYS-C").1 same)

persist_apart_example :
    find (has_id "m1") (persist_incoming forged 1 morning true received).1.inbox ≡ some received_row
persist_apart_example =
    persist_apart forged 1 morning true received "m1" received_row found_request other_sender

named_consumer : (trim "w1" == "") ≡ false
unfolding inbox
named_consumer = refl

claim_inbox_total_example : ClaimOutcome plain_platform "w1" 5 60 all_rows morning false received
claim_inbox_total_example =
    claim_inbox_total plain_platform "w1" 5 60 all_rows morning false received
      received-IsValid.inbox named_consumer (omega arith) (omega arith)

early : text_lt (to_iso_string (morning + 1000)) (to_iso_string (add_seconds morning 60)) ≡ true
unfolding inbox
early = refl

claim_exclusive_example :
    All
      (λ (a : ClaimedMessage).
        All (λ (b : ClaimedMessage). b.envelope.message_id ≢ a.envelope.message_id) [])
      claimed_messages
claim_exclusive_example =
    claim_exclusive plain_platform "w1" "w2" 5 5 60 60 all_rows all_rows morning (morning + 1000)
      false false received claimed_database claimed_database claimed_messages []
      received-IsValid.inbox claim_request claim_nothing early

claim_then_acknowledge_example :
    All
      (λ (c : ClaimedMessage).
        (db : Database) × (acknowledge plain_platform c.envelope.message_id "w1" c.claim_token
            Outcome.retry none
            (morning + 1000)
            claimed_database
          ≡ ok (target_state Outcome.retry, db)))
      claimed_messages
claim_then_acknowledge_example =
    claim_then_acknowledge plain_platform "w1" 5 60 all_rows morning (morning + 1000) false received
      claimed_database claimed_messages Outcome.retry none received-IsValid.inbox claim_request
      early

abbrev acknowledged : Database
acknowledged =
    database_of
      (acknowledge plain_platform "m1" "w1" "token" Outcome.rejected none morning claimed_database)

acknowledge_request :
    acknowledge plain_platform "m1" "w1" "token" Outcome.rejected none morning claimed_database
    ≡ ok (InboxState.rejected, acknowledged)
unfolding inbox
acknowledge_request = refl

acknowledge_authority_example :
    (InboxState.rejected ≡ target_state Outcome.rejected)
    × ((r : InboxRow) × (find (has_id "m1") claimed_database.inbox ≡ some r)
        × (((settled_same Outcome.rejected r.state ≡ true) × (acknowledged ≡ claimed_database))
            ⊎ ((is_held "m1" "w1" (hash_token plain_platform "token") (to_iso_string morning) r
                  ≡ true)
                × (find (has_id "m1") acknowledged.inbox
                    ≡ some (
                        as_settled Outcome.rejected
                          (to_iso_string morning)
                          (stored_reason none)
                          r)))))
acknowledge_authority_example =
    acknowledge_authority plain_platform "m1" "w1" "token" Outcome.rejected none morning
      InboxState.rejected claimed_database acknowledged claimed-IsValid.inbox acknowledge_request

settle_records_reply_example : Settled Verdict.processed "m1" reply answer settled_database
settle_records_reply_example =
    settle_records_reply plain_platform "m1" "w1" "token" Verdict.processed reply none morning
      answer claimed_database settled_database claimed-IsValid.inbox claimed-IsValid.outbox
      settle_request

settle_again_example :
    settle_inbox_with_reply plain_platform "m1" "w2" "other" Verdict.processed
      (again "m6" "2026-01-01T07:00:00.000Z" reply)
      none
      (morning + 3600000)
      settled_database
    ≡ ok (record answer { duplicate = true }, settled_database)
settle_again_example =
    settle_again plain_platform "m1" "w1" "w2" "token" "other" "m6" "2026-01-01T07:00:00.000Z"
      Verdict.processed reply none none morning (morning + 3600000) answer claimed_database
      settled_database claimed-IsValid.inbox claimed-IsValid.outbox settle_request

settle_again_later :
    settle_inbox_with_reply plain_platform "m1" "w2" "other" Verdict.processed reply none
      (morning + 3600000)
      settled_database
    ≡ ok (record answer { duplicate = true }, settled_database)
unfolding inbox
settle_again_later = refl

abbrev no_steps : Reach plain_platform settled_database settled_database
no_steps = here

settle_once_example :
    ((reply.idempotency_key ≡ reply.idempotency_key) × (answer.message_id ≡ answer.message_id))
    ⊎ Released "m1" no_steps
settle_once_example =
    settle_once plain_platform "m1" "w1" "w2" "token" "other" Verdict.processed Verdict.processed
      reply reply none none morning (morning + 3600000) answer (record answer { duplicate = true })
      claimed_database settled_database settled_database settled_database claimed-IsValid
      settle_request no_steps settle_again_later

-- The claim, the reply, and an expiry of authorization requests in between.
abbrev answered_steps : Reach plain_platform received settled_database
unfolding inbox
answered_steps =
    next
      (next
        (next here
          (incoming (claims "w1" 5 60 all_rows morning false claimed_messages claim_request)))
        (authorizing (expires morning refl)))
      (incoming
        (replies "m1" "w1" "token" Verdict.processed reply none morning answer settle_request))

inbox_message_kept_example :
    (s : InboxRow) × (find (has_id "m1") settled_database.inbox ≡ some s)
    × MessageKept received_row s (Released "m1" answered_steps)
inbox_message_kept_example =
    inbox_message_kept plain_platform "m1" received_row received settled_database answered_steps
      found_request
