-- ===== src/Store/Outbox/Tests.antt =====
-- The outbox on concrete messages.
use balcony_agent_bridge.Base.{
  ◌&&◌, false, ◌+◌, String, true, [], ◌∷◌, ◌≡◌, refl, ◌≢◌, arith, some, All, text_le, text_lt,
}
use balcony_agent_bridge.Base.Table.{update, count, find, select, insert_sorted, sort_by}
use balcony_agent_bridge.Base.Table.Keys.{has_key}
use balcony_agent_bridge.Time.{to_iso_string, add_seconds}
use balcony_agent_bridge.Store.Schema.{OutboxRow, Database, ok, pending}
use balcony_agent_bridge.Store.Outbox.{
  LeasedMessage, no_options, new_outbox_row, leased_message, with_lease, enqueue_envelope,
  enqueue_envelope_row, insert_or_ignore, existing_operation, get_outbox_operation,
  same_idempotent_operation, is_coordination_root, other_root, lease_outbox, lease_table,
  lease_rows, due_rows, recover_leases, expire_messages, settle_lease, mark_outbox_sent, as_sent,
}
use balcony_agent_bridge.Store.Outbox.Rows.{IsValid, row_id, is_final}
use balcony_agent_bridge.Store.Outbox.Steps.{Reach, here, next, enqueues, leases, sends}
use balcony_agent_bridge.Store.Outbox.Invariant.{Reach-IsValid, outbox_message_kept}
use balcony_agent_bridge.Store.Outbox.Idempotency.{again, enqueue_again}
use balcony_agent_bridge.Store.Outbox.Leases.{Outcome, lease_outbox_total}
use balcony_agent_bridge.Store.Outbox.Exclusion.{lease_exclusive}
use balcony_agent_bridge.Samples.{request, empty_database, morning}

-- All that a run of the outbox computes with.
outbox : Unit {0}
unfolding update count find select insert_sorted sort_by to_iso_string add_seconds text_le text_lt
    new_outbox_row leased_message enqueue_envelope enqueue_envelope_row insert_or_ignore
    existing_operation get_outbox_operation same_idempotent_operation other_root lease_outbox
    lease_table lease_rows due_rows recover_leases expire_messages settle_lease mark_outbox_sent
outbox = tt

abbrev one_message : Database
unfolding outbox
one_message = record empty_database { outbox = new_outbox_row request ∷ [] }

enqueue_request :
    enqueue_envelope request no_options empty_database
    ≡ ok (record { message_id = "m1"; state = pending; duplicate = false }, one_message)
unfolding outbox
enqueue_request = refl

abbrev morning_text : String
morning_text = "2026-01-01T06:00:00.000Z"

abbrev until_text : String
until_text = "2026-01-01T06:01:00.000Z"

abbrev leased_database : Database
unfolding outbox
leased_database = record empty_database {
  outbox = with_lease "w1" until_text (new_outbox_row request) ∷ [];
}

abbrev sent_database : Database
unfolding outbox
sent_database = record empty_database {
  outbox = as_sent morning_text (with_lease "w1" until_text (new_outbox_row request)) ∷ [];
}

lease_request :
    lease_outbox "w1" 10 60 morning one_message
    ≡ ok (leased_message "w1" until_text (new_outbox_row request) ∷ [], leased_database)
unfolding outbox
lease_request = refl

lease_nothing : lease_outbox "w2" 10 60 (morning + 1000) leased_database ≡ ok ([], leased_database)
unfolding outbox
lease_nothing = refl

send_request : mark_outbox_sent "m1" "w1" morning leased_database ≡ ok sent_database
unfolding outbox
send_request = refl

empty-IsValid : IsValid []
empty-IsValid = record { sound = tt; ids = tt; operations = tt }

enqueued : Reach empty_database one_message
unfolding outbox
enqueued = next here (
    enqueues request no_options (record { message_id = "m1"; state = pending; duplicate = false })
      enqueue_request)

one_message-IsValid : IsValid one_message.outbox
unfolding outbox
one_message-IsValid = Reach-IsValid empty-IsValid enqueued

no_root : (is_coordination_root request && other_root request sent_database.outbox) ≡ false
unfolding outbox
no_root = refl

delivered : Reach one_message sent_database
unfolding outbox
delivered =
    next (next here (leases "w1" 10 60 morning _ lease_request))
      (sends "m1" "w1" morning send_request)

enqueue_again_example :
    (row : OutboxRow) × (get_outbox_operation request.target_system request.idempotency_key
        sent_database.outbox
      ≡ some row)
    × (row.envelope.message_id ≡ "m1")
    × (enqueue_envelope (again "m9" "2026-01-01T00:05:00.000Z" request) no_options sent_database
        ≡ ok (record { message_id = "m1"; state = row.state; duplicate = true }, sent_database))
enqueue_again_example =
    enqueue_again request no_options "m9" "2026-01-01T00:05:00.000Z" empty_database one_message
      sent_database (record { message_id = "m1"; state = pending; duplicate = false })
      enqueue_request delivered no_root

outbox_message_kept_example :
    (s : OutboxRow) × (find (has_key row_id "m1") sent_database.outbox ≡ some s)
    × (s.envelope ≡ request)
    × (is_final (new_outbox_row request).state ≡ true → s ≡ new_outbox_row request)
unfolding outbox
outbox_message_kept_example =
    outbox_message_kept "m1" (new_outbox_row request) one_message sent_database delivered refl

lease_outbox_total_example : Outcome "w1" 10 60 morning one_message
unfolding outbox
lease_outbox_total_example =
    lease_outbox_total "w1" 10 60 morning one_message one_message-IsValid (omega arith)
      (omega arith)

lease_exclusive_example :
    All
      (λ (a : LeasedMessage).
        All (λ (b : LeasedMessage). b.envelope.message_id ≢ a.envelope.message_id) [])
      (leased_message "w1" until_text (new_outbox_row request) ∷ [])
unfolding outbox
lease_exclusive_example =
    lease_exclusive "w1" "w2" 10 10 60 60 morning (morning + 1000) one_message leased_database
      leased_database (leased_message "w1" until_text (new_outbox_row request) ∷ []) []
      one_message-IsValid lease_request lease_nothing refl
