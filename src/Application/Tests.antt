-- ===== src/Application/Tests.antt =====
-- A conversation that is answered, read and continued.
use balcony_agent_bridge.Base.{
  ◌≡◌, true, false, none, some, [], ◌∷◌, refl, is_some, text_le, text_lt, digit, decimal, join,
  utf16_length, take_units,
}
use balcony_agent_bridge.Base.Table.{find, select, update, count, insert_sorted, sort_by}
use balcony_agent_bridge.Base.Table.Keys.{Distinct}
use balcony_agent_bridge.Time.{to_iso_string, date_parse}
use balcony_agent_bridge.Security.{trim, is_white}
use balcony_agent_bridge.Contracts.Json.{canonical_json, quoted, visit}
use balcony_agent_bridge.Contracts.Payload.{payload_json}
use balcony_agent_bridge.Contracts.Identifiers.{system_id}
use balcony_agent_bridge.Contracts.Evidence.{all_different}
use balcony_agent_bridge.Contracts.Envelope.{
  Envelope, message, task_request, same_kind, hash_payload, issues, parse_envelope,
}
use balcony_agent_bridge.Contracts.Envelope.Fields.{
  bounded, is_fingerprint, is_dispatch, is_coordination_request, is_coordination_result,
  is_consultation_context, evidence_references, message_payload, envelope_core,
}
use balcony_agent_bridge.Contracts.Envelope.Creation.{candidate, create_envelope}
use balcony_agent_bridge.Store.Schema.{Database, OutboxState, Result, ok, err}
use balcony_agent_bridge.Store.Outbox.{
  new_outbox_row, enqueue_envelope, enqueue_envelope_row, insert_or_ignore, existing_operation,
  get_outbox_operation, same_idempotent_operation, other_root,
}
use balcony_agent_bridge.Store.Inbox.{new_inbox_row}
use balcony_agent_bridge.Store.Queries.{
  inbox_item, OutboxItem, get_inbox_message, get_outbox_message, get_outbox_by_idempotency,
  find_inbox_reply_to, same_conversation_route, conversation_items, list_conversation,
}
use balcony_agent_bridge.Store.Queries.Conversation.{inbox_key}
use balcony_agent_bridge.Bridge.Inbound.{BridgeConfig}
use balcony_agent_bridge.Application.{
  SendInput, SendResult, created, require_authorized_remote_node, read_back, send,
}
use balcony_agent_bridge.Application.Results.{TaskResult, task_result_of, get_agent_result}
use balcony_agent_bridge.Application.Conversations.{
  ContinueInput, AskResult, continue_thread, continue_request, continue_result, continue_agent,
}
use balcony_agent_bridge.Application.Sending.{Sent, send-Sent}
use balcony_agent_bridge.Application.Threads.{
  Shown, Continued, agent_result_sound, continue_sequence,
}
use balcony_agent_bridge.Samples.{
  request, reply, reply_payload, empty_database, morning, hex_platform,
}

-- All that the service computes with.
service : Unit {0}
unfolding text_le text_lt digit decimal join utf16_length take_units find select update count
    insert_sorted sort_by to_iso_string date_parse trim is_white canonical_json quoted visit
    payload_json system_id all_different hash_payload issues parse_envelope bounded is_fingerprint
    is_dispatch is_coordination_request is_coordination_result is_consultation_context
    evidence_references message_payload envelope_core candidate create_envelope new_outbox_row
    enqueue_envelope enqueue_envelope_row insert_or_ignore existing_operation get_outbox_operation
    same_idempotent_operation other_root new_inbox_row get_inbox_message get_outbox_message
    get_outbox_by_idempotency find_inbox_reply_to same_conversation_route conversation_items
    list_conversation created require_authorized_remote_node read_back send continue_thread
    continue_request continue_result continue_agent task_result_of get_agent_result
service = tt

abbrev config : BridgeConfig
config = record { system_id = "SYS-A"; authorized_node_ids = "SYS-B" ∷ [] }

abbrev answer : Envelope
answer = record reply {
  payload = record reply_payload {
    coordination_result =
        some
          (record { protocol_version = "1.0"; request_message_id = "m1"; outcome = "completed" });
  };
}

-- The request was queued, and the answer has arrived.
abbrev answered : Database
unfolding service
answered = record empty_database {
  outbox = new_outbox_row request ∷ [];
  inbox = new_inbox_row answer 1 "2026-01-01T06:00:00.000Z" true ∷ [];
}

abbrev result : TaskResult
unfolding service
result = record {
  conversation_id = "c1";
  status = "completed";
  delivery_state = OutboxState.pending;
  result = some (inbox_item (new_inbox_row answer 1 "2026-01-01T06:00:00.000Z" true));
}

read_result : get_agent_result config "m1" answered ≡ ok result
unfolding service
read_result = refl

one_message : Distinct inbox_key answered.inbox
unfolding answered
one_message = (tt, tt)

agent_result_sound_example :
    (r : OutboxItem) × (get_outbox_message "m1" answered ≡ some r)
    × (same_kind r.envelope.kind task_request ≡ true)
    × (is_some r.envelope.payload.coordination_request ≡ true)
    × (result.delivery_state ≡ r.state)
    × Shown config "m1" answered r result.status result.result
agent_result_sound_example = agent_result_sound config "m1" result answered one_message read_result

abbrev follow_up : ContinueInput
follow_up = record {
  idempotency_key = "k9";
  previous_result_message_id = "m5";
  subject = "More";
  request = "And the tests?";
  intent = "inspect";
  timeout_seconds = 60;
  expires_at_utc = none;
}

abbrev default_answer : AskResult
default_answer = record {
  request = record {
    duplicate = false;
    message_id = "";
    state = OutboxState.pending;
    conversation_id = "";
    queued_at_utc = "";
  };
  status = "";
  sequence_number = 0;
}

abbrev continued : Result (AskResult × Database)
continued = continue_agent hex_platform config follow_up morning answered

abbrev answer_of : Result (AskResult × Database) → AskResult
answer_of (ok (a, db)) = a
answer_of (err e) = default_answer

abbrev database_of : Result (AskResult × Database) → Database
database_of (ok (a, db)) = db
database_of (err e) = empty_database

continue_first : continued ≡ ok (answer_of continued, database_of continued)
unfolding service
continue_first = refl

continue_sequence_example :
    Continued config follow_up (answer_of continued) answered (database_of continued)
continue_sequence_example =
    continue_sequence hex_platform config follow_up morning (answer_of continued) answered
      (database_of continued) continue_first

abbrev sending : SendInput
sending = record {
  idempotency_key = "k7";
  target_node_id = "SYS-B";
  kind = message;
  stream_id = "notes";
  payload = reply_payload;
  conversation_id = none;
  correlation_id = none;
  causation_id = none;
  sequence_number = some 3;
  expires_at_utc = none;
  now = some morning;
}

abbrev sent_answer : SendResult
sent_answer = record {
  duplicate = false;
  message_id = "uuid";
  state = OutboxState.pending;
  conversation_id = "uuidi";
  queued_at_utc = "2026-01-01T06:00:00.000Z";
}

abbrev sent_database : Result (SendResult × Database) → Database
sent_database (ok (a, db)) = db
sent_database (err e) = empty_database

abbrev after_sending : Database
after_sending = sent_database (send hex_platform config sending morning answered)

send_note : send hex_platform config sending morning answered ≡ ok (sent_answer, after_sending)
unfolding service
send_note = refl

send-Sent_example : Sent hex_platform config sending sent_answer after_sending
send-Sent_example =
    send-Sent hex_platform config sending morning sent_answer answered after_sending send_note
