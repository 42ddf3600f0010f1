-- ===== src/Contracts/Envelope/Tests.antt =====
-- An envelope that is made and accepted.
use balcony_agent_bridge.Base.{
  none, some, ◌≡◌, refl, text_le, digit, decimal, join, utf16_length, take_units,
}
use balcony_agent_bridge.Base.Table.{insert_sorted, sort_by}
use balcony_agent_bridge.Time.{to_iso_string, date_parse}
use balcony_agent_bridge.Security.{trim, is_white}
use balcony_agent_bridge.Contracts.Json.{canonical_json, quoted, visit}
use balcony_agent_bridge.Contracts.Payload.{payload_json}
use balcony_agent_bridge.Contracts.Identifiers.{system_id}
use balcony_agent_bridge.Contracts.Evidence.{all_different}
use balcony_agent_bridge.Contracts.Envelope.{
  Envelope, task_request, hash_payload, issues, parse_envelope,
}
use balcony_agent_bridge.Contracts.Envelope.Fields.{
  bounded, is_fingerprint, is_dispatch, is_coordination_request, is_coordination_result,
  is_consultation_context, evidence_references, message_payload, envelope_core,
}
use balcony_agent_bridge.Contracts.Envelope.Creation.{EnvelopeInput, candidate, create_envelope}
use balcony_agent_bridge.Contracts.Envelope.RoundTrip.{create-parse}
use balcony_agent_bridge.Samples.{payload, morning, hex_platform}

-- All that making an envelope computes with.
making : Unit {0}
unfolding text_le digit decimal join utf16_length take_units insert_sorted sort_by to_iso_string
    date_parse trim is_white canonical_json quoted visit payload_json system_id all_different
    hash_payload issues parse_envelope bounded is_fingerprint is_dispatch is_coordination_request
    is_coordination_result is_consultation_context evidence_references message_payload envelope_core
    candidate create_envelope
making = tt

abbrev untrimmed : EnvelopeInput
untrimmed = record {
  idempotency_key = " k1 ";
  origin_system = "SYS-A";
  target_system = "SYS-B";
  kind = task_request;
  conversation_id = none;
  correlation_id = none;
  causation_id = none;
  stream_id = "agent-coordination";
  sequence_number = some 0;
  expires_at_utc = some "2026-01-02T00:00:00.000Z";
  payload = record payload { subject = "  Look " };
}

abbrev trimmed : Envelope
trimmed = record {
  schema_version = "1.0";
  message_id = "uuid";
  idempotency_key = "k1";
  origin_system = "SYS-A";
  target_system = "SYS-B";
  kind = task_request;
  conversation_id = "uuidi";
  correlation_id = none;
  causation_id = none;
  stream_id = "agent-coordination";
  sequence_number = some 0;
  created_at_utc = "2026-01-01T06:00:00.000Z";
  expires_at_utc = some "2026-01-02T00:00:00.000Z";
  payload = payload;
  payload_sha256 = "9f86d081884c7d659a2feaa0c55ad015a3bf4f1b2b0b822cd15d6c15b0f00a08";
}

made : create_envelope hex_platform untrimmed morning 0 ≡ some trimmed
unfolding making
made = refl

create-parse_example :
    parse_envelope hex_platform (envelope_core hex_platform trimmed) ≡ some trimmed
create-parse_example = create-parse hex_platform untrimmed morning 0 trimmed made
