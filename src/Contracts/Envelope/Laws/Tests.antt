-- ===== src/Contracts/Envelope/Laws/Tests.antt =====
-- An envelope that is accepted.
use balcony_agent_bridge.Base.{
  some, ◌≡◌, refl, text_le, digit, decimal, join, utf16_length, take_units,
}
use balcony_agent_bridge.Base.Table.{insert_sorted, sort_by}
use balcony_agent_bridge.Time.{date_parse}
use balcony_agent_bridge.Security.{trim, is_white}
use balcony_agent_bridge.Contracts.Identifiers.{matches_system, system_id}
use balcony_agent_bridge.Contracts.Evidence.{all_different}
use balcony_agent_bridge.Contracts.Envelope.Fields.{
  bounded, is_fingerprint, is_dispatch, is_coordination_request, is_coordination_result,
  is_consultation_context, evidence_references, message_payload, envelope_core,
}
use balcony_agent_bridge.Contracts.Json.{canonical_json, quoted, visit}
use balcony_agent_bridge.Contracts.Payload.{payload_json}
use balcony_agent_bridge.Contracts.Envelope.{Envelope, hash_payload, issues, parse_envelope}
use balcony_agent_bridge.Contracts.Envelope.Laws.{IsLawful, parse-IsLawful}
use balcony_agent_bridge.Samples.{request, payload, hex_platform}

-- All that the checks compute with.
checks : Unit {0}
unfolding text_le digit decimal join utf16_length take_units insert_sorted sort_by date_parse trim
    is_white canonical_json quoted visit payload_json matches_system system_id all_different
    hash_payload issues parse_envelope bounded is_fingerprint is_dispatch is_coordination_request
    is_coordination_result is_consultation_context evidence_references message_payload envelope_core
checks = tt

abbrev signed_request : Envelope
signed_request = record request { payload_sha256 = hash_payload hex_platform payload }

signed_request_accepted :
    parse_envelope hex_platform (envelope_core hex_platform signed_request) ≡ some signed_request
unfolding checks
signed_request_accepted = refl

parse-IsLawful_example : IsLawful hex_platform signed_request
parse-IsLawful_example =
    parse-IsLawful hex_platform signed_request signed_request signed_request_accepted
