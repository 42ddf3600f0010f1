-- ===== src/Security/Authentication/Tests.antt =====
-- A message that is signed, sent and verified.
use balcony_agent_bridge.Base.{
  ◌+◌, String, true, none, some, [], ◌∷◌, ◌≡◌, ◌⊎◌, ◌<◌, refl, arith, text_le, digit, decimal, join,
  utf16_length, take_units, ◌==◌, ◌+++◌, eq_refl,
}
use balcony_agent_bridge.Base.Table.{find, insert_sorted, sort_by}
use balcony_agent_bridge.Time.{to_iso_string, date_parse}
use balcony_agent_bridge.Security.{trim, is_white}
use balcony_agent_bridge.Contracts.Json.{canonical_json, quoted, visit}
use balcony_agent_bridge.Contracts.Payload.{payload_json}
use balcony_agent_bridge.Contracts.Identifiers.{matches_system, system_id}
use balcony_agent_bridge.Contracts.Evidence.{all_different}
use balcony_agent_bridge.Contracts.Envelope.{Envelope, hash_payload, issues, parse_envelope}
use balcony_agent_bridge.Contracts.Envelope.Fields.{
  bounded, is_fingerprint, is_dispatch, is_coordination_request, is_coordination_result,
  is_consultation_context, evidence_references, message_payload, envelope_core,
}
use balcony_agent_bridge.Security.Authentication.{
  Signatures, KeyStatus, PeerKey, Membership, Wire, Authenticator, given, refused, invalid,
  bad_signature, parse_network_id, is_key_id, is_signature, signing_text, is_lifetime_valid,
  parse_wire, sign_parsed, sign, verify_key, verify_parsed, verify_answer, verify, expiry_of,
}
use balcony_agent_bridge.Security.Authentication.Soundness.{Trusted, verify_sound}
use balcony_agent_bridge.Security.Authentication.Refusals.{Refusal, verify_refusals}
use balcony_agent_bridge.Security.Authentication.RoundTrip.{Denoted, Knows, sign-verify}
use balcony_agent_bridge.Samples.{request, morning, hex_platform}

-- All that signing and verifying compute with.
signing : Unit {0}
unfolding text_le digit decimal join utf16_length take_units find insert_sorted sort_by
    to_iso_string date_parse trim is_white canonical_json quoted visit payload_json system_id
    all_different hash_payload issues parse_envelope bounded is_fingerprint is_dispatch
    is_coordination_request is_coordination_result is_consultation_context evidence_references
    message_payload envelope_core matches_system parse_network_id is_key_id is_signature
    signing_text is_lifetime_valid parse_wire sign_parsed sign verify_key verify_parsed
    verify_answer verify
signing = tt

-- Signatures that name their key.
abbrev plain_signatures : Signatures
plain_signatures = record {
  sign = λ k m. "s" +++ k;
  verify = λ k m s. s == "s" +++ k;
  public_of = λ k. k;
}

genuine :
    (k m : String)
    → plain_signatures.verify (plain_signatures.public_of k) m (plain_signatures.sign k m) ≡ true
genuine k m = eq_refl ("s" +++ k)

abbrev key_a : String
key_a = "ed25519:aaaaaaaaaaaaaaaaaaaaaaaaaaaaaaaaaaaaaaaaaaa"

abbrev key_b : String
key_b = "ed25519:baaaaaaaaaaaaaaaaaaaaaaaaaaaaaaaaaaaaaaaaaa"

abbrev peer_key : String → String → PeerKey
peer_key id key = record {
  key_id = id;
  public_key = key;
  status = KeyStatus.active;
  not_before_utc = none;
  not_after_utc = none;
}

abbrev membership : Membership
membership = record {
  network_id = "n1";
  peers =
      record { node_id = "SYS-A"; keys = peer_key key_a "a" ∷ [] }
      ∷ record { node_id = "SYS-B"; keys = peer_key key_b "b" ∷ [] }
      ∷ [];
}

abbrev sender : Authenticator
sender = record {
  local_node_id = "SYS-A";
  membership = membership;
  signing_key = "a";
  signing_key_id = key_a;
}

abbrev receiver : Authenticator
receiver = record {
  local_node_id = "SYS-B";
  membership = membership;
  signing_key = "b";
  signing_key_id = key_b;
}

abbrev question : Envelope
question = record request {
  payload_sha256 = "9f86d081884c7d659a2feaa0c55ad015a3bf4f1b2b0b822cd15d6c15b0f00a08";
}

abbrev wire : Wire
wire = record {
  protocol = "balcony-agent-bridge-message-auth";
  auth_version = "1.0";
  network_id = "n1";
  key_id = key_a;
  issued_at_utc = "2026-01-01T06:00:00.000Z";
  expires_at_utc = "2026-01-02T00:00:00.000Z";
  envelope = question;
  signature = "sa";
}

sign_question : sign hex_platform plain_signatures sender question morning ≡ given wire
unfolding signing
sign_question = refl

verify_question :
    verify hex_platform plain_signatures receiver wire (morning + 60000) ≡ given question
unfolding signing
verify_question = refl

verify_sound_example :
    (w : Wire) × (parse_wire hex_platform plain_signatures wire ≡ given w)
    × Trusted plain_signatures receiver w (morning + 60000) question
    × (parse_envelope hex_platform (envelope_core hex_platform question) ≡ some question)
verify_sound_example =
    verify_sound hex_platform plain_signatures receiver wire (morning + 60000) question
      verify_question

receiver-Knows :
    Knows hex_platform plain_signatures sender receiver question morning (morning + 60000)
unfolding signing
receiver-Knows = record {
  key = peer_key key_a "a";
  keys = peer_key key_a "a" ∷ [];
  formed = refl;
  network = refl;
  target = refl;
  member = refl;
  chosen = refl;
  public = refl;
  active = refl;
  good = refl;
}

issue-Denoted : Denoted morning
unfolding signing
issue-Denoted = refl

expiry-Denoted : Denoted (expiry_of question morning)
unfolding signing
expiry-Denoted = refl

in_time : morning + 60000 < expiry_of question morning
unfolding signing
in_time = omega arith

sign-verify_example :
    (verify hex_platform plain_signatures receiver wire (morning + 60000) ≡ given question)
    × (parse_envelope hex_platform (envelope_core hex_platform question) ≡ some question)
sign-verify_example =
    sign-verify hex_platform plain_signatures sender receiver question morning (morning + 60000)
      wire genuine sign_question receiver-Knows issue-Denoted expiry-Denoted (omega arith) in_time

-- A signature under another key.
abbrev tampered : Wire
tampered = record wire { signature = "sb" }

refuse_tampered :
    verify hex_platform plain_signatures receiver tampered (morning + 60000) ≡ refused bad_signature
unfolding signing
refuse_tampered = refl

verify_refusals_example :
    ((parse_wire hex_platform plain_signatures tampered ≡ refused invalid)
      × (bad_signature ≡ invalid))
    ⊎ ((w : Wire) × (parse_wire hex_platform plain_signatures tampered ≡ given w)
        × Refusal hex_platform plain_signatures receiver w (morning + 60000) bad_signature)
verify_refusals_example =
    verify_refusals hex_platform plain_signatures receiver tampered (morning + 60000) bad_signature
      refuse_tampered
