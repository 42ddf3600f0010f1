-- ===== src/Contracts/Envelope/Creation.antt =====
-- `createEnvelope` of src/contracts/envelope.ts.
use balcony_agent_bridge.Base.{ℕ, suc, String, Option, none, some, ◌==◌, if◌then◌else◌}
use balcony_agent_bridge.Time.{to_iso_string}
use balcony_agent_bridge.Contracts.Payload.{MessagePayload}
use balcony_agent_bridge.Contracts.Envelope.{
  MessageKind, Envelope, Platform, hash_payload, parse_envelope,
}
use balcony_agent_bridge.Contracts.Envelope.Fields.{message_payload, envelope_core, ◌>>=◌}

-- `CreateEnvelopeInput`, but for `now`.
pub record EnvelopeInput : Type 0 where
  pub idempotency_key : String
  pub origin_system : String
  pub target_system : String
  pub kind : MessageKind
  pub conversation_id : Option String
  pub correlation_id : Option String
  pub causation_id : Option String
  pub stream_id : String
  pub sequence_number : Option ℕ
  pub expires_at_utc : Option String
  pub payload : MessagePayload

-- A text that the code tests by its truth value: an empty one counts as none.
abbrev pub non_empty : Option String → Option String
non_empty none = none
non_empty (some s) = if s == "" then none else some s

abbrev pub or_else : Option String → String → String
or_else none s = s
or_else (some t) s = t

-- The random values that an envelope takes.
abbrev pub draws_of : EnvelopeInput → ℕ → ℕ
draws_of input draws = elim input.conversation_id [ none ↦ suc (suc draws) | some _ ↦ suc draws ]

module _ (platform : Platform) where
  unfoldable pub candidate : EnvelopeInput → MessagePayload → ℕ → ℕ → Envelope
  candidate input payload now draws = record {
    schema_version = "1.0";
    message_id = platform.random_uuid draws;
    idempotency_key = input.idempotency_key;
    origin_system = input.origin_system;
    target_system = input.target_system;
    kind = input.kind;
    conversation_id = or_else input.conversation_id (platform.random_uuid (suc draws));
    correlation_id = non_empty input.correlation_id;
    causation_id = non_empty input.causation_id;
    stream_id = input.stream_id;
    sequence_number = input.sequence_number;
    created_at_utc = to_iso_string now;
    expires_at_utc = non_empty input.expires_at_utc;
    payload = payload;
    payload_sha256 = hash_payload platform payload;
  }

  -- `none` where a schema refuses.
  unfoldable pub create_envelope : EnvelopeInput → ℕ → ℕ → Option Envelope
  create_envelope input now draws = do
    payload ← message_payload platform input.payload
    parse_envelope platform (envelope_core platform (candidate input payload now draws))
