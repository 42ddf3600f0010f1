-- ===== src/Contracts/Envelope/Kept.antt =====
-- What `createEnvelope` of src/contracts/envelope.ts takes over from its input.
use balcony_agent_bridge.Base.{
  ℕ, suc, String, Option, ap, ◌∙◌, some, ◌≡◌, inl, inr, arith, Option-cases,
}
use balcony_agent_bridge.Contracts.Identifiers.{system_id}
use balcony_agent_bridge.Contracts.Envelope.{Envelope, Platform}
use balcony_agent_bridge.Contracts.Envelope.Fields.{bounded, message_payload, envelope_core}
use balcony_agent_bridge.Contracts.Envelope.Creation.{
  EnvelopeInput, non_empty, or_else, candidate, create_envelope,
}
use balcony_agent_bridge.Contracts.Envelope.RoundTrip.{message_payload_again, accepted}

-- The fields that the checks leave alone, or give in their checked form.
record SameLinks (platform : Platform) (d e : Envelope) : Type 0 where
  kind : e.kind ≡ d.kind
  sequence_number : e.sequence_number ≡ d.sequence_number
  causation_id : e.causation_id ≡ d.causation_id
  target : system_id d.target_system ≡ some e.target_system
  idempotency_key : bounded 128 d.idempotency_key ≡ some e.idempotency_key
  stream_id : bounded 128 d.stream_id ≡ some e.stream_id
  payload : message_payload platform d.payload ≡ some e.payload
  origin : system_id d.origin_system ≡ some e.origin_system
  conversation_id : e.conversation_id ≡ d.conversation_id
  correlation_id : e.correlation_id ≡ d.correlation_id
  expires_at_utc : e.expires_at_utc ≡ d.expires_at_utc

module _ (platform : Platform) where
  envelope_core-SameLinks :
      (d e : Envelope) → envelope_core platform d ≡ some e → SameLinks platform d e
  unfolding envelope_core
  envelope_core-SameLinks d e o = elim (Option-cases (bounded 128 d.idempotency_key)) [
    | inl refused ↦ absurd (ground arith)
    | inr (key, k) ↦ elim (Option-cases (system_id d.origin_system)) [
      | inl refused ↦ absurd (ground arith)
      | inr (origin, a) ↦ elim (Option-cases (system_id d.target_system)) [
        | inl refused ↦ absurd (ground arith)
        | inr (target, b) ↦ elim (Option-cases (bounded 128 d.stream_id)) [
          | inl refused ↦ absurd (ground arith)
          | inr (stream, s) ↦ elim (Option-cases (message_payload platform d.payload)) [
            | inl refused ↦ absurd (ground arith)
            | inr (payload, p) ↦ record {
              kind = ground arith;
              sequence_number = ground arith;
              causation_id = ground arith;
              target = ground arith;
              idempotency_key = ground arith;
              stream_id = ground arith;
              payload = ground arith;
              origin = ground arith;
              conversation_id = ground arith;
              correlation_id = ground arith;
              expires_at_utc = ground arith;
            }
          ]
        ]
      ]
    ]
  ]

  -- What an envelope shows of the input that it was made from.
  pub record Carries (input : EnvelopeInput) (e : Envelope) : Type 0 where
    pub kind : e.kind ≡ input.kind
    pub sequence_number : e.sequence_number ≡ input.sequence_number
    pub causation_id : e.causation_id ≡ non_empty input.causation_id
    pub target : system_id input.target_system ≡ some e.target_system
    pub idempotency_key : bounded 128 input.idempotency_key ≡ some e.idempotency_key
    pub stream_id : bounded 128 input.stream_id ≡ some e.stream_id
    pub payload : message_payload platform input.payload ≡ some e.payload
    pub origin : system_id input.origin_system ≡ some e.origin_system
    pub conversation_id : (c : String) → input.conversation_id ≡ some c → e.conversation_id ≡ c
    pub correlation_id : e.correlation_id ≡ non_empty input.correlation_id
    pub expires_at_utc : e.expires_at_utc ≡ non_empty input.expires_at_utc

  pub create_envelope-Carries :
      (input : EnvelopeInput) (now draws : ℕ) (e : Envelope)
      → create_envelope platform input now draws ≡ some e
      → Carries input e
  unfolding create_envelope candidate
  create_envelope-Carries input now draws e o =
      elim (Option-cases (message_payload platform input.payload)) [
        | inl refused ↦ absurd (ground arith)
        | inr (payload, fits) ↦
            let made = candidate platform input payload now draws in
            let links =
              envelope_core-SameLinks made e
                (accepted platform (envelope_core platform made) e (ground arith)) in
            record {
              kind = links.kind;
              sequence_number = links.sequence_number;
              causation_id = links.causation_id;
              target = links.target;
              idempotency_key = links.idempotency_key;
              stream_id = links.stream_id;
              payload =
                  let again = message_payload_again platform input.payload payload fits in
                  ground (arith, links.payload, again, fits);
              origin = links.origin;
              conversation_id = λ c given.
                  links.conversation_id
                  ∙ ap (λ (o : Option String). or_else o (platform.random_uuid (suc draws))) given;
              correlation_id = links.correlation_id;
              expires_at_utc = links.expires_at_utc;
            }
      ]
