-- ===== src/Contracts/Envelope/RoundTrip.antt =====
-- An envelope that `createEnvelope` makes is accepted by `parseEnvelope`, unchanged
-- (src/contracts/envelope.ts).
use balcony_agent_bridge.Base.{
  ℕ, String, ◌||◌, Option, none, some, List, [], ◌∷◌, ◌≡◌, refl, subst, inl, inr, arith, Bool-cases,
  Option-cases, length, ◌==◌,
}
use balcony_agent_bridge.Security.{trim}
use balcony_agent_bridge.Security.Trimming.{trim_again}
use balcony_agent_bridge.Contracts.Payload.{EvidenceReference, MessagePayload}
use balcony_agent_bridge.Contracts.Identifiers.{system_id}
use balcony_agent_bridge.Contracts.Envelope.{Envelope, Platform, parse_envelope}
use balcony_agent_bridge.Contracts.Envelope.Fields.{
  bounded, optionally, evidence_references, message_payload, envelope_core,
}
use balcony_agent_bridge.Contracts.Envelope.Creation.{EnvelopeInput, candidate, create_envelope}

pub bounded_again : (most : ℕ) (s t : String) → bounded most s ≡ some t → bounded most t ≡ some t
unfolding bounded
bounded_again most s t o =
    let same : t ≡ trim s = ground arith in rw (same, trim_again s) (ground arith)

optional_again :
    (most : ℕ) (o p : Option String)
    → optionally (bounded most) o ≡ some p
    → optionally (bounded most) p ≡ some p
optional_again most none p e = let same : p ≡ none = ground arith in rw same
optional_again most (some s) p e = elim (Option-cases (bounded most s)) [
  | inl refused ↦ absurd (ground arith)
  | inr (t, fits) ↦ let same : p ≡ some t = ground arith in rw (same, bounded_again most s t fits)
]

pub system_id_again : (s t : String) → system_id s ≡ some t → system_id t ≡ some t
unfolding system_id
system_id_again s t o = elim (Bool-cases (s == "SYS-A" || s == "SYS-B")) [
  | inl named ↦ let same : t ≡ s = ground arith in rw same (ground arith)
  | inr other ↦ let same : t ≡ trim s = ground arith in rw (same, trim_again s) (ground arith)
]

module _ (platform : Platform) where
  references_again :
      (rs ss : List EvidenceReference)
      → evidence_references platform rs ≡ some ss
      → (evidence_references platform ss ≡ some ss) × (length ss ≡ length rs)
  unfolding evidence_references
  references_again [] ss o = let same : ss ≡ [] = ground arith in rw same (refl, refl)
  references_again (r ∷ rs) ss o = elim (Option-cases (bounded 1024 r.value)) [
    | inl refused ↦ absurd (ground arith)
    | inr (value, fits) ↦ elim (Option-cases (evidence_references platform rs)) [
      | inl refused ↦ absurd (ground arith)
      | inr (rest, done) ↦
          let same : ss ≡ record r { value = value } ∷ rest = ground arith in
          let again = references_again rs rest done in
          rw same
            (ground (arith, bounded_again 1024 r.value value, again.0), ground (arith, again.1))
    ]
  ]

  pub message_payload_again :
      (p q : MessagePayload)
      → message_payload platform p ≡ some q
      → message_payload platform q ≡ some q
  unfolding message_payload
  message_payload_again p q o = elim (Option-cases (bounded 200 p.subject)) [
    | inl refused ↦ absurd (ground arith)
    | inr (subject, s) ↦ elim (Option-cases (optionally (bounded 120) p.project)) [
      | inl refused ↦ absurd (ground arith)
      | inr (project, j) ↦ elim (Option-cases (optionally (bounded 260) p.repository)) [
        | inl refused ↦ absurd (ground arith)
        | inr (repository, r) ↦ elim (Option-cases (optionally (bounded 260) p.task_reference)) [
          | inl refused ↦ absurd (ground arith)
          | inr (task_reference, t) ↦
              elim (Option-cases (evidence_references platform p.evidence)) [
                | inl refused ↦ absurd (ground arith)
                | inr (evidence, e) ↦
                    let checked : MessagePayload = record p {
                      subject = subject;
                      project = project;
                      repository = repository;
                      task_reference = task_reference;
                      evidence = evidence;
                    } in
                    let same : q ≡ checked = ground arith in
                    let again = references_again p.evidence evidence e in
                    rw same (
                      rw
                        (
                          bounded_again 200 p.subject subject s,
                          optional_again 120 p.project project j,
                          optional_again 260 p.repository repository r,
                          optional_again 260 p.task_reference task_reference t,
                          again.0,
                          again.1,
                        )
                        (ground arith))
              ]
        ]
      ]
    ]
  ]

  envelope_core_again :
      (d e : Envelope) → envelope_core platform d ≡ some e → envelope_core platform e ≡ some e
  unfolding envelope_core
  envelope_core_again d e o = elim (Option-cases (bounded 128 d.idempotency_key)) [
    | inl refused ↦ absurd (ground arith)
    | inr (key, k) ↦ elim (Option-cases (system_id d.origin_system)) [
      | inl refused ↦ absurd (ground arith)
      | inr (origin, a) ↦ elim (Option-cases (system_id d.target_system)) [
        | inl refused ↦ absurd (ground arith)
        | inr (target, b) ↦ elim (Option-cases (bounded 128 d.stream_id)) [
          | inl refused ↦ absurd (ground arith)
          | inr (stream, s) ↦ elim (Option-cases (message_payload platform d.payload)) [
            | inl refused ↦ absurd (ground arith)
            | inr (payload, p) ↦
                let checked : Envelope = record d {
                  idempotency_key = key;
                  origin_system = origin;
                  target_system = target;
                  stream_id = stream;
                  payload = payload;
                } in
                let same : e ≡ checked = ground arith in
                rw same (
                  rw
                    (
                      bounded_again 128 d.idempotency_key key k,
                      system_id_again d.origin_system origin a,
                      system_id_again d.target_system target b,
                      bounded_again 128 d.stream_id stream s,
                      message_payload_again d.payload payload p,
                    )
                    (ground arith))
          ]
        ]
      ]
    ]
  ]

  -- What is accepted is what was offered.
  pub accepted :
      (o : Option Envelope) (e : Envelope) → parse_envelope platform o ≡ some e → o ≡ some e
  unfolding parse_envelope
  accepted none e h = cc
  accepted (some d) e h = ground arith

  -- Parsing what was parsed gives it again.
  pub parse_again :
      (d e : Envelope)
      → parse_envelope platform (envelope_core platform d) ≡ some e
      → parse_envelope platform (envelope_core platform e) ≡ some e
  parse_again d e parsed =
      let checked = accepted (envelope_core platform d) e parsed in
      rw (envelope_core_again d e checked)
        (subst (λ o. parse_envelope platform o ≡ some e) checked parsed)

  -- An envelope that this node makes is accepted by the node that receives it, unchanged: its fields
  -- are in the normal form that the checks give, and it breaks none of the rules across them.
  pub create-parse :
      (input : EnvelopeInput) (now draws : ℕ) (e : Envelope)
      → create_envelope platform input now draws ≡ some e
      → parse_envelope platform (envelope_core platform e) ≡ some e
  unfolding create_envelope
  create-parse input now draws e o = elim (Option-cases (message_payload platform input.payload)) [
    | inl refused ↦ absurd (ground arith)
    | inr (payload, fits) ↦
        let made = candidate platform input payload now draws in
        let parsed : parse_envelope platform (envelope_core platform made) ≡ some e =
          ground arith in
        parse_again made e parsed
  ]
