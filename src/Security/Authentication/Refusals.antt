-- ===== src/Security/Authentication/Refusals.antt =====
-- Why `verify` of src/security/message-authentication.ts refuses a message.
use balcony_agent_bridge.Base.{
  ℕ, String, true, false, Option, none, some, ◌≡◌, ◌≢◌, ◌⊎◌, inl, inr, arith, Bool-cases,
  Option-cases, eq_iff, ◌==◌, subst, refl,
}
use balcony_agent_bridge.Contracts.Envelope.{Platform, parse_envelope}
use balcony_agent_bridge.Contracts.Envelope.Fields.{envelope_core}
use balcony_agent_bridge.Security.Authentication.{
  Signatures, PeerKey, Wire, Authenticator, AuthError, invalid, unauthorized, out_of_time,
  bad_signature, given, refused, Answer-cases, parse_network_id, parse_wire, verify, verify_answer,
  verify_parsed, verify_key, key_of, peer_keys, is_usable, is_lifetime_valid, signing_text,
}

module _ (platform : Platform) (signatures : Signatures) (a : Authenticator) where
  -- The checks that a message passes before its signature is looked at.
  pub record Addressed (w : Wire) (now : ℕ) : Type 0 where
    pub network : w.network_id ≡ a.membership.network_id
    pub timely : is_lifetime_valid w now ≡ true
    pub target : w.envelope.target_system ≡ a.local_node_id

  abbrev pub sender_key : Wire → Option PeerKey
  sender_key w = key_of w (peer_keys w.envelope.origin_system a.membership.peers)

  -- The reasons, in the order of the checks.
  pub data Refusal (w : Wire) (now : ℕ) : AuthError → Type 0 where
    other_network : w.network_id ≢ a.membership.network_id → Refusal w now unauthorized
    untimely :
        w.network_id ≡ a.membership.network_id
        → is_lifetime_valid w now ≡ false
        → Refusal w now out_of_time
    other_target :
        w.network_id ≡ a.membership.network_id
        → is_lifetime_valid w now ≡ true
        → w.envelope.target_system ≢ a.local_node_id
        → Refusal w now unauthorized
    no_key : Addressed w now → sender_key w ≡ none → Refusal w now unauthorized
    unusable_key :
        (k : PeerKey)
        → Addressed w now
        → sender_key w ≡ some k
        → is_usable k w now ≡ false
        → Refusal w now unauthorized
    forged :
        (k : PeerKey)
        → Addressed w now
        → sender_key w ≡ some k
        → is_usable k w now ≡ true
        → signatures.verify k.public_key (signing_text w) w.signature ≡ false
        → Refusal w now bad_signature

  apart : (s t : String) → (s == t) ≡ false → s ≢ t
  apart s t h same = let hit = (eq_iff s t).1 same in absurd (ground arith)

  key_refusal :
      (w : Wire) (now : ℕ) (e : AuthError)
      → Addressed w now
      → verify_key platform signatures (sender_key w) w now ≡ refused e
      → Refusal w now e
  unfolding verify_key
  key_refusal w now e addressed o = elim (Option-cases (sender_key w)) [
    | inl missing ↦
        let code : unauthorized ≡ e = ground arith in
        subst (λ c. Refusal w now c) code (no_key addressed missing)
    | inr (k, chosen) ↦ elim (Bool-cases (is_usable k w now)) [
      | inr bad ↦
          let code : unauthorized ≡ e = ground arith in
          subst (λ c. Refusal w now c) code (unusable_key k addressed chosen bad)
      | inl usable ↦
          elim (Bool-cases (signatures.verify k.public_key (signing_text w) w.signature)) [
            | inl genuine ↦ absurd (ground arith)
            | inr other ↦
                let code : bad_signature ≡ e = ground arith in
                subst (λ c. Refusal w now c) code (forged k addressed chosen usable other)
          ]
    ]
  ]

  parsed_refusal :
      (w : Wire) (now : ℕ) (e : AuthError)
      → verify_parsed platform signatures a w now ≡ refused e
      → Refusal w now e
  unfolding verify_parsed
  parsed_refusal w now e o = elim (Bool-cases (w.network_id == a.membership.network_id)) [
    | inr foreign ↦
        let code : unauthorized ≡ e = ground arith in
        subst (λ c. Refusal w now c) code
          (other_network (apart w.network_id a.membership.network_id foreign))
    | inl here ↦
        let network = (eq_iff w.network_id a.membership.network_id).0 here in
        elim (Bool-cases (is_lifetime_valid w now)) [
          | inr late ↦
              let code : out_of_time ≡ e = ground arith in
              subst (λ c. Refusal w now c) code (untimely network late)
          | inl timely ↦ elim (Bool-cases (w.envelope.target_system == a.local_node_id)) [
            | inr elsewhere ↦
                let code : unauthorized ≡ e = ground arith in
                subst (λ c. Refusal w now c) code
                  (other_target network timely
                    (apart w.envelope.target_system a.local_node_id elsewhere))
            | inl ours ↦
                key_refusal w now e
                  (record {
                    network = network;
                    timely = timely;
                    target = (eq_iff w.envelope.target_system a.local_node_id).0 ours;
                  })
                  (ground arith)
          ]
        ]
  ]

  -- The schema's refusals all have one code.
  schema_refusal :
      (value : Wire) (e : AuthError)
      → parse_wire platform signatures value ≡ refused e
      → e ≡ invalid
  unfolding parse_wire
  schema_refusal value e o =
      elim (Option-cases (parse_envelope platform (envelope_core platform value.envelope))) [
        | inl bad ↦ ground arith
        | inr (envelope, parsed) ↦ elim (Option-cases (parse_network_id value.network_id)) [
          | inl bad ↦ ground arith
          | inr (network, named) ↦ ground arith
        ]
      ]

  -- Every refusal has its reason: a value that the schema refuses is reported as invalid, and of one
  -- that the schema accepts, a message out of its term is only reported on this network, an unknown,
  -- unusable or revoked key only for a timely message to this node, and a bad signature only where
  -- everything else about the message was right.
  pub verify_refusals :
      (value : Wire) (now : ℕ) (e : AuthError)
      → verify platform signatures a value now ≡ refused e
      → ((parse_wire platform signatures value ≡ refused invalid) × (e ≡ invalid))
        ⊎ ((w : Wire) × (parse_wire platform signatures value ≡ given w) × Refusal w now e)
  unfolding verify verify_answer
  verify_refusals value now e o = elim (Answer-cases (parse_wire platform signatures value)) [
    | inr (code, bad) ↦
        let schema = schema_refusal value code bad in
        inl (rw (← schema) bad, let same : e ≡ code = ground arith in rw (same, schema) refl)
    | inl (w, parsed) ↦ inr (w, parsed, parsed_refusal w now e (ground arith))
  ]
