-- ===== src/Security/Authentication/Soundness.antt =====
-- What `verify` of src/security/message-authentication.ts accepts.
use balcony_agent_bridge.Base.{
  ℕ, ◌+◌, ◌≤◌, ◌<◌, String, true, some, List, ◌≡◌, refl, ◌⊎◌, inl, inr, arith, Option-cases, eq_iff,
}
use balcony_agent_bridge.Base.Table.{find}
use balcony_agent_bridge.Time.{date_parse}
use balcony_agent_bridge.Contracts.Envelope.{Envelope, Platform, parse_envelope}
use balcony_agent_bridge.Contracts.Envelope.Fields.{envelope_core}
use balcony_agent_bridge.Contracts.Envelope.RoundTrip.{parse_again}
use balcony_agent_bridge.Security.Authentication.{
  Signatures, PeerKey, KeyStatus, is_active, is_within_validity_window, Wire, Authenticator, given,
  Answer-cases, parse_network_id, parse_wire, verify, verify_answer, verify_parsed, verify_key,
  peer_keys, has_key_id, is_lifetime_valid, signing_text, max_future_issue_ms, max_wire_lifetime_ms,
}

-- The instant is within the term of the key.
pub record Within (key : PeerKey) (at : ℕ) : Type 0 where
  pub begun : (t : String) → key.not_before_utc ≡ some t → date_parse t ≤ at
  pub unended : (t : String) → key.not_after_utc ≡ some t → at < date_parse t

window-Within : (key : PeerKey) (at : ℕ) → is_within_validity_window key at ≡ true → Within key at
window-Within key at h = record { begun = λ t e. ground arith; unended = λ t e. ground arith }

active_lem : (key : PeerKey) (now : ℕ) → is_active key now ≡ true → key.status ≡ KeyStatus.active
active_lem key now h = elim (status-cases key.status) [
  | inl active ↦ active
  | inr revoked ↦ absurd (ground arith)
]
  where
    status-cases : (s : KeyStatus) → (s ≡ KeyStatus.active) ⊎ (s ≡ KeyStatus.revoked)
    status-cases KeyStatus.active = inl refl
    status-cases KeyStatus.revoked = inr refl

-- Why a message is accepted.
pub record Trusted (signatures : Signatures) (a : Authenticator) (w : Wire) (now : ℕ) (e : Envelope)
    : Type 0 where
  pub key : PeerKey
  pub keys : List PeerKey
  pub envelope : w.envelope ≡ e
  pub network : w.network_id ≡ a.membership.network_id
  pub target : e.target_system ≡ a.local_node_id
  pub member : peer_keys e.origin_system a.membership.peers ≡ some keys
  pub chosen : find (has_key_id w.key_id) keys ≡ some key
  pub active : key.status ≡ KeyStatus.active
  pub good_now : Within key now
  pub good_then : Within key (date_parse w.issued_at_utc)
  pub genuine : signatures.verify key.public_key (signing_text w) w.signature ≡ true
  pub issued : date_parse w.issued_at_utc ≤ now + max_future_issue_ms
  pub unexpired : now < date_parse w.expires_at_utc
  pub lifetime : date_parse w.expires_at_utc ≤ date_parse w.issued_at_utc + max_wire_lifetime_ms
  pub covered :
      (t : String) → w.envelope.expires_at_utc ≡ some t → date_parse w.expires_at_utc ≤ date_parse t

module _ (platform : Platform) (signatures : Signatures) (a : Authenticator) (w : Wire) (now : ℕ)
    (e : Envelope) where
  verify_parsed-Trusted :
      verify_parsed platform signatures a w now ≡ given e → Trusted signatures a w now e
  unfolding verify_parsed verify_key is_lifetime_valid
  verify_parsed-Trusted o =
      elim (Option-cases (peer_keys w.envelope.origin_system a.membership.peers)) [
        | inl stranger ↦ absurd (ground arith)
        | inr (keys, member) ↦ elim (Option-cases (find (has_key_id w.key_id) keys)) [
          | inl unknown ↦ absurd (ground arith)
          | inr (key, chosen) ↦
              let envelope : w.envelope ≡ e = ground arith in
              record {
                key = key;
                keys = keys;
                envelope = envelope;
                network = (eq_iff w.network_id a.membership.network_id).0 (ground arith);
                target =
                    rw (← envelope)
                      ((eq_iff w.envelope.target_system a.local_node_id).0 (ground arith));
                member = rw (← envelope) member;
                chosen = chosen;
                active = active_lem key now (ground arith);
                good_now = window-Within key now (ground arith);
                good_then = window-Within key (date_parse w.issued_at_utc) (ground arith);
                genuine = ground arith;
                issued = ground arith;
                unexpired = ground arith;
                lifetime = ground arith;
                covered = λ t expires. ground arith;
              }
        ]
      ]

pub parse_wire-envelope :
    (platform : Platform) (signatures : Signatures) (value w : Wire)
    → parse_wire platform signatures value ≡ given w
    → parse_envelope platform (envelope_core platform value.envelope) ≡ some w.envelope
unfolding parse_wire
parse_wire-envelope platform signatures value w o =
    elim (Option-cases (parse_envelope platform (envelope_core platform value.envelope))) [
      | inl bad ↦ absurd (ground arith)
      | inr (e, parsed) ↦ elim (Option-cases (parse_network_id value.network_id)) [
        | inl other ↦ absurd (ground arith)
        | inr (network, named) ↦ ground arith
      ]
    ]

-- A message is only accepted that is of this network, is addressed to this node, and is signed under
-- a key that the membership lists for its sender, active, and within the key's term both now and
-- when the message was issued. It was issued five minutes ahead at most, its term is a week at most,
-- has not ended, and ends no later than its envelope expires. The accepted envelope is the signed
-- one, and the schema accepts it.
pub verify_sound :
    (platform : Platform) (signatures : Signatures) (a : Authenticator) (value : Wire) (now : ℕ)
    (e : Envelope)
    → verify platform signatures a value now ≡ given e
    → (w : Wire) × (parse_wire platform signatures value ≡ given w)
      × Trusted signatures a w now e
      × (parse_envelope platform (envelope_core platform e) ≡ some e)
unfolding verify verify_answer
verify_sound platform signatures a value now e o =
    elim (Answer-cases (parse_wire platform signatures value)) [
      | inr (_, bad) ↦ absurd (ground arith)
      | inl (w, parsed) ↦
          let trusted = verify_parsed-Trusted platform signatures a w now e (ground arith) in
          (
            w,
            parsed,
            trusted,
            rw (← trusted.envelope) (
                parse_again platform value.envelope w.envelope
                  (parse_wire-envelope platform signatures value w parsed)),
          )
    ]
