-- ===== src/Security/Authentication/RoundTrip.antt =====
-- What `sign` of src/security/message-authentication.ts sends, `verify` of the peer accepts.
use balcony_agent_bridge.Base.{
  ℕ, ◌+◌, ◌≤◌, ◌<◌, String, true, some, List, ◌≡◌, refl, sym, ap, subst, inl, inr, arith,
  Option-cases, eq_iff, eq_refl,
}
use balcony_agent_bridge.Base.Table.{find}
use balcony_agent_bridge.Time.{to_iso_string, date_parse}
use balcony_agent_bridge.Contracts.Envelope.{Envelope, Platform, parse_envelope}
use balcony_agent_bridge.Contracts.Envelope.Fields.{envelope_core}
use balcony_agent_bridge.Contracts.Envelope.RoundTrip.{parse_again}
use balcony_agent_bridge.Security.Authentication.{
  Signatures, PeerKey, Wire, Authenticator, given, parse_network_id, parse_wire, sign, sign_parsed,
  verify, verify_answer, verify_parsed, verify_key, peer_keys, has_key_id, is_usable,
  is_lifetime_valid, signing_text, unsigned, expiry_of, max_future_issue_ms, is_active,
  is_within_validity_window, within_envelope,
}

-- The instant is one whose text denotes it.
abbrev pub Denoted : ℕ → Type 0
Denoted t = date_parse (to_iso_string t) ≡ t

module _ (platform : Platform) (signatures : Signatures) (a : Authenticator) where
  abbrev signed : Envelope → ℕ → Wire
  signed e now =
      let plain = unsigned platform signatures a e now in
      record plain { signature = signatures.sign a.signing_key (signing_text plain) }

  -- What a signed message is.
  record Made (value : Envelope) (now : ℕ) (w : Wire) (e : Envelope) : Type 0 where
    parsed : parse_envelope platform (envelope_core platform value) ≡ some e
    wire : w ≡ signed e now
    fits : parse_wire platform signatures (signed e now) ≡ given (signed e now)
    sender : e.origin_system ≡ a.local_node_id
    open_term : now < expiry_of e now

  signed-Made :
      (value : Envelope) (now : ℕ) (w : Wire)
      → parse_network_id a.membership.network_id ≡ some a.membership.network_id
      → sign platform signatures a value now ≡ given w
      → (e : Envelope) × Made value now w e
  unfolding sign sign_parsed parse_wire
  signed-Made value now w formed o =
      elim (Option-cases (parse_envelope platform (envelope_core platform value))) [
        | inl bad ↦ absurd (ground arith)
        | inr (e, parsed) ↦
            let again = parse_again platform value e parsed in
            let made : w ≡ signed e now = ground arith in
            (
              e,
              record {
                parsed = parsed;
                wire = made;
                fits = rw (again, formed, parse_wire) (ground arith);
                sender = (eq_iff e.origin_system a.local_node_id).0 (ground arith);
                open_term = ground arith;
              },
            )
      ]

  -- What the receiver needs: the network's identifier is as its schema returns it, the receiver is
  -- the target on the same network, and its membership lists the
  -- sender's public key, active at the time of receipt and good when the message was issued.
  pub record Knows (r : Authenticator) (e : Envelope) (now now' : ℕ) : Type 0 where
    pub key : PeerKey
    pub keys : List PeerKey
    pub formed : parse_network_id a.membership.network_id ≡ some a.membership.network_id
    pub network : r.membership.network_id ≡ a.membership.network_id
    pub target : r.local_node_id ≡ e.target_system
    pub member : peer_keys e.origin_system r.membership.peers ≡ some keys
    pub chosen : find (has_key_id a.signing_key_id) keys ≡ some key
    pub public : key.public_key ≡ signatures.public_of a.signing_key
    pub active : is_active key now' ≡ true
    pub good : is_within_validity_window key now ≡ true

  module _
      (genuine : (k m : String)
        → signatures.verify (signatures.public_of k) m (signatures.sign k m) ≡ true)
      (r : Authenticator) (e : Envelope) (now now' : ℕ) (known : Knows r e now now')
      (issued : Denoted now) (expires : Denoted (expiry_of e now))
      (open_term : now < expiry_of e now) (skew : now ≤ now' + max_future_issue_ms)
      (in_time : now' < expiry_of e now) where
    within : within_envelope e.expires_at_utc (expiry_of e now) ≡ true
    within = ground arith

    lifetime : is_lifetime_valid (signed e now) now' ≡ true
    unfolding is_lifetime_valid
    lifetime = rw (issued, expires) (ground (arith, within))

    same_text : signing_text (signed e now) ≡ signing_text (unsigned platform signatures a e now)
    unfolding signing_text
    same_text = refl

    key_accepts : verify_key platform signatures (some known.key) (signed e now) now' ≡ given e
    unfolding verify_key
    key_accepts =
        let usable : is_usable known.key (signed e now) now' ≡ true =
          rw issued (ground (arith, known.active, known.good)) in
        let valid : signatures.verify known.key.public_key (signing_text (signed e now))
              (signed e now).signature
            ≡ true =
          rw (same_text, known.public)
            (genuine a.signing_key (signing_text (unsigned platform signatures a e now))) in
        rw (usable, valid, verify_key) refl

    accepts : verify_parsed platform signatures r (signed e now) now' ≡ given e
    unfolding verify_parsed
    accepts =
        rw
          (
            known.network,
            known.target,
            eq_refl a.membership.network_id,
            eq_refl e.target_system,
            lifetime,
            known.member,
            known.chosen,
          )
          key_accepts

-- A message that is signed for a peer is accepted by it: where the peer is on the same network and
-- knows the sender's active key, it verifies to the envelope that was signed, as long as the clocks
-- differ by five minutes at most and the term of the message has not ended.
pub sign-verify :
    (platform : Platform) (signatures : Signatures) (a r : Authenticator) (value : Envelope)
    (now now' : ℕ) (w : Wire)
    → ((k m : String) → signatures.verify (signatures.public_of k) m (signatures.sign k m) ≡ true)
    → sign platform signatures a value now ≡ given w
    → Knows platform signatures a r w.envelope now now'
    → Denoted now
    → Denoted (expiry_of w.envelope now)
    → now ≤ now' + max_future_issue_ms
    → now' < expiry_of w.envelope now
    → (verify platform signatures r w now' ≡ given w.envelope)
      × (parse_envelope platform (envelope_core platform value) ≡ some w.envelope)
unfolding verify verify_answer
sign-verify platform signatures a r value now now' w genuine o known issued expires skew in_time =
    let (e, made) = signed-Made platform signatures a value now w known.formed o in
    let envelope : e ≡ w.envelope = ap (λ (x : Wire). x.envelope) (sym made.wire) in
    let known' : Knows platform signatures a r e now now' =
      subst (λ (x : Envelope). Knows platform signatures a r x now now') (sym envelope) known in
    let expires' : Denoted (expiry_of e now) =
      subst (λ (x : Envelope). Denoted (expiry_of x now)) (sym envelope) expires in
    let in_time' : now' < expiry_of e now =
      subst (λ (x : Envelope). now' < expiry_of x now) (sym envelope) in_time in
    let good : verify platform signatures r (signed platform signatures a e now) now' ≡ given e =
      rw (made.fits, verify_answer)
        (accepts platform signatures a genuine r e now now' known' issued expires' made.open_term
          skew in_time') in
    subst
      (λ (x : Wire).
        (verify platform signatures r x now' ≡ given x.envelope)
        × (parse_envelope platform (envelope_core platform value) ≡ some x.envelope))
      (sym made.wire) (good, made.parsed)
