-- ===== src/Security/Authentication.antt =====
-- Signed messages (src/security/message-authentication.ts): `MessageAuthenticator` with its `sign` and
-- `verify`. The key files are read elsewhere; keys and signatures are texts in base64url, and the
-- signature scheme of node:crypto is the record `Signatures`, a parameter.
pub mod Soundness
pub mod RoundTrip
pub mod Refusals
mod Tests
use Prim.Native.Char.{code}
use balcony_agent_bridge.Base.{
  ℕ, ◌+◌, ◌-◌, ◌*◌, String, Bool, true, false, not, ◌&&◌, ◌||◌, Option, none, some, List, [], ◌∷◌,
  ◌≡◌, refl, ◌⊎◌, inl, inr, any, min, length, leb, ltb, eqb, if◌then◌else◌, is_some, ◌==◌, ◌+++◌,
  utf16_length, take_units,
}
use balcony_agent_bridge.Base.Table.{find}
use balcony_agent_bridge.Time.{to_iso_string, date_parse}
use balcony_agent_bridge.Contracts.Json.{
  Json, text, number, object, Entries, end, entry, canonical_json,
}
use balcony_agent_bridge.Contracts.Identifiers.{codes, matches_system}
use balcony_agent_bridge.Contracts.Payload.{payload_json}
use balcony_agent_bridge.Security.{trim}
use balcony_agent_bridge.Contracts.Envelope.{Envelope, Platform, parse_envelope}
use balcony_agent_bridge.Contracts.Envelope.Fields.{envelope_core}
use balcony_agent_bridge.Store.Authorization.Access.{kind_text}

-- `sign` and `verify` of node:crypto for Ed25519, and the public key of a private one.
pub record Signatures : Type 0 where
  pub sign : String → String → String
  pub verify : String → String → String → Bool
  pub public_of : String → String

pub data KeyStatus : Type 0 where
  active revoked : KeyStatus

-- `VerifiedMembershipKey`
pub record PeerKey : Type 0 where
  pub key_id : String
  pub public_key : String
  pub status : KeyStatus
  pub not_before_utc : Option String
  pub not_after_utc : Option String

pub record Peer : Type 0 where
  pub node_id : String
  pub keys : List PeerKey

pub record Membership : Type 0 where
  pub network_id : String
  pub peers : List Peer

-- `MessageAuthWire`
pub record Wire : Type 0 where
  pub protocol : String
  pub auth_version : String
  pub network_id : String
  pub key_id : String
  pub issued_at_utc : String
  pub expires_at_utc : String
  pub envelope : Envelope
  pub signature : String

-- `MessageAuthenticator`
pub record Authenticator : Type 0 where
  pub local_node_id : String
  pub membership : Membership
  pub signing_key : String
  pub signing_key_id : String

-- `MessageAuthenticationErrorCode`, but for the configuration.
pub data AuthError : Type 0 where
  invalid unauthorized out_of_time bad_signature : AuthError

pub data Answer {ℓ} (A : Type ℓ) : Type ℓ where
  refused : AuthError → Answer A
  given : A → Answer A

pub Answer-cases {ℓ} :
    {A : Type ℓ} (m : Answer A) → ((a : A) × (m ≡ given a)) ⊎ ((e : AuthError) × (m ≡ refused e))
Answer-cases (given a) = inl (a, refl)
Answer-cases (refused e) = inr (e, refl)

abbrev pub auth_protocol : String
auth_protocol = "balcony-agent-bridge-message-auth"

abbrev pub max_wire_lifetime_ms : ℕ
max_wire_lifetime_ms = 7 * 24 * 60 * 60 * 1000

abbrev pub max_future_issue_ms : ℕ
max_future_issue_ms = 5 * 60 * 1000

-- /^[A-Za-z0-9_-]+$/
is_base64url : ℕ → Bool
is_base64url c =
    (leb 65 c && leb c 90)
    || (leb 97 c && leb c 122)
    || (leb 48 c && leb c 57)
    || eqb c 95
    || eqb c 45

all_base64url : String → Bool
unfolding is_base64url
all_base64url String.[] = true
all_base64url (String.◌∷◌ c s) = is_base64url (code c) && all_base64url s

unfoldable pub is_signature : String → Bool
unfolding all_base64url
is_signature s = leb 1 (utf16_length s) && leb (utf16_length s) 256 && all_base64url s

-- `NetworkIdSchema`
unfoldable pub parse_network_id : String → Option String
unfolding matches_system
parse_network_id value =
    let trimmed = trim value in
    if matches_system (codes trimmed) && leb (length (codes trimmed)) 50 then some trimmed else none

without_prefix : String → String → Option String
without_prefix String.[] s = some s
without_prefix (String.◌∷◌ c p) String.[] = none
without_prefix (String.◌∷◌ c p) (String.◌∷◌ d s) =
    let rest = without_prefix p s in if eqb (code c) (code d) then rest else none

-- `KeyIdSchema`: /^ed25519:[A-Za-z0-9_-]{43}$/
unfoldable pub is_key_id : String → Bool
unfolding without_prefix all_base64url
is_key_id s = elim (without_prefix "ed25519:" s) [
  | none ↦ false
  | some rest ↦ eqb (utf16_length rest) 43 && all_base64url rest
]

abbrev is_active_status : KeyStatus → Bool
is_active_status active = true
is_active_status revoked = false

abbrev not_before : Option String → ℕ → Bool
not_before none at = true
not_before (some t) at = leb (date_parse t) at

abbrev ends_after : Option String → ℕ → Bool
ends_after none at = true
ends_after (some t) at = ltb at (date_parse t)

-- `isWithinValidityWindow`
abbrev pub is_within_validity_window : PeerKey → ℕ → Bool
is_within_validity_window k at = not_before k.not_before_utc at && ends_after k.not_after_utc at

-- `isActive`
abbrev pub is_active : PeerKey → ℕ → Bool
is_active k now = is_active_status k.status && is_within_validity_window k now

-- The index of `buildPeerKeyIndex`: the last entry of a node counts.
abbrev pub peer_keys : String → List Peer → Option (List PeerKey)
peer_keys node [] = none
peer_keys node (p ∷ peers) =
    let later = peer_keys node peers in
    if is_some later then later else if p.node_id == node then some p.keys else none

-- `hasActiveKey`
abbrev pub has_active_key : Option (List PeerKey) → ℕ → Bool
has_active_key none now = false
has_active_key (some keys) now = any (λ k. is_active k now) keys

abbrev pub has_key_id : String → PeerKey → Bool
has_key_id id k = k.key_id == id

abbrev optional_text : String → Option String → Entries → Entries
optional_text key none es = es
optional_text key (some s) es = entry key (text s) es

abbrev optional_number : String → Option ℕ → Entries → Entries
optional_number key none es = es
optional_number key (some n) es = entry key (number n) es

abbrev envelope_json : Envelope → Json
envelope_json e = object (
    entry "schema_version" (text e.schema_version) (
      entry "message_id" (text e.message_id) (
        entry "idempotency_key" (text e.idempotency_key) (
          entry "origin_system" (text e.origin_system) (
            entry "target_system" (text e.target_system) (
              entry "kind" (text (kind_text e.kind)) (
                entry "conversation_id" (text e.conversation_id) (
                  optional_text "correlation_id" e.correlation_id (
                    optional_text "causation_id" e.causation_id (
                      entry "stream_id" (text e.stream_id) (
                        optional_number "sequence_number" e.sequence_number (
                          entry "created_at_utc" (text e.created_at_utc) (
                            optional_text "expires_at_utc" e.expires_at_utc (
                              entry "payload" (payload_json e.payload)
                                (entry "payload_sha256" (text e.payload_sha256) end)))))))))))))))

-- `signingBytes` of all members but the signature.
unfoldable pub signing_text : Wire → String
signing_text w =
    auth_protocol
    +++ ":v1.0:"
    +++ canonical_json (
        object (
          entry "protocol" (text w.protocol) (
            entry "auth_version" (text w.auth_version) (
              entry "network_id" (text w.network_id) (
                entry "key_id" (text w.key_id) (
                  entry "issued_at_utc" (text w.issued_at_utc) (
                    entry "expires_at_utc" (text w.expires_at_utc)
                      (entry "envelope" (envelope_json w.envelope) end))))))))

-- `boundedExpiry`
abbrev pub expiry_of : Envelope → ℕ → ℕ
expiry_of e now =
    let maximum = now + max_wire_lifetime_ms in
    elim e.expires_at_utc [ none ↦ maximum | some t ↦ min maximum (date_parse t) ]

abbrev within_envelope : Option String → ℕ → Bool
within_envelope none expires = true
within_envelope (some t) expires = leb expires (date_parse t)

-- `validateWireLifetime`
unfoldable pub is_lifetime_valid : Wire → ℕ → Bool
is_lifetime_valid w now =
    let issued = date_parse w.issued_at_utc in
    let expires = date_parse w.expires_at_utc in
    leb issued (now + max_future_issue_ms)
    && ltb issued expires
    && leb (expires - issued) max_wire_lifetime_ms
    && ltb now expires
    && within_envelope w.envelope.expires_at_utc expires

-- The key of a message, and whether it is good now and was when the message was issued.
abbrev pub key_of : Wire → Option (List PeerKey) → Option PeerKey
key_of w none = none
key_of w (some keys) = find (has_key_id w.key_id) keys

abbrev pub is_usable : PeerKey → Wire → ℕ → Bool
is_usable k w now = is_active k now && is_within_validity_window k (date_parse w.issued_at_utc)

module _ (platform : Platform) (signatures : Signatures) where
  abbrev wire_fits : Wire → Bool
  wire_fits w =
      w.protocol == auth_protocol
      && w.auth_version == "1.0"
      && is_key_id w.key_id
      && platform.is_datetime w.issued_at_utc
      && platform.is_datetime w.expires_at_utc
      && is_signature w.signature

  -- `WireSchema.parse`: the envelope and the network's identifier as their schemas return them.
  unfoldable pub parse_wire : Wire → Answer Wire
  parse_wire w = elim (parse_envelope platform (envelope_core platform w.envelope)) [
    | none ↦ refused invalid
    | some e ↦ elim (parse_network_id w.network_id) [
      | none ↦ refused invalid
      | some network ↦
          if wire_fits w
          then given (record w { network_id = network; envelope = e })
          else refused invalid
    ]
  ]

  abbrev pub unsigned : Authenticator → Envelope → ℕ → Wire
  unsigned a e now = record {
    protocol = auth_protocol;
    auth_version = "1.0";
    network_id = a.membership.network_id;
    key_id = a.signing_key_id;
    issued_at_utc = to_iso_string now;
    expires_at_utc = to_iso_string (expiry_of e now);
    envelope = e;
    signature = "";
  }

  unfoldable pub sign_parsed : Authenticator → Envelope → ℕ → Answer Wire
  sign_parsed a e now =
      if not (e.origin_system == a.local_node_id)
      then refused unauthorized
      else if not (has_active_key (peer_keys e.target_system a.membership.peers) now)
      then refused unauthorized
      else if leb (expiry_of e now) now
      then refused out_of_time
      else (let plain = unsigned a e now in
          parse_wire
            (record plain { signature = signatures.sign a.signing_key (signing_text plain) }))

  -- `sign`
  unfoldable pub sign : Authenticator → Envelope → ℕ → Answer Wire
  sign a value now = elim (parse_envelope platform (envelope_core platform value)) [
    | none ↦ refused invalid
    | some e ↦ sign_parsed a e now
  ]

  unfoldable pub verify_key : Option PeerKey → Wire → ℕ → Answer Envelope
  verify_key none w now = refused unauthorized
  verify_key (some k) w now =
      if not (is_usable k w now)
      then refused unauthorized
      else if signatures.verify k.public_key (signing_text w) w.signature
      then given w.envelope
      else refused bad_signature

  unfoldable pub verify_parsed : Authenticator → Wire → ℕ → Answer Envelope
  verify_parsed a w now =
      if not (w.network_id == a.membership.network_id)
      then refused unauthorized
      else if not (is_lifetime_valid w now)
      then refused out_of_time
      else if not (w.envelope.target_system == a.local_node_id)
      then refused unauthorized
      else verify_key (key_of w (peer_keys w.envelope.origin_system a.membership.peers)) w now

  unfoldable pub verify_answer : Authenticator → Answer Wire → ℕ → Answer Envelope
  verify_answer a (refused e) now = refused e
  verify_answer a (given w) now = verify_parsed a w now

  -- `verify`
  unfoldable pub verify : Authenticator → Wire → ℕ → Answer Envelope
  verify a value now = verify_answer a (parse_wire value) now
