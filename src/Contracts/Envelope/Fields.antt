-- ===== src/Contracts/Envelope/Fields.antt =====
-- The field checks of src/contracts/envelope.ts, coordination.ts and consultation.ts
-- (`MessagePayloadSchema`, `EnvelopeCoreSchema`): texts are trimmed and bounded, and a value that
-- fails a check is refused, `none`.
use Prim.Native.Char.{code}
use balcony_agent_bridge.Base.{
  ℕ, String, Bool, true, false, not, ◌&&◌, ◌||◌, Option, none, some, List, [], ◌∷◌, eqb, leb, ltb,
  if◌then◌else◌, is_some, length, ◌==◌, utf16_length,
}
use balcony_agent_bridge.Security.{trim}
use balcony_agent_bridge.Contracts.Payload.{
  EvidenceKind, bridge_message, EvidenceReference, ReadOnlyDispatch, CoordinationRequest,
  CoordinationResult, ConsultationContext, MessagePayload,
}
use balcony_agent_bridge.Contracts.Identifiers.{system_id}
use balcony_agent_bridge.Contracts.Envelope.{Envelope, Platform}
use balcony_agent_bridge.Contracts.Evidence.{all_different}

abbrev pub ◌>>=◌ {ℓ κ} : {A : Type ℓ} {B : Type κ} → Option A → (A → Option B) → Option B
none >>= next = none
some a >>= next = next a

abbrev pub ◌>>◌ {κ} : {B : Type κ} → Option (Unit {0}) → Option B → Option B
test >> next = test >>= λ _. next

infixl 5 ◌>>=◌ ◌>>◌
abbrev pub check : Bool → Option (Unit {0})
check true = some tt
check false = none

-- z.string().trim().min(1).max(most)
unfoldable pub bounded : ℕ → String → Option String
bounded most s =
    let t = trim s in if leb 1 (utf16_length t) && leb (utf16_length t) most then some t else none

abbrev pub optionally {ℓ} : {A : Type ℓ} → (A → Option A) → Option A → Option (Option A)
optionally f none = some none
optionally f (some a) = f a >>= λ b. some (some b)

abbrev pub holds {ℓ} : {A : Type ℓ} → (A → Bool) → Option A → Bool
holds p none = true
holds p (some a) = p a

-- `Number.MAX_SAFE_INTEGER`, the bound of z.int().
abbrev max_safe_integer : ℕ
max_safe_integer = 9007199254740991

-- /^[a-f0-9]{64}$/
is_hex : ℕ → Bool
is_hex c = (leb 48 c && leb c 57) || (leb 97 c && leb c 102)

all_hex : String → Bool
unfolding is_hex
all_hex String.[] = true
all_hex (String.◌∷◌ c s) = is_hex (code c) && all_hex s

unfoldable pub is_fingerprint : String → Bool
unfolding all_hex
is_fingerprint s = eqb (utf16_length s) 64 && all_hex s

abbrev all_fingerprints : List String → Bool
all_fingerprints [] = true
all_fingerprints (s ∷ ss) = is_fingerprint s && all_fingerprints ss

-- `ReadOnlyDispatchSchema`
unfoldable pub is_dispatch : ReadOnlyDispatch → Bool
is_dispatch d =
    d.executor == "codex_cli"
    && d.access == "read_only"
    && holds (λ t. leb 30 t && leb t 600) d.timeout_seconds
    && holds (λ m. m == "pinned_git") d.evidence_mode

abbrev is_intent : String → Bool
is_intent s = s == "inspect" || s == "question" || s == "review"

abbrev is_outcome : String → Bool
is_outcome s = s == "completed" || s == "rejected" || s == "failed"

-- `CoordinationRequestSchema`
unfoldable pub is_coordination_request : CoordinationRequest → Bool
is_coordination_request r =
    r.protocol_version == "1.0" && is_intent r.intent && r.access_mode == "read_only"

abbrev pub needs_uuid : EvidenceKind → Bool
needs_uuid bridge_message = true
needs_uuid _ = false

module _ (platform : Platform) where
  -- `CoordinationResultSchema`
  unfoldable pub is_coordination_result : CoordinationResult → Bool
  is_coordination_result r =
      r.protocol_version == "1.0" && platform.is_uuid r.request_message_id && is_outcome r.outcome

  -- `ConsultationContextSchema`
  unfoldable pub is_consultation_context : ConsultationContext → Bool
  is_consultation_context c =
      c.protocol_version == "1.0"
      && platform.is_uuid c.root_request_id
      && holds platform.is_uuid c.parent_request_id
      && leb c.depth 4
      && leb 1 c.max_depth
      && leb c.max_depth 4
      && leb (length c.ancestry_fingerprints) 8
      && all_fingerprints c.ancestry_fingerprints
      && leb c.depth c.max_depth
      && (not (ltb 0 c.depth) || is_some c.parent_request_id)
      && all_different c.ancestry_fingerprints

  -- `EvidenceReferenceSchema`
  unfoldable pub evidence_references : List EvidenceReference → Option (List EvidenceReference)
  evidence_references [] = some []
  evidence_references (r ∷ rs) = do
    value ← bounded 1024 r.value
    check (not (needs_uuid r.kind) || platform.is_uuid value)
    rest ← evidence_references rs
    some (record r { value = value } ∷ rest)

  -- `MessagePayloadSchema`
  unfoldable pub message_payload : MessagePayload → Option MessagePayload
  message_payload p = do
    subject ← bounded 200 p.subject
    check (leb (utf16_length p.body) 65536)
    project ← optionally (bounded 120) p.project
    repository ← optionally (bounded 260) p.repository
    task_reference ← optionally (bounded 260) p.task_reference
    evidence ← evidence_references p.evidence
    check (leb (length p.evidence) 20)
    check (holds is_dispatch p.dispatch)
    check (holds is_coordination_request p.coordination_request)
    check (holds is_coordination_result p.coordination_result)
    check (holds is_consultation_context p.consultation_context)
    some (record p {
      subject = subject;
      project = project;
      repository = repository;
      task_reference = task_reference;
      evidence = evidence;
    })

  -- `EnvelopeCoreSchema`
  unfoldable pub envelope_core : Envelope → Option Envelope
  envelope_core e = do
    check (e.schema_version == "1.0" && platform.is_uuid e.message_id)
    key ← bounded 128 e.idempotency_key
    origin ← system_id e.origin_system
    target ← system_id e.target_system
    check (platform.is_uuid e.conversation_id)
    check (holds platform.is_uuid e.correlation_id && holds platform.is_uuid e.causation_id)
    stream ← bounded 128 e.stream_id
    check (holds (λ n. leb n max_safe_integer) e.sequence_number)
    check (platform.is_datetime e.created_at_utc && holds platform.is_datetime e.expires_at_utc)
    payload ← message_payload e.payload
    check (is_fingerprint e.payload_sha256)
    some (record e {
      idempotency_key = key;
      origin_system = origin;
      target_system = target;
      stream_id = stream;
      payload = payload;
    })
