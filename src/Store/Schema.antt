-- ===== src/Store/Schema.antt =====
-- The tables of src/storage/database.ts, with the columns of schema version 9, and the ways in which
-- an operation fails. A stored envelope is the value whose JSON the row holds.
use balcony_agent_bridge.Base.{ℕ, String, Bool, true, false, Option, List, ◌≡◌, refl, ◌⊎◌, inl, inr}
use balcony_agent_bridge.Contracts.Envelope.{Envelope, MessageKind}
use balcony_agent_bridge.Contracts.Evidence.{EvidenceBundle, PeerInformationRequest}

pub data OutboxState : Type 0 where
  pending leased sent quarantined expired : OutboxState

pub record OutboxRow : Type 0 where
  pub message_id : String
  pub idempotency_key : String
  pub target_system : String
  pub kind : MessageKind
  pub stream_id : String
  pub payload_sha256 : String
  pub envelope : Envelope
  pub state : OutboxState
  pub attempt_count : ℕ
  pub next_attempt_at_utc : String
  pub lease_owner : Option String
  pub lease_until_utc : Option String
  pub created_at_utc : String
  pub expires_at_utc : Option String
  pub sent_at_utc : Option String
  pub last_error_code : Option String
  pub last_error : Option String

pub data InboxState : Type 0 where
  available claimed processed rejected quarantined : InboxState

pub record InboxRow : Type 0 where
  pub message_id : String
  pub origin_system : String
  pub kind : MessageKind
  pub stream_id : String
  pub causation_id : Option String
  pub payload_sha256 : String
  pub envelope : Envelope
  pub state : InboxState
  pub claim_owner : Option String
  pub claim_token_hash : Option String
  pub claim_until_utc : Option String
  pub attempt_count : ℕ
  pub first_received_at_utc : String
  pub last_received_at_utc : String
  pub broker_delivery_count : ℕ
  pub processed_at_utc : Option String
  pub last_error : Option String
  pub result_message_id : Option String
  pub result_idempotency_key : Option String
  pub result_payload_sha256 : Option String
  pub authenticated_ingress : Bool

pub record DeliveryAttempt : Type 0 where
  pub attempt_id : String
  pub is_outbound : Bool
  pub message_id : String
  pub attempt_number : ℕ
  pub started_at_utc : String
  pub finished_at_utc : String
  pub outcome : String
  pub error_code : Option String

pub record Resource : Type 0 where
  pub resource_id : String
  pub enabled : Bool
  pub created_at_utc : String
  pub updated_at_utc : String

pub data GrantState : Type 0 where
  active revoked : GrantState

pub record PeerResourceGrant : Type 0 where
  pub peer_system_id : String
  pub resource_id : String
  pub state : GrantState
  pub granted_at_utc : String
  pub revoked_at_utc : Option String

pub data RequestState : Type 0 where
  pending approved_once approved_temporary denied revoked expired consumed : RequestState

pub record AuthorizationRequest : Type 0 where
  pub request_id : String
  pub request_identity : String
  pub request_fingerprint : String
  pub peer_system_id : String
  pub resource_id : String
  pub state : RequestState
  pub requested_at_utc : String
  pub decided_at_utc : Option String
  pub decided_by : Option String
  pub temporary_expires_at_utc : Option String
  pub consumed_at_utc : Option String
  pub reason : Option String
  pub updated_at_utc : String

pub data AuditEvent : Type 0 where
  requested approved_once approved_temporary temporary_used denied revoked expired consumed :
      AuditEvent

pub record AuthorizationAudit : Type 0 where
  pub event_id : String
  pub request_id : String
  pub event : AuditEvent
  pub state : RequestState
  pub actor_id : String
  pub peer_system_id : String
  pub resource_id : String
  pub occurred_at_utc : String
  pub reason : Option String

pub data RunState : Type 0 where
  pending_child needs_information waiting_peer completed failed : RunState

-- A consultation run. Its `schema_version` is the constant "1.0".
pub record ConsultationRun : Type 0 where
  pub request_message_id : String
  pub conversation_id : String
  pub root_request_id : String
  pub project : String
  pub state : RunState
  pub round_count : ℕ
  pub depth : ℕ
  pub max_rounds : ℕ
  pub max_depth : ℕ
  pub ancestry_fingerprints : List String
  pub deadline_at_utc : String
  pub evidence : EvidenceBundle
  pub requested_evidence : Option (List String)
  pub peer_request : Option PeerInformationRequest
  pub nested_task_id : Option String
  pub next_attempt_at_utc : Option String
  pub error_code : Option String
  pub final_answer : Option String
  pub final_evidence_paths : List String
  pub version : ℕ
  pub created_at_utc : String
  pub updated_at_utc : String

pub data RuntimeComponent : Type 0 where
  bridge dispatcher consultation_coordinator : RuntimeComponent

pub record RuntimeRow : Type 0 where
  pub component : RuntimeComponent
  pub instance_id : String
  pub status : String
  pub heartbeat_at_utc : String
  pub last_error : Option String

pub record Database : Type 0 where
  pub outbox : List OutboxRow
  pub inbox : List InboxRow
  pub delivery_attempts : List DeliveryAttempt
  pub resources : List Resource
  pub grants : List PeerResourceGrant
  pub requests : List AuthorizationRequest
  pub audit : List AuthorizationAudit
  pub runs : List ConsultationRun
  pub runtime : List RuntimeRow
  -- The random values drawn so far.
  pub draws : ℕ

-- src/errors.ts. The text is the constant part of the message.
pub data Error : Type 0 where
  range_error : String → Error
  validation : String → Error
  state_transition : String → Error
  idempotency_conflict : String → Error
  dispatch_result_unavailable : Error
  constraint_failed : String → Error
  dispatch_rejected : String → Error
  evidence_policy : String → Error
  codex_execution : String → Error

pub data Result {ℓ} (A : Type ℓ) : Type ℓ where
  err : Error → Result A
  ok : A → Result A

pub Result-cases {ℓ} :
    {A : Type ℓ} (m : Result A) → ((a : A) × (m ≡ ok a)) ⊎ ((e : Error) × (m ≡ err e))
Result-cases (ok a) = inl (a, refl)
Result-cases (err e) = inr (e, refl)

-- A test that throws where it fails.
abbrev pub guard : Bool → Error → Result (Unit {0})
guard false thrown = err thrown
guard true thrown = ok tt

-- An error leaves a transaction with nothing written, so the state goes with success only.
abbrev pub ◌>>=◌ {ℓ κ} : {S : Type ℓ} {T : Type κ} → Result S → (S → Result T) → Result T
err thrown >>= next = err thrown
ok value >>= next = next value

abbrev pub ◌>>◌ {κ} : {T : Type κ} → Result (Unit {0}) → Result T → Result T
test >> next = test >>= λ _. next

infixl 5 ◌>>=◌ ◌>>◌
