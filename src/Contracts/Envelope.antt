-- ===== src/Contracts/Envelope.antt =====
-- src/contracts/envelope.ts: the envelope, its rules across fields (`superRefine`) and its hash. An
-- `Envelope` is a value of the shape of the schema; the checks of its fields are in Fields.
mod Tests
pub mod Laws
pub mod Fields
pub mod Creation
pub mod RoundTrip
pub mod Kept
use balcony_agent_bridge.Base.{
  ℕ, String, Bool, true, false, not, ◌&&◌, ◌||◌, Option, none, some, List, [], ◌∷◌, ◌++◌, ltb,
  if◌then◌else◌, is_text, same_text, is_some, ◌==◌,
}
use balcony_agent_bridge.Time.{date_parse}
use balcony_agent_bridge.Contracts.Json.{SecretPatterns, canonical_json, visit}
use balcony_agent_bridge.Contracts.Payload.{MessagePayload, payload_json}

pub data MessageKind : Type 0 where
  message task_request task_result status acknowledgement heartbeat : MessageKind

abbrev pub same_kind : MessageKind → MessageKind → Bool
same_kind message message = true
same_kind task_request task_request = true
same_kind task_result task_result = true
same_kind status status = true
same_kind acknowledgement acknowledgement = true
same_kind heartbeat heartbeat = true
same_kind _ _ = false

pub record Envelope : Type 0 where
  pub schema_version : String
  pub message_id : String
  pub idempotency_key : String
  pub origin_system : String
  pub target_system : String
  pub kind : MessageKind
  pub conversation_id : String
  pub correlation_id : Option String
  pub causation_id : Option String
  pub stream_id : String
  pub sequence_number : Option ℕ
  pub created_at_utc : String
  pub expires_at_utc : Option String
  pub payload : MessagePayload
  pub payload_sha256 : String

-- What the code takes from other packages and from the machine: SHA-256 and random values of
-- node:crypto (the n-th draw), the regular expressions of the secret policy, and the case mapping of
-- Unicode (`toLowerCase`); and the formats of the schema library, `uuid` and `datetime`.
pub record Platform : Type 0 where
  pub sha256 : String → String
  pub lower : String → String
  pub random_uuid : ℕ → String
  pub random_token : ℕ → String
  pub patterns : SecretPatterns
  pub is_uuid : String → Bool
  pub is_datetime : String → Bool

abbrev pub agent_coordination : String
agent_coordination = "agent-coordination"

-- The issues that the rules report, in the order of the source.
pub data Issue : Type 0 where
  same_systems expires_too_early : Issue
  request_kind request_dispatch request_stream : Issue
  result_kind result_causation result_stream : Issue
  context_without_request context_root context_parent : Issue
  stream_needs_request stream_needs_result stream_kind : Issue
  wrong_hash secret_found : Issue

abbrev issue_if : Bool → Issue → List Issue
issue_if true i = i ∷ []
issue_if false i = []

module _ (platform : Platform) where
  unfoldable pub hash_payload : MessagePayload → String
  hash_payload payload = platform.sha256 (canonical_json (payload_json payload))

  expiry_issues : Envelope → List Issue
  expiry_issues value = elim value.expires_at_utc [
    | none ↦ []
    | some expires ↦
        issue_if (not (ltb (date_parse value.created_at_utc) (date_parse expires)))
          expires_too_early
  ]

  request_issues : Envelope → List Issue
  request_issues value = elim value.payload.coordination_request [
    | none ↦ []
    | some request ↦
        issue_if (not (same_kind value.kind task_request)) request_kind
        ++ issue_if
            (elim value.payload.dispatch [
              | none ↦ true
              | some d ↦ not (d.executor == "codex_cli") || not (d.access == "read_only")
            ])
            request_dispatch
        ++ issue_if (not (value.stream_id == agent_coordination)) request_stream
  ]

  result_issues : Envelope → List Issue
  result_issues value = elim value.payload.coordination_result [
    | none ↦ []
    | some result ↦
        issue_if (not (same_kind value.kind task_result)) result_kind
        ++ issue_if (not (is_text value.causation_id result.request_message_id)) result_causation
        ++ issue_if (not (value.stream_id == agent_coordination)) result_stream
  ]

  context_issues : Envelope → List Issue
  context_issues value = elim value.payload.consultation_context [
    | none ↦ []
    | some consultation ↦
        issue_if (not (is_some value.payload.coordination_request)) context_without_request
        ++ issue_if (not (is_text value.correlation_id consultation.root_request_id)) context_root
        ++ issue_if (not (same_text value.causation_id consultation.parent_request_id))
            context_parent
  ]

  stream_issues : Envelope → List Issue
  stream_issues value =
      if value.stream_id == agent_coordination
      then (if same_kind value.kind task_request && not (is_some value.payload.coordination_request)
          then stream_needs_request ∷ []
          else if same_kind value.kind task_result
              && not (is_some value.payload.coordination_result)
          then stream_needs_result ∷ []
          else if not (same_kind value.kind task_request) && not (same_kind value.kind task_result)
          then stream_kind ∷ []
          else [])
      else []

  unfoldable pub issues : Envelope → List Issue
  unfolding expiry_issues request_issues result_issues context_issues stream_issues hash_payload
  issues value =
      issue_if (value.origin_system == value.target_system) same_systems
      ++ (expiry_issues value
          ++ (request_issues value
              ++ (result_issues value
                  ++ (context_issues value
                      ++ (stream_issues value
                          ++ (issue_if (not (value.payload_sha256 == hash_payload value.payload))
                                wrong_hash
                              ++ issue_if
                                  (not (visit platform.patterns (payload_json value.payload)))
                                  secret_found))))))

  -- `parseEnvelope` on what the field checks gave, `none` where they refused.
  unfoldable pub parse_envelope : Option Envelope → Option Envelope
  parse_envelope none = none
  parse_envelope (some value) = elim (issues value) [ [] ↦ some value | _ ∷ _ ↦ none ]
