-- ===== src/Contracts/Payload.antt =====
-- The payload of a message, as the schemas of src/contracts/envelope.ts, coordination.ts and
-- consultation.ts leave it, and its JSON.
use balcony_agent_bridge.Base.{ℕ, String, Option, none, some, List, [], ◌∷◌}
use balcony_agent_bridge.Contracts.Json.{
  Json, text, number, array, object, Items, nil, item, Entries, end, entry,
}

pub data EvidenceKind : Type 0 where
  repository_path git_commit obsidian_note test_run bridge_message : EvidenceKind

pub record EvidenceReference : Type 0 where
  pub kind : EvidenceKind
  pub value : String

pub record ReadOnlyDispatch : Type 0 where
  pub executor : String
  pub access : String
  pub timeout_seconds : Option ℕ
  pub evidence_mode : Option String

pub record CoordinationRequest : Type 0 where
  pub protocol_version : String
  pub intent : String
  pub access_mode : String

pub record CoordinationResult : Type 0 where
  pub protocol_version : String
  pub request_message_id : String
  pub outcome : String

pub record ConsultationContext : Type 0 where
  pub protocol_version : String
  pub root_request_id : String
  pub parent_request_id : Option String
  pub depth : ℕ
  pub max_depth : ℕ
  pub ancestry_fingerprints : List String

pub record MessagePayload : Type 0 where
  pub subject : String
  pub body : String
  pub project : Option String
  pub repository : Option String
  pub task_reference : Option String
  pub evidence : List EvidenceReference
  pub dispatch : Option ReadOnlyDispatch
  pub coordination_request : Option CoordinationRequest
  pub coordination_result : Option CoordinationResult
  pub consultation_context : Option ConsultationContext

-- The members that an object literal has: an absent optional field is no member.
optional {ℓ} : {A : Type ℓ} → String → (A → Json) → Option A → Entries → Entries
optional k f none es = es
optional k f (some a) es = entry k (f a) es

texts : List String → Items
texts [] = nil
texts (s ∷ ss) = item (text s) (texts ss)

evidence_kind : EvidenceKind → String
evidence_kind repository_path = "repository_path"
evidence_kind git_commit = "git_commit"
evidence_kind obsidian_note = "obsidian_note"
evidence_kind test_run = "test_run"
evidence_kind bridge_message = "bridge_message"

references : List EvidenceReference → Items
unfolding evidence_kind
references [] = nil
references (r ∷ rs) =
    item (object (entry "kind" (text (evidence_kind r.kind)) (entry "value" (text r.value) end)))
      (references rs)

dispatch_json : ReadOnlyDispatch → Json
unfolding optional
dispatch_json d = object (
    entry "executor" (text d.executor) (
      entry "access" (text d.access) (
        optional "timeout_seconds" number d.timeout_seconds
          (optional "evidence_mode" text d.evidence_mode end))))

request_json : CoordinationRequest → Json
request_json r = object (
    entry "protocol_version" (text r.protocol_version)
      (entry "intent" (text r.intent) (entry "access_mode" (text r.access_mode) end)))

result_json : CoordinationResult → Json
result_json r = object (
    entry "protocol_version" (text r.protocol_version) (
      entry "request_message_id" (text r.request_message_id)
        (entry "outcome" (text r.outcome) end)))

context_json : ConsultationContext → Json
unfolding optional texts
context_json c = object (
    entry "protocol_version" (text c.protocol_version) (
      entry "root_request_id" (text c.root_request_id) (
        optional "parent_request_id" text c.parent_request_id (
          entry "depth" (number c.depth) (
            entry "max_depth" (number c.max_depth)
              (entry "ancestry_fingerprints" (array (texts c.ancestry_fingerprints)) end))))))

unfoldable pub payload_json : MessagePayload → Json
unfolding optional references dispatch_json request_json result_json context_json
payload_json p = object (
    entry "subject" (text p.subject) (
      entry "body" (text p.body) (
        optional "project" text p.project (
          optional "repository" text p.repository (
            optional "task_reference" text p.task_reference (
              entry "evidence" (array (references p.evidence)) (
                optional "dispatch" dispatch_json p.dispatch (
                  optional "coordination_request" request_json p.coordination_request (
                    optional "coordination_result" result_json p.coordination_result (
                      optional "consultation_context" context_json p.consultation_context
                        end))))))))))
