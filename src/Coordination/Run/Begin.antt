-- ===== src/Coordination/Run/Begin.antt =====
-- How a claimed request gets its run (`ensureRun` and the first part of `processClaim` of
-- src/coordination/autonomous-consultation-coordinator.ts).
use balcony_agent_bridge.Base.{
  ℕ, ◌+◌, ◌*◌, String, Bool, true, false, not, ◌&&◌, Option, none, some, List, [], ◌∷◌, ltb, min,
  if◌then◌else◌, is_some, ◌==◌,
}
use balcony_agent_bridge.Time.{to_iso_string, date_parse}
use balcony_agent_bridge.Contracts.Payload.{ConsultationContext}
use balcony_agent_bridge.Contracts.Envelope.{Envelope, Platform}
use balcony_agent_bridge.Contracts.Evidence.{EvidenceBundle}
use balcony_agent_bridge.Store.Schema.{pending_child, ConsultationRun, Error, dispatch_rejected}
use balcony_agent_bridge.Store.Claims.{ClaimedMessage}
use balcony_agent_bridge.Store.Authorization.Access as Access
use balcony_agent_bridge.Store.Authorization.Access.{authorize_claimed_resource_access}
use balcony_agent_bridge.Store.Consultation.{ensure_consultation_run}
use balcony_agent_bridge.Store.Consultation.Contract.{consultation_request_fingerprint}
use balcony_agent_bridge.Coordination.{M, pure, throw, of_result, stored, ◌>>=◌, Coordinator}
use balcony_agent_bridge.Coordination.Evidence.{empty_evidence}

-- `ancestry.at(-1) === fingerprint`
abbrev pub ends_in : String → List String → Bool
ends_in s [] = false
ends_in s (t ∷ []) = t == s
ends_in s (t ∷ u ∷ us) = ends_in s (u ∷ us)

-- The depth, the ancestry and the root that a request's context brings.
abbrev pub depth_of : Option ConsultationContext → ℕ
depth_of none = 0
depth_of (some c) = c.depth

abbrev pub max_depth_of : Option ConsultationContext → ℕ → ℕ
max_depth_of none most = most
max_depth_of (some c) most = min c.max_depth most

abbrev pub ancestry_of : Option ConsultationContext → String → List String
ancestry_of none fingerprint = fingerprint ∷ []
ancestry_of (some c) fingerprint = c.ancestry_fingerprints

abbrev pub ancestry_fits : Option ConsultationContext → String → Bool
ancestry_fits none fingerprint = true
ancestry_fits (some c) fingerprint = ends_in fingerprint c.ancestry_fingerprints

abbrev pub root_of : Option ConsultationContext → String → String
root_of none id = id
root_of (some c) id = c.root_request_id

-- The earlier of the message's expiry and the policy's deadline.
abbrev pub deadline_of : Envelope → ℕ → ℕ
deadline_of e timeout_seconds =
    let by_policy = date_parse e.created_at_utc + timeout_seconds * 1000 in
    elim e.expires_at_utc [ none ↦ by_policy | some expires ↦ min (date_parse expires) by_policy ]

abbrev unauthorized : Error
unauthorized = dispatch_rejected "The requested resource is not authorized for this peer."

module _ (platform : Platform) (c : Coordinator) where
  abbrev pub new_run : Envelope → String → String → EvidenceBundle → ℕ → ConsultationRun
  new_run e project fingerprint evidence now =
      let consultation = e.payload.consultation_context in
      record {
        request_message_id = e.message_id;
        conversation_id = e.conversation_id;
        root_request_id = root_of consultation e.message_id;
        project = project;
        state = pending_child;
        round_count = 0;
        depth = depth_of consultation;
        max_rounds = c.policy.max_rounds;
        max_depth = max_depth_of consultation c.policy.max_depth;
        ancestry_fingerprints = ancestry_of consultation fingerprint;
        deadline_at_utc = to_iso_string (deadline_of e c.policy.run_timeout_seconds);
        evidence = evidence;
        requested_evidence = none;
        peer_request = none;
        nested_task_id = none;
        next_attempt_at_utc = none;
        error_code = none;
        final_answer = none;
        final_evidence_paths = [];
        version = 0;
        created_at_utc = to_iso_string now;
        updated_at_utc = to_iso_string now;
      }

  abbrev pub is_local : Envelope → String → Bool
  is_local e project = is_some e.payload.coordination_request && is_some (c.project_path project)

  -- `ensureRun`, for the project that the request names.
  unfoldable pub ensure_run : Envelope → String → ℕ → M ConsultationRun
  ensure_run e project now =
      let consultation = e.payload.consultation_context in
      let fingerprint =
        consultation_request_fingerprint platform project e.payload.subject e.payload.body in
      if not (is_local e project)
      then throw
          (dispatch_rejected "The consultation request is not enabled for the local project.")
      else if not (ancestry_fits consultation fingerprint)
      then throw
          (dispatch_rejected "The consultation request does not match its ancestry fingerprint.")
      else if ltb (max_depth_of consultation c.policy.max_depth) (depth_of consultation)
      then throw (dispatch_rejected "The consultation request exceeds the configured depth.")
      else (do
        evidence ← of_result (empty_evidence platform project now)
        result ←
            stored (ensure_consultation_run platform (new_run e project fingerprint evidence now))
        pure result.run)

  -- The run of a claim whose access is decided; no run while a person has to approve.
  unfoldable pub run_of_decision :
      Access.Decision → Envelope → String → ℕ → M (Option ConsultationRun)
  run_of_decision (Access.approval_pending id) e project now = pure none
  run_of_decision (Access.authorized basis approval) e project now = do
    run ← ensure_run e project now
    pure (some run)
  run_of_decision (Access.duplicate id) e project now = throw unauthorized
  run_of_decision (Access.denied id) e project now = throw unauthorized

  -- The first part of `processClaim`.
  unfoldable pub begin_run : ClaimedMessage → ℕ → M (Option ConsultationRun)
  begin_run claim now = elim claim.envelope.payload.project [
    | none ↦ throw unauthorized
    | some project ↦ do
      decision ← stored (
          authorize_claimed_resource_access platform claim.envelope.message_id c.consumer_id
            claim.claim_token project c.config.system_id now)
      run_of_decision decision claim.envelope project now
  ]
