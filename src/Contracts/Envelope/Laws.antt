-- ===== src/Contracts/Envelope/Laws.antt =====
-- What `parseEnvelope` accepts: an independent reading of the rules across the envelope's fields.
mod Tests
use balcony_agent_bridge.Base.{
  ℕ, ◌<◌, String, Bool, true, false, not, ◌&&◌, ◌||◌, Option, none, some, List, [], ◌∷◌, ◌++◌, ◌≡◌,
  refl, sym, ap, ◌∙◌, inl, inr, ◌⊎◌, ◌≢◌, arith, eq_iff, eq_refl, Bool-cases, Option-cases, ◌==◌,
  is_text, same_text, is_some, ltb, if◌then◌else◌,
}
use balcony_agent_bridge.Time.{date_parse}
use balcony_agent_bridge.Contracts.Json.{visit}
use balcony_agent_bridge.Contracts.Payload.{
  ReadOnlyDispatch, CoordinationRequest, CoordinationResult, ConsultationContext, payload_json,
}
use balcony_agent_bridge.Contracts.Envelope.Fields.{envelope_core}
use balcony_agent_bridge.Contracts.Envelope.RoundTrip.{accepted}
use balcony_agent_bridge.Contracts.Envelope.{
  MessageKind, message, task_request, task_result, status, acknowledgement, heartbeat, same_kind,
  Envelope, Platform, agent_coordination, Issue, same_systems, wrong_hash, secret_found, issue_if,
  hash_payload, expiry_issues, request_issues, result_issues, context_issues, stream_issues, issues,
  parse_envelope,
}

-- The shape of a message on the coordination stream.
pub data OnStream (v : Envelope) : Type 0 where
  requests :
      (r : CoordinationRequest)
      → v.kind ≡ task_request
      → v.payload.coordination_request ≡ some r
      → OnStream v
  answers :
      (r : CoordinationResult)
      → v.kind ≡ task_result
      → v.payload.coordination_result ≡ some r
      → OnStream v

-- The rules across the fields of an envelope.
pub record IsLawful (platform : Platform) (v : Envelope) : Type 0 where
  pub systems : v.origin_system ≢ v.target_system
  pub expiry : (t : String) → v.expires_at_utc ≡ some t → date_parse v.created_at_utc < date_parse t
  pub request_kind :
      (r : CoordinationRequest) → v.payload.coordination_request ≡ some r → v.kind ≡ task_request
  pub request_dispatch :
      (r : CoordinationRequest)
      → v.payload.coordination_request ≡ some r
      → (d : ReadOnlyDispatch) × (v.payload.dispatch ≡ some d)
        × (d.executor ≡ "codex_cli")
        × (d.access ≡ "read_only")
  pub request_stream :
      (r : CoordinationRequest)
      → v.payload.coordination_request ≡ some r
      → v.stream_id ≡ agent_coordination
  pub result_kind :
      (r : CoordinationResult) → v.payload.coordination_result ≡ some r → v.kind ≡ task_result
  pub result_causation :
      (r : CoordinationResult)
      → v.payload.coordination_result ≡ some r
      → v.causation_id ≡ some r.request_message_id
  pub result_stream :
      (r : CoordinationResult)
      → v.payload.coordination_result ≡ some r
      → v.stream_id ≡ agent_coordination
  pub context_root :
      (c : ConsultationContext)
      → v.payload.consultation_context ≡ some c
      → v.correlation_id ≡ some c.root_request_id
  pub context_request :
      (c : ConsultationContext)
      → v.payload.consultation_context ≡ some c
      → is_some v.payload.coordination_request ≡ true
  pub context_parent :
      (c : ConsultationContext)
      → v.payload.consultation_context ≡ some c
      → v.causation_id ≡ c.parent_request_id
  pub stream : v.stream_id ≡ agent_coordination → OnStream v
  pub hash : v.payload_sha256 ≡ hash_payload platform v.payload
  pub secrets : visit platform.patterns (payload_json v.payload) ≡ true

same_kind-eq : (a b : MessageKind) → same_kind a b ≡ true → a ≡ b
same_kind-eq message message h = refl
same_kind-eq task_request task_request h = refl
same_kind-eq task_result task_result h = refl
same_kind-eq status status h = refl
same_kind-eq acknowledgement acknowledgement h = refl
same_kind-eq heartbeat heartbeat h = refl
same_kind-eq _ _ h = absurd (ground arith)

same_text-eq : (a b : Option String) → same_text a b ≡ true → a ≡ b
same_text-eq none none h = refl
same_text-eq (some s) (some t) h = ap some ((eq_iff s t).0 h)
same_text-eq none (some t) h = absurd (ground arith)
same_text-eq (some s) none h = absurd (ground arith)

is_text-eq : (a : Option String) (s : String) → is_text a s ≡ true → a ≡ some s
is_text-eq none s h = absurd (ground arith)
is_text-eq (some t) s h = ap some ((eq_iff t s).0 h)

nothing_left : (xs ys : List Issue) → xs ++ ys ≡ [] → (xs ≡ []) × (ys ≡ [])
nothing_left [] ys h = (refl, h)
nothing_left (x ∷ xs) ys h = absurd (ground arith)

no_issue : (b : Bool) (i : Issue) → issue_if b i ≡ [] → b ≡ false
no_issue b i h = ground arith

module _ (platform : Platform) (v : Envelope) where
  expiry_lawful :
      expiry_issues platform v ≡ []
      → (t : String) → v.expires_at_utc ≡ some t
      → date_parse v.created_at_utc < date_parse t
  unfolding expiry_issues
  expiry_lawful h t e = ground arith

  -- The issues of a request, one by one.
  request_lawful :
      request_issues platform v ≡ []
      → (r : CoordinationRequest) → v.payload.coordination_request ≡ some r
      → (v.kind ≡ task_request)
        × ((d : ReadOnlyDispatch) × (v.payload.dispatch ≡ some d)
            × (d.executor ≡ "codex_cli")
            × (d.access ≡ "read_only"))
        × (v.stream_id ≡ agent_coordination)
  unfolding request_issues
  request_lawful h r e = elim (Option-cases v.payload.dispatch) [
    | inl absent ↦ absurd (ground arith)
    | inr (d, present) ↦ (
      same_kind-eq v.kind task_request (ground arith),
      (
        d,
        present,
        (eq_iff d.executor "codex_cli").0 (ground arith),
        (eq_iff d.access "read_only").0 (ground arith),
      ),
      (eq_iff v.stream_id agent_coordination).0 (ground arith),
    )
  ]

  result_lawful :
      result_issues platform v ≡ []
      → (r : CoordinationResult) → v.payload.coordination_result ≡ some r
      → (v.kind ≡ task_result)
        × (v.causation_id ≡ some r.request_message_id)
        × (v.stream_id ≡ agent_coordination)
  unfolding result_issues
  result_lawful h r e = (
    same_kind-eq v.kind task_result (ground arith),
    is_text-eq v.causation_id r.request_message_id (ground arith),
    (eq_iff v.stream_id agent_coordination).0 (ground arith),
  )

  context_lawful :
      context_issues platform v ≡ []
      → (c : ConsultationContext) → v.payload.consultation_context ≡ some c
      → (is_some v.payload.coordination_request ≡ true)
        × (v.correlation_id ≡ some c.root_request_id)
        × (v.causation_id ≡ c.parent_request_id)
  unfolding context_issues
  context_lawful h c e = (
    ground arith,
    is_text-eq v.correlation_id c.root_request_id (ground arith),
    same_text-eq v.causation_id c.parent_request_id (ground arith),
  )

  stream_lawful : stream_issues platform v ≡ [] → v.stream_id ≡ agent_coordination → OnStream v
  unfolding stream_issues
  stream_lawful h e =
      let here : (v.stream_id == agent_coordination) ≡ true =
        (eq_iff v.stream_id agent_coordination).1 e in
      elim (Bool-cases (same_kind v.kind task_request)) [
        | inl asks ↦ elim (Option-cases v.payload.coordination_request) [
          | inl absent ↦ absurd (ground arith)
          | inr (r, present) ↦ requests r (same_kind-eq v.kind task_request asks) present
        ]
        | inr other ↦ elim (Option-cases v.payload.coordination_result) [
          | inl absent ↦ absurd (ground arith)
          | inr (r, present) ↦ answers r (same_kind-eq v.kind task_result (ground arith)) present
        ]
      ]

  lawful : issues platform v ≡ [] → IsLawful platform v
  unfolding issues
  lawful h =
      let (systems, h1) =
        nothing_left (issue_if (v.origin_system == v.target_system) same_systems) _ h in
      let (expiry, h2) = nothing_left (expiry_issues platform v) _ h1 in
      let (request, h3) = nothing_left (request_issues platform v) _ h2 in
      let (result, h4) = nothing_left (result_issues platform v) _ h3 in
      let (context, h5) = nothing_left (context_issues platform v) _ h4 in
      let (stream, h6) = nothing_left (stream_issues platform v) _ h5 in
      let (hash, secrets) =
        nothing_left
          (issue_if (not (v.payload_sha256 == hash_payload platform v.payload)) wrong_hash)
          (issue_if (not (visit platform.patterns (payload_json v.payload))) secret_found) h6 in
      record {
        systems = λ same. ground (arith, systems, (eq_iff v.origin_system v.target_system).1 same);
        expiry = expiry_lawful expiry;
        request_kind = λ r e. (request_lawful request r e).0;
        request_dispatch = λ r e. (request_lawful request r e).1;
        request_stream = λ r e. (request_lawful request r e).2;
        result_kind = λ r e. (result_lawful result r e).0;
        result_causation = λ r e. (result_lawful result r e).1;
        result_stream = λ r e. (result_lawful result r e).2;
        context_request = λ c e. (context_lawful context c e).0;
        context_root = λ c e. (context_lawful context c e).1;
        context_parent = λ c e. (context_lawful context c e).2;
        stream = stream_lawful stream;
        hash = (eq_iff v.payload_sha256 (hash_payload platform v.payload)).0 (ground (arith, hash));
        secrets = ground (arith, secrets);
      }

-- An envelope that is accepted keeps every rule across its fields: distinct systems, an expiry after
-- the creation, the shapes of requests, results, consultations and of the coordination stream, the
-- hash of its payload, and no secrets.
pub parse-IsLawful :
    (platform : Platform) (d w : Envelope)
    → parse_envelope platform (envelope_core platform d) ≡ some w
    → IsLawful platform w
unfolding parse_envelope
parse-IsLawful platform d w h =
    let same : envelope_core platform d ≡ some w =
      accepted platform (envelope_core platform d) w h in
    lawful platform w (ground (arith, same))
