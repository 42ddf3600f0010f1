-- ===== src/Store/Consultation/Contract.antt =====
-- src/contracts/consultation.ts: what `ConsultationRunSchema` asks of a run beyond the shapes of its
-- texts, and the fingerprint of a request.
use Prim.Native.Char.{code}
use balcony_agent_bridge.Base.{
  String, Bool, true, false, not, ◌&&◌, ◌||◌, Option, none, some, List, [], ◌∷◌, map, leb, any,
  length, if◌then◌else◌, is_some, ◌==◌, ◌+++◌,
}
use balcony_agent_bridge.Security.{trim, is_white}
use balcony_agent_bridge.Contracts.Envelope.{Platform}
use balcony_agent_bridge.Contracts.Evidence.{EvidenceItem, path_key, is_valid_bundle}
use balcony_agent_bridge.Store.Schema.{
  RunState, pending_child, needs_information, waiting_peer, completed, failed, ConsultationRun,
}

-- Each run of white space becomes one space.
collapse : Bool → String → String
collapse after_white String.[] = ""
collapse after_white (String.◌∷◌ c s) =
    let rest = collapse (is_white (code c)) s in
    if is_white (code c) then (if after_white then rest else " " +++ rest) else String.◌∷◌ c rest

abbrev pub no_paths : Option (List String) → Bool
no_paths none = true
no_paths (some []) = true
no_paths (some (p ∷ ps)) = false

abbrev at_most_sixteen : Option (List String) → Bool
at_most_sixteen none = true
at_most_sixteen (some ps) = leb (length ps) 16

-- What a state asks for.
abbrev state_fits : RunState → ConsultationRun → Bool
state_fits pending_child r = true
state_fits needs_information r = not (no_paths r.requested_evidence) || is_some r.peer_request
state_fits waiting_peer r = is_some r.peer_request
state_fits completed r = is_some r.final_answer
state_fits failed r = is_some r.error_code

abbrev all_among : List String → List String → Bool
all_among keys [] = true
all_among keys (k ∷ ks) = any (λ j. j == k) keys && all_among keys ks

module _ (platform : Platform) where
  -- `normalizeFingerprintPart`
  unfoldable pub normalize_fingerprint_part : String → String
  unfolding collapse
  normalize_fingerprint_part value = platform.lower (collapse false (trim value))

  -- `consultationRequestFingerprint`
  unfoldable pub consultation_request_fingerprint : String → String → String → String
  consultation_request_fingerprint project subject request = platform.sha256 (
      normalize_fingerprint_part project
      +++ "\n"
      +++ normalize_fingerprint_part subject
      +++ "\n"
      +++ normalize_fingerprint_part request)

  -- The bounds on the counts of a run.
  abbrev counts_fit : ConsultationRun → Bool
  counts_fit r =
      leb r.round_count 16
      && leb r.depth 4
      && leb 1 r.max_rounds
      && leb r.max_rounds 16
      && leb 1 r.max_depth
      && leb r.max_depth 4
      && leb 1 (length r.ancestry_fingerprints)
      && leb (length r.ancestry_fingerprints) 8
      && at_most_sixteen r.requested_evidence
      && leb (length r.final_evidence_paths) 16

  -- `ConsultationRunSchema`
  unfoldable pub is_valid_run : ConsultationRun → Bool
  is_valid_run r =
      counts_fit r
      && is_valid_bundle platform r.evidence
      && leb r.depth r.max_depth
      && leb r.round_count r.max_rounds
      && r.evidence.project == r.project
      && state_fits r.state r
      && all_among (map (λ (i : EvidenceItem). path_key platform i.path) r.evidence.items)
          (map (path_key platform) r.final_evidence_paths)
