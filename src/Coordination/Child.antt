-- ===== src/Coordination/Child.antt =====
-- The answer of the child process (`parseEvidenceOnlyChildResult` of
-- src/evidence/project-evidence-provider.ts, `ChildTurnResultSchema` of src/contracts/evidence.ts).
use balcony_agent_bridge.Base.{
  ◌+◌, String, Bool, true, ◌&&◌, Option, none, some, List, [], ◌∷◌, map, any, eqb, if◌then◌else◌,
  is_some, ◌==◌,
}
use balcony_agent_bridge.Contracts.Json.{
  Json, text, array, object, Items, nil, item, Entries, end, entry, visit,
}
use balcony_agent_bridge.Contracts.Envelope.{Platform}
use balcony_agent_bridge.Contracts.Evidence.{
  EvidenceItem, EvidenceBundle, PeerInformationRequest, with_slashes, is_valid_bundle,
}
use balcony_agent_bridge.Store.Schema.{validation, evidence_policy, Result, ok, err, ◌>>◌, guard}

-- `ChildTurnResult`, as `JSON.parse` and the field checks leave it.
pub data ChildTurn : Type 0 where
  completed : (answer : String) → (evidence_paths : List String) → ChildTurn
  needs_information :
      (reason : String)
      → (requested_evidence : Option (List String)) → (peer_request : Option PeerInformationRequest)
      → (evidence_paths : List String) → ChildTurn

abbrev pub paths_of : ChildTurn → List String
paths_of (completed answer paths) = paths
paths_of (needs_information reason requested peer paths) = paths

-- `needs_information` names exactly one source.
abbrev pub one_source : ChildTurn → Bool
one_source (completed answer paths) = true
one_source (needs_information reason requested peer paths) =
    eqb ((if is_some requested then 1 else 0) + (if is_some peer then 1 else 0)) 1

abbrev texts : List String → Items
texts [] = nil
texts (s ∷ ss) = item (text s) (texts ss)

abbrev requested_entry : Option (List String) → Entries → Entries
requested_entry none es = es
requested_entry (some paths) es = entry "requested_evidence" (array (texts paths)) es

abbrev peer_entry : Option PeerInformationRequest → Entries → Entries
peer_entry none es = es
peer_entry (some p) es =
    entry "peer_request"
      (object (
        entry "subject" (text p.subject)
          (entry "request" (text p.request) (entry "intent" (text p.intent) end))))
      es

abbrev turn_json : ChildTurn → Json
turn_json (completed answer paths) = object (
    entry "schema_version" (text "1.0") (
      entry "outcome" (text "completed")
        (entry "answer" (text answer) (entry "evidence_paths" (array (texts paths)) end))))
turn_json (needs_information reason requested peer paths) = object (
    entry "schema_version" (text "1.0") (
      entry "outcome" (text "needs_information") (
        entry "reason" (text reason) (
          requested_entry requested
            (peer_entry peer (entry "evidence_paths" (array (texts paths)) end))))))

module _ (platform : Platform) (on_windows : Bool) where
  -- `normalizeForComparison`
  abbrev pub comparison_key : String → String
  comparison_key path = if on_windows then platform.lower (with_slashes path) else with_slashes path

  abbrev pub all_supplied : List String → List String → Bool
  all_supplied supplied [] = true
  all_supplied supplied (p ∷ paths) =
      any (λ k. k == comparison_key p) supplied && all_supplied supplied paths

  abbrev pub supplied_paths : EvidenceBundle → List String
  supplied_paths b = map (λ (i : EvidenceItem). comparison_key i.path) b.items

  -- `parseEvidenceOnlyChildResult`
  unfoldable pub parse_child_result : Option ChildTurn → EvidenceBundle → Result ChildTurn
  parse_child_result none evidence = do
    guard (is_valid_bundle platform evidence) (validation "EvidenceBundle")
    err (evidence_policy "The evidence-only child result does not satisfy its contract.")
  parse_child_result (some turn) evidence = do
    guard (is_valid_bundle platform evidence) (validation "EvidenceBundle")
    guard (one_source turn)
        (evidence_policy "The evidence-only child result does not satisfy its contract.")
    guard (visit platform.patterns (turn_json turn))
        (evidence_policy "The evidence-only child result is not secret-safe.")
    guard (all_supplied (supplied_paths evidence) (paths_of turn))
        (evidence_policy "The evidence-only child cited a path which was not supplied.")
    ok turn
