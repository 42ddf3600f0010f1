-- ===== src/Coordination/Evidence.antt =====
-- Evidence as the coordinator gathers and cites it (`emptyEvidence`, `mergeEvidence`,
-- `peerEvidenceItem`, `buildEvidenceReferences`).
pub mod Merging
use balcony_agent_bridge.Base.{
  ℕ, String, Bool, true, false, not, ◌&&◌, Option, none, some, List, [], ◌∷◌, ◌++◌, map, any,
  if◌then◌else◌, ◌==◌, ◌+++◌,
}
use balcony_agent_bridge.Time.{to_iso_string}
use balcony_agent_bridge.Contracts.Payload.{
  EvidenceKind, repository_path, git_commit, obsidian_note, test_run, bridge_message,
  EvidenceReference,
}
use balcony_agent_bridge.Contracts.Envelope.{Envelope, Platform}
use balcony_agent_bridge.Contracts.Envelope.Creation.{or_else, non_empty}
use balcony_agent_bridge.Contracts.Evidence.{
  EvidenceSource, local_project, peer_result, pinned_git, PinnedGitSnapshot, EvidenceItem,
  EvidenceBundle, sum_bytes, path_key, utf8_length, is_valid_bundle,
}
use balcony_agent_bridge.Store.Schema.{
  ConsultationRun, validation, evidence_policy, Result, ok, err, ◌>>◌, guard,
}

abbrev empty_bundle : String → ℕ → EvidenceBundle
empty_bundle project now = record {
  schema_version = "1.0";
  project = project;
  generated_at_utc = to_iso_string now;
  total_bytes = 0;
  git_snapshot = none;
  items = [];
}

-- Two snapshots of different revisions.
abbrev pub revisions_differ : Option PinnedGitSnapshot → Option PinnedGitSnapshot → Bool
revisions_differ (some a) (some b) = not (a.revision == b.revision)
revisions_differ _ _ = false

abbrev newer_snapshot :
    Option PinnedGitSnapshot → Option PinnedGitSnapshot → Option PinnedGitSnapshot
newer_snapshot none old = old
newer_snapshot (some s) old = some s

abbrev same_evidence_kind : EvidenceKind → EvidenceKind → Bool
same_evidence_kind repository_path repository_path = true
same_evidence_kind git_commit git_commit = true
same_evidence_kind obsidian_note obsidian_note = true
same_evidence_kind test_run test_run = true
same_evidence_kind bridge_message bridge_message = true
same_evidence_kind _ _ = false

-- `references.set` under the key `kind:value`.
abbrev put_reference : EvidenceReference → List EvidenceReference → List EvidenceReference
put_reference r rs =
    if any (λ (s : EvidenceReference). same_evidence_kind s.kind r.kind && s.value == r.value) rs
    then rs
    else rs ++ r ∷ []

abbrev main_reference : EvidenceSource → EvidenceItem → EvidenceReference
main_reference peer_result i = record {
  kind = bridge_message;
  value = or_else i.source_message_id "";
}
main_reference _ i = record { kind = repository_path; value = i.path }

abbrev put_commit : Option String → List EvidenceReference → List EvidenceReference
put_commit none rs = rs
put_commit (some commit) rs = put_reference (record { kind = git_commit; value = commit }) rs

module _ (platform : Platform) where
  -- `EvidenceBundleSchema.parse`
  abbrev pub parsed_bundle : EvidenceBundle → Result EvidenceBundle
  parsed_bundle b = guard (is_valid_bundle platform b) (validation "EvidenceBundle") >> ok b

  -- `emptyEvidence`
  unfoldable pub empty_evidence : String → ℕ → Result EvidenceBundle
  empty_evidence project now = parsed_bundle (empty_bundle project now)

  -- `items.set(item.path.toLowerCase(), item)`: a known key keeps its place.
  unfoldable pub put_item : EvidenceItem → List EvidenceItem → List EvidenceItem
  put_item i [] = i ∷ []
  put_item i (j ∷ items) =
      let rest = put_item i items in
      if platform.lower j.path == platform.lower i.path then i ∷ items else j ∷ rest

  unfoldable pub put_items : List EvidenceItem → List EvidenceItem → List EvidenceItem
  put_items [] merged = merged
  put_items (i ∷ items) merged = put_items items (put_item i merged)

  -- `mergeEvidence`
  unfoldable pub merge_evidence : EvidenceBundle → EvidenceBundle → ℕ → Result EvidenceBundle
  merge_evidence existing added now = do
    guard (not (revisions_differ existing.git_snapshot added.git_snapshot))
        (evidence_policy "Consultation evidence cannot mix Git revisions.")
    let merged = put_items (existing.items ++ added.items) []
    parsed_bundle (record {
      schema_version = "1.0";
      project = existing.project;
      generated_at_utc = to_iso_string now;
      total_bytes = sum_bytes merged;
      git_snapshot = newer_snapshot added.git_snapshot existing.git_snapshot;
      items = merged;
    })

  -- `peerEvidenceItem`
  unfoldable pub peer_evidence_item : Envelope → EvidenceItem
  peer_evidence_item e = record {
    path = ".bridge/peer-results/" +++ e.message_id +++ ".txt";
    source = peer_result;
    source_message_id = some e.message_id;
    git_commit = none;
    git_blob_oid = none;
    content = e.payload.body;
    sha256 = platform.sha256 e.payload.body;
    byte_length = utf8_length e.payload.body;
    modified_at_utc = e.created_at_utc;
  }

  abbrev references_of :
      List String → List EvidenceItem → List EvidenceReference → List EvidenceReference
  references_of selected [] rs = rs
  references_of selected (i ∷ items) rs = references_of selected items (
      if any (λ k. k == path_key platform i.path) selected
      then put_commit (non_empty i.git_commit) (put_reference (main_reference i.source i) rs)
      else rs)

  -- `buildEvidenceReferences`
  unfoldable pub build_evidence_references : ConsultationRun → List EvidenceReference
  build_evidence_references run =
      references_of (map (path_key platform) run.final_evidence_paths) run.evidence.items []
