-- ===== src/Contracts/Evidence.antt =====
-- Evidence for a consultation (src/contracts/evidence.ts): items, bundles, and what a turn of the
-- child process answers. The rules across fields and the bounds on counts are here; the shapes of
-- single texts are what the field checks leave.
use Prim.Native.Char.{code}
use balcony_agent_bridge.Base.{
  ℕ, ◌+◌, String, Bool, true, false, not, ◌&&◌, ◌||◌, Option, none, some, List, [], ◌∷◌, map, eqb,
  leb, ltb, if◌then◌else◌, is_some, is_text, any, length, ◌==◌,
}
use balcony_agent_bridge.Contracts.Envelope.{Platform}

pub data EvidenceSource : Type 0 where
  local_project peer_result pinned_git : EvidenceSource

pub record PinnedGitSnapshot : Type 0 where
  pub revision : String
  pub branch : Option String
  pub worktree_state : String
  pub commit_time_utc : String

pub record EvidenceItem : Type 0 where
  pub path : String
  pub source : EvidenceSource
  pub source_message_id : Option String
  pub git_commit : Option String
  pub git_blob_oid : Option String
  pub content : String
  pub sha256 : String
  pub byte_length : ℕ
  pub modified_at_utc : String

pub record EvidenceBundle : Type 0 where
  pub schema_version : String
  pub project : String
  pub generated_at_utc : String
  pub total_bytes : ℕ
  pub git_snapshot : Option PinnedGitSnapshot
  pub items : List EvidenceItem

pub record PeerInformationRequest : Type 0 where
  pub subject : String
  pub request : String
  pub intent : String

-- `Buffer.byteLength` of a text in UTF-8.
abbrev bytes_of : ℕ → ℕ
bytes_of c = if ltb c 128 then 1 else if ltb c 2048 then 2 else if ltb c 65536 then 3 else 4

unfoldable pub utf8_length : String → ℕ
utf8_length String.[] = 0
utf8_length (String.◌∷◌ c s) = bytes_of (code c) + utf8_length s

-- `value.replaceAll("\\", "/")`
unfoldable pub with_slashes : String → String
with_slashes String.[] = ""
with_slashes (String.◌∷◌ c s) =
    let rest = with_slashes s in if eqb (code c) 92 then String.◌∷◌ "/" rest else String.◌∷◌ c rest

-- No text stands twice: `new Set(texts).size === texts.length`.
unfoldable pub all_different : List String → Bool
all_different [] = true
all_different (s ∷ ss) = not (any (λ t. s == t) ss) && all_different ss

abbrev pub sum_bytes : List EvidenceItem → ℕ
sum_bytes [] = 0
sum_bytes (i ∷ items) = i.byte_length + sum_bytes items

-- What each source asks of the optional fields.
abbrev source_fits : EvidenceSource → EvidenceItem → Bool
source_fits local_project i =
    not (is_some i.source_message_id || is_some i.git_commit || is_some i.git_blob_oid)
source_fits peer_result i =
    is_some i.source_message_id && not (is_some i.git_commit || is_some i.git_blob_oid)
source_fits pinned_git i =
    is_some i.git_commit && is_some i.git_blob_oid && not (is_some i.source_message_id)

abbrev commit_fits : Option PinnedGitSnapshot → EvidenceSource → Option String → Bool
commit_fits (some snapshot) pinned_git commit = is_text commit snapshot.revision
commit_fits none pinned_git commit = false
commit_fits _ _ commit = true

module _ (platform : Platform) where
  -- The path under which the items of a bundle are compared.
  unfoldable pub path_key : String → String
  path_key path = platform.lower (with_slashes path)

  -- `EvidenceItemSchema`
  unfoldable pub is_valid_item : EvidenceItem → Bool
  is_valid_item i =
      leb i.byte_length 262144
      && eqb (utf8_length i.content) i.byte_length
      && platform.sha256 i.content == i.sha256
      && source_fits i.source i

  abbrev all_items : (EvidenceItem → Bool) → List EvidenceItem → Bool
  all_items p [] = true
  all_items p (i ∷ items) = p i && all_items p items

  -- `EvidenceBundleSchema`
  unfoldable pub is_valid_bundle : EvidenceBundle → Bool
  is_valid_bundle b =
      leb b.total_bytes 1048576
      && leb (length b.items) 16
      && all_items is_valid_item b.items
      && eqb (sum_bytes b.items) b.total_bytes
      && all_different (map (λ (i : EvidenceItem). path_key i.path) b.items)
      && all_items (λ i. commit_fits b.git_snapshot i.source i.git_commit) b.items
