-- ===== src/Coordination/Evidence/Merging.antt =====
-- Merged evidence is the latest item of each path (`mergeEvidence` of
-- src/coordination/autonomous-consultation-coordinator.ts).
use balcony_agent_bridge.Base.{
  ℕ, String, Bool, true, false, Option, none, some, List, [], ◌∷◌, ◌++◌, ◌≡◌, refl, arith, eq_iff,
  if◌then◌else◌, ◌==◌, is_some,
}
use balcony_agent_bridge.Base.Table.{find}
use balcony_agent_bridge.Contracts.Envelope.{Platform}
use balcony_agent_bridge.Contracts.Evidence.{
  EvidenceItem, EvidenceBundle, sum_bytes, is_valid_bundle,
}
use balcony_agent_bridge.Store.Schema.{ok}
use balcony_agent_bridge.Coordination.Evidence.{
  put_item, put_items, merge_evidence, revisions_differ,
}

module _ (platform : Platform) where
  abbrev pub has_path : String → EvidenceItem → Bool
  has_path key i = platform.lower i.path == key

  -- The last of the items under a path.
  abbrev pub latest : String → List EvidenceItem → Option EvidenceItem
  latest key [] = none
  latest key (i ∷ items) =
      let rest = latest key items in
      if is_some rest then rest else if has_path key i then some i else none

  find-put_item :
      (key : String) (i : EvidenceItem) (items : List EvidenceItem)
      → find (has_path key) (put_item platform i items)
        ≡ (if has_path key i then some i else find (has_path key) items)
  unfolding find put_item
  find-put_item key i [] = refl
  find-put_item key i (j ∷ items) = ground (
    arith,
    eq_iff (platform.lower j.path) (platform.lower i.path),
    eq_iff (platform.lower j.path) key,
    eq_iff (platform.lower i.path) key,
    find-put_item key i items,
  )

  find-put_items :
      (key : String) (items merged : List EvidenceItem)
      → find (has_path key) (put_items platform items merged)
        ≡ (if is_some (latest key items) then latest key items else find (has_path key) merged)
  unfolding put_items
  find-put_items key [] merged = refl
  find-put_items key (i ∷ items) merged =
      rw (find-put_items key items (put_item platform i merged), find-put_item key i merged)
        (split (latest key items) (has_path key i) (find (has_path key) merged) i)
    where
      split :
          (rest : Option EvidenceItem) (hit : Bool) (old : Option EvidenceItem) (i : EvidenceItem)
          → (if is_some rest then rest else (if hit then some i else old)) ≡ (
              if is_some (if is_some rest then rest else if hit then some i else none)
              then (if is_some rest then rest else if hit then some i else none)
              else old)
      split none true old i = refl
      split none false old i = refl
      split (some j) hit old i = refl

  find_nothing : (key : String) → find (has_path key) [] ≡ none
  unfolding find
  find_nothing key = refl

  -- Evidence that was merged has, under each path, the item that came last: one of the added
  -- evidence where there is one, else the one that was there. It is a valid bundle of the project,
  -- so its count and bytes are within bounds, and revisions of Git are never mixed.
  pub merge-latest :
      (existing added b : EvidenceBundle) (now : ℕ) (key : String)
      → merge_evidence platform existing added now ≡ ok b
      → (find (has_path key) b.items ≡ latest key (existing.items ++ added.items))
        × (is_valid_bundle platform b ≡ true)
        × (b.project ≡ existing.project)
        × (b.total_bytes ≡ sum_bytes b.items)
        × (revisions_differ existing.git_snapshot added.git_snapshot ≡ false)
  unfolding merge_evidence
  merge-latest existing added b now key o =
      let items : b.items ≡ put_items platform (existing.items ++ added.items) [] = ground arith in
      (
        rw (items, find-put_items key (existing.items ++ added.items) [])
            (finish (latest key (existing.items ++ added.items))),
        ground arith,
        ground arith,
        ground arith,
        ground arith,
      )
    where
      finish : (o : Option EvidenceItem) → (if is_some o then o else find (has_path key) []) ≡ o
      finish none = find_nothing key
      finish (some i) = refl
