-- ===== src/Store/Claims/Exclusion.antt =====
-- No two claims hold one message at a time.
use mathlib.Core.List.{map}
use balcony_agent_bridge.Base.{
  ℕ, String, Bool, true, false, ◌&&◌, some, List, ◌≡◌, refl, sym, ◌∙◌, ◌≢◌, arith, ◌==◌, All,
  All-weaken, All-both, All-map, All-take, is_at_most, text_lt, text_lt-eq-not,
}
use balcony_agent_bridge.Base.Table.Laws.{find-update, All-select, All-sort_by}
use balcony_agent_bridge.Base.Table.Keys.{has_key}
use balcony_agent_bridge.Time.{to_iso_string, add_seconds}
use balcony_agent_bridge.Security.{trim}
use balcony_agent_bridge.Contracts.Envelope.{Platform}
use balcony_agent_bridge.Store.Schema.{InboxRow, available, Database, ok}
use balcony_agent_bridge.Store.Inbox.{is_claimed}
use balcony_agent_bridge.Store.Claims.{
  ClaimedMessage, is_claimable, received_first, claimable_rows, with_claim, without_claim,
  claimed_message, recover_claims, claim_inbox_where, hash_token,
}
use balcony_agent_bridge.Store.Lifecycle.Rows.{IsSound, row_id, recover-Moves}
use balcony_agent_bridge.Store.Lifecycle.Steps.{claims, here, next, claim_inbox_where-eq-ok}
use balcony_agent_bridge.Store.Lifecycle.Invariant.{IsValid, change-IsValid, Reach_inbox-IsValid}
use balcony_agent_bridge.Store.Claims.Loop.{
  Stands, claimable-Stands, claimable_sound, numbered, All-numbered, message_of, claimed_row,
  ClaimOutcome, claim_inbox_total,
}

recovered-IsValid :
    (now_utc : String) (rows : List InboxRow) → IsValid rows → IsValid (recover_claims now_utc rows)
unfolding recover_claims
recovered-IsValid now_utc rows v =
    change-IsValid _ (without_claim available) rows (recover-Moves now_utc) v

module _ (now_utc : String) (rows : List InboxRow) (v : IsValid rows) (filter : InboxRow → Bool)
    (include_expired : Bool) (limit : ℕ) where
  abbrev chosen : List InboxRow
  chosen = claimable_rows filter include_expired now_utc limit (recover_claims now_utc rows)

  -- A claim that has not run out survives the recovery.
  recover_held :
      (consumer hash until : String) (r : InboxRow)
      → text_lt now_utc until ≡ true
      → Stands rows (with_claim consumer hash until r)
      → Stands (recover_claims now_utc rows) (with_claim consumer hash until r)
  unfolding recover_claims
  recover_held consumer hash until r early h = ground (
    arith,
    find-update (λ x. is_claimed x.state && is_at_most x.claim_until_utc now_utc)
        (has_key row_id r.message_id) (without_claim available) rows (λ x. refl),
    text_lt-eq-not now_utc until,
  )

  none_chosen :
      (consumer hash until : String) (r : InboxRow)
      → text_lt now_utc until ≡ true
      → Stands rows (with_claim consumer hash until r)
      → All (λ s. s.message_id ≢ r.message_id) chosen
  none_chosen consumer hash until r early h = All-weaken not_chosen _ (
      All-both _ _ _
        (claimable-Stands filter include_expired now_utc limit _
          (recovered-IsValid now_utc rows v).ids)
        (claimable_sound filter include_expired now_utc limit _))
    where
      not_chosen :
          (s : InboxRow)
          → Stands (recover_claims now_utc rows) s
            × (is_claimable filter include_expired now_utc s ≡ true)
          → s.message_id ≢ r.message_id
      not_chosen s (stands, claimable) same =
          let held = recover_held consumer hash until r early h in
          let found : some (with_claim consumer hash until r) ≡ some s =
            sym held ∙ rw (← same) stands in
          ground (arith, found)

  chosen-IsSound : All IsSound chosen
  unfolding claimable_rows
  chosen-IsSound = All-take IsSound limit _ (
      All-sort_by IsSound received_first _
        (All-select IsSound _ _ (recovered-IsValid now_utc rows v).sound))

-- The messages of a claim that succeeded are those of the rows that it picked.
module _ (platform : Platform) (consumer : String) (limit lease_seconds : ℕ)
    (filter : InboxRow → Bool) (now : ℕ) (include_expired : Bool) (db db' : Database)
    (m : List ClaimedMessage) (v : IsValid db.inbox)
    (e : claim_inbox_where platform consumer limit lease_seconds filter now include_expired db
      ≡ ok (m, db')) where
  pub claimant_named : (trim consumer == "") ≡ false
  unfolding claim_inbox_where
  claimant_named = ground arith

  abbrev pub outcome :
      ClaimOutcome platform consumer limit lease_seconds filter now include_expired db
  outcome =
      let (_, some_limit, some_term, _) =
        claim_inbox_where-eq-ok platform consumer limit lease_seconds filter now include_expired db
          db' m e in
      claim_inbox_total platform consumer limit lease_seconds filter now include_expired db v
        claimant_named some_limit some_term

  abbrev pub until : String
  until = to_iso_string (add_seconds now lease_seconds)

  pub same_messages :
      m ≡ map (message_of platform consumer until) (numbered db.draws outcome.picked)
  same_messages = ground (arith, e, outcome.succeeds)

  pub same_database : db' ≡ outcome.db'
  same_database = ground (arith, e, outcome.succeeds)

  pub outcome-IsSound : All IsSound outcome.picked
  outcome-IsSound =
      rw outcome.chosen (chosen-IsSound (to_iso_string now) db.inbox v filter include_expired limit)

  pub after-IsValid : IsValid db'.inbox
  after-IsValid =
      Reach_inbox-IsValid platform db db' v
        (next here (claims consumer limit lease_seconds filter now include_expired m e))

  -- None of the picked messages is one that another claim holds.
  outcome_apart :
      (owner hash until' : String) (r : InboxRow)
      → text_lt (to_iso_string now) until' ≡ true
      → IsSound r
      → Stands db.inbox (with_claim owner hash until' r)
      → All (λ s. s.envelope.message_id ≢ r.envelope.message_id) outcome.picked
  outcome_apart owner hash until' r early sound stands =
      All-weaken {Q = λ s. s.envelope.message_id ≢ r.envelope.message_id}
        (λ s (h : IsSound s × (s.message_id ≢ r.message_id)) same.
          h.1 (h.0.message_id ∙ same ∙ sym sound.message_id))
        outcome.picked
        (All-both _ _ _ outcome-IsSound (
          rw outcome.chosen (
            none_chosen (to_iso_string now) db.inbox v filter include_expired limit owner hash
              until' r early stands)))

  messages_apart :
      (owner hash until' : String) (r : InboxRow)
      → text_lt (to_iso_string now) until' ≡ true
      → IsSound r
      → Stands db.inbox (with_claim owner hash until' r)
      → All (λ b. b.envelope.message_id ≢ r.envelope.message_id) m
  unfolding claimed_message
  messages_apart owner hash until' r early sound stands = rw same_messages (
      All-map (λ b. b.envelope.message_id ≢ r.envelope.message_id)
        (message_of platform consumer until) (numbered db.draws outcome.picked)
        (All-numbered (λ s. s.envelope.message_id ≢ r.envelope.message_id) db.draws outcome.picked
          (outcome_apart owner hash until' r early sound stands)))

-- While a claim runs, no claim, by whomever and under whichever filter, hands out a message of it.
pub claim_exclusive :
    (platform : Platform) (consumer consumer' : String) (limit limit' seconds seconds' : ℕ)
    (filter filter' : InboxRow → Bool) (now now' : ℕ) (expired expired' : Bool)
    (db db1 db2 : Database) (m m' : List ClaimedMessage)
    → IsValid db.inbox
    → claim_inbox_where platform consumer limit seconds filter now expired db ≡ ok (m, db1)
    → claim_inbox_where platform consumer' limit' seconds' filter' now' expired' db1 ≡ ok (m', db2)
    → text_lt (to_iso_string now') (to_iso_string (add_seconds now seconds)) ≡ true
    → All (λ a. All (λ b. b.envelope.message_id ≢ a.envelope.message_id) m') m
unfolding claimed_message
claim_exclusive platform consumer consumer' limit limit' seconds seconds' filter filter' now now'
      expired expired' db db1 db2 m m' v e e' early =
    let o = outcome platform consumer limit seconds filter now expired db db1 m v e in
    let v1 = after-IsValid platform consumer limit seconds filter now expired db db1 m v e in
    let until = to_iso_string (add_seconds now seconds) in
    rw (same_messages platform consumer limit seconds filter now expired db db1 m v e) (
      All-map _ (message_of platform consumer until) (numbered db.draws o.picked) (
        All-weaken
          (λ x (h : IsSound x.1 × Stands o.db'.inbox (claimed_row platform consumer until x)).
            messages_apart platform consumer' limit' seconds' filter' now' expired' db1 db2 m' v1 e'
              consumer (hash_token platform (platform.random_token x.0)) until x.1 early h.0
              (rw (same_database platform consumer limit seconds filter now expired db db1 m v e)
                h.1))
          (numbered db.draws o.picked)
          (All-both _ _ _
            (All-numbered IsSound db.draws o.picked
              (outcome-IsSound platform consumer limit seconds filter now expired db db1 m v e))
            o.held)))
