-- ===== src/Store/Claims/Loop.antt =====
-- The loop of `claimInboxWhere`: it succeeds, and what it leaves in the table.
use mathlib.Core.List.{map}
use mathlib.Core.Option
use balcony_agent_bridge.Base.{
  ℕ, suc, ◌≤◌, ◌<◌, String, Bool, true, false, some, List, [], ◌∷◌, ◌≡◌, refl, ◌≢◌, arith, eq_iff,
  eq_refl, ◌==◌, All, All-weaken, All-both, All-take, length, length-take-le, if◌then◌else◌,
}
use balcony_agent_bridge.Base.Table.{update, count, find}
use balcony_agent_bridge.Base.Table.Laws.{find-update, select_sound, All-select, All-sort_by}
use balcony_agent_bridge.Base.Table.Keys.{
  Distinct, Distinct-update, Distinct-select, Distinct-sort_by, Distinct-take, has_key, find_self,
  count_of_find,
}
use balcony_agent_bridge.Time.{to_iso_string, add_seconds}
use balcony_agent_bridge.Contracts.Envelope.{Platform}
use balcony_agent_bridge.Store.Schema.{InboxRow, Database, ok}
use balcony_agent_bridge.Store.Inbox.{is_available}
use balcony_agent_bridge.Store.Claims.{
  ClaimedMessage, is_claimable, received_first, claimable_rows, is_available_message, with_claim,
  without_claim, claimed_message, hash_token, claim_rows, recover_claims, claim_inbox_where,
}
use balcony_agent_bridge.Store.Lifecycle.Rows.{row_id}
use balcony_agent_bridge.Store.Lifecycle.Invariant.{IsValid}
use balcony_agent_bridge.Security.{trim}

-- A row is the one that its identifier finds.
abbrev pub Stands : List InboxRow → InboxRow → Type 0
Stands rows r = find (has_key row_id r.message_id) rows ≡ some r

-- The rows that a claim selects stand in the table, pass the tests, and are distinct and few.
module _ (filter : InboxRow → Bool) (include_expired : Bool) (now_utc : String) (limit : ℕ)
    (rows : List InboxRow) where
  abbrev chosen : List InboxRow
  chosen = claimable_rows filter include_expired now_utc limit rows

  pub claimable-Stands : Distinct row_id rows → All (Stands rows) chosen
  unfolding claimable_rows
  claimable-Stands d = All-take (Stands rows) limit _ (
      All-sort_by (Stands rows) received_first _ (
        All-select (Stands rows) (is_claimable filter include_expired now_utc) rows
          (find_self row_id rows d)))

  pub claimable_sound : All (λ r. is_claimable filter include_expired now_utc r ≡ true) chosen
  unfolding claimable_rows
  claimable_sound = All-take _ limit _ (All-sort_by _ received_first _ (select_sound _ rows))

  claimable-Distinct : Distinct row_id rows → Distinct row_id chosen
  unfolding claimable_rows
  claimable-Distinct d =
      Distinct-take row_id limit _
        (Distinct-sort_by row_id received_first _ (Distinct-select row_id _ rows d))

  length-claimable-le : length chosen ≤ limit
  unfolding claimable_rows
  length-claimable-le = length-take-le limit _

-- One round of the loop: the row is claimed, and every other row stays.
module _ (consumer hash until : String) (row : InboxRow) (rows : List InboxRow) where
  abbrev once : List InboxRow
  once = update (is_available_message row.message_id) (with_claim consumer hash until) rows

  find-once :
      (id : String)
      → find (has_key row_id id) once
        ≡ Option.map
            (λ r.
              if is_available_message row.message_id r then with_claim consumer hash until r else r)
            (find (has_key row_id id) rows)
  find-once id = find-update _ (has_key row_id id) (with_claim consumer hash until) rows (λ r. refl)

  other_stays : (r : InboxRow) → r.message_id ≢ row.message_id → Stands rows r → Stands once r
  other_stays r other h = ground (arith, find-once r.message_id, eq_iff r.message_id row.message_id)

  row_is_claimed :
      is_available row.state ≡ true
      → Stands rows row
      → find (has_key row_id row.message_id) once ≡ some (with_claim consumer hash until row)
  row_is_claimed waits h = ground (arith, find-once row.message_id, eq_refl row.message_id)

  one_row :
      Distinct row_id rows
      → is_available row.state ≡ true
      → Stands rows row
      → count (is_available_message row.message_id) rows ≡ 1
  one_row d waits h = ground (
    arith,
    count_of_find row_id (is_available_message row.message_id) row.message_id
        (λ r p. (eq_iff r.message_id row.message_id).0 (ground arith)) rows row d h,
    eq_refl row.message_id,
  )

  held_stays : (s : InboxRow) → is_available s.state ≡ false → Stands rows s → Stands once s
  held_stays s held h = ground (arith, find-once s.message_id)

-- The rows with the numbers of the tokens that they take.
abbrev pub numbered : ℕ → List InboxRow → List (ℕ × InboxRow)
numbered n [] = []
numbered n (r ∷ rs) = (n, r) ∷ numbered (suc n) rs

pub All-numbered {ℓ} :
    (P : InboxRow → Type ℓ) (n : ℕ) (rs : List InboxRow)
    → All P rs
    → All (λ x. P x.1) (numbered n rs)
All-numbered P n [] h = tt
All-numbered P n (r ∷ rs) h = (h.0, All-numbered P (suc n) rs h.1)

module _ (platform : Platform) (consumer until : String) where
  -- The message that a numbered row yields, and the row that stands after it.
  abbrev pub message_of : ℕ × InboxRow → ClaimedMessage
  message_of x = claimed_message (platform.random_token x.0) until x.1

  abbrev pub claimed_row : ℕ × InboxRow → InboxRow
  claimed_row x = with_claim consumer (hash_token platform (platform.random_token x.0)) until x.1

  -- What a run of the loop over the rows `picked` has done.
  record Run (draws : ℕ) (picked rows : List InboxRow) : Type 0 where
    rows' : List InboxRow
    draws' : ℕ
    runs :
        claim_rows platform consumer until draws picked rows
        ≡ ok (map message_of (numbered draws picked), rows', draws')
    holds : All (λ x. Stands rows' (claimed_row x)) (numbered draws picked)
    keeps : (s : InboxRow) → is_available s.state ≡ false → Stands rows s → Stands rows' s

  claim_loop :
      (draws : ℕ) (picked rows : List InboxRow)
      → Distinct row_id rows
      → Distinct row_id picked
      → All (Stands rows) picked
      → All (λ r. is_available r.state ≡ true) picked
      → Run draws picked rows
  unfolding claim_rows
  claim_loop draws [] rows d dp stand wait = record {
    rows' = rows;
    draws' = draws;
    runs = refl;
    holds = tt;
    keeps = λ s _ h. h;
  }
  claim_loop draws (row ∷ picked) rows d dp stand wait =
      let hash = hash_token platform (platform.random_token draws) in
      let rest =
        claim_loop (suc draws) picked (once consumer hash until row rows)
          (Distinct-update row_id _ (with_claim consumer hash until) rows (λ r _. refl) d) dp.1
          (All-weaken
            (λ r (h : (row_id r ≢ row.message_id) × Stands rows r).
              other_stays consumer hash until row rows r h.0 h.1)
            picked (All-both (λ r. row_id r ≢ row.message_id) (Stands rows) picked dp.0 stand.1))
          wait.1 in
      record {
        rows' = rest.rows';
        draws' = rest.draws';
        runs = ground (arith, one_row consumer hash until row rows d wait.0 stand.0, rest.runs);
        holds = (
          rest.keeps (with_claim consumer hash until row) refl
              (row_is_claimed consumer hash until row rows wait.0 stand.0),
          rest.holds,
        );
        keeps = λ s held h. rest.keeps s held (held_stays consumer hash until row rows s held h);
      }

-- A claim that succeeded, seen row by row.
pub record ClaimOutcome (platform : Platform) (consumer : String) (limit lease_seconds : ℕ)
    (filter : InboxRow → Bool) (now : ℕ) (include_expired : Bool) (db : Database) : Type 0 where
  pub picked : List InboxRow
  pub db' : Database
  pub succeeds :
      claim_inbox_where platform consumer limit lease_seconds filter now include_expired db
      ≡ ok (
        map
            (message_of platform consumer (to_iso_string (add_seconds now lease_seconds)))
            (numbered db.draws picked),
        db',
      )
  pub few : length picked ≤ limit
  pub chosen :
      picked
      ≡ claimable_rows filter include_expired
          (to_iso_string now)
          limit
          (recover_claims (to_iso_string now) db.inbox)
  pub distinct : Distinct row_id picked
  pub eligible : All (λ r. is_claimable filter include_expired (to_iso_string now) r ≡ true) picked
  pub held :
      All
        (λ x.
          Stands db'.inbox
            (claimed_row platform consumer (to_iso_string (add_seconds now lease_seconds)) x))
        (numbered db.draws picked)

recover-Distinct :
    (now_utc : String) (rows : List InboxRow)
    → Distinct row_id rows
    → Distinct row_id (recover_claims now_utc rows)
unfolding recover_claims
recover-Distinct now_utc rows d = Distinct-update row_id _ (without_claim _) rows (λ r _. refl) d

-- On a valid inbox a claim by a named consumer, with a positive limit and term, always succeeds:
-- it hands out at most `limit` distinct messages that were available, unexpired unless expired
-- ones were asked for, and accepted by the filter, each with a token of its own under whose hash
-- the message stands claimed in the table.
pub claim_inbox_total :
    (platform : Platform) (consumer : String) (limit lease_seconds : ℕ) (filter : InboxRow → Bool)
    (now : ℕ) (include_expired : Bool) (db : Database)
    → IsValid db.inbox
    → (trim consumer == "") ≡ false
    → 0 < limit
    → 0 < lease_seconds
    → ClaimOutcome platform consumer limit lease_seconds filter now include_expired db
unfolding claim_inbox_where
claim_inbox_total platform consumer limit lease_seconds filter now include_expired db v named
      some_limit some_term =
    let now_utc = to_iso_string now in
    let until = to_iso_string (add_seconds now lease_seconds) in
    let rows = recover_claims now_utc db.inbox in
    let d : Distinct row_id rows = recover-Distinct now_utc db.inbox v.ids in
    let picked = claimable_rows filter include_expired now_utc limit rows in
    let sound = claimable_sound filter include_expired now_utc limit rows in
    let run =
      claim_loop platform consumer until db.draws picked rows d
        (claimable-Distinct filter include_expired now_utc limit rows d)
        (claimable-Stands filter include_expired now_utc limit rows d)
        (All-weaken (λ r (h : is_claimable filter include_expired now_utc r ≡ true). ground arith)
          picked sound) in
    record {
      picked = picked;
      db' = record db { inbox = run.rows'; draws = run.draws' };
      succeeds = ground (arith, run.runs);
      few = length-claimable-le filter include_expired now_utc limit rows;
      chosen = refl;
      distinct = claimable-Distinct filter include_expired now_utc limit rows d;
      eligible = sound;
      held = run.holds;
    }
