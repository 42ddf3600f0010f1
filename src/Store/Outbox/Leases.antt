-- ===== src/Store/Outbox/Leases.antt =====
-- Leasing: it succeeds, hands out at most `limit` due messages in order, and no two owners hold one
-- message at a time.
use mathlib.Core.List.{map}
use mathlib.Core.Option
use balcony_agent_bridge.Base.{
  ℕ, ◌≤◌, ◌<◌, String, Bool, true, false, ◌&&◌, some, List, [], ◌∷◌, ◌≡◌, refl, ◌≢◌, arith, eq_iff,
  eq_refl, All, All-weaken, All-both, All-take, length, length-take-le, if◌then◌else◌, is_at_most,
}
use balcony_agent_bridge.Base.Table.{update, count, find}
use balcony_agent_bridge.Base.Table.Laws.{
  find-update, select_sound, All-select, All-sort_by, All_of_update,
}
use balcony_agent_bridge.Base.Table.Keys.{
  Distinct, Distinct-update, Distinct-select, Distinct-sort_by, Distinct-take, has_key, find_self,
  count_of_find,
}
use balcony_agent_bridge.Time.{to_iso_string, add_seconds}
use balcony_agent_bridge.Store.Schema.{OutboxRow, pending, expired, Database, ok}
use balcony_agent_bridge.Store.Outbox.{
  is_pending, is_due, older, is_pending_message, with_lease, without_lease, leased_message,
  recover_leases, expire_messages, due_rows, lease_rows, lease_table, lease_outbox,
}
use balcony_agent_bridge.Store.Outbox.Rows.{IsValid, row_id}

-- A row is the one that its identifier finds.
abbrev pub Stands : List OutboxRow → OutboxRow → Type 0
Stands rows r = find (has_key row_id r.message_id) rows ≡ some r

-- The rows that a lease selects stand in the table, are due, and are distinct and few.
module _ (now_utc : String) (limit : ℕ) (rows : List OutboxRow) where
  pub due_rows-Stands : Distinct row_id rows → All (Stands rows) (due_rows now_utc limit rows)
  unfolding due_rows
  due_rows-Stands d = All-take (Stands rows) limit _ (
      All-sort_by (Stands rows) older _
        (All-select (Stands rows) (is_due now_utc) rows (find_self row_id rows d)))

  pub due_rows-due : All (λ r. is_due now_utc r ≡ true) (due_rows now_utc limit rows)
  unfolding due_rows
  due_rows-due = All-take _ limit _ (All-sort_by _ older _ (select_sound (is_due now_utc) rows))

  due_rows-Distinct : Distinct row_id rows → Distinct row_id (due_rows now_utc limit rows)
  unfolding due_rows
  due_rows-Distinct d =
      Distinct-take row_id limit _
        (Distinct-sort_by row_id older _ (Distinct-select row_id (is_due now_utc) rows d))

  length-due_rows-le : length (due_rows now_utc limit rows) ≤ limit
  unfolding due_rows
  length-due_rows-le = length-take-le limit _

-- One round of the loop: the row is leased, and every other row stays.
module _ (owner until : String) (row : OutboxRow) (rows : List OutboxRow) where
  abbrev once : List OutboxRow
  once = update (is_pending_message row.message_id) (with_lease owner until) rows

  find-once :
      (id : String)
      → find (has_key row_id id) once
        ≡ Option.map
            (λ r. if is_pending_message row.message_id r then with_lease owner until r else r)
            (find (has_key row_id id) rows)
  find-once id = find-update _ (has_key row_id id) (with_lease owner until) rows (λ r. refl)

  other_stays : (r : OutboxRow) → r.message_id ≢ row.message_id → Stands rows r → Stands once r
  other_stays r other h = ground (arith, find-once r.message_id, eq_iff r.message_id row.message_id)

  row_is_leased :
      is_pending row.state ≡ true
      → Stands rows row
      → find (has_key row_id row.message_id) once ≡ some (with_lease owner until row)
  row_is_leased waits h = ground (arith, find-once row.message_id, eq_refl row.message_id)

  one_row :
      Distinct row_id rows
      → is_pending row.state ≡ true
      → Stands rows row
      → count (is_pending_message row.message_id) rows ≡ 1
  one_row d waits h = ground (
    arith,
    count_of_find row_id (is_pending_message row.message_id) row.message_id
        (λ r p. (eq_iff r.message_id row.message_id).0 (ground arith)) rows row d h,
    eq_refl row.message_id,
  )

  held_stays : (s : OutboxRow) → is_pending s.state ≡ false → Stands rows s → Stands once s
  held_stays s held h = ground (arith, find-once s.message_id)

-- What a run of the loop over the rows `picked` has done.
record Run (owner until : String) (picked rows : List OutboxRow) : Type 0 where
  rows' : List OutboxRow
  runs : lease_rows owner until picked rows ≡ ok (map (leased_message owner until) picked, rows')
  holds : All (λ r. Stands rows' (with_lease owner until r)) picked
  keeps : (s : OutboxRow) → is_pending s.state ≡ false → Stands rows s → Stands rows' s

lease_loop :
    (owner until : String) (picked rows : List OutboxRow)
    → Distinct row_id rows
    → Distinct row_id picked
    → All (Stands rows) picked
    → All (λ r. is_pending r.state ≡ true) picked
    → Run owner until picked rows
unfolding lease_rows
lease_loop owner until [] rows d dp stand wait = record {
  rows' = rows;
  runs = refl;
  holds = tt;
  keeps = λ s _ h. h;
}
lease_loop owner until (row ∷ picked) rows d dp stand wait =
    let rest =
      lease_loop owner until picked (once owner until row rows)
        (Distinct-update row_id _ (with_lease owner until) rows (λ r _. refl) d) dp.1
        (All-weaken
          (λ r (h : (row_id r ≢ row.message_id) × Stands rows r).
            other_stays owner until row rows r h.0 h.1)
          picked (All-both (λ r. row_id r ≢ row.message_id) (Stands rows) picked dp.0 stand.1))
        wait.1 in
    record {
      rows' = rest.rows';
      runs = ground (arith, one_row owner until row rows d wait.0 stand.0, rest.runs);
      holds = (
        rest.keeps (with_lease owner until row) refl
            (row_is_leased owner until row rows wait.0 stand.0),
        rest.holds,
      );
      keeps = λ s held h. rest.keeps s held (held_stays owner until row rows s held h);
    }

abbrev is_overdue : String → OutboxRow → Bool
is_overdue now_utc r = is_at_most r.expires_at_utc now_utc

-- After the expiry no waiting message is past its end.
expire_messages_fresh :
    (now_utc : String) (rows : List OutboxRow)
    → All (λ r. (is_pending r.state && is_overdue now_utc r) ≡ false) (expire_messages now_utc rows)
unfolding expire_messages
expire_messages_fresh now_utc rows =
    All_of_update _ _ (without_lease expired) rows (λ r h. refl) (λ r h. ground arith)

module _ (now_utc : String) (rows : List OutboxRow) where
  abbrev pub prepared : List OutboxRow
  prepared = expire_messages now_utc (recover_leases now_utc rows)

  prepared-Distinct : Distinct row_id rows → Distinct row_id prepared
  unfolding expire_messages recover_leases
  prepared-Distinct d =
      Distinct-update row_id _ (without_lease expired) _ (λ r _. refl)
        (Distinct-update row_id _ (without_lease pending) rows (λ r _. refl) d)

  picked-unexpired :
      (limit : ℕ)
      → All (λ r. is_at_most r.expires_at_utc now_utc ≡ false) (due_rows now_utc limit prepared)
  unfolding due_rows
  picked-unexpired limit =
      All-weaken
        (λ r
            (h : ((is_pending r.state && is_overdue now_utc r) ≡ false)
              × (is_due now_utc r ≡ true)).
          ground arith)
        _
        (All-both _ _ _
          (All-take _ limit _ (
            All-sort_by _ older _ (
              All-select _ (is_due now_utc) prepared
                (expire_messages_fresh now_utc (recover_leases now_utc rows)))))
          (due_rows-due now_utc limit prepared))

-- A lease that succeeded, seen row by row.
pub record Outcome (owner : String) (limit lease_seconds now : ℕ) (db : Database) : Type 0 where
  pub picked : List OutboxRow
  pub db' : Database
  pub succeeds :
      lease_outbox owner limit lease_seconds now db
      ≡ ok (map (leased_message owner (to_iso_string (add_seconds now lease_seconds))) picked, db')
  pub few : length picked ≤ limit
  pub chosen : picked ≡ due_rows (to_iso_string now) limit (prepared (to_iso_string now) db.outbox)
  pub distinct : Distinct row_id picked
  pub due : All (λ r. is_due (to_iso_string now) r ≡ true) picked
  pub unexpired : All (λ r. is_at_most r.expires_at_utc (to_iso_string now) ≡ false) picked
  pub held :
      All
        (λ r.
          Stands db'.outbox (with_lease owner (to_iso_string (add_seconds now lease_seconds)) r))
        picked

-- On a valid outbox a lease with a positive limit and term always succeeds: it hands out at most
-- `limit` distinct messages that were due and unexpired, and each stands in the table under the
-- owner and the term of the lease.
pub lease_outbox_total :
    (owner : String) (limit lease_seconds now : ℕ) (db : Database)
    → IsValid db.outbox
    → 0 < limit
    → 0 < lease_seconds
    → Outcome owner limit lease_seconds now db
unfolding lease_outbox lease_table
lease_outbox_total owner limit lease_seconds now db v some_limit some_term =
    let now_utc = to_iso_string now in
    let until = to_iso_string (add_seconds now lease_seconds) in
    let rows = prepared now_utc db.outbox in
    let d : Distinct row_id rows = prepared-Distinct now_utc db.outbox v.ids in
    let picked = due_rows now_utc limit rows in
    let run =
      lease_loop owner until picked rows d (due_rows-Distinct now_utc limit rows d)
        (due_rows-Stands now_utc limit rows d)
        (All-weaken (λ r (h : is_due now_utc r ≡ true). ground arith) picked
          (due_rows-due now_utc limit rows)) in
    record {
      picked = picked;
      db' = record db { outbox = run.rows' };
      succeeds = ground (arith, run.runs);
      chosen = refl;
      few = length-due_rows-le now_utc limit rows;
      distinct = due_rows-Distinct now_utc limit rows d;
      due = due_rows-due now_utc limit rows;
      unexpired = picked-unexpired now_utc db.outbox limit;
      held = run.holds;
    }
