-- ===== src/Store/Outbox/Exclusion.antt =====
-- No two leases hold one message at a time.
use mathlib.Core.List.{map}
use balcony_agent_bridge.Base.{
  ℕ, String, true, ◌&&◌, ◌||◌, some, List, ◌≡◌, refl, sym, ◌∙◌, ◌≢◌, arith, All, All-weaken,
  All-both, All-map, All-take, if◌then◌else◌, is_at_most, text_lt, text_lt-eq-not,
}
use balcony_agent_bridge.Base.Table.{find}
use balcony_agent_bridge.Base.Table.Laws.{find-update, All-select, All-sort_by}
use balcony_agent_bridge.Base.Table.Keys.{has_key}
use balcony_agent_bridge.Time.{to_iso_string, add_seconds}
use balcony_agent_bridge.Store.Schema.{OutboxRow, pending, expired, Database, ok}
use balcony_agent_bridge.Store.Outbox.{
  LeasedMessage, is_pending, is_leased, is_due, older, with_lease, without_lease, leased_message,
  recover_leases, expire_messages, due_rows, lease_outbox,
}
use balcony_agent_bridge.Store.Outbox.Rows.{
  IsSound, IsValid, row_id, lease_outbox-eq-ok, recover-Moves, expire-Moves,
}
use balcony_agent_bridge.Store.Outbox.Steps.{leases, here, next}
use balcony_agent_bridge.Store.Outbox.Invariant.{Reach-IsValid, change-IsValid}
use balcony_agent_bridge.Store.Outbox.Leases.{
  Stands, due_rows-Stands, due_rows-due, prepared, Outcome, lease_outbox_total,
}

module _ (now_utc : String) (rows : List OutboxRow) where
  prepared-IsValid : IsValid rows → IsValid (prepared now_utc rows)
  unfolding recover_leases expire_messages
  prepared-IsValid v =
      change-IsValid _ (without_lease expired) _ (expire-Moves now_utc)
        (change-IsValid _ (without_lease pending) rows (recover-Moves now_utc) v)

  recover_held :
      (owner until : String) (r : OutboxRow)
      → text_lt now_utc until ≡ true
      → Stands rows (with_lease owner until r)
      → Stands (recover_leases now_utc rows) (with_lease owner until r)
  unfolding recover_leases
  recover_held owner until r early h = ground (
    arith,
    find-update (λ x. is_leased x.state && is_at_most x.lease_until_utc now_utc)
        (has_key row_id r.message_id) (without_lease pending) rows (λ x. refl),
    text_lt-eq-not now_utc until,
  )

  abbrev after_expiry : OutboxRow → OutboxRow
  after_expiry s =
      if (is_pending s.state || is_leased s.state) && is_at_most s.expires_at_utc now_utc
      then without_lease expired s
      else s

  expire_found :
      (s : OutboxRow)
      → Stands rows s
      → find (has_key row_id s.message_id) (expire_messages now_utc rows) ≡ some (after_expiry s)
  unfolding expire_messages
  expire_found s h = ground (
    arith,
    find-update
        (λ x. (is_pending x.state || is_leased x.state) && is_at_most x.expires_at_utc now_utc)
        (has_key row_id s.message_id) (without_lease expired) rows (λ x. refl),
  )

module _ (now_utc : String) (rows : List OutboxRow) (v : IsValid rows) (owner until : String)
    (r : OutboxRow) (early : text_lt now_utc until ≡ true)
    (h : Stands rows (with_lease owner until r)) where
  -- A lease that has not run out keeps its row from being picked.
  not_picked :
      (s : OutboxRow)
      → Stands (prepared now_utc rows) s × (is_due now_utc s ≡ true)
      → s.message_id ≢ r.message_id
  not_picked s (stands, due) same =
      let held =
        expire_found now_utc (recover_leases now_utc rows) (with_lease owner until r)
          (recover_held now_utc rows owner until r early h) in
      let found : some
            (after_expiry now_utc (recover_leases now_utc rows) (with_lease owner until r))
          ≡ some s =
        sym held ∙ rw (← same) stands in
      ground (arith, found)

  none_picked :
      (limit : ℕ)
      → All (λ s. s.message_id ≢ r.message_id) (due_rows now_utc limit (prepared now_utc rows))
  none_picked limit = All-weaken not_picked _ (
      All-both _ _ _ (due_rows-Stands now_utc limit _ (prepared-IsValid now_utc rows v).ids)
        (due_rows-due now_utc limit _))

pub picked-IsSound :
    (now_utc : String) (limit : ℕ) (rows : List OutboxRow)
    → IsValid rows
    → All IsSound (due_rows now_utc limit (prepared now_utc rows))
unfolding due_rows
picked-IsSound now_utc limit rows v = All-take IsSound limit _ (
    All-sort_by IsSound older _
      (All-select IsSound (is_due now_utc) _ (prepared-IsValid now_utc rows v).sound))

-- The messages of a lease that succeeded are those of the rows that it picked.
module _ (owner : String) (limit lease_seconds now : ℕ) (db db' : Database) (m : List LeasedMessage)
    (v : IsValid db.outbox) (e : lease_outbox owner limit lease_seconds now db ≡ ok (m, db')) where
  abbrev outcome : Outcome owner limit lease_seconds now db
  outcome =
      let (_, some_limit, some_term, _) =
        lease_outbox-eq-ok owner limit lease_seconds now db db' m e in
      lease_outbox_total owner limit lease_seconds now db v some_limit some_term

  same_messages :
      m ≡ map (leased_message owner (to_iso_string (add_seconds now lease_seconds))) outcome.picked
  same_messages = ground (arith, e, outcome.succeeds)

  same_database : db' ≡ outcome.db'
  same_database = ground (arith, e, outcome.succeeds)

  outcome-IsSound : All IsSound outcome.picked
  outcome-IsSound = rw outcome.chosen (picked-IsSound (to_iso_string now) limit db.outbox v)

  -- None of the picked messages is one that another lease holds.
  outcome_apart :
      (owner' until : String) (r : OutboxRow)
      → text_lt (to_iso_string now) until ≡ true
      → IsSound r
      → Stands db.outbox (with_lease owner' until r)
      → All (λ s. s.envelope.message_id ≢ r.envelope.message_id) outcome.picked
  outcome_apart owner' until r early sound stands =
      All-weaken {Q = λ s. s.envelope.message_id ≢ r.envelope.message_id}
        (λ s (h : IsSound s × (s.message_id ≢ r.message_id)) same.
          h.1 (h.0.message_id ∙ same ∙ sym sound.message_id))
        outcome.picked
        (All-both _ _ _ outcome-IsSound (
          rw outcome.chosen
            (none_picked (to_iso_string now) db.outbox v owner' until r early stands limit)))

-- While a lease runs, a second lease by whomever hands out none of its messages.
pub lease_exclusive :
    (owner owner' : String) (limit limit' seconds seconds' now now' : ℕ) (db db1 db2 : Database)
    (m m' : List LeasedMessage)
    → IsValid db.outbox
    → lease_outbox owner limit seconds now db ≡ ok (m, db1)
    → lease_outbox owner' limit' seconds' now' db1 ≡ ok (m', db2)
    → text_lt (to_iso_string now') (to_iso_string (add_seconds now seconds)) ≡ true
    → All (λ a. All (λ b. b.envelope.message_id ≢ a.envelope.message_id) m') m
unfolding leased_message
lease_exclusive owner owner' limit limit' seconds seconds' now now' db db1 db2 m m' v e e' early =
    let o = outcome owner limit seconds now db db1 m v e in
    let v1 : IsValid db1.outbox =
      Reach-IsValid v (next here (leases owner limit seconds now m e)) in
    let until = to_iso_string (add_seconds now seconds) in
    rw (same_messages owner limit seconds now db db1 m v e) (
      All-map _ (leased_message owner until) o.picked (
        All-weaken
          (λ r (h : IsSound r × Stands o.db'.outbox (with_lease owner until r)).
            rw (same_messages owner' limit' seconds' now' db1 db2 m' v1 e') (
              All-map (λ b. b.envelope.message_id ≢ r.envelope.message_id) _ _
                (outcome_apart owner' limit' seconds' now' db1 db2 m' v1 e' owner until r early h.0
                  (rw (same_database owner limit seconds now db db1 m v e) h.1))))
          o.picked (All-both _ _ _ (outcome-IsSound owner limit seconds now db db1 m v e) o.held)))
