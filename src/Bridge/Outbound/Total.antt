-- ===== src/Bridge/Outbound/Total.antt =====
-- A run over the outbox does not throw, and leaves none of its messages leased.
use mathlib.Core.List.{map}
use mathlib.Core.Option
use balcony_agent_bridge.Base.{
  ℕ, suc, ◌+◌, String, false, Option, none, some, List, [], ◌∷◌, any, ◌≡◌, refl, sym, ap, inl, inr,
  ◌≢◌, arith, eq_iff, eq_refl, Bool-cases, Option-cases, ◌==◌, if◌then◌else◌, All, All-weaken,
  All-both,
}
use balcony_agent_bridge.Base.Table.{update, find}
use balcony_agent_bridge.Base.Table.Laws.{find-update}
use balcony_agent_bridge.Base.Table.Keys.{Distinct, Distinct-update, has_key, count_of_find}
use balcony_agent_bridge.Time.{to_iso_string, add_seconds}
use balcony_agent_bridge.Security.{normalize_error_code}
use balcony_agent_bridge.Contracts.Envelope.{Envelope, Platform}
use balcony_agent_bridge.Store.Schema.{OutboxRow, Database, ok, quarantined}
use balcony_agent_bridge.Store.Outbox.{
  LeasedMessage, is_leased, is_leased_by, with_lease, leased_message, as_sent, as_failed, as_retry,
  settle_lease, mark_outbox_sent, release_outbox_lease, quarantine_outbox, lease_outbox,
}
use balcony_agent_bridge.Store.Outbox.Rows.{IsSound, IsValid, row_id}
use balcony_agent_bridge.Store.Outbox.Leases.{Stands, lease_outbox_total}
use balcony_agent_bridge.Store.Outbox.Exclusion.{picked-IsSound}
use balcony_agent_bridge.Store.Outbox.Steps.{here, next, leases}
use balcony_agent_bridge.Store.Outbox.Invariant.{Reach-IsValid}
use balcony_agent_bridge.Store.Deliveries.{record_delivery_attempt}
use balcony_agent_bridge.Bridge.Inbound.{BridgeConfig}
use balcony_agent_bridge.Bridge.Outbound.{
  is_permanent, World, Progress, retry_delay_milliseconds, record_outbound_attempt, written, tick,
  send_failed, send_done, send_unauthorized, send_item, send_items, run_outbound_once,
}

-- A round on the row `r` has written it, and nothing else, and it is no longer leased.
record Done (owner : String) (r : OutboxRow) (rows : List OutboxRow) (p : Progress) : Type 0 where
  change : OutboxRow → OutboxRow
  keeps_id : (x : OutboxRow) → (change x).message_id ≡ x.message_id
  keeps_envelope : (x : OutboxRow) → (change x).envelope ≡ x.envelope
  frees : (x : OutboxRow) → is_leased (change x).state ≡ false
  calm : p.thrown ≡ none
  writes : p.world.database.outbox ≡ update (is_leased_by r.message_id owner) change rows

module _ (owner until : String) (r : OutboxRow) (db : Database) (d : Distinct row_id db.outbox)
    (h : Stands db.outbox (with_lease owner until r)) where
  settle_ok :
      (f : OutboxRow → OutboxRow)
      → settle_lease r.message_id owner f db
        ≡ ok (record db { outbox = update (is_leased_by r.message_id owner) f db.outbox })
  unfolding settle_lease
  settle_ok f = ground (
    arith,
    count_of_find row_id (is_leased_by r.message_id owner) r.message_id
        (λ x p. (eq_iff x.message_id r.message_id).0 (ground arith)) db.outbox
        (with_lease owner until r) d h,
    eq_refl r.message_id,
    eq_refl owner,
  )

module _ (platform : Platform) (config : BridgeConfig) (owner : String)
    (send : ℕ → Envelope → Option String) (clock : ℕ → ℕ) (until : String) (r : OutboxRow)
    (item : LeasedMessage) (same : item.envelope.message_id ≡ r.message_id) where
  unauthorized-Done :
      (started : ℕ) (w : World)
      → Distinct row_id w.database.outbox
      → Stands w.database.outbox (with_lease owner until r)
      → Done owner r w.database.outbox
          (send_unauthorized platform config owner send clock item started w)
  unfolding send_unauthorized written record_outbound_attempt record_delivery_attempt
      quarantine_outbox
  unauthorized-Done started w d h =
      let settled =
        settle_ok owner until r w.database d h
          (as_failed quarantined (normalize_error_code "UnauthorizedTargetNode")) in
      record {
        change = as_failed quarantined (normalize_error_code "UnauthorizedTargetNode");
        keeps_id = λ x. refl;
        keeps_envelope = λ x. refl;
        frees = λ x. refl;
        calm = rw (same, settled) refl;
        writes = rw (same, settled) refl;
      }

  failed-Done :
      (started : ℕ) (code : String) (w : World)
      → Distinct row_id w.database.outbox
      → Stands w.database.outbox (with_lease owner until r)
      → Done owner r w.database.outbox
          (send_failed platform config owner send clock item started code w)
  unfolding send_failed written record_outbound_attempt record_delivery_attempt quarantine_outbox
      release_outbox_lease
  failed-Done started code w d h = elim (Bool-cases (is_permanent code)) [
    | inl permanent ↦
        let settled =
          settle_ok owner until r w.database d h
            (as_failed quarantined (normalize_error_code code)) in
        record {
          change = as_failed quarantined (normalize_error_code code);
          keeps_id = λ x. refl;
          keeps_envelope = λ x. refl;
          frees = λ x. refl;
          calm = rw (permanent, same, settled) refl;
          writes = rw (permanent, same, settled) refl;
        }
    | inr passing ↦
        let retry_at = clock (suc w.readings) + retry_delay_milliseconds item.attempt_number in
        let f = as_retry (to_iso_string retry_at) (normalize_error_code code) in
        let settled = settle_ok owner until r w.database d h f in
        record {
          change = f;
          keeps_id = λ x. refl;
          keeps_envelope = λ x. refl;
          frees = λ x. refl;
          calm = rw (passing, same, settled) refl;
          writes = rw (passing, same, settled) refl;
        }
  ]

  sent-Done :
      (started : ℕ) (w : World)
      → Distinct row_id w.database.outbox
      → Stands w.database.outbox (with_lease owner until r)
      → Done owner r w.database.outbox (send_done platform config owner send clock item started w)
  unfolding send_done record_outbound_attempt record_delivery_attempt mark_outbox_sent
  sent-Done started w d h =
      let f = as_sent (to_iso_string (clock w.readings)) in
      let settled = settle_ok owner until r w.database d h f in
      record {
        change = f;
        keeps_id = λ x. refl;
        keeps_envelope = λ x. refl;
        frees = λ x. refl;
        calm = rw (same, send_done, settled) refl;
        writes = rw (same, send_done, settled) refl;
      }

  item-Done :
      (w : World)
      → Distinct row_id w.database.outbox
      → Stands w.database.outbox (with_lease owner until r)
      → Done owner r w.database.outbox (send_item platform config owner send clock item w)
  unfolding send_item
  item-Done w d h =
      elim (Bool-cases (any (λ id. id == item.envelope.target_system) config.authorized_node_ids)) [
        | inr unknown ↦ rw (unknown, send_item) (unauthorized-Done (clock w.readings) (tick w) d h)
        | inl known ↦
            let w' : World = record w { readings = suc w.readings; sends = suc w.sends } in
            elim (Option-cases (send w.sends item.envelope)) [
              | inl done ↦ rw (known, send_item, done) (sent-Done (clock w.readings) w' d h)
              | inr (code, failed) ↦
                  rw (known, send_item, failed)
                    (failed-Done (clock w.readings) (normalize_error_code code) w' d h)
            ]
      ]

-- The row of a message that the run has dealt with.
abbrev pub Freed : List OutboxRow → OutboxRow → Type 0
Freed rows r =
    (s : OutboxRow) × (find (has_key row_id r.message_id) rows ≡ some s)
    × (s.envelope ≡ r.envelope)
    × (is_leased s.state ≡ false)

module _ (owner until : String) (r : OutboxRow) (rows : List OutboxRow) (p : Progress)
    (done : Done owner r rows p) where
  done-Distinct : Distinct row_id rows → Distinct row_id p.world.database.outbox
  done-Distinct d =
      rw done.writes (Distinct-update row_id _ done.change rows (λ x _. done.keeps_id x) d)

  done-find :
      (id : String)
      → find (has_key row_id id) p.world.database.outbox
        ≡ Option.map
            (λ x. if is_leased_by r.message_id owner x then done.change x else x)
            (find (has_key row_id id) rows)
  done-find id = rw done.writes (
      find-update (is_leased_by r.message_id owner) (has_key row_id id) done.change rows
        (λ x. ap (λ (k : String). k == id) (done.keeps_id x)))

  done-Freed : Stands rows (with_lease owner until r) → Freed p.world.database.outbox r
  done-Freed h = (
    done.change (with_lease owner until r),
    ground (arith, done-find r.message_id, h, eq_refl r.message_id, eq_refl owner),
    done.keeps_envelope (with_lease owner until r),
    done.frees (with_lease owner until r),
  )

  other_stands :
      (x : OutboxRow)
      → x.message_id ≢ r.message_id
      → Stands rows (with_lease owner until x)
      → Stands p.world.database.outbox (with_lease owner until x)
  other_stands x other h =
      ground (arith, done-find x.message_id, h, eq_iff x.message_id r.message_id)

  others_stay : (x : OutboxRow) → Freed rows x → Freed p.world.database.outbox x
  others_stay x (s, found, envelope, idle) =
      (s, ground (arith, done-find x.message_id, found, idle), envelope, idle)

module _ (platform : Platform) (config : BridgeConfig) (owner : String)
    (send : ℕ → Envelope → Option String) (clock : ℕ → ℕ) (until : String) where
  -- What the loop has done with the rows `picked`.
  record Sweep (picked : List OutboxRow) (rows : List OutboxRow) (p : Progress) : Type 0 where
    calm : p.thrown ≡ none
    frees : All (Freed p.world.database.outbox) picked
    keeps : (x : OutboxRow) → Freed rows x → Freed p.world.database.outbox x

  all_items :
      (picked : List OutboxRow) (w : World)
      → Distinct row_id w.database.outbox
      → Distinct row_id picked
      → All IsSound picked
      → All (λ r. Stands w.database.outbox (with_lease owner until r)) picked
      → Sweep picked w.database.outbox
          (send_items platform config owner send clock (map (leased_message owner until) picked) w)
  unfolding send_items leased_message
  all_items [] w d dp sound stand = record { calm = refl; frees = tt; keeps = λ x h. h }
  all_items (r ∷ picked) w d dp sound stand =
      let p = send_item platform config owner send clock (leased_message owner until r) w in
      let done =
        item-Done platform config owner send clock until r (leased_message owner until r)
          (sym sound.0.message_id) w d stand.0 in
      let rest =
        all_items picked p.world (done-Distinct owner until r w.database.outbox p done d) dp.1
          sound.1
          (All-weaken
            (λ x (h : (row_id x ≢ row_id r) × Stands w.database.outbox (with_lease owner until x)).
              other_stands owner until r w.database.outbox p done x h.0 h.1)
            picked
            (All-both (λ x. row_id x ≢ row_id r)
              (λ x. Stands w.database.outbox (with_lease owner until x)) picked dp.0 stand.1)) in
      rw (done.calm, send_items)
        (record {
          calm = rest.calm;
          frees = (
            rest.keeps r (done-Freed owner until r w.database.outbox p done stand.0),
            rest.frees,
          );
          keeps = λ x h. rest.keeps x (others_stay owner until r w.database.outbox p done x h);
        })

-- What a run has done.
pub record Swept (owner : String) (now : ℕ) (w : World) (p : Progress) : Type 0 where
  pub picked : List OutboxRow
  pub leased : Database
  pub leases :
      lease_outbox owner 10 60 now w.database
      ≡ ok (map (leased_message owner (to_iso_string (add_seconds now 60))) picked, leased)
  pub calm : p.thrown ≡ none
  pub frees : All (Freed p.world.database.outbox) picked

-- On a valid outbox a run never throws, whatever the transport does with each message, and of the
-- messages that it leased none is left leased: each is found with its envelope, and was sent,
-- quarantined or put back for another attempt.
pub run_outbound_total :
    (platform : Platform) (config : BridgeConfig) (instance_id : String)
    (send : ℕ → Envelope → Option String) (clock : ℕ → ℕ) (now : ℕ) (w : World)
    → IsValid w.database.outbox
    → Swept instance_id now w (run_outbound_once platform config instance_id send clock now w)
unfolding run_outbound_once
run_outbound_total platform config instance_id send clock now w v =
    let o = lease_outbox_total instance_id 10 60 now w.database v (omega arith) (omega arith) in
    let until = to_iso_string (add_seconds now 60) in
    let v' : IsValid o.db'.outbox =
      Reach-IsValid v (next here (leases instance_id 10 60 now _ o.succeeds)) in
    let swept =
      all_items platform config instance_id send clock until o.picked
        (record w { database = o.db' }) v'.ids o.distinct
        (rw o.chosen (picked-IsSound (to_iso_string now) 10 w.database.outbox v)) o.held in
    rw (o.succeeds, run_outbound_once)
      (record {
        picked = o.picked;
        leased = o.db';
        leases = o.succeeds;
        calm = swept.calm;
        frees = swept.frees;
      })
