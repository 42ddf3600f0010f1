-- ===== src/Store/Outbox/Steps.antt =====
-- The operations on the outbox as steps, and the rule by which all of them keep a property.
use balcony_agent_bridge.Base.{
  ℕ, String, Bool, true, false, none, List, [], ◌∷◌, ◌++◌, ◌≡◌, subst, inl, inr, arith, ◌&&◌,
  Option-cases,
}
use balcony_agent_bridge.Base.Table.{update, find}
use balcony_agent_bridge.Contracts.Envelope.{Envelope}
use balcony_agent_bridge.Store.Schema.{OutboxRow, Database, ok}
use balcony_agent_bridge.Store.Outbox.{
  EnqueueResult, Comparison, LeasedMessage, conflicts, insert_or_ignore, other_root,
  is_coordination_root, new_outbox_row, enqueue_envelope_row, enqueue_envelope, with_lease,
  recover_leases, expire_messages, lease_rows, lease_table, lease_outbox, is_leased_by,
  is_pending_message, settle_lease, mark_outbox_sent, release_outbox_lease, quarantine_outbox,
}
use balcony_agent_bridge.Store.Outbox.Rows.{
  Moves, recover-Moves, expire-Moves, lease-Moves, as_sent-Moves, as_failed-Moves, as_retry-Moves,
  lease_rows-eq-ok, lease_outbox-eq-ok,
}

-- A successful operation on the outbox.
pub data Step (db db' : Database) : Type 0 where
  enqueues :
      (e : Envelope) (c : Comparison) (result : EnqueueResult)
      → enqueue_envelope e c db ≡ ok (result, db')
      → Step db db'
  leases :
      (owner : String) (limit lease_seconds now : ℕ) (m : List LeasedMessage)
      → lease_outbox owner limit lease_seconds now db ≡ ok (m, db')
      → Step db db'
  sends :
      (message_id owner : String) (now : ℕ)
      → mark_outbox_sent message_id owner now db ≡ ok db'
      → Step db db'
  retries :
      (message_id owner : String) (retry_at : ℕ) (error_code : String)
      → release_outbox_lease message_id owner retry_at error_code db ≡ ok db'
      → Step db db'
  quarantines :
      (message_id owner error_code : String)
      → quarantine_outbox message_id owner error_code db ≡ ok db'
      → Step db db'

-- Any sequence of them.
pub data Reach (db : Database) : Database → Type 0 where
  here : Reach db db
  next : {db' db'' : Database} → Reach db db' → Step db' db'' → Reach db db''

-- A property of the table that a new row and each change of rows keep is kept by every operation.
module _ {ℓ} (P : List OutboxRow → Type ℓ)
    (insert : (e : Envelope) (rows : List OutboxRow)
      → find (conflicts e) rows ≡ none
      → (is_coordination_root e && other_root e rows) ≡ false
      → P rows
      → P (rows ++ new_outbox_row e ∷ []))
    (change : (p : OutboxRow → Bool) (f : OutboxRow → OutboxRow) (rows : List OutboxRow)
      → ((r : OutboxRow) → p r ≡ true → Moves r (f r))
      → P rows
      → P (update p f rows)) where
  insert_or_ignore_keeps :
      (e : Envelope) (c : Comparison) (rows rows' : List OutboxRow) (result : EnqueueResult)
      → (is_coordination_root e && other_root e rows) ≡ false
      → P rows
      → insert_or_ignore e c rows ≡ ok (result, rows')
      → P rows'
  unfolding insert_or_ignore
  insert_or_ignore_keeps e c rows rows' result root h o =
      elim (Option-cases (find (conflicts e) rows)) [
        | inl free ↦
            let same : (rows ++ new_outbox_row e ∷ []) ≡ rows' = ground arith in
            subst P same (insert e rows free root h)
        | inr (old, taken) ↦ let same : rows ≡ rows' = ground arith in subst P same h
      ]

  pub enqueue_envelope_row_keeps :
      (e : Envelope) (c : Comparison) (rows rows' : List OutboxRow) (result : EnqueueResult)
      → P rows
      → enqueue_envelope_row e c rows ≡ ok (result, rows')
      → P rows'
  unfolding enqueue_envelope_row
  enqueue_envelope_row_keeps e c rows rows' result h o =
      insert_or_ignore_keeps e c rows rows' result (ground arith) h (ground arith)

  lease_rows_keeps :
      (owner until : String) (picked rows : List OutboxRow) (m : List LeasedMessage)
      (rows' : List OutboxRow)
      → P rows
      → lease_rows owner until picked rows ≡ ok (m, rows')
      → P rows'
  unfolding lease_rows
  lease_rows_keeps owner until [] rows m rows' h e =
      let same : rows ≡ rows' = ground arith in subst P same h
  lease_rows_keeps owner until (row ∷ picked) rows m rows' h e =
      let (ms, done, _, _) = lease_rows-eq-ok owner until row picked rows m rows' e in
      lease_rows_keeps owner until picked
        (update (is_pending_message row.message_id) (with_lease owner until) rows) ms rows'
        (change _ _ rows (lease-Moves owner until row.message_id) h) done

  lease_table_keeps :
      (owner : String) (limit : ℕ) (now_utc until : String) (rows rows' : List OutboxRow)
      (m : List LeasedMessage)
      → P rows
      → lease_table owner limit now_utc until rows ≡ ok (m, rows')
      → P rows'
  unfolding lease_table recover_leases expire_messages
  lease_table_keeps owner limit now_utc until rows rows' m h e =
      lease_rows_keeps owner until _ _ m rows'
        (change _ _ _ (expire-Moves now_utc) (change _ _ rows (recover-Moves now_utc) h)) e

  settle_lease_keeps :
      (id owner : String) (f : OutboxRow → OutboxRow) (db db' : Database)
      → ((r : OutboxRow) → is_leased_by id owner r ≡ true → Moves r (f r))
      → P db.outbox
      → settle_lease id owner f db ≡ ok db'
      → P db'.outbox
  unfolding settle_lease
  settle_lease_keeps id owner f db db' moves h e =
      let same : update (is_leased_by id owner) f db.outbox ≡ db'.outbox = ground arith in
      subst P same (change _ f db.outbox moves h)

  pub Step-keeps : (db db' : Database) → P db.outbox → Step db db' → P db'.outbox
  unfolding enqueue_envelope mark_outbox_sent release_outbox_lease quarantine_outbox
  Step-keeps db db' h (enqueues e c result o) =
      enqueue_envelope_row_keeps e c db.outbox db'.outbox result h (ground arith)
  Step-keeps db db' h (leases owner limit lease_seconds now m o) =
      let (done, _, _, _) = lease_outbox-eq-ok owner limit lease_seconds now db db' m o in
      lease_table_keeps owner limit _ _ db.outbox db'.outbox m h done
  Step-keeps db db' h (sends id owner now o) =
      settle_lease_keeps id owner _ db db' (λ r p. as_sent-Moves id owner r p _) h o
  Step-keeps db db' h (retries id owner retry_at code o) =
      settle_lease_keeps id owner _ db db' (λ r p. as_retry-Moves id owner r p _ _) h o
  Step-keeps db db' h (quarantines id owner code o) =
      settle_lease_keeps id owner _ db db' (λ r p. as_failed-Moves id owner r p _) h o

  pub Reach_keeps : {db db' : Database} → P db.outbox → Reach db db' → P db'.outbox
  Reach_keeps h here = h
  Reach_keeps h (next r s) = Step-keeps _ _ (Reach_keeps h r) s
