-- ===== src/Store/Outbox/Invariant.antt =====
-- The outbox table stays sound, and no operation loses or rewrites a message.
use balcony_agent_bridge.Base.{
  String, Bool, true, false, ◌&&◌, none, some, List, [], ◌∷◌, ◌++◌, ◌≡◌, refl, arith, eq_iff,
  All-append, ◌==◌, ap,
}
use balcony_agent_bridge.Base.Table.{update, find}
use balcony_agent_bridge.Base.Table.Laws.{All-update}
use balcony_agent_bridge.Base.Table.Keys.{Fresh, Distinct-append_one, Distinct-update, has_key}
use balcony_agent_bridge.Base.Table.Growth.{
  Grows, Grows-refl, Grows-trans, Grows-append, Grows-update, find-Grows,
}
use balcony_agent_bridge.Contracts.Envelope.{Envelope}
use balcony_agent_bridge.Store.Schema.{OutboxRow, Database}
use balcony_agent_bridge.Store.Outbox.{conflicts, new_outbox_row, is_coordination_root, other_root}
use balcony_agent_bridge.Store.Outbox.Rows.{
  IsSound, IsValid, Moves, Moves-refl, Moves-trans, row_id, operation_key, is_final,
}
use balcony_agent_bridge.Store.Outbox.Steps.{Reach, Reach_keeps}

-- A row that conflicts with no other is new under both constraints.
conflict-free :
    (e : Envelope) (rows : List OutboxRow)
    → find (conflicts e) rows ≡ none
    → Fresh row_id e.message_id rows × Fresh operation_key (e.target_system, e.idempotency_key) rows
unfolding find
conflict-free e [] free = (tt, tt)
conflict-free e (r ∷ rows) free =
    let (ids, keys) = conflict-free e rows (ground arith) in
    (
      (ground (arith, eq_iff r.message_id e.message_id), ids),
      (
        λ same. ground (
          arith,
          eq_iff r.target_system e.target_system,
          eq_iff r.idempotency_key e.idempotency_key,
          ap (λ (k : String × String). k.0) same,
          ap (λ (k : String × String). k.1) same,
        ),
        keys,
      ),
    )

pub insert-IsValid :
    (e : Envelope) (rows : List OutboxRow)
    → find (conflicts e) rows ≡ none
    → (is_coordination_root e && other_root e rows) ≡ false
    → IsValid rows
    → IsValid (rows ++ new_outbox_row e ∷ [])
unfolding new_outbox_row
insert-IsValid e rows free root v =
    let (ids, keys) = conflict-free e rows free in
    record {
      sound = All-append IsSound rows _ v.sound (
        record {
          message_id = refl;
          idempotency_key = refl;
          target_system = refl;
          kind = refl;
          stream_id = refl;
          payload_sha256 = refl;
          created_at_utc = refl;
          expires_at_utc = refl;
          lease = refl;
        },
        tt,
      );
      ids = Distinct-append_one row_id rows (new_outbox_row e) ids v.ids;
      operations = Distinct-append_one operation_key rows (new_outbox_row e) keys v.operations;
    }

pub change-IsValid :
    (p : OutboxRow → Bool) (f : OutboxRow → OutboxRow) (rows : List OutboxRow)
    → ((r : OutboxRow) → p r ≡ true → Moves r (f r))
    → IsValid rows
    → IsValid (update p f rows)
change-IsValid p f rows moves v = record {
  sound = All-update IsSound p f rows (λ r s h. (moves r h).sound s) v.sound;
  ids = Distinct-update row_id p f rows (λ r h. (moves r h).message_id) v.ids;
  operations = Distinct-update operation_key p f rows (λ r h. (moves r h).key) v.operations;
}

-- Whatever sequence of operations runs on a valid outbox, it stays valid: rows agree with their
-- envelopes, leases are complete or absent, and both uniqueness constraints hold.
pub Reach-IsValid : {db db' : Database} → IsValid db.outbox → Reach db db' → IsValid db'.outbox
Reach-IsValid v r = Reach_keeps IsValid insert-IsValid change-IsValid v r

module _ (start : List OutboxRow) where
  pub insert-Grows :
      (e : Envelope) (rows : List OutboxRow)
      → find (conflicts e) rows ≡ none
      → (is_coordination_root e && other_root e rows) ≡ false
      → Grows Moves start rows
      → Grows Moves start (rows ++ new_outbox_row e ∷ [])
  insert-Grows e rows free root g =
      Grows-trans Moves Moves-trans start rows _ g (Grows-append Moves Moves-refl rows _)

  pub change-Grows :
      (p : OutboxRow → Bool) (f : OutboxRow → OutboxRow) (rows : List OutboxRow)
      → ((r : OutboxRow) → p r ≡ true → Moves r (f r))
      → Grows Moves start rows
      → Grows Moves start (update p f rows)
  change-Grows p f rows moves g =
      Grows-trans Moves Moves-trans start rows _ g (Grows-update Moves Moves-refl p f rows moves)

-- Every operation keeps the rows that were there, in place, and changes each as `Moves` allows.
pub Reach-Grows : {db db' : Database} → Reach db db' → Grows Moves db.outbox db'.outbox
Reach-Grows {db} r =
    Reach_keeps (Grows Moves db.outbox) (insert-Grows db.outbox) (change-Grows db.outbox)
      (Grows-refl Moves Moves-refl db.outbox) r

-- A message of the outbox is found under its identifier after any sequence of operations, with its
-- envelope unchanged, and with the whole row unchanged if it was already sent, quarantined or expired.
pub outbox_message_kept :
    (message_id : String) (r : OutboxRow) (db db' : Database)
    → Reach db db'
    → find (has_key row_id message_id) db.outbox ≡ some r
    → (s : OutboxRow) × (find (has_key row_id message_id) db'.outbox ≡ some s)
      × (s.envelope ≡ r.envelope)
      × (is_final r.state ≡ true → s ≡ r)
outbox_message_kept message_id r db db' steps found =
    let (s, found', moves) =
      find-Grows Moves (has_key row_id message_id)
        (λ x y m. ap (λ (k : String). k == message_id) m.message_id) db.outbox db'.outbox r
        (Reach-Grows steps) found in
    (s, found', moves.envelope, moves.final)
