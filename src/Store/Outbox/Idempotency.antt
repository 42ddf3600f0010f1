-- ===== src/Store/Outbox/Idempotency.antt =====
-- Enqueueing is idempotent: a repeated request answers with the message that is there.
use balcony_agent_bridge.Base.{
  ℕ, String, true, false, ◌&&◌, Option, none, some, List, [], ◌∷◌, ◌++◌, ◌≡◌, refl, inl, inr, ◌∙◌,
  ap, ◌==◌, arith, eq_refl, Option-cases, same_text, same_number,
}
use balcony_agent_bridge.Base.Table.{find}
use balcony_agent_bridge.Base.Table.Growth.{find-Grows}
use balcony_agent_bridge.Store.Outbox.Rows.{Moves}
use balcony_agent_bridge.Store.Outbox.Steps.{Reach}
use balcony_agent_bridge.Store.Outbox.Invariant.{Reach-Grows}
use balcony_agent_bridge.Base.Table.Laws.{find_weaken, find-none_weaken, find-append_none}
use balcony_agent_bridge.Contracts.Envelope.{
  Envelope, MessageKind, same_kind, message, task_request, task_result, status, acknowledgement,
  heartbeat,
}
use balcony_agent_bridge.Store.Schema.{OutboxRow, Database, ok, ◌>>=◌}
use balcony_agent_bridge.Store.Outbox.{
  EnqueueResult, Comparison, conflicts, same_operation_key, same_idempotent_operation,
  get_outbox_operation, is_coordination_root, other_root, new_outbox_row, existing_operation,
  insert_or_ignore, enqueue_envelope_row, enqueue_envelope,
}

pub same_kind_refl : (k : MessageKind) → same_kind k k ≡ true
same_kind_refl message = refl
same_kind_refl task_request = refl
same_kind_refl task_result = refl
same_kind_refl status = refl
same_kind_refl acknowledgement = refl
same_kind_refl heartbeat = refl

pub same_text_refl : (o : Option String) → same_text o o ≡ true
same_text_refl none = refl
same_text_refl (some s) = eq_refl s

pub same_number_refl : (o : Option ℕ) → same_number o o ≡ true
same_number_refl none = refl
same_number_refl (some n) = ground arith

same_operation_refl : (e : Envelope) (c : Comparison) → same_idempotent_operation e e c ≡ true
unfolding same_idempotent_operation
same_operation_refl e c =
    simp (eq_refl, same_kind_refl, same_text_refl, same_number_refl) (ground arith)

-- The envelope of a repeated request: created again, so with another identity and another time.
abbrev pub again : String → String → Envelope → Envelope
again id time e = record e { message_id = id; created_at_utc = time }

-- A row with the operation's key decides the answer.
insert_of_existing :
    (e : Envelope) (c : Comparison) (rows : List OutboxRow) (prior : OutboxRow)
    → get_outbox_operation e.target_system e.idempotency_key rows ≡ some prior
    → insert_or_ignore e c rows
      ≡ (existing_operation e c (some prior) >>= λ result. ok (result, rows))
unfolding insert_or_ignore get_outbox_operation
insert_of_existing e c rows prior found =
    let (s, taken) =
      find_weaken (conflicts e) (same_operation_key e.target_system e.idempotency_key) rows prior
        (λ s h. ground arith) found in
    ground (arith, taken)

-- The row under the operation's key that decides the answer to a request.
record Operation (e : Envelope) (c : Comparison) (result : EnqueueResult) (rows : List OutboxRow)
    : Type 0 where
  row : OutboxRow
  found : get_outbox_operation e.target_system e.idempotency_key rows ≡ some row
  same : same_idempotent_operation row.envelope e c ≡ true
  message : row.envelope.message_id ≡ result.message_id

module _ (e : Envelope) (c : Comparison) where
  inserted-Operation :
      (rows rows' : List OutboxRow) (result : EnqueueResult)
      → insert_or_ignore e c rows ≡ ok (result, rows')
      → Operation e c result rows'
  unfolding insert_or_ignore existing_operation get_outbox_operation new_outbox_row find
  inserted-Operation rows rows' result o = elim (Option-cases (find (conflicts e) rows)) [
    | inl free ↦
        let key = same_operation_key e.target_system e.idempotency_key in
        let table : rows' ≡ rows ++ new_outbox_row e ∷ [] = ground arith in
        let id : e.message_id ≡ result.message_id = ground arith in
        let absent : find key rows ≡ none =
          find-none_weaken (conflicts e) key rows (λ s h. ground arith) free in
        rw table (record {
          row = new_outbox_row e;
          found = find-append_none key rows (new_outbox_row e ∷ []) absent ∙ simp eq_refl;
          same = same_operation_refl e c;
          message = id;
        })
    | inr (old, taken) ↦
        elim (Option-cases (get_outbox_operation e.target_system e.idempotency_key rows)) [
          | inl absent ↦ absurd (ground arith)
          | inr (prior, found) ↦
              let table : rows ≡ rows' = ground arith in
              record {
                row = prior;
                found = rw (← table) found;
                same = ground arith;
                message = ground arith;
              }
        ]
  ]

  enqueued-Operation :
      (db db' : Database) (result : EnqueueResult)
      → enqueue_envelope e c db ≡ ok (result, db')
      → Operation e c result db'.outbox
  unfolding enqueue_envelope enqueue_envelope_row
  enqueued-Operation db db' result o = inserted-Operation db.outbox db'.outbox result (ground arith)

  -- A request whose operation stands in the table is a duplicate, and writes nothing.
  duplicate_of :
      (id time : String) (row : OutboxRow) (db : Database)
      → get_outbox_operation e.target_system e.idempotency_key db.outbox ≡ some row
      → same_idempotent_operation row.envelope e c ≡ true
      → (is_coordination_root e && other_root e db.outbox) ≡ false
      → enqueue_envelope (again id time e) c db
        ≡ ok (
          record { message_id = row.envelope.message_id; state = row.state; duplicate = true },
          db,
        )
  unfolding enqueue_envelope enqueue_envelope_row existing_operation same_idempotent_operation
      other_root
  duplicate_of id time row db found same root =
      let answered = insert_of_existing (again id time e) c db.outbox row found in
      ground (arith, answered)

-- A request that was accepted is answered again, for the same message created anew, by the first
-- message's identifier, as a duplicate, and nothing is written: whatever operations on the outbox
-- lie between, the operation still stands under its key, and the answer tells its state. The
-- condition is that the outbox then holds no other root of the message's coordination conversation.
pub enqueue_again :
    (e : Envelope) (c : Comparison) (id time : String) (db db1 db2 : Database)
    (first : EnqueueResult)
    → enqueue_envelope e c db ≡ ok (first, db1)
    → Reach db1 db2
    → (is_coordination_root e && other_root e db2.outbox) ≡ false
    → (row : OutboxRow) × (get_outbox_operation e.target_system e.idempotency_key db2.outbox
        ≡ some row)
      × (row.envelope.message_id ≡ first.message_id)
      × (enqueue_envelope (again id time e) c db2
          ≡ ok (record { message_id = first.message_id; state = row.state; duplicate = true }, db2))
unfolding get_outbox_operation
enqueue_again e c id time db db1 db2 first o steps root =
    let operation = enqueued-Operation e c db db1 first o in
    let (row, found, moves) =
      find-Grows Moves (same_operation_key e.target_system e.idempotency_key)
        (λ x y m.
          ap (λ (k : String × String). k.0 == e.target_system && k.1 == e.idempotency_key) m.key)
        db1.outbox db2.outbox operation.row (Reach-Grows steps) operation.found in
    let message : row.envelope.message_id ≡ first.message_id =
      ap (λ (x : Envelope). x.message_id) moves.envelope ∙ operation.message in
    let same : same_idempotent_operation row.envelope e c ≡ true =
      ap (λ (x : Envelope). same_idempotent_operation x e c) moves.envelope ∙ operation.same in
    (
      row,
      found,
      message,
      duplicate_of e c id time row db2 found same root
          ∙ ap
              (λ (k : String).
                ok (record { message_id = k; state = row.state; duplicate = true }, db2))
              message,
    )
