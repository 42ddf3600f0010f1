-- ===== src/Store/System/Answers.antt =====
-- Unless its message is held back and released again, a settled message is not answered otherwise.
use balcony_agent_bridge.Base.{
  ℕ, ◌≤◌, String, true, Option, some, List, ◌≡◌, refl, subst, sym, ◌∙◌, ap, inl, inr, ◌⊎◌, arith,
  ◌==◌, Bool-cases,
}
use balcony_agent_bridge.Base.Table.{find}
use balcony_agent_bridge.Base.Table.Growth.{Grows, Grows-refl, Grows-update, find-Grows}
use balcony_agent_bridge.Base.Table.Keys.{has_key}
use balcony_agent_bridge.Time.{to_iso_string}
use balcony_agent_bridge.Contracts.Envelope.{Envelope, Platform}
use balcony_agent_bridge.Store.Schema.{InboxRow, available, quarantined, Database, ok, Result-cases}
use balcony_agent_bridge.Store.Outbox.{EnqueueResult}
use balcony_agent_bridge.Store.Inbox.{has_id}
use balcony_agent_bridge.Store.Claims.{hash_token, is_held}
use balcony_agent_bridge.Store.Settlement.{
  Verdict, outcome_of, settled_same, replay_reply, settle_held, settle_inbox_with_reply,
}
use balcony_agent_bridge.Store.Settlement.Replies.{Settled, replay-Settled}
use balcony_agent_bridge.Store.Settlement.Once.{settle_records_reply}
use balcony_agent_bridge.Store.Lifecycle.Rows.{Moves, Moves-refl, is_closed, result_of, row_id}
use balcony_agent_bridge.Store.Lifecycle.Steps as InboxSteps
use balcony_agent_bridge.Store.Lifecycle.Invariant.{insert-Grows, change-Grows}
use balcony_agent_bridge.Store.System.{
  IsValid, Reach, here, next, outgoing, incoming, authorizing, outgoing-inbox, Passes-id,
}
use balcony_agent_bridge.Store.Authorization.Steps.Inbox.{Passes, Effect}
use balcony_agent_bridge.Store.Authorization.Steps.Effects.{Step-Effect}

-- What the inbox keeps of a row that it found under a key; `R` says that the message was released.
pub record MessageKept (r s : InboxRow) (R : Type 0) : Type 0 where
  pub envelope : s.envelope ≡ r.envelope
  pub authenticated : r.authenticated_ingress ≡ true → s.authenticated_ingress ≡ true
  pub attempts : r.attempt_count ≤ s.attempt_count
  pub closed :
      is_closed r.state ≡ true
      → (((s.state ≡ r.state) ⊎ (s.state ≡ quarantined)) × (result_of s ≡ result_of r)) ⊎ R

-- The operation found the message held back and left it available.
pub record ReleasedBy (id : String) (db db' : Database) : Type 0 where
  pub before : InboxRow
  pub after : InboxRow
  pub found : find (has_id id) db.inbox ≡ some before
  pub held_back : before.state ≡ quarantined
  pub found_after : find (has_id id) db'.inbox ≡ some after
  pub free : after.state ≡ available

-- Some operation on authorization requests along the way released the message.
abbrev pub Released :
    {platform : Platform} {db db' : Database} → String → Reach platform db db' → Type 0
Released id here = ⊥
Released id (next r (outgoing s)) = Released id r
Released id (next r (incoming s)) = Released id r
Released id (next {db'} {db''} r (authorizing s)) = Released id r ⊎ ReleasedBy id db' db''

closed-Moves :
    (r s t : InboxRow) (R : Type 0)
    → is_closed r.state ≡ true
    → (((s.state ≡ r.state) ⊎ (s.state ≡ quarantined)) × (result_of s ≡ result_of r)) ⊎ R
    → Moves s t
    → (((t.state ≡ r.state) ⊎ (t.state ≡ quarantined)) × (result_of t ≡ result_of r)) ⊎ R
closed-Moves r s t R h (inr released) m = inr released
closed-Moves r s t R h (inl (state, result)) m =
    let still : is_closed s.state ≡ true = ground (arith, state) in
    inl (ground (arith, state, m.closed still), m.result still ∙ result)

Moves_kept : (r s t : InboxRow) (R : Type 0) → MessageKept r s R → Moves s t → MessageKept r t R
Moves_kept r s t R k m = record {
  envelope = m.envelope ∙ k.envelope;
  authenticated = λ h. m.authenticated (k.authenticated h);
  attempts = omega (arith, m.attempts, k.attempts);
  closed = λ h. closed-Moves r s t R h (k.closed h) m;
}

more_kept : (r s : InboxRow) (R Q : Type 0) → MessageKept r s R → MessageKept r s (R ⊎ Q)
more_kept r s R Q k = record {
  envelope = k.envelope;
  authenticated = k.authenticated;
  attempts = k.attempts;
  closed = λ h. elim (k.closed h) [ inl kept ↦ inl kept | inr released ↦ inr (inl released) ];
}

-- The row after one update of an authorization's operation.
authorized_kept :
    (id : String) (r s : InboxRow) (db db' : Database) (R : Type 0)
    → find (has_id id) db.inbox ≡ some s
    → MessageKept r s R
    → Effect db db'
    → (t : InboxRow) × (find (has_id id) db'.inbox ≡ some t)
      × MessageKept r t (R ⊎ ReleasedBy id db db')
authorized_kept id r s db db' R found k e =
    let (t, found', passes) =
      find-Grows Passes (has_key row_id id)
        (λ x y m. ap (λ (k : String). k == id) (Passes-id x y m)) db.inbox db'.inbox s
        (subst (Grows Passes db.inbox) (sym e.inbox)
          (Grows-update Passes (λ x. inl (Moves-refl x)) e.picks e.change db.inbox e.passes))
        found in
    (t, found', after_pass t found' passes)
  where
    after_pass :
        (t : InboxRow)
        → find (has_id id) db'.inbox ≡ some t
        → Passes s t
        → MessageKept r t (R ⊎ ReleasedBy id db db')
    after_pass t found' (inl m) = Moves_kept r s t _ (more_kept r s R (ReleasedBy id db db') k) m
    after_pass t found' (inr m) = record {
      envelope = m.envelope ∙ k.envelope;
      authenticated = λ h. m.authenticated (k.authenticated h);
      attempts = omega (arith, m.attempts, k.attempts);
      closed = λ h. inr (
          inr (record {
            before = s;
            after = t;
            found = found;
            held_back = m.held_back;
            found_after = found';
            free = m.free;
          }));
    }

-- A message of the inbox is found under its identifier after any sequence of operations on the
-- outbox, on the inbox, and on grants and authorization requests, with its envelope unchanged, still
-- authenticated if it was, and with no fewer attempts. If it was settled or quarantined, then it
-- keeps its reply and its state, except that it may become quarantined, unless an operation on
-- authorization requests on the way found it quarantined and made it available again.
pub inbox_message_kept :
    (platform : Platform) (id : String) (r : InboxRow) (db db' : Database)
    (steps : Reach platform db db')
    → find (has_id id) db.inbox ≡ some r
    → (s : InboxRow) × (find (has_id id) db'.inbox ≡ some s) × MessageKept r s (Released id steps)
inbox_message_kept platform id r db _ here found = (
  r,
  found,
  record {
    envelope = refl;
    authenticated = λ h. h;
    attempts = omega arith;
    closed = λ h. inl (inl refl, refl);
  },
)
inbox_message_kept platform id r db _ (next {db'} {db''} steps (outgoing s)) found =
    let (t, found', kept) = inbox_message_kept platform id r db db' steps found in
    (
      t,
      subst (λ (rows : List InboxRow). find (has_id id) rows ≡ some t) (outgoing-inbox db' db'' s)
          found',
      kept,
    )
inbox_message_kept platform id r db _ (next {db'} {db''} steps (incoming s)) found =
    let (t, found', kept) = inbox_message_kept platform id r db db' steps found in
    let grows =
      InboxSteps.Step-keeps platform (Grows Moves db'.inbox) (insert-Grows db'.inbox)
        (change-Grows db'.inbox) db' db'' (Grows-refl Moves Moves-refl db'.inbox) s in
    let (u, found'', moves) =
      find-Grows Moves (has_key row_id id) (λ x y m. ap (λ (k : String). k == id) m.message_id)
        db'.inbox db''.inbox t grows found' in
    (u, found'', Moves_kept r t u _ kept moves)
inbox_message_kept platform id r db _ (next {db'} {db''} steps (authorizing s)) found =
    let (t, found', kept) = inbox_message_kept platform id r db db' steps found in
    authorized_kept id r t db' db'' _ found' kept (Step-Effect platform db' db'' s)

-- A closed message is only ever answered by the reply that it records.
closed-replays :
    (platform : Platform) (id consumer token : String) (verdict : Verdict) (reply : Envelope)
    (reason : Option String) (now : ℕ) (answer : EnqueueResult) (r : InboxRow) (db db' : Database)
    → find (has_id id) db.inbox ≡ some r
    → is_closed r.state ≡ true
    → settle_inbox_with_reply platform id consumer token verdict reply reason now db
      ≡ ok (answer, db')
    → Settled verdict id reply answer db
      × (r.result_idempotency_key ≡ some reply.idempotency_key)
      × (r.result_message_id ≡ some answer.message_id)
unfolding settle_inbox_with_reply settle_held
closed-replays platform id consumer token verdict reply reason now answer r db db' found closed o =
    elim (Bool-cases (settled_same (outcome_of verdict) r.state)) [
      | inl same ↦ elim (Result-cases (replay_reply reply r db.outbox)) [
        | inr (_, failed) ↦ absurd (ground arith)
        | inl (a, replayed) ↦
            let same_answer : answer ≡ a = ground arith in
            let s = replay-Settled verdict id reply a r db found same replayed in
            let same_row : s.row ≡ r = ground (arith, s.found, found) in
            rw same_answer (
              s,
              ap (λ (x : InboxRow). x.result_idempotency_key) (sym same_row)
                  ∙ s.result_idempotency_key,
              ap (λ (x : InboxRow). x.result_message_id) (sym same_row) ∙ s.result_message_id,
            )
      ]
      | inr other ↦ absurd (not_held (ground arith))
    ]
  where
    not_held : is_held id consumer (hash_token platform token) (to_iso_string now) r ≡ true → ⊥
    not_held h = ground arith

Settled-closed :
    (verdict : Verdict) (id : String) (reply : Envelope) (answer : EnqueueResult) (db : Database)
    (s : Settled verdict id reply answer db)
    → is_closed s.row.state ≡ true
Settled-closed verdict id reply answer db s = ground (arith, s.state)

-- A message that was settled with a reply is not answered otherwise: whatever operations on the
-- outbox, on the inbox, and on grants and authorization requests lie between, a later settlement of
-- it that succeeds asked for a reply with the same key and answers with the same message, unless an
-- operation on authorization requests between them found the message quarantined and made it
-- available again.
pub settle_once :
    (platform : Platform) (id consumer consumer' token token' : String) (verdict verdict' : Verdict)
    (reply reply' : Envelope) (reason reason' : Option String) (now now' : ℕ)
    (answer answer' : EnqueueResult) (db db1 db2 db3 : Database)
    → IsValid db
    → settle_inbox_with_reply platform id consumer token verdict reply reason now db
      ≡ ok (answer, db1)
    → (steps : Reach platform db1 db2)
    → settle_inbox_with_reply platform id consumer' token' verdict' reply' reason' now' db2
      ≡ ok (answer', db3)
    → ((reply'.idempotency_key ≡ reply.idempotency_key) × (answer'.message_id ≡ answer.message_id))
      ⊎ Released id steps
settle_once platform id consumer consumer' token token' verdict verdict' reply reply' reason reason'
      now now' answer answer' db db1 db2 db3 v o steps o' =
    let s =
      settle_records_reply platform id consumer token verdict reply reason now answer db db1 v.inbox
        v.outbox o in
    let (r, found, kept) = inbox_message_kept platform id s.row db1 db2 steps s.found in
    elim (kept.closed (Settled-closed verdict id reply answer db1 s)) [
      | inr released ↦ inr released
      | inl (state, result) ↦
          let closed : is_closed r.state ≡ true =
            ground (arith, state, Settled-closed verdict id reply answer db1 s) in
          let (_, key, message) =
            closed-replays platform id consumer' token' verdict' reply' reason' now' answer' r db2
              db3 found closed o' in
          let key_kept : r.result_idempotency_key ≡ s.row.result_idempotency_key =
            ap (λ (x : Option String × Option String × Option String). x.1) result in
          let message_kept : r.result_message_id ≡ s.row.result_message_id =
            ap (λ (x : Option String × Option String × Option String). x.0) result in
          inl (
            ground (arith, key, key_kept, s.result_idempotency_key),
            ground (arith, message, message_kept, s.result_message_id),
          )
    ]
