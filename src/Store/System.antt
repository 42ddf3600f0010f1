-- ===== src/Store/System.antt =====
-- The operations of the outbox and of the inbox, and those on grants and authorization requests,
-- which hold messages back and release them, in any order, on one database.
pub mod Answers
mod Tests
mod Parking
use balcony_agent_bridge.Base.{
  ℕ, String, Bool, true, Option, some, none, List, [], ◌∷◌, ◌++◌, ◌≡◌, refl, sym, subst, inl, inr,
  arith, Bool-cases, Option-cases, eqb,
}
use balcony_agent_bridge.Base.Table.{update, count, find}
use balcony_agent_bridge.Contracts.Envelope.{Envelope, Platform}
use balcony_agent_bridge.Store.Schema.{
  InboxRow, OutboxRow, Database, Result, ok, err, Result-cases, ◌>>=◌, Error, idempotency_conflict,
  range_error, validation, state_transition, dispatch_result_unavailable, constraint_failed,
  dispatch_rejected, evidence_policy, codex_execution,
}
use balcony_agent_bridge.Store.Outbox.{
  EnqueueResult, no_options, enqueue_envelope, enqueue_envelope_row, settle_lease, mark_outbox_sent,
  release_outbox_lease, quarantine_outbox, lease_outbox, get_outbox_operation,
}
use balcony_agent_bridge.Store.Outbox.Rows as OutboxRows
use balcony_agent_bridge.Store.Outbox.Steps as OutboxSteps
use balcony_agent_bridge.Store.Outbox.Invariant as OutboxInvariant
use balcony_agent_bridge.Store.Inbox.{persist_incoming}
use balcony_agent_bridge.Store.Claims.{claim_inbox_where, renew_claim}
use balcony_agent_bridge.Store.Settlement.{
  Verdict, Reply, settle_claim, acknowledge, existing_reply, resolve_reply, enqueue_reply,
  replay_reply, settle_held, settle_inbox_with_reply, outcome_of, settled_same,
}
use balcony_agent_bridge.Store.Inbox.{has_id}
use balcony_agent_bridge.Store.Lifecycle.Steps as InboxSteps
use balcony_agent_bridge.Store.Lifecycle.Invariant as InboxInvariant
use balcony_agent_bridge.Store.Lifecycle.Rows.{IsSound, row_id}
use balcony_agent_bridge.Store.Authorization.Steps as AuthorizationSteps
use balcony_agent_bridge.Store.Authorization.Steps.Inbox.{Passes, Effect}
use balcony_agent_bridge.Store.Authorization.Steps.Effects.{Step-Effect}
use balcony_agent_bridge.Base.Table.Laws.{All-update}
use balcony_agent_bridge.Base.Table.Keys.{Distinct-update}

pub data Step (platform : Platform) (db db' : Database) : Type 0 where
  outgoing : OutboxSteps.Step db db' → Step platform db db'
  incoming : InboxSteps.Step platform db db' → Step platform db db'
  authorizing : AuthorizationSteps.Step platform db db' → Step platform db db'

pub data Reach (platform : Platform) (db : Database) : Database → Type 0 where
  here : Reach platform db db
  next :
      {db' db'' : Database}
      → Reach platform db db'
      → Step platform db' db''
      → Reach platform db db''

settle_lease-inbox :
    (id owner : String) (f : OutboxRow → OutboxRow) (db db' : Database)
    → settle_lease id owner f db ≡ ok db'
    → db.inbox ≡ db'.inbox
unfolding settle_lease
settle_lease-inbox id owner f db db' o = ground arith

-- The outbox's operations leave the inbox alone.
pub outgoing-inbox : (db db' : Database) → OutboxSteps.Step db db' → db.inbox ≡ db'.inbox
unfolding enqueue_envelope lease_outbox mark_outbox_sent release_outbox_lease quarantine_outbox
outgoing-inbox db db' (OutboxSteps.enqueues e c result o) = ground arith
outgoing-inbox db db' (OutboxSteps.leases owner limit seconds now m o) = ground arith
outgoing-inbox db db' (OutboxSteps.sends id owner now o) = settle_lease-inbox id owner _ db db' o
outgoing-inbox db db' (OutboxSteps.retries id owner at code o) =
    settle_lease-inbox id owner _ db db' o
outgoing-inbox db db' (OutboxSteps.quarantines id owner code o) =
    settle_lease-inbox id owner _ db db' o

-- A property of the outbox that the insertion of an envelope keeps is kept by the inbox's
-- operations: of these only a reply writes there.
module _ {ℓ} (platform : Platform) (P : List OutboxRow → Type ℓ)
    (enqueue : (e : Envelope) (rows rows' : List OutboxRow) (result : EnqueueResult)
      → P rows
      → enqueue_envelope_row e no_options rows ≡ ok (result, rows')
      → P rows') where
  existing_reply_keeps :
      (reply : Envelope) (id : String) (prior : Option OutboxRow) (outbox : List OutboxRow)
      (answer : Reply)
      → P outbox
      → existing_reply reply id prior outbox ≡ ok answer
      → P answer.outbox
  unfolding existing_reply
  existing_reply_keeps reply id none outbox answer h o = absurd (ground arith)
  existing_reply_keeps reply id (some prior) outbox answer h o =
      let same : outbox ≡ answer.outbox = ground arith in subst P same h

  resolve_reply_keeps :
      (reply : Envelope) (id : String) (outbox : List OutboxRow)
      (r : Result (EnqueueResult × List OutboxRow)) (answer : Reply)
      → P outbox
      → enqueue_envelope_row reply no_options outbox ≡ r
      → resolve_reply reply id outbox r ≡ ok answer
      → P answer.outbox
  unfolding resolve_reply
  resolve_reply_keeps reply id outbox (ok (result, rows)) answer h e o =
      let same : rows ≡ answer.outbox = ground arith in
      subst P same (enqueue reply outbox rows result h e)
  resolve_reply_keeps reply id outbox (err (idempotency_conflict key)) answer h e o =
      existing_reply_keeps reply id
        (get_outbox_operation reply.target_system reply.idempotency_key outbox) outbox answer h o
  resolve_reply_keeps reply id outbox (err (range_error t)) answer h e o = absurd (ground arith)
  resolve_reply_keeps reply id outbox (err (validation t)) answer h e o = absurd (ground arith)
  resolve_reply_keeps reply id outbox (err (state_transition t)) answer h e o =
      absurd (ground arith)
  resolve_reply_keeps reply id outbox (err dispatch_result_unavailable) answer h e o =
      absurd (ground arith)
  resolve_reply_keeps reply id outbox (err (constraint_failed t)) answer h e o =
      absurd (ground arith)
  resolve_reply_keeps reply id outbox (err (dispatch_rejected t)) answer h e o =
      absurd (ground arith)
  resolve_reply_keeps reply id outbox (err (evidence_policy t)) answer h e o = absurd (ground arith)
  resolve_reply_keeps reply id outbox (err (codex_execution t)) answer h e o = absurd (ground arith)

  settle_held_keeps :
      (id consumer token : String) (verdict : Verdict) (reply : Envelope) (reason : Option String)
      (now : ℕ) (existing : InboxRow) (answer : EnqueueResult) (db db' : Database)
      → P db.outbox
      → settle_held platform id consumer token verdict reply reason now existing db
        ≡ ok (answer, db')
      → P db'.outbox
  unfolding settle_held enqueue_reply
  settle_held_keeps id consumer token verdict reply reason now existing answer db db' h o =
      elim (Result-cases
        (resolve_reply reply id db.outbox (enqueue_envelope_row reply no_options db.outbox))) [
          | inr (_, failed) ↦ absurd (ground arith)
          | inl (a, resolved) ↦
              let same : a.outbox ≡ db'.outbox = ground arith in
              subst P same (resolve_reply_keeps reply id db.outbox _ a h refl resolved)
        ]

  settle_inbox_with_reply_keeps :
      (id consumer token : String) (verdict : Verdict) (reply : Envelope) (reason : Option String)
      (now : ℕ) (answer : EnqueueResult) (db db' : Database)
      → P db.outbox
      → settle_inbox_with_reply platform id consumer token verdict reply reason now db
        ≡ ok (answer, db')
      → P db'.outbox
  unfolding settle_inbox_with_reply
  settle_inbox_with_reply_keeps id consumer token verdict reply reason now answer db db' h o =
      elim (Option-cases (find (has_id id) db.inbox)) [
        | inl missing ↦ absurd (ground arith)
        | inr (r, found) ↦ elim (Bool-cases (settled_same (outcome_of verdict) r.state)) [
          | inl done ↦ let same : db.outbox ≡ db'.outbox = ground arith in subst P same h
          | inr open_row ↦
              settle_held_keeps id consumer token verdict reply reason now r answer db db' h
                (ground arith)
        ]
      ]

  incoming_keeps :
      (db db' : Database) → P db.outbox → InboxSteps.Step platform db db' → P db'.outbox
  unfolding persist_incoming claim_inbox_where renew_claim acknowledge settle_claim
  incoming_keeps db db' h (InboxSteps.receives e n now a o) =
      let same : db.outbox ≡ db'.outbox = ground arith in subst P same h
  incoming_keeps db db' h (InboxSteps.claims consumer limit seconds filter now expired m o) =
      let same : db.outbox ≡ db'.outbox = ground arith in subst P same h
  incoming_keeps db db' h (InboxSteps.renews id consumer token seconds now until o) =
      let same : db.outbox ≡ db'.outbox = ground arith in subst P same h
  incoming_keeps db db' h (InboxSteps.acknowledges id consumer token outcome reason now state o) =
      let same : db.outbox ≡ db'.outbox = ground arith in subst P same h
  incoming_keeps db db' h (InboxSteps.replies id consumer token verdict reply reason now answer o) =
      settle_inbox_with_reply_keeps id consumer token verdict reply reason now answer db db' h o

-- Both tables are valid.
pub record IsValid (db : Database) : Type 0 where
  pub outbox : OutboxRows.IsValid db.outbox
  pub inbox : InboxInvariant.IsValid db.inbox

outbox_step_IsValid :
    (platform : Platform) (db db' : Database)
    → OutboxRows.IsValid db.outbox
    → Step platform db db'
    → OutboxRows.IsValid db'.outbox
outbox_step_IsValid platform db db' v (outgoing s) =
    OutboxSteps.Step-keeps OutboxRows.IsValid OutboxInvariant.insert-IsValid
      OutboxInvariant.change-IsValid db db' v s
outbox_step_IsValid platform db db' v (incoming s) =
    incoming_keeps platform OutboxRows.IsValid
      (λ e rows rows' result h o.
        OutboxSteps.enqueue_envelope_row_keeps OutboxRows.IsValid OutboxInvariant.insert-IsValid
          OutboxInvariant.change-IsValid e no_options rows rows' result h o)
      db db' v s
outbox_step_IsValid platform db db' v (authorizing s) =
    subst OutboxRows.IsValid (sym (Step-Effect platform db db' s).outbox) v

Passes-IsSound : (r s : InboxRow) → Passes r s → IsSound r → IsSound s
Passes-IsSound r s (inl m) h = m.sound h
Passes-IsSound r s (inr m) h = m.sound h

pub Passes-id : (r s : InboxRow) → Passes r s → s.message_id ≡ r.message_id
Passes-id r s (inl m) = m.message_id
Passes-id r s (inr m) = m.message_id

inbox_step_IsValid :
    (platform : Platform) (db db' : Database)
    → InboxInvariant.IsValid db.inbox
    → Step platform db db'
    → InboxInvariant.IsValid db'.inbox
inbox_step_IsValid platform db db' v (outgoing s) =
    subst InboxInvariant.IsValid (outgoing-inbox db db' s) v
inbox_step_IsValid platform db db' v (incoming s) =
    InboxSteps.Step-keeps platform InboxInvariant.IsValid InboxInvariant.insert-IsValid
      InboxInvariant.change-IsValid db db' v s
inbox_step_IsValid platform db db' v (authorizing s) =
    let e = Step-Effect platform db db' s in
    subst InboxInvariant.IsValid (sym e.inbox) (record {
      sound =
          All-update IsSound e.picks e.change db.inbox
            (λ r k h. Passes-IsSound r (e.change r) (e.passes r h) k) v.sound;
      ids =
          Distinct-update row_id e.picks e.change db.inbox
            (λ r h. Passes-id r (e.change r) (e.passes r h)) v.ids;
    })

-- Any sequence of operations on the outbox, on the inbox, and on grants and authorization requests
-- keeps a valid database valid: replies that write to both tables, and the parking and the release
-- of messages that wait for an approval, included.
pub system-IsValid :
    (platform : Platform) (db db' : Database) → IsValid db → Reach platform db db' → IsValid db'
system-IsValid platform db _ v here = v
system-IsValid platform db _ v (next r s) =
    let before = system-IsValid platform db _ v r in
    record {
      outbox = outbox_step_IsValid platform _ _ before.outbox s;
      inbox = inbox_step_IsValid platform _ _ before.inbox s;
    }
