-- ===== src/Store/Status/Counts.antt =====
-- The counts of the status summary (`countByState`, `getStatus` of src/storage/database.ts).
use balcony_agent_bridge.Base.{
  ℕ, suc, ◌+◌, Bool, true, List, [], ◌∷◌, ◌≡◌, ◌≢◌, refl, ap, inl, inr, arith, length, Bool-cases,
}
use balcony_agent_bridge.Base.Table.{count}
use balcony_agent_bridge.Store.Schema.{
  OutboxState, OutboxRow, InboxState, InboxRow, RunState, ConsultationRun, Database,
}
use balcony_agent_bridge.Store.Queries.{same_inbox_state}
use balcony_agent_bridge.Store.Status.{
  BridgeStatus, same_outbox_state, same_run_state, count_by_state, get_status,
}

outbox_counts :
    (rows : List OutboxRow)
    → count (λ (r : OutboxRow). same_outbox_state r.state OutboxState.pending) rows
        + count (λ (r : OutboxRow). same_outbox_state r.state OutboxState.leased) rows
        + count (λ (r : OutboxRow). same_outbox_state r.state OutboxState.sent) rows
        + count (λ (r : OutboxRow). same_outbox_state r.state OutboxState.quarantined) rows
        + count (λ (r : OutboxRow). same_outbox_state r.state OutboxState.expired) rows
      ≡ length rows
unfolding count
outbox_counts [] = refl
outbox_counts (r ∷ rows) = ground (arith, outbox_counts rows)

inbox_counts :
    (rows : List InboxRow)
    → count (λ (r : InboxRow). same_inbox_state r.state InboxState.available) rows
        + count (λ (r : InboxRow). same_inbox_state r.state InboxState.claimed) rows
        + count (λ (r : InboxRow). same_inbox_state r.state InboxState.processed) rows
        + count (λ (r : InboxRow). same_inbox_state r.state InboxState.rejected) rows
        + count (λ (r : InboxRow). same_inbox_state r.state InboxState.quarantined) rows
      ≡ length rows
unfolding count
inbox_counts [] = refl
inbox_counts (r ∷ rows) = ground (arith, inbox_counts rows)

run_counts :
    (rows : List ConsultationRun)
    → count (λ (r : ConsultationRun). same_run_state r.state RunState.pending_child) rows
        + count (λ (r : ConsultationRun). same_run_state r.state RunState.needs_information) rows
        + count (λ (r : ConsultationRun). same_run_state r.state RunState.waiting_peer) rows
        + count (λ (r : ConsultationRun). same_run_state r.state RunState.completed) rows
        + count (λ (r : ConsultationRun). same_run_state r.state RunState.failed) rows
      ≡ length rows
unfolding count
run_counts [] = refl
run_counts (r ∷ rows) = ground (arith, run_counts rows)

-- `n` of the rows are in the state `s`.
module _ {A S : Type 0} (state : A → S) (s : S) where
  pub data Tally : List A → ℕ → Type 0 where
    nothing : Tally [] 0
    hit : (r : A) (rows : List A) (n : ℕ) → state r ≡ s → Tally rows n → Tally (r ∷ rows) (suc n)
    miss : (r : A) (rows : List A) (n : ℕ) → state r ≢ s → Tally rows n → Tally (r ∷ rows) n

  count-Tally :
      (same : S → S → Bool) (rows : List A)
      → ((t : S) → same t s ≡ true → t ≡ s)
      → same s s ≡ true
      → Tally rows (count (λ r. same (state r) s) rows)
  unfolding count
  count-Tally same [] only self = nothing
  count-Tally same (r ∷ rows) only self =
      let rest = count-Tally same rows only self in
      elim (Bool-cases (same (state r) s)) [
        | inl here ↦ rw here (hit r rows _ (only (state r) here) rest)
        | inr other ↦
            rw other (miss r rows _ (λ e. absurd (cc (other, self, ap (λ t. same t s) e))) rest)
      ]

same_outbox_state-eq : (s t : OutboxState) → same_outbox_state s t ≡ true → s ≡ t
same_outbox_state-eq s t h = ground arith

same_inbox_state-eq : (s t : InboxState) → same_inbox_state s t ≡ true → s ≡ t
same_inbox_state-eq s t h = ground arith

same_run_state-eq : (s t : RunState) → same_run_state s t ≡ true → s ≡ t
same_run_state-eq s t h = ground arith

same_outbox_state_refl : (s : OutboxState) → same_outbox_state s s ≡ true
same_outbox_state_refl s = ground arith

same_inbox_state_refl : (s : InboxState) → same_inbox_state s s ≡ true
same_inbox_state_refl s = ground arith

same_run_state_refl : (s : RunState) → same_run_state s s ≡ true
same_run_state_refl s = ground arith

-- What the counts of a status say of the tables.
pub record Counted (s : BridgeStatus) (db : Database) : Type 0 where
  pub outbox : (t : OutboxState) → Tally (λ (r : OutboxRow). r.state) t db.outbox (s.outbox t)
  pub inbox : (t : InboxState) → Tally (λ (r : InboxRow). r.state) t db.inbox (s.inbox t)
  pub runs : (t : RunState) → Tally (λ (r : ConsultationRun). r.state) t db.runs (s.consultation t)
  pub outbox_total :
      s.outbox OutboxState.pending
        + s.outbox OutboxState.leased
        + s.outbox OutboxState.sent
        + s.outbox OutboxState.quarantined
        + s.outbox OutboxState.expired
      ≡ length db.outbox
  pub inbox_total :
      s.inbox InboxState.available
        + s.inbox InboxState.claimed
        + s.inbox InboxState.processed
        + s.inbox InboxState.rejected
        + s.inbox InboxState.quarantined
      ≡ length db.inbox
  pub runs_total :
      s.consultation RunState.pending_child
        + s.consultation RunState.needs_information
        + s.consultation RunState.waiting_peer
        + s.consultation RunState.completed
        + s.consultation RunState.failed
      ≡ length db.runs

-- For each state the status counts the rows of the outbox, of the inbox and of the consultation runs
-- that are in this state, and the counts over all states add up to the rows of the table.
pub status_counts : (now : ℕ) (db : Database) → Counted (get_status now db) db
unfolding get_status count_by_state
status_counts now db = record {
  outbox = λ t.
      count-Tally (λ (r : OutboxRow). r.state) t same_outbox_state db.outbox
        (λ x h. same_outbox_state-eq x t h) (same_outbox_state_refl t);
  inbox = λ t.
      count-Tally (λ (r : InboxRow). r.state) t same_inbox_state db.inbox
        (λ x h. same_inbox_state-eq x t h) (same_inbox_state_refl t);
  runs = λ t.
      count-Tally (λ (r : ConsultationRun). r.state) t same_run_state db.runs
        (λ x h. same_run_state-eq x t h) (same_run_state_refl t);
  outbox_total = outbox_counts db.outbox;
  inbox_total = inbox_counts db.inbox;
  runs_total = run_counts db.runs;
}
