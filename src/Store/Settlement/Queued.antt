-- ===== src/Store/Settlement/Queued.antt =====
-- The reply that a settlement puts into the outbox, or finds there (`settleInboxWithReply` of
-- src/storage/database.ts).
use balcony_agent_bridge.Base.{
  String, Bool, true, not, ◌&&◌, ◌||◌, none, some, List, [], ◌∷◌, ◌++◌, ◌≡◌, refl, sym, ◌∙◌, inl,
  inr, arith, eq_iff, eq_refl, ◌==◌, Option-cases, same_text, same_number,
}
use balcony_agent_bridge.Base.Table.{find}
use balcony_agent_bridge.Base.Table.Laws.{find-append_none, find-none_weaken, find_sound, All-find}
use balcony_agent_bridge.Contracts.Envelope.{Envelope, same_kind}
use balcony_agent_bridge.Store.Schema.{
  OutboxRow, Result, ok, err, idempotency_conflict, range_error, validation, state_transition,
  dispatch_result_unavailable, constraint_failed, dispatch_rejected, evidence_policy,
  codex_execution,
}
use balcony_agent_bridge.Store.Outbox.{
  EnqueueResult, Comparison, no_options, conflicts, same_operation_key, get_outbox_operation,
  same_idempotent_operation, new_outbox_row, existing_operation, insert_or_ignore,
  enqueue_envelope_row,
}
use balcony_agent_bridge.Store.Outbox.Rows.{IsValid as IsValidOutbox, IsSound as IsSoundOutbox}
use balcony_agent_bridge.Store.Settlement.{Reply, existing_reply, resolve_reply, enqueue_reply}

-- The row of the outbox that stands under a reply's operation key.
pub record Queued (reply : Envelope) (outbox : List OutboxRow) (answer : EnqueueResult)
    (payload_sha256 : String) : Type 0 where
  pub prior : OutboxRow
  pub found : get_outbox_operation reply.target_system reply.idempotency_key outbox ≡ some prior
  pub message_id : prior.envelope.message_id ≡ answer.message_id
  pub payload : prior.envelope.payload_sha256 ≡ payload_sha256
  pub state : prior.state ≡ answer.state

before_five : (x p a b c d e : Bool) → (x && p && a && b && c && d && e) ≡ true → p ≡ true
before_five x p a b c d e h = ground arith

same_operation-payload :
    (left right : Envelope) (c : Comparison)
    → same_idempotent_operation left right c ≡ true
    → left.payload_sha256 ≡ right.payload_sha256
unfolding same_idempotent_operation
same_operation-payload left right c h = (eq_iff left.payload_sha256 right.payload_sha256).0 (
    before_five
      (left.target_system == right.target_system
        && same_kind left.kind right.kind
        && left.stream_id == right.stream_id)
      (left.payload_sha256 == right.payload_sha256)
      (same_text left.correlation_id right.correlation_id)
      (same_text left.causation_id right.causation_id)
      (same_number left.sequence_number right.sequence_number)
      (not c.match_conversation_id || left.conversation_id == right.conversation_id)
      (not c.match_expires_at_utc || same_text left.expires_at_utc right.expires_at_utc) h)

-- The new row is the one under its own key.
find-inserted :
    (e : Envelope) (rows : List OutboxRow)
    → find (conflicts e) rows ≡ none
    → get_outbox_operation e.target_system e.idempotency_key (rows ++ new_outbox_row e ∷ [])
      ≡ some (new_outbox_row e)
unfolding get_outbox_operation new_outbox_row find
find-inserted e rows free =
    let key = same_operation_key e.target_system e.idempotency_key in
    find-append_none key rows (new_outbox_row e ∷ [])
      (find-none_weaken (conflicts e) key rows (λ s h. ground arith) free)
    ∙ simp eq_refl

module _ (e : Envelope) (c : Comparison) (rows : List OutboxRow) (answer : EnqueueResult) where
  known_queues :
      (prior : OutboxRow)
      → get_outbox_operation e.target_system e.idempotency_key rows ≡ some prior
      → existing_operation e c (some prior) ≡ ok answer
      → Queued e rows answer e.payload_sha256
  unfolding existing_operation
  known_queues prior found o = record {
    prior = prior;
    found = found;
    message_id = ground arith;
    payload = same_operation-payload prior.envelope e c (ground arith);
    state = ground arith;
  }

  inserted_queues :
      (rows' : List OutboxRow)
      → insert_or_ignore e c rows ≡ ok (answer, rows')
      → Queued e rows' answer e.payload_sha256
  unfolding insert_or_ignore new_outbox_row existing_operation
  inserted_queues rows' o = elim (Option-cases (find (conflicts e) rows)) [
    | inl free ↦
        let same : rows' ≡ rows ++ new_outbox_row e ∷ [] = ground arith in
        rw same (record {
          prior = new_outbox_row e;
          found = find-inserted e rows free;
          message_id = ground arith;
          payload = refl;
          state = ground arith;
        })
    | inr (old, taken) ↦
        elim (Option-cases (get_outbox_operation e.target_system e.idempotency_key rows)) [
          | inl absent ↦ absurd (ground arith)
          | inr (prior, found) ↦
              let same : rows' ≡ rows = ground arith in
              rw same (known_queues prior found (ground arith))
        ]
  ]

  enqueue_queues :
      (rows' : List OutboxRow)
      → enqueue_envelope_row e c rows ≡ ok (answer, rows')
      → Queued e rows' answer e.payload_sha256
  unfolding enqueue_envelope_row
  enqueue_queues rows' o = inserted_queues rows' (ground arith)

-- The reply that `enqueueReply` settles on stands in the outbox under the key of the one asked for.
module _ (reply : Envelope) (id : String) (outbox : List OutboxRow) (v : IsValidOutbox outbox)
    (answer : Reply) where
  prior_queues :
      (prior : OutboxRow)
      → get_outbox_operation reply.target_system reply.idempotency_key outbox ≡ some prior
      → existing_reply reply id (some prior) outbox ≡ ok answer
      → Queued reply answer.outbox answer.enqueued answer.authoritative.payload_sha256
        × (answer.authoritative.idempotency_key ≡ reply.idempotency_key)
  unfolding existing_reply get_outbox_operation
  prior_queues prior found o =
      let key : prior.envelope.idempotency_key ≡ reply.idempotency_key =
        sym
          (All-find IsSoundOutbox (same_operation_key reply.target_system reply.idempotency_key)
            outbox prior v.sound found).idempotency_key
        ∙ (eq_iff prior.idempotency_key reply.idempotency_key).0 (
            ground (
              arith,
              find_sound (same_operation_key reply.target_system reply.idempotency_key) outbox prior
                  found,
            )) in
      let same : answer ≡ record {
        enqueued = record {
          message_id = prior.envelope.message_id;
          state = prior.state;
          duplicate = true;
        };
        authoritative = prior.envelope;
        outbox = outbox;
      } =
        ground arith in
      rw same (
        record { prior = prior; found = found; message_id = refl; payload = refl; state = refl },
        key,
      )

  resolve_queues :
      (r : Result (EnqueueResult × List OutboxRow))
      → enqueue_envelope_row reply no_options outbox ≡ r
      → resolve_reply reply id outbox r ≡ ok answer
      → Queued reply answer.outbox answer.enqueued answer.authoritative.payload_sha256
        × (answer.authoritative.idempotency_key ≡ reply.idempotency_key)
  unfolding resolve_reply existing_reply
  resolve_queues (ok (result, rows)) e o =
      let same : answer ≡ record { enqueued = result; authoritative = reply; outbox = rows } =
        ground arith in
      rw same (enqueue_queues reply no_options outbox result rows e, refl)
  resolve_queues (err (idempotency_conflict key)) e o =
      elim (Option-cases (get_outbox_operation reply.target_system reply.idempotency_key outbox)) [
        | inl absent ↦ absurd (ground arith)
        | inr (prior, found) ↦ prior_queues prior found (ground (arith, found))
      ]
  resolve_queues (err (range_error t)) e o = absurd (ground arith)
  resolve_queues (err (validation t)) e o = absurd (ground arith)
  resolve_queues (err (state_transition t)) e o = absurd (ground arith)
  resolve_queues (err dispatch_result_unavailable) e o = absurd (ground arith)
  resolve_queues (err (constraint_failed t)) e o = absurd (ground arith)
  resolve_queues (err (dispatch_rejected t)) e o = absurd (ground arith)
  resolve_queues (err (evidence_policy t)) e o = absurd (ground arith)
  resolve_queues (err (codex_execution t)) e o = absurd (ground arith)

  pub enqueue_reply_queues :
      enqueue_reply reply id outbox ≡ ok answer
      → Queued reply answer.outbox answer.enqueued answer.authoritative.payload_sha256
        × (answer.authoritative.idempotency_key ≡ reply.idempotency_key)
  unfolding enqueue_reply
  enqueue_reply_queues o = resolve_queues _ refl o
