-- ===== src/Application/Sending.antt =====
-- What `send` of src/application/agent-bridge-service.ts leaves in the outbox.
use balcony_agent_bridge.Base.{
  ℕ, String, true, false, Option, none, some, List, [], ◌∷◌, ◌++◌, ◌≡◌, refl, ◌∙◌, any, inl, inr,
  arith, Option-cases, eq_refl, ◌==◌, is_some,
}
use balcony_agent_bridge.Base.Table.{find}
use balcony_agent_bridge.Base.Table.Laws.{find-append_none, find-none_weaken}
use balcony_agent_bridge.Contracts.Identifiers.{system_id}
use balcony_agent_bridge.Contracts.Envelope.{Envelope, Platform}
use balcony_agent_bridge.Contracts.Envelope.Creation.{
  EnvelopeInput, non_empty, or_else, create_envelope,
}
use balcony_agent_bridge.Contracts.Envelope.Fields.{bounded, message_payload}
use balcony_agent_bridge.Contracts.Envelope.RoundTrip.{system_id_again}
use balcony_agent_bridge.Contracts.Envelope.Kept.{create_envelope-Carries}
use balcony_agent_bridge.Store.Schema.{OutboxRow, Database, ok, Result-cases}
use balcony_agent_bridge.Store.Outbox.{
  EnqueueResult, Comparison, conflicts, get_outbox_operation, new_outbox_row, existing_operation,
  insert_or_ignore, enqueue_envelope_row, enqueue_envelope,
}
use balcony_agent_bridge.Store.Queries.{OutboxItem, is_outbox_message, get_outbox_message}
use balcony_agent_bridge.Bridge.Inbound.{BridgeConfig}
use balcony_agent_bridge.Application.{
  SendInput, SendResult, instant_or, created, require_authorized_remote_node, send_input, read_back,
  send,
}

-- A message that is new stands in the outbox under its identifier.
inserted_new :
    (e : Envelope) (c : Comparison) (rows rows' : List OutboxRow) (result : EnqueueResult)
    → enqueue_envelope_row e c rows ≡ ok (result, rows')
    → result.duplicate ≡ false
    → find (is_outbox_message result.message_id) rows' ≡ some (new_outbox_row e)
unfolding enqueue_envelope_row insert_or_ignore existing_operation new_outbox_row find
inserted_new e c rows rows' result o fresh = elim (Option-cases (find (conflicts e) rows)) [
  | inl free ↦
      let table : rows' ≡ rows ++ new_outbox_row e ∷ [] = ground arith in
      let id : result.message_id ≡ e.message_id = ground arith in
      rw (table, id)
        (find-append_none (is_outbox_message e.message_id) rows (new_outbox_row e ∷ []) (
            find-none_weaken (conflicts e) (is_outbox_message e.message_id) rows
              (λ s h. ground arith) free)
          ∙ simp eq_refl)
  | inr (old, taken) ↦
      elim (Option-cases (get_outbox_operation e.target_system e.idempotency_key rows)) [
        | inl absent ↦ absurd (ground arith)
        | inr (prior, found) ↦ absurd (ground arith)
      ]
]

module _ (platform : Platform) (config : BridgeConfig) where
  -- Why a message was taken for sending, and what is stored of it.
  pub record Sent (input : SendInput) (answer : SendResult) (db' : Database) : Type 0 where
    pub target : String
    pub item : OutboxItem
    pub named : system_id input.target_node_id ≡ some target
    pub remote : (target == config.system_id) ≡ false
    pub authorized : any (λ node. node == target) config.authorized_node_ids ≡ true
    pub stored : get_outbox_message answer.message_id db' ≡ some item
    pub kind : answer.duplicate ≡ false → item.envelope.kind ≡ input.kind
    pub sequence_number :
        answer.duplicate ≡ false → item.envelope.sequence_number ≡ input.sequence_number
    pub causation_id :
        answer.duplicate ≡ false → item.envelope.causation_id ≡ non_empty input.causation_id
    pub addressed : answer.duplicate ≡ false → item.envelope.target_system ≡ target
    pub idempotency_key :
        answer.duplicate ≡ false
        → bounded 128 input.idempotency_key ≡ some item.envelope.idempotency_key
    pub stream_id :
        answer.duplicate ≡ false → bounded 128 input.stream_id ≡ some item.envelope.stream_id
    pub payload :
        answer.duplicate ≡ false
        → message_payload platform input.payload ≡ some item.envelope.payload
    pub origin :
        answer.duplicate ≡ false → system_id config.system_id ≡ some item.envelope.origin_system
    pub conversation_id :
        answer.duplicate ≡ false
        → (c : String) → non_empty input.conversation_id ≡ some c
        → item.envelope.conversation_id ≡ c
    pub correlation_id :
        answer.duplicate ≡ false → item.envelope.correlation_id ≡ non_empty input.correlation_id
    pub expires_at_utc :
        answer.duplicate ≡ false
        → (t : String) → non_empty input.expires_at_utc ≡ some t
        → item.envelope.expires_at_utc ≡ some t

  abbrev comparison_of : SendInput → Comparison
  comparison_of input = record {
    match_conversation_id = is_some input.conversation_id;
    match_expires_at_utc = is_some input.expires_at_utc;
  }

  remote_target :
      (value target : String)
      → require_authorized_remote_node platform config value ≡ ok target
      → (system_id value ≡ some target)
        × ((target == config.system_id) ≡ false)
        × (any (λ node. node == target) config.authorized_node_ids ≡ true)
  unfolding require_authorized_remote_node
  remote_target value target o = elim (Option-cases (system_id value)) [
    | inl refused ↦ absurd (ground arith)
    | inr (peer, named) ↦
        let same : peer ≡ target = ground arith in
        (rw (named, same) refl, rw (← same) (ground arith), rw (← same) (ground arith))
  ]

  -- The authorized target, checked again as part of the envelope, is the envelope's.
  addressed_to :
      (value target written : String)
      → system_id value ≡ some target
      → system_id target ≡ some written
      → written ≡ target
  addressed_to value target written named again =
      let same = system_id_again value target named in ground (arith, same, again)

  -- A given expiry is taken instead of the usual one.
  expiry_given :
      (o : Option String) (usual t : String)
      → non_empty o ≡ some t
      → non_empty (some (or_else o usual)) ≡ some t
  expiry_given none usual t given = absurd (ground arith)
  expiry_given (some s) usual t given = given

  created_by :
      (input : EnvelopeInput) (now : ℕ) (db drawn : Database) (e : Envelope)
      → created platform input now db ≡ ok (e, drawn)
      → create_envelope platform input now db.draws ≡ some e
  unfolding created
  created_by input now db drawn e o =
      elim (Option-cases (create_envelope platform input now db.draws)) [
        | inl refused ↦ absurd (ground arith)
        | inr (made, done) ↦ ground arith
      ]

  -- The message that a new answer names.
  stored_envelope :
      (e : Envelope) (c : Comparison) (result : EnqueueResult) (item : OutboxItem)
      (drawn db' : Database)
      → enqueue_envelope e c drawn ≡ ok (result, db')
      → get_outbox_message result.message_id db' ≡ some item
      → result.duplicate ≡ false
      → item.envelope ≡ e
  unfolding enqueue_envelope get_outbox_message new_outbox_row
  stored_envelope e c result item drawn db' o found fresh =
      elim (Result-cases (enqueue_envelope_row e c drawn.outbox)) [
        | inr (_, refused) ↦ absurd (ground arith)
        | inl ((r, rows), done) ↦
            let same : r ≡ result = ground arith in
            let table : db'.outbox ≡ rows = ground arith in
            let row = inserted_new e c drawn.outbox rows result (done ∙ rw same refl) fresh in
            ground (arith, row, table)
      ]

  -- Only an authorized remote node is sent to. The answer names a message of the outbox, and a new
  -- one is addressed to that node and comes from this one. It has the kind, the sequence number, the
  -- cause and the correlation that the sender gave, the conversation and the expiry where they were
  -- given, and the idempotency key, the stream and the payload in the form that their schemas return.
  pub send-Sent :
      (input : SendInput) (clock : ℕ) (answer : SendResult) (db db' : Database)
      → send platform config input clock db ≡ ok (answer, db')
      → Sent input answer db'
  unfolding send read_back
  send-Sent input clock answer db db' o =
      elim (Result-cases (require_authorized_remote_node platform config input.target_node_id)) [
        | inr (_, refused) ↦ absurd (ground arith)
        | inl (target, allowed) ↦
            let offered = send_input platform config input target clock in
            let now = instant_or input.now clock in
            elim (Result-cases (created platform offered now db)) [
              | inr (_, refused) ↦ absurd (ground arith)
              | inl ((e, drawn), made) ↦
                  elim (Result-cases (enqueue_envelope e (comparison_of input) drawn)) [
                    | inr (_, refused) ↦ absurd (ground arith)
                    | inl ((result, kept), queued) ↦
                        elim (Option-cases (get_outbox_message result.message_id kept)) [
                          | inl lost ↦ absurd (ground arith)
                          | inr (item, found) ↦
                              let same : kept ≡ db' = ground arith in
                              let id : result.message_id ≡ answer.message_id = ground arith in
                              let new : result.duplicate ≡ answer.duplicate = ground arith in
                              let (named, remote, authorized) =
                                remote_target input.target_node_id target allowed in
                              let carries =
                                create_envelope-Carries platform offered now db.draws e
                                  (created_by offered now db drawn e made) in
                              let envelope = λ (fresh : answer.duplicate ≡ false).
                                stored_envelope e (comparison_of input) result item drawn kept
                                  queued found (new ∙ fresh) in
                              record {
                                target = target;
                                item = item;
                                named = named;
                                remote = remote;
                                authorized = authorized;
                                stored = rw (← same, ← id) found;
                                kind = λ fresh. rw (envelope fresh) carries.kind;
                                sequence_number =
                                    λ fresh. rw (envelope fresh) carries.sequence_number;
                                causation_id = λ fresh. rw (envelope fresh) carries.causation_id;
                                addressed = λ fresh. rw (envelope fresh) (
                                    addressed_to input.target_node_id target e.target_system named
                                      carries.target);
                                idempotency_key =
                                    λ fresh. rw (envelope fresh) carries.idempotency_key;
                                stream_id = λ fresh. rw (envelope fresh) carries.stream_id;
                                payload = λ fresh. rw (envelope fresh) carries.payload;
                                origin = λ fresh. rw (envelope fresh) carries.origin;
                                conversation_id =
                                    λ fresh. rw (envelope fresh) carries.conversation_id;
                                correlation_id =
                                    λ fresh. rw (envelope fresh) carries.correlation_id;
                                expires_at_utc = λ fresh t given. rw (envelope fresh) (
                                    carries.expires_at_utc
                                    ∙ expiry_given input.expires_at_utc _ t given);
                              }
                        ]
                  ]
            ]
      ]
