-- ===== src/Application/Threads.antt =====
-- What the answers about a conversation are drawn from (`getAgentResult`, `continueAgent`,
-- `getAgentThread` of src/application/agent-bridge-service.ts).
use balcony_agent_bridge.Base.{
  ℕ, suc, ◌≤◌, ◌<◌, String, true, false, Option, none, some, List, [], ◌∷◌, ◌++◌, ◌≡◌, ◌∙◌, refl,
  sym, ap, subst, inl, inr, arith, any, eq_iff, ◌==◌, All, Option-cases, is_some, if◌then◌else◌,
}
use balcony_agent_bridge.Contracts.Envelope.{Envelope, task_request, same_kind, Platform}
use balcony_agent_bridge.Store.Schema.{Database, ok, Result-cases}
use balcony_agent_bridge.Store.Queries.{
  InboxItem, OutboxItem, ConversationItem, get_inbox_message, get_outbox_message,
  get_outbox_by_idempotency, find_inbox_reply_to, list_conversation,
}
use balcony_agent_bridge.Store.Queries.Conversation.{inbox_key, ReplyRow, reply_sound}
use balcony_agent_bridge.Base.Table.Keys.{Distinct}
use balcony_agent_bridge.Bridge.Inbound.{BridgeConfig}
use balcony_agent_bridge.Contracts.Payload.{CoordinationResult}
use balcony_agent_bridge.Contracts.Envelope.Creation.{non_empty}
use balcony_agent_bridge.Application.{SendInput, send}
use balcony_agent_bridge.Application.Sending.{Sent, send-Sent}
use balcony_agent_bridge.Application.Results.{
  TaskResult, outcome_or_completed, is_quarantined_item, waiting_status, task_result_of,
  get_agent_result,
}
use balcony_agent_bridge.Application.Conversations.{
  is_open, continue_input, ContinueInput, AskResult, after_all, next_sequence, ends_with,
  continue_agent, continue_result, continue_request, continue_thread, is_peer_result, mode_of,
}

-- What `getAgentResult` rests on where it shows no reply, and where it shows one.
pub data Shown (config : BridgeConfig) (task : String) (db : Database) (request : OutboxItem)
    (status : String) : Option InboxItem → Type 0 where
  no_reply :
      find_inbox_reply_to task request.envelope.target_system config.system_id
          request.envelope.conversation_id db
        ≡ none
      → status ≡ waiting_status request.state
      → Shown config task db request status none
  reply :
      (item : InboxItem)
      → ReplyRow task request.envelope.target_system config.system_id
          request.envelope.conversation_id db item
      → status ≡ (
          if is_quarantined_item item.state
          then "failed"
          else outcome_or_completed item.envelope.payload.coordination_result)
      → Shown config task db request status (some item)

-- The result of a task is that of a coordination request which this node has in its outbox. A
-- reply is shown only if it came authenticated, from the node that was asked to this node, in the
-- conversation of the request, as the task result that the request caused; a quarantined reply
-- counts as a failure. Without such a reply the status follows the request's own state.
pub agent_result_sound :
    (config : BridgeConfig) (task : String) (r : TaskResult) (db : Database)
    → Distinct inbox_key db.inbox
    → get_agent_result config task db ≡ ok r
    → (request : OutboxItem) × (get_outbox_message task db ≡ some request)
      × (same_kind request.envelope.kind task_request ≡ true)
      × (is_some request.envelope.payload.coordination_request ≡ true)
      × (r.delivery_state ≡ request.state)
      × Shown config task db request r.status r.result
unfolding get_agent_result task_result_of
agent_result_sound config task r db d o = elim (Option-cases (get_outbox_message task db)) [
  | inl missing ↦ absurd (ground arith)
  | inr (request, known) ↦
      elim (Option-cases (
        find_inbox_reply_to task request.envelope.target_system config.system_id
          request.envelope.conversation_id db)) [
            | inl silent ↦
                let shown : none ≡ r.result = ground arith in
                (
                  request,
                  known,
                  ground arith,
                  ground arith,
                  ground arith,
                  subst (λ o. Shown config task db request r.status o) shown
                      (no_reply silent (ground arith)),
                )
            | inr (item, answered) ↦
                let shown : some item ≡ r.result = ground arith in
                (
                  request,
                  known,
                  ground arith,
                  ground arith,
                  ground arith,
                  subst (λ o. Shown config task db request r.status o) shown
                      (reply item (reply_sound _ _ _ _ db item d answered) (ground arith)),
                )
          ]
]

-- The number that follows a thread is larger than all in it.
after_all_above :
    (items : List ConversationItem) (most : ℕ)
    → after_all items ≤ most
    → All (λ i. (n : ℕ) → i.envelope.sequence_number ≡ some n → n < most) items
after_all_above [] most h = tt
after_all_above (i ∷ items) most h = (
  λ n e. above i.envelope.sequence_number n e (ground arith),
  after_all_above items most (ground arith),
)
  where
    above :
        (s : Option ℕ) (n : ℕ)
        → s ≡ some n
        → (elim s as (λ _. ℕ) [ none ↦ 0 | some m ↦ suc m ]) ≤ most
        → n < most
    above none n e le = cc
    above (some m) n e le = let same : m ≡ n = ground arith in ground arith

-- The last item of a list.
ends_with-last :
    (id : String) (items : List ConversationItem)
    → ends_with id items ≡ true
    → (earlier : List ConversationItem) × (i : ConversationItem) × (items ≡ earlier ++ i ∷ [])
      × (i.envelope.message_id ≡ id)
ends_with-last id [] h = absurd (ground arith)
ends_with-last id (i ∷ []) h = ([], i, refl, (eq_iff i.envelope.message_id id).0 h)
ends_with-last id (i ∷ j ∷ items) h =
    let (earlier, last, rest, same) = ends_with-last id (j ∷ items) h in
    (i ∷ earlier, last, ap (λ (l : List ConversationItem). i ∷ l) rest, same)

-- What `continueAgent` rests on, and what it sends.
pub record Continued (config : BridgeConfig) (input : ContinueInput) (answer : AskResult)
    (db db' : Database) : Type 0 where
  pub previous : InboxItem
  pub metadata : CoordinationResult
  pub thread : List ConversationItem
  pub item : OutboxItem
  pub known : get_inbox_message input.previous_result_message_id db ≡ some previous
  pub authenticated : previous.authenticated_ingress ≡ true
  pub unrefused : is_open previous.state ≡ true
  pub result : previous.envelope.payload.coordination_result ≡ some metadata
  pub completed : metadata.outcome ≡ "completed"
  pub authorized :
      any (λ node. node == previous.envelope.origin_system) config.authorized_node_ids ≡ true
  pub listed :
      list_conversation previous.envelope.conversation_id 100
        (some (config.system_id, previous.envelope.origin_system))
        db
      ≡ ok thread
  pub latest :
      get_outbox_by_idempotency previous.envelope.origin_system input.idempotency_key db ≡ none
      → (earlier : List ConversationItem) × (i : ConversationItem) × (thread ≡ earlier ++ i ∷ [])
        × (i.envelope.message_id ≡ previous.envelope.message_id)
  pub later :
      get_outbox_by_idempotency previous.envelope.origin_system input.idempotency_key db ≡ none
      → All (λ i. (n : ℕ) → i.envelope.sequence_number ≡ some n → n < answer.sequence_number) thread
  pub stored : get_outbox_message answer.request.message_id db' ≡ some item
  pub sent :
      answer.request.duplicate ≡ false
      → (item.envelope.sequence_number ≡ some answer.sequence_number)
        × (item.envelope.causation_id ≡ non_empty (some previous.envelope.message_id))

module _ (platform : Platform) (config : BridgeConfig) (input : ContinueInput) (clock : ℕ)
    (answer : AskResult) (db db' : Database) where
  -- What the last part of `continueAgent` shows.
  record Followed (previous : Envelope) : Type 0 where
    thread : List ConversationItem
    listed :
        list_conversation previous.conversation_id 100
          (some (config.system_id, previous.origin_system))
          db
        ≡ ok thread
    numbered :
        answer.sequence_number
        ≡ next_sequence
            (get_outbox_by_idempotency previous.origin_system input.idempotency_key db)
            thread
    latest :
        get_outbox_by_idempotency previous.origin_system input.idempotency_key db ≡ none
        → ends_with previous.message_id thread ≡ true
    follow_up : SendInput
    sequence : follow_up.sequence_number ≡ some answer.sequence_number
    cause : follow_up.causation_id ≡ some previous.message_id
    sent : Sent platform config follow_up answer.request db'

  continue_thread-Followed :
      (previous : Envelope) (project : String) (mode : Option String)
      → continue_thread platform config input previous project mode clock db ≡ ok (answer, db')
      → Followed previous
  unfolding continue_thread
  continue_thread-Followed previous project mode o =
      elim (Result-cases (
        list_conversation previous.conversation_id 100
          (some (config.system_id, previous.origin_system)) db)) [
            | inr (_, refused) ↦ absurd (ground arith)
            | inl (thread, listed) ↦
                let next =
                  next_sequence
                    (get_outbox_by_idempotency previous.origin_system input.idempotency_key db)
                    thread in
                let follow_up = continue_input platform config input previous project mode next in
                elim (Result-cases (send platform config follow_up clock db)) [
                  | inr (_, refused) ↦ absurd (ground arith)
                  | inl ((request, db''), done) ↦
                      let kept : db'' ≡ db' = ground arith in
                      let told : request ≡ answer.request = ground arith in
                      let numbered : answer.sequence_number ≡ next = ground arith in
                      record {
                        thread = thread;
                        listed = listed;
                        numbered = numbered;
                        latest = λ fresh. ground arith;
                        follow_up = follow_up;
                        sequence = ap (λ (n : ℕ). some n) (sym numbered);
                        cause = refl;
                        sent =
                            rw (← told, ← kept)
                              (send-Sent platform config follow_up clock request db db'' done);
                      }
                ]
          ]

  result-Continued :
      (previous : InboxItem) (metadata : CoordinationResult)
      → get_inbox_message input.previous_result_message_id db ≡ some previous
      → is_peer_result platform config previous ≡ true
      → previous.envelope.payload.coordination_result ≡ some metadata
      → metadata.outcome == "completed" ≡ true
      → Followed previous.envelope
      → Continued config input answer db db'
  result-Continued previous metadata known trusted result outcome f = record {
    previous = previous;
    metadata = metadata;
    thread = f.thread;
    item = f.sent.item;
    known = known;
    authenticated = ground arith;
    unrefused = ground arith;
    result = result;
    completed = (eq_iff metadata.outcome "completed").0 outcome;
    authorized = ground arith;
    listed = f.listed;
    latest = λ fresh. ends_with-last previous.envelope.message_id f.thread (f.latest fresh);
    later = λ fresh.
        after_all_above f.thread answer.sequence_number (rw (f.numbered, fresh) (omega arith));
    stored = f.sent.stored;
    sent = λ fresh. (
      f.sent.sequence_number fresh ∙ f.sequence,
      f.sent.causation_id fresh ∙ ap non_empty f.cause,
    );
  }

  -- A conversation is only continued from an authenticated, completed result of an authorized peer.
  -- Where the follow-up is new, the result is the last message of the thread, and the sequence
  -- number that is answered is larger than every number in it. The message that is answered is in
  -- the outbox, and a message that this call put there has that number and that cause.
  pub continue_sequence :
      continue_agent platform config input clock db ≡ ok (answer, db')
      → Continued config input answer db db'
  unfolding continue_agent continue_result continue_request
  continue_sequence o =
      elim (Option-cases (get_inbox_message input.previous_result_message_id db)) [
        | inl missing ↦ absurd (ground arith)
        | inr (previous, known) ↦
            elim (Option-cases previous.envelope.payload.coordination_result) [
              | inl plain ↦ absurd (ground arith)
              | inr (metadata, result) ↦
                  elim (Option-cases (get_outbox_message metadata.request_message_id db)) [
                    | inl lost ↦ absurd (ground arith)
                    | inr (prior, requested) ↦ elim (Option-cases prior.envelope.payload.project) [
                      | inl nameless ↦ absurd (ground arith)
                      | inr (project, named) ↦
                          result-Continued previous metadata known (ground arith) result
                            (ground arith)
                            (continue_thread-Followed previous.envelope project
                              (mode_of prior.envelope.payload.dispatch) (ground arith))
                    ]
                  ]
            ]
      ]
