-- ===== src/Coordination/Frames.antt =====
-- What the coordinator calls beside the store of runs leaves the runs as they are.
use balcony_agent_bridge.Base.{
  ℕ, String, Option, none, some, List, ◌≡◌, ◌∙◌, inl, inr, arith, Option-cases,
}
use balcony_agent_bridge.Base.Table.{find}
use balcony_agent_bridge.Time.{to_iso_string}
use balcony_agent_bridge.Contracts.Identifiers.{system_id, resource_id}
use balcony_agent_bridge.Contracts.Payload.{MessagePayload}
use balcony_agent_bridge.Contracts.Envelope.{Envelope, MessageKind, Platform}
use balcony_agent_bridge.Contracts.Envelope.Creation.{EnvelopeInput}
use balcony_agent_bridge.Store.Schema.{
  InboxRow, InboxState, RequestState, pending, approved_once, approved_temporary, denied, revoked,
  expired, consumed, AuthorizationRequest, Database, ok, Result-cases,
}
use balcony_agent_bridge.Store.Inbox.{has_id}
use balcony_agent_bridge.Store.Outbox.{EnqueueResult, enqueue_envelope}
use balcony_agent_bridge.Store.Claims.{
  ClaimedMessage, claim_autonomous_consultation_inbox, claim_inbox_where,
}
use balcony_agent_bridge.Store.Settlement.{
  Outcome, Verdict, acknowledge, settle_claim, settle_held, settle_inbox_with_reply,
}
use balcony_agent_bridge.Store.Authorization.{insert_audit}
use balcony_agent_bridge.Store.Authorization.Requests.{park_claim, expire_requests}
use balcony_agent_bridge.Store.Authorization.Access.{
  Access, Decision, current_approval, has_identity, access_by_state, access_again, access_first,
  access_by_request, access_resource, access_of, access_row, authorize_claimed_resource_access,
}
use balcony_agent_bridge.Store.Authorization.Access.Soundness.{expire_requests-runs}
use balcony_agent_bridge.Bridge.Inbound.{BridgeConfig}
use balcony_agent_bridge.Application.{
  SendInput, SendResult, SettleInput, created, create_reply_envelope, send, settle_with_reply,
}

module _ (platform : Platform) where
  park_claim-runs :
      (id consumer token now_utc : String) (db db' : Database)
      → park_claim platform id consumer token now_utc db ≡ ok db'
      → db'.runs ≡ db.runs
  unfolding park_claim
  park_claim-runs id consumer token now_utc db db' o = ground arith

  access_by_state-runs :
      (a : Access) (r : AuthorizationRequest) (state : RequestState) (db db' : Database)
      (d : Decision)
      → access_by_state platform a r state db ≡ ok (d, db')
      → db'.runs ≡ db.runs
  unfolding access_by_state insert_audit
  access_by_state-runs a r pending db db' d o =
      elim (Result-cases
        (park_claim platform a.request_message_id a.consumer_id a.claim_token a.now_utc db)) [
          | inl (parked, done) ↦ ground (arith, park_claim-runs _ _ _ _ db parked done)
          | inr (_, failed) ↦ absurd (ground arith)
        ]
  access_by_state-runs a r approved_once db db' d o = ground arith
  access_by_state-runs a r consumed db db' d o = ground arith
  access_by_state-runs a r approved_temporary db db' d o = ground arith
  access_by_state-runs a r denied db db' d o = ground arith
  access_by_state-runs a r revoked db db' d o = ground arith
  access_by_state-runs a r expired db db' d o = ground arith

  access_again-runs :
      (a : Access) (r : AuthorizationRequest) (db db' : Database) (d : Decision)
      → access_again platform a r db ≡ ok (d, db')
      → db'.runs ≡ db.runs
  unfolding access_again
  access_again-runs a r db db' d o = ground (arith, access_by_state-runs a r r.state db db' d)

  access_first-runs :
      (a : Access) (db db' : Database) (d : Decision)
      → access_first platform a db ≡ ok (d, db')
      → db'.runs ≡ db.runs
  unfolding access_first park_claim insert_audit
  access_first-runs a db db' d o = ground arith

  access_by_request-runs :
      (a : Access) (db db' : Database) (d : Decision)
      → access_by_request platform a db ≡ ok (d, db')
      → db'.runs ≡ db.runs
  unfolding access_by_request
  access_by_request-runs a db db' d o =
      elim (Option-cases (find (has_identity a.request_identity) db.requests)) [
        | inl new ↦ access_first-runs a db db' d (ground arith)
        | inr (r, known) ↦ access_again-runs a r db db' d (ground arith)
      ]

  access_resource-runs :
      (a : Access) (db db' : Database) (d : Decision)
      → access_resource platform a db ≡ ok (d, db')
      → db'.runs ≡ db.runs
  unfolding access_resource insert_audit
  access_resource-runs a db db' d o =
      elim (Option-cases (current_approval a.peer_system_id a.resource_id a.now_utc db)) [
        | inl none_current ↦ ground (arith, access_by_request-runs a db db' d)
        | inr (r, current) ↦ ground arith
      ]

  access_row-runs :
      (id consumer token actor : String) (resource : Option String) (now_utc : String)
      (row : InboxRow) (db db' : Database) (d : Decision)
      → access_row platform id consumer token actor resource now_utc row db ≡ ok (d, db')
      → db'.runs ≡ db.runs
  unfolding access_row
  access_row-runs id consumer token actor none now_utc row db db' d o = ground arith
  access_row-runs id consumer token actor (some resource) now_utc row db db' d o =
      elim (Option-cases (system_id row.envelope.origin_system)) [
        | inl unknown ↦ ground arith
        | inr (peer, known) ↦ ground (
          arith,
          access_resource-runs
              (access_of platform id consumer token actor peer resource now_utc row) db db' d,
        )
      ]

  pub authorize-runs :
      (id consumer token resource actor : String) (now : ℕ) (d : Decision) (db db' : Database)
      → authorize_claimed_resource_access platform id consumer token resource actor now db
        ≡ ok (d, db')
      → db'.runs ≡ db.runs
  unfolding authorize_claimed_resource_access
  authorize-runs id consumer token resource actor now d db db' o =
      elim (Option-cases (system_id actor)) [
        | inl bad ↦ absurd (ground arith)
        | inr (a, known) ↦
            let current = expire_requests platform (to_iso_string now) db in
            elim (Option-cases (find (has_id id) current.inbox)) [
              | inl missing ↦ absurd (ground arith)
              | inr (row, found) ↦
                  access_row-runs id consumer token a (resource_id resource) (to_iso_string now) row
                    current db' d (ground arith)
                  ∙ expire_requests-runs platform (to_iso_string now) db
            ]
      ]

  pub acknowledge-runs :
      (id consumer token : String) (outcome : Outcome) (reason : Option String) (now : ℕ)
      (state : InboxState) (db db' : Database)
      → acknowledge platform id consumer token outcome reason now db ≡ ok (state, db')
      → db'.runs ≡ db.runs
  unfolding acknowledge settle_claim
  acknowledge-runs id consumer token outcome reason now state db db' o =
      elim (Option-cases (find (has_id id) db.inbox)) [
        | inl missing ↦ absurd (ground arith)
        | inr (row, found) ↦ ground arith
      ]

  settle-runs :
      (id consumer token : String) (verdict : Verdict) (reply : Envelope) (reason : Option String)
      (now : ℕ) (r : EnqueueResult) (db db' : Database)
      → settle_inbox_with_reply platform id consumer token verdict reply reason now db ≡ ok (r, db')
      → db'.runs ≡ db.runs
  unfolding settle_inbox_with_reply settle_held
  settle-runs id consumer token verdict reply reason now r db db' o =
      elim (Option-cases (find (has_id id) db.inbox)) [
        | inl missing ↦ absurd (ground arith)
        | inr (row, found) ↦ ground arith
      ]

  pub claim-runs :
      (consumer : String) (limit lease now : ℕ) (messages : List ClaimedMessage) (db db' : Database)
      → claim_autonomous_consultation_inbox platform consumer limit lease now db
        ≡ ok (messages, db')
      → db'.runs ≡ db.runs
  unfolding claim_autonomous_consultation_inbox claim_inbox_where
  claim-runs consumer limit lease now messages db db' o = ground arith

  created-runs :
      (input : EnvelopeInput) (now : ℕ) (e : Envelope) (db db' : Database)
      → created platform input now db ≡ ok (e, db')
      → db'.runs ≡ db.runs
  unfolding created
  created-runs input now e db db' o = ground arith

  create_reply-runs :
      (config : BridgeConfig) (id key : String) (kind : MessageKind) (payload : MessagePayload)
      (now : ℕ) (e : Envelope) (db db' : Database)
      → create_reply_envelope platform config id key kind payload now db ≡ ok (e, db')
      → db'.runs ≡ db.runs
  unfolding create_reply_envelope created
  create_reply-runs config id key kind payload now e db db' o = ground arith

  pub settle_with_reply-runs :
      (config : BridgeConfig) (input : SettleInput) (now : ℕ) (r : EnqueueResult)
      (db db' : Database)
      → settle_with_reply platform config input now db ≡ ok (r, db')
      → db'.runs ≡ db.runs
  unfolding settle_with_reply
  settle_with_reply-runs config input now r db db' o =
      elim (Result-cases (
        create_reply_envelope platform config input.original_message_id input.idempotency_key
          input.kind input.payload now db)) [
            | inr (_, failed) ↦ absurd (ground arith)
            | inl ((e, drawn), made) ↦
                settle-runs input.original_message_id input.consumer_id input.claim_token
                  input.outcome e input.reason now r drawn db' (ground arith)
                ∙ create_reply-runs config input.original_message_id input.idempotency_key
                    input.kind input.payload now e db drawn made
          ]

  pub send-runs :
      (config : BridgeConfig) (input : SendInput) (clock : ℕ) (r : SendResult) (db db' : Database)
      → send platform config input clock db ≡ ok (r, db')
      → db'.runs ≡ db.runs
  unfolding send created enqueue_envelope
  send-runs config input clock r db db' o = ground arith
