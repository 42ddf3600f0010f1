-- ===== src/Bridge/Inbound/Custody.antt =====
-- A delivery is completed only when the inbox holds its message, and only then is it written.
use balcony_agent_bridge.Base.{
  String, true, false, Option, none, some, any, ◌≡◌, refl, sym, ◌∙◌, ap, inl, inr, ◌≢◌, arith,
  eq_iff, Bool-cases, Option-cases, ◌==◌,
}
use balcony_agent_bridge.Base.Table.{find}
use balcony_agent_bridge.Time.{to_iso_string}
use balcony_agent_bridge.Contracts.Envelope.{Envelope, Platform}
use balcony_agent_bridge.Store.Schema.{InboxRow, Database}
use balcony_agent_bridge.Store.Inbox.{
  PersistStatus, inserted, duplicate, collision, has_id, same_inbound_message, receive,
  persist_incoming,
}
use balcony_agent_bridge.Store.Inbox.Reception.{receive-Holds}
use balcony_agent_bridge.Store.Deliveries.{record_delivery_attempt}
use balcony_agent_bridge.Bridge.Inbound.{
  BridgeConfig, InboundDelivery, Settlement, complete, dead_letter, Clock, Processed,
  session_differs, record_inbound_attempt, refuse, dead_letter_invalid_envelope, confirm,
  settle_persisted, take_in, process_inbound_delivery,
}

-- What is known when the broker is asked to complete a delivery.
pub record InCustody (config : BridgeConfig) (delivery : InboundDelivery) (db : Database)
    : Type 0 where
  pub envelope : Envelope
  pub row : InboxRow
  pub body : delivery.body ≡ some envelope
  pub target : envelope.target_system ≡ config.system_id
  pub origin : any (λ id. id == envelope.origin_system) config.authorized_node_ids ≡ true
  pub session : session_differs delivery.session_id envelope ≡ false
  pub found : find (has_id envelope.message_id) db.inbox ≡ some row
  pub same : same_inbound_message row.envelope envelope ≡ true

module _ (platform : Platform) (config : BridgeConfig) (broker : Settlement → Option String)
    (clock : Clock) where
  refuse-settlement :
      (delivery : InboundDelivery) (message_id reason : String) (db : Database)
      → ((refuse platform config broker clock delivery message_id reason db).settlement
          ≡ dead_letter reason)
        × ((refuse platform config broker clock delivery message_id reason db).database.inbox
            ≡ db.inbox)
  unfolding refuse record_inbound_attempt record_delivery_attempt
  refuse-settlement delivery message_id reason db =
      elim (Option-cases (broker (dead_letter reason))) [
        | inl done ↦ rw (done, refuse) (refl, refl)
        | inr (code, failed) ↦ rw (failed, refuse) (refl, refl)
      ]

  confirm-inbox :
      (delivery : InboundDelivery) (e : Envelope) (status : PersistStatus) (db : Database)
      → (confirm platform config broker clock delivery e status db).database.inbox ≡ db.inbox
  unfolding confirm record_inbound_attempt record_delivery_attempt
  confirm-inbox delivery e status db = elim (Option-cases (broker complete)) [
    | inl done ↦ rw (done, confirm) refl
    | inr (code, failed) ↦ rw (failed, confirm) refl
  ]

  -- The inbox after `persistIncoming`, seen through what follows it.
  persisted_in :
      (delivery : InboundDelivery) (e : Envelope) (status : PersistStatus) (db' : Database)
      → (settle_persisted platform config broker clock delivery e status db').settlement ≡ complete
      → (status ≢ collision)
        × ((settle_persisted platform config broker clock delivery e status db').database.inbox
            ≡ db'.inbox)
  unfolding settle_persisted
  persisted_in delivery e collision db' h =
      absurd
        (ground (arith, (refuse-settlement delivery e.message_id "MessageIdentityCollision" db').0))
  persisted_in delivery e inserted db' h =
      ((λ k. ground arith), confirm-inbox delivery e inserted db')
  persisted_in delivery e duplicate db' h =
      ((λ k. ground arith), confirm-inbox delivery e duplicate db')

  taken_in :
      (delivery : InboundDelivery) (e : Envelope) (failure : Option String) (db : Database)
      → (take_in platform config broker clock delivery e failure db).settlement ≡ complete
      → (r : InboxRow) × (find
            (has_id e.message_id)
            (take_in platform config broker clock delivery e failure db).database.inbox
          ≡ some r)
        × (same_inbound_message r.envelope e ≡ true)
  unfolding take_in persist_incoming
  taken_in delivery e (some code) db h = absurd (ground arith)
  taken_in delivery e none db h =
      let after = receive e delivery.delivery_count (to_iso_string clock.received) true db.inbox in
      let (taken, same) = persisted_in delivery e after.0 (record db { inbox = after.1 }) h in
      let (r, found, alike) =
        receive-Holds e delivery.delivery_count (to_iso_string clock.received) true db.inbox after.0
          after.1 refl taken in
      (r, rw same found, alike)

  refused :
      (delivery : InboundDelivery) (message_id reason : String) (db : Database)
      → (refuse platform config broker clock delivery message_id reason db).settlement ≢ complete
  refused delivery message_id reason db h =
      ground (arith, (refuse-settlement delivery message_id reason db).0)

  invalid_refused :
      (delivery : InboundDelivery) (db : Database)
      → (dead_letter_invalid_envelope platform config broker clock delivery db).settlement
        ≢ complete
  unfolding dead_letter_invalid_envelope
  invalid_refused delivery db h = ground arith

-- A delivery is only completed at the broker when the inbox holds its message: the body parsed, it
-- is addressed to this system, its origin is authorized, its session fits, and the inbox that the
-- handler leaves holds under its identifier a row of the same signed message.
pub complete-InCustody :
    (platform : Platform) (config : BridgeConfig) (broker : Settlement → Option String)
    (clock : Clock) (delivery : InboundDelivery) (failure : Option String) (db : Database)
    → (process_inbound_delivery platform config broker clock delivery failure db).settlement
      ≡ complete
    → InCustody config delivery
        (process_inbound_delivery platform config broker clock delivery failure db).database
unfolding process_inbound_delivery
complete-InCustody platform config broker clock delivery failure db h =
    elim (Option-cases delivery.body) [
      | inl bad ↦ absurd (invalid_refused platform config broker clock delivery db (ground arith))
      | inr (e, body) ↦ elim (Bool-cases (e.target_system == config.system_id)) [
        | inr elsewhere ↦ absurd (
            refused platform config broker clock delivery e.message_id "WrongTargetSystem" db
              (ground arith))
        | inl here ↦
            elim (Bool-cases (any (λ id. id == e.origin_system) config.authorized_node_ids)) [
              | inr unknown ↦ absurd (
                  refused platform config broker clock delivery e.message_id
                    "UnauthorizedOriginNode" db (ground arith))
              | inl known ↦ elim (Bool-cases (session_differs delivery.session_id e)) [
                | inl differs ↦ absurd (
                    refused platform config broker clock delivery e.message_id "SessionMismatch" db
                      (ground arith))
                | inr fits ↦
                    let all_taken : process_inbound_delivery platform config broker clock delivery
                          failure db
                        ≡ take_in platform config broker clock delivery e failure db =
                      ground arith in
                    let (r, found, alike) =
                      taken_in platform config broker clock delivery e failure db
                        (ap (λ (x : Processed). x.settlement) (sym all_taken) ∙ h) in
                    record {
                      envelope = e;
                      row = r;
                      body = body;
                      target = (eq_iff e.target_system config.system_id).0 here;
                      origin = known;
                      session = fits;
                      found =
                          ap (λ (x : Processed). find (has_id e.message_id) x.database.inbox)
                            all_taken
                          ∙ found;
                      same = alike;
                    }
              ]
            ]
      ]
    ]
