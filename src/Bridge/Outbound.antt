-- ===== src/Bridge/Outbound.antt =====
-- Outgoing messages (`runOutboundOnce` of src/bridge/worker.ts). The transport and the clock are
-- parameters: the n-th send fails with an error code or not, and the clock has an n-th reading.
pub mod Total
mod Tests
use balcony_agent_bridge.Base.{
  ℕ, suc, ◌+◌, ◌*◌, ◌^◌, String, Bool, true, false, not, ◌||◌, Option, none, some, List, [], ◌∷◌,
  any, min, length, ◌==◌, if◌then◌else◌,
}
use balcony_agent_bridge.Time.{to_iso_string}
use balcony_agent_bridge.Security.{normalize_error_code}
use balcony_agent_bridge.Contracts.Envelope.{Envelope, Platform}
use balcony_agent_bridge.Store.Schema.{
  Database, Error, range_error, validation, state_transition, idempotency_conflict,
  dispatch_result_unavailable, constraint_failed, dispatch_rejected, evidence_policy,
  codex_execution, Result, ok, err,
}
use balcony_agent_bridge.Store.Outbox.{
  LeasedMessage, lease_outbox, mark_outbox_sent, release_outbox_lease, quarantine_outbox,
}
use balcony_agent_bridge.Store.Deliveries.{record_delivery_attempt}
use balcony_agent_bridge.Store.Status.{record_bridge_heartbeat}
use balcony_agent_bridge.Bridge.Inbound.{BridgeConfig}

-- PERMANENT_TRANSPORT_CODES
abbrev pub is_permanent : String → Bool
is_permanent code =
    code == "UnauthorizedAccess" || code == "MessagingEntityNotFound" || code == "InvalidOperation"

-- `retryDelayMilliseconds`
unfoldable pub retry_delay_milliseconds : ℕ → ℕ
retry_delay_milliseconds attempt = min (5 * 60 * 1000) (1000 * 2 ^ min attempt 8)

-- `safeErrorCode` of the errors of the store.
abbrev pub code_of : Error → String
code_of (range_error name) = "RangeError"
code_of (validation name) = "ZodError"
code_of (state_transition text) = "STATE_TRANSITION_ERROR"
code_of (idempotency_conflict key) = "IDEMPOTENCY_CONFLICT"
code_of dispatch_result_unavailable = "DISPATCH_RESULT_UNAVAILABLE"
code_of (constraint_failed name) = "SQLITE_CONSTRAINT"
code_of (dispatch_rejected text) = "DISPATCH_REJECTED"
code_of (evidence_policy text) = "EVIDENCE_POLICY_REJECTED"
code_of (codex_execution code) = code

-- The state of a run: the database, and how often the clock was read and the transport asked.
pub record World : Type 0 where
  pub database : Database
  pub readings : ℕ
  pub sends : ℕ

-- A run that throws leaves what was written until then.
pub record Progress : Type 0 where
  pub world : World
  pub thrown : Option Error

abbrev pub tick : World → World
tick w = record w { readings = suc w.readings }

module _ (platform : Platform) (config : BridgeConfig) (instance_id : String)
    (send : ℕ → Envelope → Option String) (clock : ℕ → ℕ) where
  -- `recordDeliveryAttempt`, with the time of its end read by the caller.
  unfoldable pub record_outbound_attempt :
      LeasedMessage → ℕ → ℕ → String → Option String → World → Progress
  record_outbound_attempt item started finished outcome error_code w = record {
    world = record w {
      database =
          record_delivery_attempt platform
            (record {
              is_outbound = true;
              message_id = item.envelope.message_id;
              attempt_number = item.attempt_number;
              started_at_utc = to_iso_string started;
              finished_at_utc = to_iso_string finished;
              outcome = outcome;
              error_code = error_code;
            })
            w.database;
    };
    thrown = none;
  }

  -- What follows an operation of the store: it goes on with the new database, or throws.
  unfoldable pub written : World → Result Database → (World → Progress) → Progress
  written w (ok db) next = next (record w { database = db })
  written w (err e) next = record { world = w; thrown = some e }

  -- The `catch` of the loop.
  unfoldable pub send_failed : LeasedMessage → ℕ → String → World → Progress
  send_failed item started code w =
      let finished = clock w.readings in
      let id = item.envelope.message_id in
      if is_permanent code
      then written (tick w) (quarantine_outbox id instance_id code w.database)
          (record_outbound_attempt item started finished "quarantined" (some code))
      else written (tick (tick w))
          (release_outbox_lease id instance_id
            (clock (suc w.readings) + retry_delay_milliseconds item.attempt_number) code w.database)
          (record_outbound_attempt item started finished "retry" (some code))

  -- A send that succeeded; an error of the store is caught like one of the transport.
  unfoldable pub send_done : LeasedMessage → ℕ → World → Progress
  send_done item started w =
      let finished = clock w.readings in
      elim (mark_outbox_sent item.envelope.message_id instance_id finished w.database) [
        | ok db ↦
            record_outbound_attempt item started finished "sent" none
              (record w { database = db; readings = suc w.readings })
        | err e ↦ send_failed item started (normalize_error_code (code_of e)) (tick w)
      ]

  unfoldable pub send_unauthorized : LeasedMessage → ℕ → World → Progress
  send_unauthorized item started w =
      written (tick w)
        (quarantine_outbox item.envelope.message_id instance_id "UnauthorizedTargetNode" w.database)
        (record_outbound_attempt item started (clock w.readings) "quarantined"
          (some "UnauthorizedTargetNode"))

  -- One round of the loop.
  unfoldable pub send_item : LeasedMessage → World → Progress
  send_item item w =
      let started = clock w.readings in
      if not (any (λ id. id == item.envelope.target_system) config.authorized_node_ids)
      then send_unauthorized item started (tick w)
      else elim (send w.sends item.envelope) [
        | none ↦
            send_done item started (record w { readings = suc w.readings; sends = suc w.sends })
        | some code ↦
            send_failed item started (normalize_error_code code)
              (record w { readings = suc w.readings; sends = suc w.sends })
      ]

  unfoldable pub send_items : List LeasedMessage → World → Progress
  send_items [] w = record { world = w; thrown = none }
  send_items (item ∷ items) w =
      let first = send_item item w in
      let rest = send_items items first.world in elim first.thrown [ none ↦ rest | some e ↦ first ]

  -- `runOutboundOnce`
  unfoldable pub run_outbound_once : ℕ → World → Progress
  run_outbound_once now w = elim (lease_outbox instance_id 10 60 now w.database) [
    | err e ↦ record { world = w; thrown = some e }
    | ok (leased, db) ↦ send_items leased (record w { database = db })
  ]

-- `recordHeartbeat`
unfoldable pub record_worker_heartbeat : String → String → Option String → ℕ → Database → Database
record_worker_heartbeat = record_bridge_heartbeat
