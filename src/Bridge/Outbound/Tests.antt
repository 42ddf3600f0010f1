-- ===== src/Bridge/Outbound/Tests.antt =====
-- A run over an outbox with one message.
use balcony_agent_bridge.Base.{ℕ, ◌+◌, String, false, Option, some, [], ◌∷◌, ◌≡◌, refl}
use balcony_agent_bridge.Base.Table.{find}
use balcony_agent_bridge.Contracts.Envelope.{Envelope}
use balcony_agent_bridge.Store.Schema.{Database, pending, ok}
use balcony_agent_bridge.Store.Outbox.{
  no_options, new_outbox_row, enqueue_envelope, enqueue_envelope_row, insert_or_ignore, other_root,
}
use balcony_agent_bridge.Store.Outbox.Rows.{IsValid}
use balcony_agent_bridge.Store.Outbox.Steps.{here, next, enqueues}
use balcony_agent_bridge.Store.Outbox.Invariant.{Reach-IsValid}
use balcony_agent_bridge.Bridge.Inbound.{BridgeConfig}
use balcony_agent_bridge.Bridge.Outbound.{World, run_outbound_once}
use balcony_agent_bridge.Bridge.Outbound.Total.{Swept, run_outbound_total}
use balcony_agent_bridge.Samples.{request, empty_database, morning, plain_platform}

abbrev one_message : Database
one_message = record empty_database { outbox = new_outbox_row request ∷ [] }

enqueue_request :
    enqueue_envelope request no_options empty_database
    ≡ ok (record { message_id = "m1"; state = pending; duplicate = false }, one_message)
unfolding enqueue_envelope enqueue_envelope_row insert_or_ignore other_root find new_outbox_row
enqueue_request = refl

one_message-IsValid : IsValid one_message.outbox
one_message-IsValid =
    Reach-IsValid (record { sound = tt; ids = tt; operations = tt })
      (next here (
        enqueues request no_options
          (record { message_id = "m1"; state = pending; duplicate = false }) enqueue_request))

abbrev config : BridgeConfig
config = record { system_id = "SYS-A"; authorized_node_ids = "SYS-B" ∷ [] }

-- A transport that is busy.
abbrev busy : ℕ → Envelope → Option String
busy n e = some "ServiceBusy"

abbrev ticking : ℕ → ℕ
ticking n = morning + n

abbrev start : World
start = record { database = one_message; readings = 0; sends = 0 }

run_outbound_total_example :
    Swept "w1" morning start
      (run_outbound_once plain_platform config "w1" busy ticking morning start)
run_outbound_total_example =
    run_outbound_total plain_platform config "w1" busy ticking morning start one_message-IsValid
