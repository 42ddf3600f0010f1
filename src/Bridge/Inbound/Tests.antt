-- ===== src/Bridge/Inbound/Tests.antt =====
-- A delivery of the request on a bridge that serves SYS-B.
use balcony_agent_bridge.Base.{String, Option, none, some, [], ◌∷◌, ◌≡◌, refl}
use balcony_agent_bridge.Base.Table.{update, find}
use balcony_agent_bridge.Time.{to_iso_string}
use balcony_agent_bridge.Security.{normalize_error_code, trim}
use balcony_agent_bridge.Store.Inbox.{
  same_inbound_message, new_inbox_row, receive_known, receive, persist_incoming,
}
use balcony_agent_bridge.Store.Deliveries.{record_delivery_attempt}
use balcony_agent_bridge.Bridge.Inbound.{
  BridgeConfig, InboundDelivery, Settlement, complete, dead_letter, Clock, Processed,
  record_inbound_attempt, refuse, dead_letter_invalid_envelope, confirm, settle_persisted, take_in,
  process_inbound_delivery,
}
use balcony_agent_bridge.Bridge.Inbound.Custody.{InCustody, complete-InCustody}
use balcony_agent_bridge.Samples.{request, empty_database, morning, plain_platform}

-- All that a delivery computes with.
inbound : Unit {0}
unfolding update find to_iso_string normalize_error_code trim same_inbound_message new_inbox_row
    receive_known receive persist_incoming record_delivery_attempt record_inbound_attempt refuse
    dead_letter_invalid_envelope confirm settle_persisted take_in process_inbound_delivery
inbound = tt

abbrev config : BridgeConfig
config = record { system_id = "SYS-B"; authorized_node_ids = "SYS-A" ∷ [] }

abbrev delivery : InboundDelivery
delivery = record {
  body = some request;
  broker_message_id = "b1";
  delivery_count = 1;
  session_id = some "c1";
}

abbrev clock : Clock
clock = record { started = morning; received = morning; finished = morning }

abbrev willing : Settlement → Option String
willing s = none

abbrev run : Processed
run = process_inbound_delivery plain_platform config willing clock delivery none empty_database

completes : run.settlement ≡ complete
unfolding inbound
completes = refl

wrong_session :
    (process_inbound_delivery plain_platform config willing clock
      (record delivery { session_id = some "c2" })
      none
      empty_database).settlement
    ≡ dead_letter "SessionMismatch"
unfolding inbound
wrong_session = refl

complete-InCustody_example : InCustody config delivery run.database
complete-InCustody_example =
    complete-InCustody plain_platform config willing clock delivery none empty_database completes
