-- ===== src/Store/Status/Tests.antt =====
-- The counts of a database with one message.
use balcony_agent_bridge.Base.{
  ◌+◌, [], ◌∷◌, ◌≡◌, true, false, none, some, refl, arith, ◌==◌, if◌then◌else◌,
}
use balcony_agent_bridge.Time.{to_iso_string, date_parse}
use balcony_agent_bridge.Store.Schema.{RuntimeComponent, bridge, Database}
use balcony_agent_bridge.Store.Inbox.{new_inbox_row}
use balcony_agent_bridge.Store.Status.{
  record_runtime_heartbeat, get_status, RuntimeReport, healthy, degraded, same_component,
}
use balcony_agent_bridge.Store.Status.Heartbeats.{report_of, heartbeat_reported}
use balcony_agent_bridge.Store.Status.Counts.{Counted, status_counts}
use balcony_agent_bridge.Samples.{request, empty_database, morning}

abbrev one_received : Database
unfolding new_inbox_row
one_received = record empty_database {
  inbox = new_inbox_row request 1 "2026-01-01T06:00:00.000Z" true ∷ [];
}

status_counts_example : Counted (get_status morning one_received) one_received
status_counts_example = status_counts morning one_received

morning_denoted : date_parse (to_iso_string morning) ≡ morning
unfolding to_iso_string date_parse
morning_denoted = refl

abbrev beaten : Database
beaten = record_runtime_heartbeat bridge "i1" "healthy" none morning one_received

heartbeat_reported_example :
    ((r : RuntimeReport) × (report_of bridge (get_status (morning + 60000) beaten) ≡ some r)
      × (r.heartbeat_at_utc ≡ to_iso_string morning)
      × (r.reported_status ≡ "healthy")
      × (r.last_error_code ≡ none)
      × (r.health.status ≡ (if "healthy" == "healthy" then healthy else degraded)))
    × ((d : RuntimeComponent)
        → same_component bridge d ≡ false
        → report_of d (get_status (morning + 60000) beaten)
          ≡ report_of d (get_status (morning + 60000) one_received))
heartbeat_reported_example =
    heartbeat_reported bridge "i1" "healthy" none morning (morning + 60000) one_received
      morning_denoted (omega arith)
