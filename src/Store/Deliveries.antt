-- ===== src/Store/Deliveries.antt =====
-- Delivery attempts (`recordDeliveryAttempt` of src/storage/database.ts).
use balcony_agent_bridge.Base.{
  ℕ, suc, String, Bool, Option, none, some, [], ◌∷◌, ◌++◌, ◌==◌, if◌then◌else◌,
}
use balcony_agent_bridge.Security.{normalize_error_code}
use balcony_agent_bridge.Contracts.Envelope.{Platform}
use balcony_agent_bridge.Store.Schema.{DeliveryAttempt, Database}

pub record AttemptInput : Type 0 where
  pub is_outbound : Bool
  pub message_id : String
  pub attempt_number : ℕ
  pub started_at_utc : String
  pub finished_at_utc : String
  pub outcome : String
  pub error_code : Option String

-- `input.errorCode ? normalizeErrorCode(input.errorCode) : null`
abbrev pub safe_code : Option String → Option String
safe_code none = none
safe_code (some code) = if code == "" then none else some (normalize_error_code code)

unfoldable pub record_delivery_attempt : Platform → AttemptInput → Database → Database
record_delivery_attempt platform input db =
    let attempt : DeliveryAttempt = record {
      attempt_id = platform.random_uuid db.draws;
      is_outbound = input.is_outbound;
      message_id = input.message_id;
      attempt_number = input.attempt_number;
      started_at_utc = input.started_at_utc;
      finished_at_utc = input.finished_at_utc;
      outcome = input.outcome;
      error_code = safe_code input.error_code;
    } in
    record db { delivery_attempts = db.delivery_attempts ++ attempt ∷ []; draws = suc db.draws }
