-- ===== src/Samples.antt =====
-- Concrete messages and databases for the tests.
use balcony_agent_bridge.Base.{
  ℕ, zero, suc, ◌+++◌, ◌==◌, if◌then◌else◌, String, true, false, none, some, [],
}
use balcony_agent_bridge.Contracts.Payload.{MessagePayload, ReadOnlyDispatch, CoordinationRequest}
use balcony_agent_bridge.Contracts.Envelope.{Envelope, task_request, task_result, Platform}
use balcony_agent_bridge.Store.Schema.{Database}

abbrev pub coordination_request : CoordinationRequest
coordination_request = record {
  protocol_version = "1.0";
  intent = "inspect";
  access_mode = "read_only";
}

abbrev pub read_only_dispatch : ReadOnlyDispatch
read_only_dispatch = record {
  executor = "codex_cli";
  access = "read_only";
  timeout_seconds = some 60;
  evidence_mode = none;
}

abbrev pub payload : MessagePayload
payload = record {
  subject = "Look";
  body = "What does the build do?";
  project = some "atlas";
  repository = none;
  task_reference = none;
  evidence = [];
  dispatch = some read_only_dispatch;
  coordination_request = some coordination_request;
  coordination_result = none;
  consultation_context = none;
}

-- The root request of a conversation, from SYS-A to SYS-B.
abbrev pub request : Envelope
request = record {
  schema_version = "1.0";
  message_id = "m1";
  idempotency_key = "k1";
  origin_system = "SYS-A";
  target_system = "SYS-B";
  kind = task_request;
  conversation_id = "c1";
  correlation_id = none;
  causation_id = none;
  stream_id = "agent-coordination";
  sequence_number = some 0;
  created_at_utc = "2026-01-01T00:00:00.000Z";
  expires_at_utc = some "2026-01-02T00:00:00.000Z";
  payload = payload;
  payload_sha256 = "h1";
}

abbrev pub other_request : Envelope
other_request = record request { message_id = "m2"; idempotency_key = "k2"; conversation_id = "c2" }

abbrev pub empty_database : Database
empty_database = record {
  outbox = [];
  inbox = [];
  delivery_attempts = [];
  resources = [];
  grants = [];
  requests = [];
  audit = [];
  runs = [];
  runtime = [];
  draws = 0;
}

-- 2026-01-01T06:00:00.000Z
abbrev pub morning : ℕ
morning = 1767247200000

abbrev pub tally : ℕ → String
tally zero = ""
tally (suc n) = "i" +++ tally n

-- A platform whose hash and whose random values are plain texts.
abbrev pub plain_platform : Platform
plain_platform = record {
  sha256 = λ s. "h:" +++ s;
  lower = λ s. s;
  random_uuid = λ n. "uuid" +++ tally n;
  random_token = λ n. "token" +++ tally n;
  patterns = record { forbidden_key = λ s. false; forbidden_value = λ s. false };
  is_uuid = λ s. true;
  is_datetime = λ s. true;
}

abbrev pub reply_payload : MessagePayload
reply_payload = record payload { dispatch = none; coordination_request = none }

-- The answer of SYS-B to the request.
abbrev pub reply : Envelope
reply = record request {
  message_id = "m5";
  idempotency_key = "k5";
  origin_system = "SYS-B";
  target_system = "SYS-A";
  kind = task_result;
  causation_id = some "m1";
  sequence_number = none;
  payload = reply_payload;
  payload_sha256 = "h5";
}

-- A platform whose hashes have the form of SHA-256.
abbrev pub hex_platform : Platform
hex_platform = record plain_platform {
  sha256 = λ s.
      if s == ""
      then "e3b0c44298fc1c149afbf4c8996fb92427ae41e4649b934ca495991b7852b855"
      else "9f86d081884c7d659a2feaa0c55ad015a3bf4f1b2b0b822cd15d6c15b0f00a08";
}
