-- ===== src/Coordination.antt =====
-- The coordinator of consultations (src/coordination/autonomous-consultation-coordinator.ts). It claims
-- requests of peers, lets a child process answer from evidence, fetches evidence or asks the peer for
-- more, and settles each request with one reply.
pub mod Evidence
pub mod Child
pub mod Run
mod Frames
pub mod Progress
mod Tests
use balcony_agent_bridge.Base.{ℕ, String, Bool, Option, none, some, List}
use balcony_agent_bridge.Contracts.Evidence.{EvidenceBundle}
use balcony_agent_bridge.Store.Schema.{Database, Error, Result, ok, err}
use balcony_agent_bridge.Bridge.Inbound.{BridgeConfig}

-- An action on the database. One that throws leaves what was written until then.
abbrev pub M : Type 0 → Type 0
M A = Database → Result A × Database

abbrev pub after : {A B : Type 0} → Result A × Database → (A → M B) → Result B × Database
after (ok a, db) next = next a db
after (err thrown, db) next = (err thrown, db)

abbrev pub ◌>>=◌ : {A B : Type 0} → M A → (A → M B) → M B
◌>>=◌ m next db = after (m db) next

abbrev pub ◌>>◌ : {B : Type 0} → M (Unit {0}) → M B → M B
m >> k = m >>= λ _. k

infixl 5 ◌>>=◌ ◌>>◌
abbrev pub pure : {A : Type 0} → A → M A
pure a db = (ok a, db)

abbrev pub throw : {A : Type 0} → Error → M A
throw thrown db = (err thrown, db)

abbrev pub of_result : {A : Type 0} → Result A → M A
of_result r db = (r, db)

-- A call of the store, which writes nothing where it throws.
abbrev pub committed : {A : Type 0} → Database → Result (A × Database) → Result A × Database
committed db (ok (a, db')) = (ok a, db')
committed db (err thrown) = (err thrown, db)

abbrev pub stored : {A : Type 0} → (Database → Result (A × Database)) → M A
stored call db = committed db (call db)

abbrev pub ignored : {A : Type 0} → M A → M (Unit {0})
ignored m = m >>= λ _. pure tt

abbrev pub discarded : Result Database → Result (Unit {0} × Database)
discarded (ok db) = ok (tt, db)
discarded (err thrown) = err thrown

-- `AutonomousConsultationPolicy`
pub record Policy : Type 0 where
  pub max_rounds : ℕ
  pub max_depth : ℕ
  pub run_timeout_seconds : ℕ
  pub claim_lease_seconds : ℕ
  pub max_output_bytes : ℕ
  pub peer_poll_interval_seconds : ℕ

-- `AutonomousConsultationCoordinator`: the node, the consumer under which it claims, and the local
-- projects with their paths. File names ignore case on Windows.
pub record Coordinator : Type 0 where
  pub config : BridgeConfig
  pub consumer_id : String
  pub policy : Policy
  pub project_path : String → Option String
  pub on_windows : Bool
