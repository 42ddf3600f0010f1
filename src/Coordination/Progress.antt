-- ===== src/Coordination/Progress.antt =====
-- Whatever the child, the peer and the provider answer, a run only moves forward through the states
-- of a consultation.
pub mod Steps
pub mod Turns
pub mod Advance
pub mod Ensured
pub mod Begun
pub mod History
use balcony_agent_bridge.Base.{
  ℕ, ◌≤◌, ◌<◌, String, Bool, true, false, List, ◌≡◌, refl, ◌∙◌, arith, All,
}
use balcony_agent_bridge.Base.Table.Growth.{Grows, Grows-refl, Grows-trans}
use balcony_agent_bridge.Base.Table.Keys.{Distinct}
use balcony_agent_bridge.Store.Schema.{
  RunState, pending_child, needs_information, waiting_peer, completed, failed, ConsultationRun,
  Database,
}
use balcony_agent_bridge.Store.Consultation.{is_run_at}

-- Where a run may get, by any number of passes.
abbrev pub can_become : RunState → RunState → Bool
can_become failed failed = true
can_become failed _ = false
can_become completed completed = true
can_become completed failed = true
can_become completed _ = false
can_become _ s = true

-- A turn of the child was taken.
abbrev pub took_turn : RunState → RunState → Bool
took_turn pending_child needs_information = true
took_turn pending_child waiting_peer = true
took_turn pending_child completed = true
took_turn _ _ = false

abbrev pub is_failed : RunState → Bool
is_failed failed = true
is_failed _ = false

-- How a run may change.
pub record Moves (r s : ConsultationRun) : Type 0 where
  pub message_id : s.request_message_id ≡ r.request_message_id
  pub conversation : s.conversation_id ≡ r.conversation_id
  pub project : s.project ≡ r.project
  pub root : s.root_request_id ≡ r.root_request_id
  pub deadline : s.deadline_at_utc ≡ r.deadline_at_utc
  pub ancestry : s.ancestry_fingerprints ≡ r.ancestry_fingerprints
  pub depth : s.depth ≡ r.depth
  pub max_depth : s.max_depth ≡ r.max_depth
  pub max_rounds : s.max_rounds ≡ r.max_rounds
  pub state : can_become r.state s.state ≡ true
  pub rounds : r.round_count ≤ s.round_count
  pub turn : took_turn r.state s.state ≡ true → r.round_count < s.round_count
  pub bound : r.round_count ≤ r.max_rounds → s.round_count ≤ s.max_rounds
  pub final : is_failed r.state ≡ true → s ≡ r

pub Moves-refl : (r : ConsultationRun) → Moves r r
Moves-refl r = record {
  message_id = refl;
  conversation = refl;
  project = refl;
  root = refl;
  deadline = refl;
  ancestry = refl;
  depth = refl;
  max_depth = refl;
  max_rounds = refl;
  state = ground arith;
  rounds = omega arith;
  turn = λ h. absurd (ground arith);
  bound = λ h. h;
  final = λ h. refl;
}

can_become_trans :
    (a b c : RunState) → can_become a b ≡ true → can_become b c ≡ true → can_become a c ≡ true
can_become_trans a b c h k = ground arith

-- A turn was taken on the way from `a` to `c`, before or after `b`.
took_turn_split :
    (a b c : RunState) (i j k : ℕ)
    → took_turn a c ≡ true
    → can_become a b ≡ true
    → can_become b c ≡ true
    → (took_turn a b ≡ true → i < j)
    → (took_turn b c ≡ true → j < k)
    → i ≤ j
    → j ≤ k
    → i < k
took_turn_split pending_child pending_child c i j k t ab bc first second le le' =
    omega (arith, second t)
took_turn_split pending_child needs_information c i j k t ab bc first second le le' =
    omega (arith, first refl)
took_turn_split pending_child waiting_peer c i j k t ab bc first second le le' =
    omega (arith, first refl)
took_turn_split pending_child completed c i j k t ab bc first second le le' =
    omega (arith, first refl)
took_turn_split pending_child failed c i j k t ab bc first second le le' = absurd (ground arith)
took_turn_split needs_information b c i j k t ab bc first second le le' = absurd (ground arith)
took_turn_split waiting_peer b c i j k t ab bc first second le le' = absurd (ground arith)
took_turn_split completed b c i j k t ab bc first second le le' = absurd (ground arith)
took_turn_split failed b c i j k t ab bc first second le le' = absurd (ground arith)

pub Moves-trans : (r s t : ConsultationRun) → Moves r s → Moves s t → Moves r t
Moves-trans r s t a b = record {
  message_id = b.message_id ∙ a.message_id;
  conversation = b.conversation ∙ a.conversation;
  project = b.project ∙ a.project;
  root = b.root ∙ a.root;
  deadline = b.deadline ∙ a.deadline;
  ancestry = b.ancestry ∙ a.ancestry;
  depth = b.depth ∙ a.depth;
  max_depth = b.max_depth ∙ a.max_depth;
  max_rounds = b.max_rounds ∙ a.max_rounds;
  state = can_become_trans r.state s.state t.state a.state b.state;
  rounds = omega (arith, a.rounds, b.rounds);
  turn = λ h.
      took_turn_split r.state s.state t.state r.round_count s.round_count t.round_count h a.state
        b.state a.turn b.turn a.rounds b.rounds;
  bound = λ h. b.bound (a.bound h);
  final = λ h. b.final (final_state h) ∙ a.final h;
}
  where
    final_state : is_failed r.state ≡ true → is_failed s.state ≡ true
    final_state h = ground (arith, a.final h)

abbrev pub run_key : ConsultationRun → String
run_key r = r.request_message_id

-- The table moved, and has distinct keys still.
pub record Moved (db db' : Database) : Type 0 where
  pub grows : Grows Moves db.runs db'.runs
  pub distinct : Distinct run_key db'.runs

pub Moved-refl : (db : Database) → Distinct run_key db.runs → Moved db db
Moved-refl db d = record { grows = Grows-refl Moves Moves-refl db.runs; distinct = d }

pub Moved-trans : (db db' db'' : Database) → Moved db db' → Moved db' db'' → Moved db db''
Moved-trans db db' db'' a b = record {
  grows = Grows-trans Moves Moves-trans db.runs db'.runs db''.runs a.grows b.grows;
  distinct = b.distinct;
}

-- Where the table has the run's version of the run, it has the run.
abbrev pub Current : ConsultationRun → Database → Type 0
Current run db = All (λ r. is_run_at run.request_message_id run.version r ≡ true → r ≡ run) db.runs

-- What an action keeps that works on a run.
pub record Kept (run : ConsultationRun) (db db' : Database) : Type 0 where
  pub moved : Moved db db'
  pub current : Current run db'
