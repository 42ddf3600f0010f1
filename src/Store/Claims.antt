-- ===== src/Store/Claims.antt =====
-- Claims on inbox messages (`claimInboxWhere` and its callers, `renewClaim` of
-- src/storage/database.ts). SHA-256 and the random claim tokens belong to the platform.
pub mod Loop
pub mod Exclusion
use balcony_agent_bridge.Base.{
  ℕ, suc, ◌+◌, String, Bool, true, false, not, ◌&&◌, ◌||◌, Option, none, some, List, [], ◌∷◌, eqb,
  ltb, leb, if◌then◌else◌, is_text, is_at_most, is_after, is_some, text_le, text_lt, take, any,
  ◌==◌,
}
use balcony_agent_bridge.Base.Table.{update, count, find, select, sort_by}
use balcony_agent_bridge.Time.{to_iso_string, add_seconds, date_parse}
use balcony_agent_bridge.Security.{trim}
use balcony_agent_bridge.Contracts.Payload.{ReadOnlyDispatch}
use balcony_agent_bridge.Contracts.Envelope.{
  Envelope, MessageKind, task_request, same_kind, agent_coordination, Platform,
}
use balcony_agent_bridge.Store.Schema.{
  InboxState, InboxRow, available, claimed, ConsultationRun, Database, Error, range_error,
  state_transition, Result, ok, err, ◌>>=◌, ◌>>◌, guard,
}
use balcony_agent_bridge.Store.Inbox.{is_available, is_claimed}

-- `ClaimedInboxMessage`
pub record ClaimedMessage : Type 0 where
  pub envelope : Envelope
  pub claim_token : String
  pub claim_until_utc : String
  pub authenticated_ingress : Bool

abbrev pub without_claim : InboxState → InboxRow → InboxRow
without_claim s r = record r {
  state = s;
  claim_owner = none;
  claim_token_hash = none;
  claim_until_utc = none;
}

-- Claims that ran out make their messages available again.
unfoldable pub recover_claims : String → List InboxRow → List InboxRow
recover_claims now_utc rows =
    update (λ r. is_claimed r.state && is_at_most r.claim_until_utc now_utc)
      (without_claim available) rows

abbrev pub unexpired : String → InboxRow → Bool
unexpired now_utc r =
    not (is_some r.envelope.expires_at_utc) || is_after r.envelope.expires_at_utc now_utc

abbrev pub is_claimable : (InboxRow → Bool) → Bool → String → InboxRow → Bool
is_claimable filter include_expired now_utc r =
    is_available r.state && (include_expired || unexpired now_utc r) && filter r

-- ORDER BY first_received_at_utc, message_id
abbrev pub received_first : InboxRow → InboxRow → Bool
received_first a b =
    text_lt a.first_received_at_utc b.first_received_at_utc
    || (a.first_received_at_utc == b.first_received_at_utc && text_le a.message_id b.message_id)

unfoldable pub claimable_rows :
    (InboxRow → Bool) → Bool → String → ℕ → List InboxRow → List InboxRow
claimable_rows filter include_expired now_utc limit rows =
    take limit (sort_by received_first (select (is_claimable filter include_expired now_utc) rows))

abbrev pub is_available_message : String → InboxRow → Bool
is_available_message id r = r.message_id == id && is_available r.state

abbrev pub with_claim : String → String → String → InboxRow → InboxRow
with_claim consumer token_hash until r = record r {
  state = claimed;
  claim_owner = some consumer;
  claim_token_hash = some token_hash;
  claim_until_utc = some until;
  attempt_count = r.attempt_count + 1;
}

unfoldable pub claimed_message : String → String → InboxRow → ClaimedMessage
claimed_message token until r = record {
  envelope = r.envelope;
  claim_token = token;
  claim_until_utc = until;
  authenticated_ingress = r.authenticated_ingress;
}

-- The filters that the public claims add.
abbrev pub of_kinds : List MessageKind → InboxRow → Bool
of_kinds [] r = true
of_kinds (k ∷ ks) r = any (same_kind r.kind) (k ∷ ks)

abbrev pub is_read_only_codex : Option ReadOnlyDispatch → Bool
is_read_only_codex none = false
is_read_only_codex (some d) = d.executor == "codex_cli" && d.access == "read_only"

abbrev pub evidence_mode : Option ReadOnlyDispatch → Option String
evidence_mode none = none
evidence_mode (some d) = d.evidence_mode

-- `julianday` of both times; it reads them as the instants that they denote.
abbrev pub not_before : Option String → InboxRow → Bool
not_before none r = true
not_before (some bound) r = leb (date_parse bound) (date_parse r.envelope.created_at_utc)

abbrev pub for_dispatcher : Option String → InboxRow → Bool
for_dispatcher bound r =
    same_kind r.kind task_request
    && is_read_only_codex r.envelope.payload.dispatch
    && not (is_some (evidence_mode r.envelope.payload.dispatch))
    && not_before bound r

-- `COALESCE((SELECT … next_attempt_at_utc …), '') <= now`
abbrev pub is_run_due : List ConsultationRun → String → InboxRow → Bool
is_run_due runs now_utc r =
    elim (find (λ (run : ConsultationRun). run.request_message_id == r.message_id) runs) [
      | none ↦ true
      | some run ↦ elim run.next_attempt_at_utc [ none ↦ true | some next ↦ text_le next now_utc ]
    ]

abbrev pub for_coordinator : List ConsultationRun → String → InboxRow → Bool
for_coordinator runs now_utc r =
    same_kind r.kind task_request
    && r.stream_id == agent_coordination
    && (elim r.envelope.payload.coordination_request [
      | none ↦ false
      | some request ↦ request.protocol_version == "1.0"
    ])
    && is_read_only_codex r.envelope.payload.dispatch
    && is_text (evidence_mode r.envelope.payload.dispatch) "pinned_git"
    && is_run_due runs now_utc r

-- A live claim: the test under which a claimed row is renewed or settled.
abbrev pub is_held : String → String → String → String → InboxRow → Bool
is_held id consumer token_hash now_utc r =
    r.message_id == id
    && is_claimed r.state
    && is_text r.claim_owner consumer
    && is_text r.claim_token_hash token_hash
    && is_after r.claim_until_utc now_utc

abbrev pub invalid_claim : Error
invalid_claim = state_transition "Claim for inbox message is invalid or expired"

module _ (platform : Platform) where
  -- `hashToken`
  unfoldable pub hash_token : String → String
  hash_token token = platform.sha256 token

  -- The loop of `claimInboxWhere` over the selected rows; each takes the next random token.
  unfoldable pub claim_rows :
      String
      → String
      → ℕ
      → List InboxRow
      → List InboxRow
      → Result (List ClaimedMessage × List InboxRow × ℕ)
  claim_rows consumer until draws [] rows = ok ([], rows, draws)
  claim_rows consumer until draws (row ∷ more) rows =
      let token = platform.random_token draws in
      let rest = claim_rows consumer until (suc draws) more (
        update (is_available_message row.message_id) (with_claim consumer (hash_token token) until)
          rows) in
      if eqb (count (is_available_message row.message_id) rows) 1
      then (do
        (messages, rows', draws') ← rest
        ok (claimed_message token until row ∷ messages, rows', draws'))
      else err (state_transition "Inbox message could not be claimed")

  -- `claimInboxWhere`
  unfoldable pub claim_inbox_where :
      String
      → ℕ
      → ℕ
      → (InboxRow → Bool)
      → ℕ
      → Bool
      → Database
      → Result (List ClaimedMessage × Database)
  claim_inbox_where consumer limit lease_seconds filter now include_expired db = do
    guard (not (trim consumer == "")) (range_error "consumerId")
    guard (ltb 0 limit) (range_error "limit")
    guard (ltb 0 lease_seconds) (range_error "leaseSeconds")
    let now_utc = to_iso_string now
    let rows = recover_claims now_utc db.inbox
    (messages, rows', draws') ←
        claim_rows consumer (to_iso_string (add_seconds now lease_seconds)) db.draws
          (claimable_rows filter include_expired now_utc limit rows) rows
    ok (messages, record db { inbox = rows'; draws = draws' })

  -- `claimInbox`, `claimReadOnlyDispatchInbox`, `claimAutonomousConsultationInbox`
  unfoldable pub claim_inbox :
      String → ℕ → ℕ → List MessageKind → ℕ → Database → Result (List ClaimedMessage × Database)
  claim_inbox consumer limit lease_seconds kinds now =
      claim_inbox_where consumer limit lease_seconds (of_kinds kinds) now false

  unfoldable pub claim_read_only_dispatch_inbox :
      String → ℕ → ℕ → ℕ → Option String → Database → Result (List ClaimedMessage × Database)
  claim_read_only_dispatch_inbox consumer limit lease_seconds now bound =
      claim_inbox_where consumer limit lease_seconds (for_dispatcher bound) now false

  unfoldable pub claim_autonomous_consultation_inbox :
      String → ℕ → ℕ → ℕ → Database → Result (List ClaimedMessage × Database)
  claim_autonomous_consultation_inbox consumer limit lease_seconds now db =
      claim_inbox_where consumer limit lease_seconds (for_coordinator db.runs (to_iso_string now))
        now true db

  -- `renewClaim`
  unfoldable pub renew_claim :
      String → String → String → ℕ → ℕ → Database → Result (String × Database)
  renew_claim id consumer token lease_seconds now db = do
    guard (ltb 0 lease_seconds) (range_error "leaseSeconds")
    let until = to_iso_string (add_seconds now lease_seconds)
    let held = is_held id consumer (hash_token token) (to_iso_string now)
    guard (eqb (count held db.inbox) 1) invalid_claim
    ok (
      until,
      record db { inbox = update held (λ r. record r { claim_until_utc = some until }) db.inbox },
    )
