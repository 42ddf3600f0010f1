-- ===== src/Store/Lifecycle/Steps.antt =====
-- The operations that change the inbox, as steps, and the rule by which all of them keep a property.
use balcony_agent_bridge.Base.{
  ℕ, suc, ◌<◌, String, Bool, true, Option, none, some, List, [], ◌∷◌, ◌++◌, ◌≡◌, subst, inl, inr,
  arith, Option-cases, Bool-cases, ◌==◌,
}
use balcony_agent_bridge.Base.Table.{update, find}
use balcony_agent_bridge.Time.{to_iso_string, add_seconds}
use balcony_agent_bridge.Contracts.Envelope.{Envelope, Platform}
use balcony_agent_bridge.Store.Schema.{InboxState, InboxRow, Database, ok, Result-cases}
use balcony_agent_bridge.Store.Outbox.{EnqueueResult}
use balcony_agent_bridge.Store.Inbox.{
  same_inbound_message, has_id, new_inbox_row, quarantine_row, receive_again, receive_known,
  receive, persist_incoming,
}
use balcony_agent_bridge.Store.Claims.{
  ClaimedMessage, is_available_message, with_claim, recover_claims, claimable_rows, is_held,
  hash_token, claim_rows, claim_inbox_where, renew_claim,
}
use balcony_agent_bridge.Store.Settlement.{
  Outcome, Verdict, outcome_of, as_settled, with_result, settle_claim, acknowledge, settled_same,
  stored_reason, settle_held, settle_inbox_with_reply, enqueue_reply,
}
use balcony_agent_bridge.Store.Lifecycle.Rows.{
  Moves, quarantine-Moves, receive_again-Moves, recover-Moves, claim-Moves, renew-Moves,
  settle-Moves, reply-Moves,
}

-- A successful operation that concerns the inbox; a reception never fails.
pub data Step (platform : Platform) (db db' : Database) : Type 0 where
  receives :
      (e : Envelope) (delivery_count now : ℕ) (authenticated : Bool)
      → db' ≡ (persist_incoming e delivery_count now authenticated db).1
      → Step platform db db'
  claims :
      (consumer : String) (limit lease_seconds : ℕ) (filter : InboxRow → Bool) (now : ℕ)
      (include_expired : Bool) (m : List ClaimedMessage)
      → claim_inbox_where platform consumer limit lease_seconds filter now include_expired db
        ≡ ok (m, db')
      → Step platform db db'
  renews :
      (id consumer token : String) (lease_seconds now : ℕ) (until : String)
      → renew_claim platform id consumer token lease_seconds now db ≡ ok (until, db')
      → Step platform db db'
  acknowledges :
      (id consumer token : String) (outcome : Outcome) (reason : Option String) (now : ℕ)
      (state : InboxState)
      → acknowledge platform id consumer token outcome reason now db ≡ ok (state, db')
      → Step platform db db'
  replies :
      (id consumer token : String) (verdict : Verdict) (reply : Envelope) (reason : Option String)
      (now : ℕ) (answer : EnqueueResult)
      → settle_inbox_with_reply platform id consumer token verdict reply reason now db
        ≡ ok (answer, db')
      → Step platform db db'

-- Any sequence of them.
pub data Reach (platform : Platform) (db : Database) : Database → Type 0 where
  here : Reach platform db db
  next :
      {db' db'' : Database}
      → Reach platform db db'
      → Step platform db' db''
      → Reach platform db db''

module _ (platform : Platform) where
  -- The parts of a claim that succeeded.
  pub claim_rows-eq-ok :
      (consumer until : String) (draws : ℕ) (row : InboxRow) (picked rows : List InboxRow)
      (m : List ClaimedMessage) (rows' : List InboxRow) (draws' : ℕ)
      → claim_rows platform consumer until draws (row ∷ picked) rows ≡ ok (m, rows', draws')
      → (ms : List ClaimedMessage) × (claim_rows platform consumer until (suc draws) picked (
            update
              (is_available_message row.message_id)
              (with_claim consumer (hash_token platform (platform.random_token draws)) until)
              rows)
          ≡ ok (ms, rows', draws'))
  unfolding claim_rows
  claim_rows-eq-ok consumer until draws row picked rows m rows' draws' e =
      elim (Result-cases (
        claim_rows platform consumer until (suc draws) picked (
          update (is_available_message row.message_id)
            (with_claim consumer (hash_token platform (platform.random_token draws)) until)
            rows))) [
              | inl ((ms, rest, n), e') ↦ (ms, ground arith)
              | inr (_, e') ↦ absurd (ground arith)
            ]

  pub claim_inbox_where-eq-ok :
      (consumer : String) (limit lease_seconds : ℕ) (filter : InboxRow → Bool) (now : ℕ)
      (include_expired : Bool) (db db' : Database) (m : List ClaimedMessage)
      → claim_inbox_where platform consumer limit lease_seconds filter now include_expired db
        ≡ ok (m, db')
      → let rows = recover_claims (to_iso_string now) db.inbox in
        (claim_rows platform consumer
            (to_iso_string (add_seconds now lease_seconds))
            db.draws
            (claimable_rows filter include_expired (to_iso_string now) limit rows)
            rows
          ≡ ok (m, db'.inbox, db'.draws))
        × (0 < limit)
        × (0 < lease_seconds)
        × (db'.outbox ≡ db.outbox)
  unfolding claim_inbox_where
  claim_inbox_where-eq-ok consumer limit lease_seconds filter now include_expired db db' m e =
      ground arith

-- A property of the table that a new row and each change of rows keep is kept by every operation.
module _ {ℓ} (platform : Platform) (P : List InboxRow → Type ℓ)
    (insert : (e : Envelope) (n : ℕ) (t : String) (a : Bool) (rows : List InboxRow)
      → find (has_id e.message_id) rows ≡ none
      → P rows
      → P (rows ++ new_inbox_row e n t a ∷ []))
    (change : (p : InboxRow → Bool) (f : InboxRow → InboxRow) (rows : List InboxRow)
      → ((r : InboxRow) → p r ≡ true → Moves r (f r))
      → P rows
      → P (update p f rows)) where
  receive_known_keeps :
      (e : Envelope) (n : ℕ) (t : String) (a : Bool) (existing : InboxRow) (rows : List InboxRow)
      → P rows
      → P (receive_known e n t a existing rows).1
  unfolding receive_known
  receive_known_keeps e n t a existing rows h =
      elim (Bool-cases (same_inbound_message existing.envelope e)) [
        | inl same ↦ rw same (
            change (has_id e.message_id) (receive_again t n a) rows
              (λ r _. receive_again-Moves t n a r) h)
        | inr different ↦ elim (Bool-cases (existing.envelope.origin_system == e.origin_system)) [
          | inl own ↦
              rw (different, own)
                (change (has_id e.message_id) (quarantine_row t n _) rows
                  (λ r _. quarantine-Moves t n _ r) h)
          | inr foreign ↦ rw (different, foreign) h
        ]
      ]

  receive_keeps :
      (e : Envelope) (n : ℕ) (t : String) (a : Bool) (rows : List InboxRow)
      → P rows
      → P (receive e n t a rows).1
  unfolding receive
  receive_keeps e n t a rows h = elim (Option-cases (find (has_id e.message_id) rows)) [
    | inl free ↦ rw (free, receive) (insert e n t a rows free h)
    | inr (existing, taken) ↦ rw (taken, receive) (receive_known_keeps e n t a existing rows h)
  ]

  claim_rows_keeps :
      (consumer until : String) (draws : ℕ) (picked rows : List InboxRow) (m : List ClaimedMessage)
      (rows' : List InboxRow) (draws' : ℕ)
      → P rows
      → claim_rows platform consumer until draws picked rows ≡ ok (m, rows', draws')
      → P rows'
  unfolding claim_rows
  claim_rows_keeps consumer until draws [] rows m rows' draws' h e =
      let same : rows ≡ rows' = ground arith in subst P same h
  claim_rows_keeps consumer until draws (row ∷ picked) rows m rows' draws' h e =
      let (ms, done) =
        claim_rows-eq-ok platform consumer until draws row picked rows m rows' draws' e in
      claim_rows_keeps consumer until (suc draws) picked _ ms rows' draws'
        (change _ _ rows (claim-Moves consumer _ until row.message_id) h) done

  claim_keeps :
      (consumer : String) (limit lease_seconds : ℕ) (filter : InboxRow → Bool) (now : ℕ)
      (include_expired : Bool) (db db' : Database) (m : List ClaimedMessage)
      → P db.inbox
      → claim_inbox_where platform consumer limit lease_seconds filter now include_expired db
        ≡ ok (m, db')
      → P db'.inbox
  unfolding recover_claims
  claim_keeps consumer limit lease_seconds filter now include_expired db db' m h e =
      let (done, _, _, _) =
        claim_inbox_where-eq-ok platform consumer limit lease_seconds filter now include_expired db
          db' m e in
      claim_rows_keeps consumer _ db.draws _ _ m db'.inbox db'.draws
        (change _ _ db.inbox (recover-Moves (to_iso_string now)) h) done

  renew_keeps :
      (id consumer token : String) (lease_seconds now : ℕ) (until : String) (db db' : Database)
      → P db.inbox
      → renew_claim platform id consumer token lease_seconds now db ≡ ok (until, db')
      → P db'.inbox
  unfolding renew_claim
  renew_keeps id consumer token lease_seconds now until db db' h e =
      let held = is_held id consumer (hash_token platform token) (to_iso_string now) in
      let term = to_iso_string (add_seconds now lease_seconds) in
      let same : update held (λ r. record r { claim_until_utc = some term }) db.inbox ≡ db'.inbox =
        ground arith in
      subst P same (
        change held _ db.inbox
          (λ r p. renew-Moves id consumer (hash_token platform token) (to_iso_string now) r p term)
          h)

  settle_claim_keeps :
      (id consumer token : String) (outcome : Outcome) (reason : Option String) (now : ℕ)
      (state : InboxState) (db db' : Database)
      → P db.inbox
      → settle_claim platform id consumer token outcome reason now db ≡ ok (state, db')
      → P db'.inbox
  unfolding settle_claim
  settle_claim_keeps id consumer token outcome reason now state db db' h e =
      let hash = hash_token platform token in
      let now_utc = to_iso_string now in
      let same : update (is_held id consumer hash now_utc)
            (as_settled outcome now_utc (stored_reason reason)) db.inbox
          ≡ db'.inbox =
        ground arith in
      subst P same (
        change (is_held id consumer hash now_utc) _ db.inbox
          (λ r p. settle-Moves id consumer hash now_utc r p outcome (stored_reason reason)) h)

  acknowledge_keeps :
      (id consumer token : String) (outcome : Outcome) (reason : Option String) (now : ℕ)
      (state : InboxState) (db db' : Database)
      → P db.inbox
      → acknowledge platform id consumer token outcome reason now db ≡ ok (state, db')
      → P db'.inbox
  unfolding acknowledge
  acknowledge_keeps id consumer token outcome reason now state db db' h e =
      elim (Option-cases (find (has_id id) db.inbox)) [
        | inl missing ↦ absurd (ground arith)
        | inr (r, found) ↦ elim (Bool-cases (settled_same outcome r.state)) [
          | inl done ↦ let same : db.inbox ≡ db'.inbox = ground arith in subst P same h
          | inr open_row ↦
              settle_claim_keeps id consumer token outcome reason now state db db' h (ground arith)
        ]
      ]

  settle_held_keeps :
      (id consumer token : String) (verdict : Verdict) (reply : Envelope) (reason : Option String)
      (now : ℕ) (existing : InboxRow) (answer : EnqueueResult) (db db' : Database)
      → P db.inbox
      → settle_held platform id consumer token verdict reply reason now existing db
        ≡ ok (answer, db')
      → P db'.inbox
  unfolding settle_held
  settle_held_keeps id consumer token verdict reply reason now existing answer db db' h e =
      elim (Result-cases (enqueue_reply reply id db.outbox)) [
        | inr (_, failed) ↦ absurd (ground arith)
        | inl (a, enqueued) ↦
            let hash = hash_token platform token in
            let now_utc = to_iso_string now in
            let same : update (is_held id consumer hash now_utc)
                  (with_result (outcome_of verdict) now_utc (stored_reason reason) a) db.inbox
                ≡ db'.inbox =
              ground arith in
            subst P same (
              change (is_held id consumer hash now_utc) _ db.inbox
                (λ r p. reply-Moves id consumer hash now_utc r p verdict (stored_reason reason) a)
                h)
      ]

  settle_inbox_with_reply_keeps :
      (id consumer token : String) (verdict : Verdict) (reply : Envelope) (reason : Option String)
      (now : ℕ) (answer : EnqueueResult) (db db' : Database)
      → P db.inbox
      → settle_inbox_with_reply platform id consumer token verdict reply reason now db
        ≡ ok (answer, db')
      → P db'.inbox
  unfolding settle_inbox_with_reply
  settle_inbox_with_reply_keeps id consumer token verdict reply reason now answer db db' h e =
      elim (Option-cases (find (has_id id) db.inbox)) [
        | inl missing ↦ absurd (ground arith)
        | inr (r, found) ↦ elim (Bool-cases (settled_same (outcome_of verdict) r.state)) [
          | inl done ↦ let same : db.inbox ≡ db'.inbox = ground arith in subst P same h
          | inr open_row ↦
              settle_held_keeps id consumer token verdict reply reason now r answer db db' h
                (ground arith)
        ]
      ]

  pub Step-keeps : (db db' : Database) → P db.inbox → Step platform db db' → P db'.inbox
  unfolding persist_incoming
  Step-keeps db db' h (receives e n now a o) =
      let same : (receive e n (to_iso_string now) a db.inbox).1 ≡ db'.inbox = ground arith in
      subst P same (receive_keeps e n (to_iso_string now) a db.inbox h)
  Step-keeps db db' h (claims consumer limit lease_seconds filter now include_expired m o) =
      claim_keeps consumer limit lease_seconds filter now include_expired db db' m h o
  Step-keeps db db' h (renews id consumer token lease_seconds now until o) =
      renew_keeps id consumer token lease_seconds now until db db' h o
  Step-keeps db db' h (acknowledges id consumer token outcome reason now state o) =
      acknowledge_keeps id consumer token outcome reason now state db db' h o
  Step-keeps db db' h (replies id consumer token verdict reply reason now answer o) =
      settle_inbox_with_reply_keeps id consumer token verdict reply reason now answer db db' h o

  pub Reach_keeps : {db db' : Database} → P db.inbox → Reach platform db db' → P db'.inbox
  Reach_keeps h here = h
  Reach_keeps h (next r s) = Step-keeps _ _ (Reach_keeps h r) s
