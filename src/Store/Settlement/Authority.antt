-- ===== src/Store/Settlement/Authority.antt =====
-- Who may acknowledge a message: the consumer that holds it, with the token of its claim.
use balcony_agent_bridge.Base.{
  ℕ, String, Bool, true, false, Option, some, List, ◌≡◌, refl, ◌∙◌, inl, inr, ◌⊎◌, arith, eq_iff,
  eq_refl, All, All-weaken, All-both, All-map, Bool-cases, Option-cases, text_lt, subst,
}
use balcony_agent_bridge.Base.Table.{update, count, find}
use balcony_agent_bridge.Base.Table.Laws.{find-update}
use balcony_agent_bridge.Base.Table.Keys.{count_of_find, find_of_count}
use balcony_agent_bridge.Time.{to_iso_string, add_seconds}
use balcony_agent_bridge.Contracts.Envelope.{Platform}
use balcony_agent_bridge.Store.Schema.{InboxState, InboxRow, Database, ok}
use balcony_agent_bridge.Store.Inbox.{has_id}
use balcony_agent_bridge.Store.Claims.{
  ClaimedMessage, claimed_message, hash_token, is_held, claim_inbox_where,
}
use balcony_agent_bridge.Store.Settlement.{
  Outcome, target_state, settled_same, as_settled, stored_reason, settle_claim, acknowledge,
}
use balcony_agent_bridge.Store.Lifecycle.Rows.{IsSound, row_id}
use balcony_agent_bridge.Store.Lifecycle.Invariant.{IsValid}
use balcony_agent_bridge.Store.Claims.Loop.{Stands, numbered, All-numbered, message_of, claimed_row}
use balcony_agent_bridge.Store.Claims.Exclusion.{
  outcome, same_messages, same_database, outcome-IsSound, after-IsValid,
}

module _ (platform : Platform) (id consumer token : String) (result : Outcome)
    (reason : Option String) (now : ℕ) (db : Database) (v : IsValid db.inbox) where
  abbrev held : InboxRow → Bool
  held = is_held id consumer (hash_token platform token) (to_iso_string now)

  held_id : (r : InboxRow) → held r ≡ true → r.message_id ≡ id
  held_id r h = (eq_iff r.message_id id).0 (ground arith)

  abbrev settled : InboxRow → InboxRow
  settled = as_settled result (to_iso_string now) (stored_reason reason)

  find-settled :
      (r : InboxRow)
      → find (has_id id) db.inbox ≡ some r
      → held r ≡ true
      → find (has_id id) (update held settled db.inbox) ≡ some (settled r)
  find-settled r found h =
      find-update held (has_id id) settled db.inbox (λ x. refl) ∙ ground (arith, found, h)

  -- The holder of a message acknowledges it.
  pub acknowledge_held :
      (r : InboxRow)
      → find (has_id id) db.inbox ≡ some r
      → held r ≡ true
      → (db' : Database) × (acknowledge platform id consumer token result reason now db
          ≡ ok (target_state result, db'))
        × (find (has_id id) db'.inbox ≡ some (settled r))
  unfolding acknowledge settle_claim
  acknowledge_held r found h =
      let one : count held db.inbox ≡ 1 =
        ground (arith, count_of_find row_id held id held_id db.inbox r v.ids found, h) in
      let unsettled : settled_same result r.state ≡ false = ground arith in
      (
        record db { inbox = update held settled db.inbox },
        ground (arith, found, unsettled, one),
        find-settled r found h,
      )

  acknowledge-cases :
      (r : InboxRow) (state : InboxState) (db' : Database)
      → find (has_id id) db.inbox ≡ some r
      → acknowledge platform id consumer token result reason now db ≡ ok (state, db')
      → (state ≡ target_state result)
        × (((settled_same result r.state ≡ true) × (db' ≡ db))
            ⊎ ((count held db.inbox ≡ 1)
                × (db' ≡ record db { inbox = update held settled db.inbox })))
  unfolding acknowledge settle_claim
  acknowledge-cases r state db' found o = elim (Bool-cases (settled_same result r.state)) [
    | inl same ↦ (ground arith, inl (same, ground arith))
    | inr other ↦ (ground arith, inr (ground arith, ground arith))
  ]

-- An acknowledgement that succeeds answers the state that its outcome asks for, and either the
-- message was settled with that outcome before and nothing changes, or the caller held it, with
-- its token and before the end of its term, and it is settled now.
pub acknowledge_authority :
    (platform : Platform) (id consumer token : String) (result : Outcome) (reason : Option String)
    (now : ℕ) (state : InboxState) (db db' : Database)
    → IsValid db.inbox
    → acknowledge platform id consumer token result reason now db ≡ ok (state, db')
    → (state ≡ target_state result)
      × ((r : InboxRow) × (find (has_id id) db.inbox ≡ some r)
          × (((settled_same result r.state ≡ true) × (db' ≡ db))
              ⊎ ((is_held id consumer (hash_token platform token) (to_iso_string now) r ≡ true)
                  × (find (has_id id) db'.inbox
                      ≡ some (as_settled result (to_iso_string now) (stored_reason reason) r)))))
unfolding acknowledge
acknowledge_authority platform id consumer token result reason now state db db' v o =
    elim (Option-cases (find (has_id id) db.inbox)) [
      | inl missing ↦ absurd (ground arith)
      | inr (r, found) ↦
          let (answer, ways) =
            acknowledge-cases platform id consumer token result reason now db v r state db' found
              o in
          (answer, (r, found, settle_way r found ways))
    ]
  where
    settle_way :
        (r : InboxRow)
        → find (has_id id) db.inbox ≡ some r
        → ((settled_same result r.state ≡ true) × (db' ≡ db))
          ⊎ ((count (held platform id consumer token result reason now db v) db.inbox ≡ 1)
              × (db' ≡ record db {
                inbox =
                    update
                      (held platform id consumer token result reason now db v)
                      (settled platform id consumer token result reason now db v)
                      db.inbox;
              }))
        → ((settled_same result r.state ≡ true) × (db' ≡ db))
          ⊎ ((is_held id consumer (hash_token platform token) (to_iso_string now) r ≡ true)
              × (find (has_id id) db'.inbox
                  ≡ some (as_settled result (to_iso_string now) (stored_reason reason) r)))
    settle_way r found (inl replay) = inl replay
    settle_way r found (inr (one, same)) =
        let (x, found', h) =
          find_of_count row_id (held platform id consumer token result reason now db v) id
            (held_id platform id consumer token result reason now db v) db.inbox v.ids one in
        let rows_same : x ≡ r = ground (arith, found, found') in
        let mine : held platform id consumer token result reason now db v r ≡ true =
          rw (← rows_same) h in
        inr (
          mine,
          rw same (find-settled platform id consumer token result reason now db v r found mine),
        )

-- Every message that a claim hands out can be acknowledged by its consumer with the token that
-- came with it, with any outcome, until the term of the claim ends.
pub claim_then_acknowledge :
    (platform : Platform) (consumer : String) (limit seconds : ℕ) (filter : InboxRow → Bool)
    (now later : ℕ) (expired : Bool) (db db' : Database) (m : List ClaimedMessage)
    (result : Outcome) (reason : Option String)
    → IsValid db.inbox
    → claim_inbox_where platform consumer limit seconds filter now expired db ≡ ok (m, db')
    → text_lt (to_iso_string later) (to_iso_string (add_seconds now seconds)) ≡ true
    → All
        (λ c.
          (db'' : Database) × (acknowledge platform c.envelope.message_id consumer c.claim_token
              result reason later db'
            ≡ ok (target_state result, db'')))
        m
unfolding claimed_message
claim_then_acknowledge platform consumer limit seconds filter now later expired db db' m result
      reason v e early =
    let o = outcome platform consumer limit seconds filter now expired db db' m v e in
    let until = to_iso_string (add_seconds now seconds) in
    rw (same_messages platform consumer limit seconds filter now expired db db' m v e) (
      All-map _ (message_of platform consumer until) (numbered db.draws o.picked) (
        All-weaken
          (λ x (h : IsSound x.1 × Stands o.db'.inbox (claimed_row platform consumer until x)).
            let (db'', done, _) =
              acknowledge_held platform x.1.envelope.message_id consumer (platform.random_token x.0)
                result reason later db'
                (after-IsValid platform consumer limit seconds filter now expired db db' m v e)
                (claimed_row platform consumer until x)
                (rw (same_database platform consumer limit seconds filter now expired db db' m v e)
                  (subst
                    (λ k.
                      find (has_id k) o.db'.inbox ≡ some (claimed_row platform consumer until x))
                    h.0.message_id h.1))
                (ground (
                  arith,
                  early,
                  h.0.message_id,
                  eq_refl x.1.envelope.message_id,
                  eq_refl consumer,
                  eq_refl (hash_token platform (platform.random_token x.0)),
                )) in
            (db'', done))
          (numbered db.draws o.picked)
          (All-both _ _ _
            (All-numbered IsSound db.draws o.picked
              (outcome-IsSound platform consumer limit seconds filter now expired db db' m v e))
            o.held)))
