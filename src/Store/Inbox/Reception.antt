-- ===== src/Store/Inbox/Reception.antt =====
-- Receiving a message twice, and receiving messages of different senders.
use balcony_agent_bridge.Base.{
  ℕ, String, Bool, true, some, List, [], ◌∷◌, ◌++◌, ◌≡◌, refl, ◌∙◌, inl, inr, ◌≢◌, arith, eq_iff,
  eq_refl, Bool-cases, Option-cases, ◌==◌,
}
use balcony_agent_bridge.Base.Table.{update, find}
use balcony_agent_bridge.Base.Table.Laws.{
  find-update, find-append_none, find-append_some, find_sound,
}
use balcony_agent_bridge.Time.{to_iso_string}
use balcony_agent_bridge.Contracts.Envelope.{Envelope}
use balcony_agent_bridge.Store.Schema.{InboxRow, Database}
use balcony_agent_bridge.Store.Outbox.Idempotency.{same_kind_refl, same_text_refl, same_number_refl}
use balcony_agent_bridge.Store.Inbox.{
  PersistStatus, collision, has_id, same_inbound_message, new_inbox_row, quarantine_row,
  receive_again, receive_known, receive, persist_incoming, changed_hash, changed_metadata,
}

same_inbound_refl : (e : Envelope) → same_inbound_message e e ≡ true
unfolding same_inbound_message
same_inbound_refl e =
    simp (eq_refl, same_kind_refl, same_text_refl, same_number_refl) (ground arith)

module _ (e : Envelope) (n : ℕ) (t : String) (a : Bool) (rows : List InboxRow) where
  -- A table that holds the message under its identifier.
  abbrev pub Holds : List InboxRow → Type 0
  Holds rows' =
      (r : InboxRow) × (find (has_id e.message_id) rows' ≡ some r)
      × (same_inbound_message r.envelope e ≡ true)

  first_row : find (has_id e.message_id) (new_inbox_row e n t a ∷ []) ≡ some (new_inbox_row e n t a)
  unfolding find new_inbox_row
  first_row = simp eq_refl

  received :
      (r : InboxRow)
      → find (has_id e.message_id) rows ≡ some r
      → find (has_id e.message_id) (update (has_id e.message_id) (receive_again t n a) rows)
        ≡ some (receive_again t n a r)
  received r found =
      find-update (has_id e.message_id) (has_id e.message_id) (receive_again t n a) rows (λ x. refl)
      ∙ ground (arith, found, find_sound (has_id e.message_id) rows r found)

  pub receive-Holds :
      (s : PersistStatus) (rows' : List InboxRow)
      → receive e n t a rows ≡ (s, rows')
      → s ≢ collision
      → Holds rows'
  unfolding receive receive_known new_inbox_row
  receive-Holds s rows' o taken = elim (Option-cases (find (has_id e.message_id) rows)) [
    | inl free ↦
        let same : rows' ≡ rows ++ new_inbox_row e n t a ∷ [] = ground arith in
        rw same (
          new_inbox_row e n t a,
          find-append_none (has_id e.message_id) rows _ free ∙ first_row,
          same_inbound_refl e,
        )
    | inr (r, found) ↦ elim (Bool-cases (same_inbound_message r.envelope e)) [
      | inl held ↦
          let same : rows' ≡ update (has_id e.message_id) (receive_again t n a) rows =
            ground arith in
          rw same (receive_again t n a r, received r found, held)
      | inr different ↦ absurd (ground (arith, taken))
    ]
  ]

same_inbound-origin :
    (left right : Envelope)
    → same_inbound_message left right ≡ true
    → left.origin_system ≡ right.origin_system
unfolding same_inbound_message
same_inbound-origin left right h = (eq_iff left.origin_system right.origin_system).0 (ground arith)

module _ (e : Envelope) (n : ℕ) (t : String) (a : Bool) (rows : List InboxRow) (id : String)
    (r : InboxRow) (found : find (has_id id) rows ≡ some r)
    (other : r.envelope.origin_system ≢ e.origin_system) where
  -- An update of the message's own row is not one of another row.
  update_apart :
      (f : InboxRow → InboxRow)
      → ((x : InboxRow) → (f x).message_id ≡ x.message_id)
      → id ≢ e.message_id
      → find (has_id id) (update (has_id e.message_id) f rows) ≡ some r
  update_apart f same apart =
      find-update (has_id e.message_id) (has_id id) f rows (λ x. rw (same x) refl)
      ∙ ground (
        arith,
        found,
        find_sound (has_id id) rows r found,
        eq_iff r.message_id id,
        eq_iff r.message_id e.message_id,
      )

  receive_apart : find (has_id id) (receive e n t a rows).1 ≡ some r
  unfolding receive receive_known
  receive_apart = elim (Option-cases (find (has_id e.message_id) rows)) [
    | inl free ↦ rw (free, receive) (find-append_some (has_id id) rows _ r found)
    | inr (x, taken) ↦ elim (Bool-cases (id == e.message_id)) [
      | inl same ↦
          let ids : id ≡ e.message_id = (eq_iff id e.message_id).0 same in
          let rows_same : x ≡ r = ground (arith, taken, found) in
          ground (
            arith,
            taken,
            found,
            same_inbound-origin r.envelope e,
            eq_iff r.envelope.origin_system e.origin_system,
          )
      | inr apart ↦
          let ids : id ≢ e.message_id = ground (arith, eq_iff id e.message_id) in
          ground (
            arith,
            taken,
            found,
            update_apart (receive_again t n a) (λ x. refl) ids,
            update_apart (quarantine_row t n changed_hash) (λ x. refl) ids,
            update_apart (quarantine_row t n changed_metadata) (λ x. refl) ids,
          )
    ]
  ]

-- A delivery cannot touch a message of another sender, whatever identifier it claims: the row is
-- found again, unchanged.
pub persist_apart :
    (e : Envelope) (n now : ℕ) (a : Bool) (db : Database) (id : String) (r : InboxRow)
    → find (has_id id) db.inbox ≡ some r
    → r.envelope.origin_system ≢ e.origin_system
    → find (has_id id) (persist_incoming e n now a db).1.inbox ≡ some r
unfolding persist_incoming
persist_apart e n now a db id r found other =
    receive_apart e n (to_iso_string now) a db.inbox id r found other
