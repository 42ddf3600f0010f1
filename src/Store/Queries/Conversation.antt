-- ===== src/Store/Queries/Conversation.antt =====
-- What the reads of a conversation give (`findInboxReplyTo`, `listConversation` of
-- src/storage/database.ts).
use balcony_agent_bridge.Base.{
  String, true, some, List, [], ◌∷◌, ◌≡◌, inl, inr, arith, All, All-both, Option-cases, subst,
  eq_iff, is_text_iff,
}
use balcony_agent_bridge.Base.Table.{find, select, sort_by}
use balcony_agent_bridge.Base.Table.Keys.{Distinct, find_self}
use balcony_agent_bridge.Store.Inbox.{has_id}
use balcony_agent_bridge.Base.Table.Laws.{All-select, select_sound, All-sort_by}
use balcony_agent_bridge.Contracts.Envelope.{same_kind, task_result}
use balcony_agent_bridge.Store.Schema.{InboxRow, Database}
use balcony_agent_bridge.Store.Claims.{received_first}
use balcony_agent_bridge.Store.Queries.{
  InboxItem, inbox_item, first_of, answers, find_inbox_reply_to,
}

abbrev pub inbox_key : InboxRow → String
inbox_key r = r.message_id

first-All {ℓ} :
    (P : InboxRow → Type ℓ) (rows : List InboxRow) (r : InboxRow)
    → All P rows
    → first_of rows ≡ some r
    → P r
first-All P [] r h e = absurd (ground arith)
first-All P (x ∷ rows) r h e = let same : x ≡ r = ground arith in subst P same h.0

module _ (request origin target conversation : String) (db : Database) where
  -- The row behind a reply that is found.
  pub record ReplyRow (item : InboxItem) : Type 0 where
    pub row : InboxRow
    pub stored : find (has_id row.message_id) db.inbox ≡ some row
    pub caused : row.causation_id ≡ some request
    pub result : same_kind row.kind task_result ≡ true
    pub authenticated : row.authenticated_ingress ≡ true
    pub sender : row.origin_system ≡ origin
    pub receiver : row.envelope.target_system ≡ target
    pub conversation_id : row.envelope.conversation_id ≡ conversation
    pub shown : item ≡ inbox_item row

  pub reply_sound :
      (item : InboxItem)
      → Distinct inbox_key db.inbox
      → find_inbox_reply_to request origin target conversation db ≡ some item
      → ReplyRow item
  unfolding find_inbox_reply_to
  reply_sound item d o =
      let chosen = select (answers request origin target conversation) db.inbox in
      elim (Option-cases (first_of (sort_by received_first chosen))) [
        | inl none_there ↦ absurd (ground arith)
        | inr (row, first_row) ↦
            let (stored, answering) =
              first-All _ (sort_by received_first chosen) row
                (All-sort_by _ received_first chosen (
                  All-both (λ (r : InboxRow). find (has_id r.message_id) db.inbox ≡ some r)
                    (λ r. answers request origin target conversation r ≡ true) chosen
                    (All-select (λ (r : InboxRow). find (has_id r.message_id) db.inbox ≡ some r) _
                      db.inbox (find_self inbox_key db.inbox d))
                    (select_sound _ db.inbox)))
                first_row in
            record {
              row = row;
              stored = stored;
              caused = (is_text_iff row.causation_id request).0 (ground arith);
              result = ground arith;
              authenticated = ground arith;
              sender = (eq_iff row.origin_system origin).0 (ground arith);
              receiver = (eq_iff row.envelope.target_system target).0 (ground arith);
              conversation_id = (eq_iff row.envelope.conversation_id conversation).0 (ground arith);
              shown = ground arith;
            }
      ]
