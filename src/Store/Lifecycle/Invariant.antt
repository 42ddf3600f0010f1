-- ===== src/Store/Lifecycle/Invariant.antt =====
-- The inbox table stays sound, and no operation loses, rewrites or reopens a settled message.
use balcony_agent_bridge.Base.{
  ℕ, String, Bool, true, none, List, [], ◌∷◌, ◌++◌, ◌≡◌, refl, arith, eq_iff, All, All-append,
}
use balcony_agent_bridge.Base.Table.{update, find}
use balcony_agent_bridge.Base.Table.Laws.{All-update}
use balcony_agent_bridge.Base.Table.Keys.{Fresh, Distinct, Distinct-append_one, Distinct-update}
use balcony_agent_bridge.Base.Table.Growth.{
  Grows, Grows-refl, Grows-trans, Grows-append, Grows-update,
}
use balcony_agent_bridge.Contracts.Envelope.{Envelope, Platform}
use balcony_agent_bridge.Store.Schema.{InboxRow, Database}
use balcony_agent_bridge.Store.Inbox.{has_id, new_inbox_row}
use balcony_agent_bridge.Store.Lifecycle.Rows.{IsSound, Moves, Moves-refl, Moves-trans, row_id}
use balcony_agent_bridge.Store.Lifecycle.Steps.{Reach, Reach_keeps}

-- The rows of a valid inbox agree with their envelopes, claimed rows say who holds them until
-- when, and no identifier stands twice.
pub record IsValid (rows : List InboxRow) : Type 0 where
  pub sound : All IsSound rows
  pub ids : Distinct row_id rows

unknown-Fresh :
    (id : String) (rows : List InboxRow) → find (has_id id) rows ≡ none → Fresh row_id id rows
unfolding find
unknown-Fresh id [] free = tt
unknown-Fresh id (r ∷ rows) free =
    (ground (arith, eq_iff r.message_id id), unknown-Fresh id rows (ground arith))

pub insert-IsValid :
    (e : Envelope) (n : ℕ) (t : String) (a : Bool) (rows : List InboxRow)
    → find (has_id e.message_id) rows ≡ none
    → IsValid rows
    → IsValid (rows ++ new_inbox_row e n t a ∷ [])
unfolding new_inbox_row
insert-IsValid e n t a rows free v = record {
  sound = All-append IsSound rows _ v.sound (
    record {
      message_id = refl;
      origin_system = refl;
      kind = refl;
      stream_id = refl;
      causation_id = refl;
      payload_sha256 = refl;
      claim = refl;
    },
    tt,
  );
  ids =
      Distinct-append_one row_id rows (new_inbox_row e n t a) (unknown-Fresh e.message_id rows free)
        v.ids;
}

pub change-IsValid :
    (p : InboxRow → Bool) (f : InboxRow → InboxRow) (rows : List InboxRow)
    → ((r : InboxRow) → p r ≡ true → Moves r (f r))
    → IsValid rows
    → IsValid (update p f rows)
change-IsValid p f rows moves v = record {
  sound = All-update IsSound p f rows (λ r s h. (moves r h).sound s) v.sound;
  ids = Distinct-update row_id p f rows (λ r h. (moves r h).message_id) v.ids;
}

-- Whatever sequence of receptions, claims, renewals, acknowledgements and replies runs on a valid
-- inbox, it stays valid: rows agree with their envelopes, a claimed row has an owner, a token and
-- a term, and identifiers are unique.
pub Reach_inbox-IsValid :
    (platform : Platform) (db db' : Database)
    → IsValid db.inbox
    → Reach platform db db'
    → IsValid db'.inbox
Reach_inbox-IsValid platform db db' v r =
    Reach_keeps platform IsValid insert-IsValid change-IsValid v r

module _ (start : List InboxRow) where
  pub insert-Grows :
      (e : Envelope) (n : ℕ) (t : String) (a : Bool) (rows : List InboxRow)
      → find (has_id e.message_id) rows ≡ none
      → Grows Moves start rows
      → Grows Moves start (rows ++ new_inbox_row e n t a ∷ [])
  insert-Grows e n t a rows free g =
      Grows-trans Moves Moves-trans start rows _ g (Grows-append Moves Moves-refl rows _)

  pub change-Grows :
      (p : InboxRow → Bool) (f : InboxRow → InboxRow) (rows : List InboxRow)
      → ((r : InboxRow) → p r ≡ true → Moves r (f r))
      → Grows Moves start rows
      → Grows Moves start (update p f rows)
  change-Grows p f rows moves g =
      Grows-trans Moves Moves-trans start rows _ g (Grows-update Moves Moves-refl p f rows moves)

-- Every operation keeps the rows that were there, in place, and changes each as `Moves` allows.
pub Reach-Grows :
    (platform : Platform) (db db' : Database)
    → Reach platform db db'
    → Grows Moves db.inbox db'.inbox
Reach-Grows platform db db' r =
    Reach_keeps platform (Grows Moves db.inbox) (insert-Grows db.inbox) (change-Grows db.inbox)
      (Grows-refl Moves Moves-refl db.inbox) r
