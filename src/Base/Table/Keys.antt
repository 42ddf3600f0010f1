-- ===== src/Base/Table/Keys.antt =====
-- Tables with a primary key: at most one row has a given key.
use Prim.Native.Nat.{ℕ, zero, suc}
use Prim.Native.String.{String}
use mathlib.Core.Path.{◌≡◌, refl, sym, ◌∙◌}
use mathlib.Core.Logic.{inl, inr, ◌≢◌}
use mathlib.Core.Bool.{Bool, true}
use mathlib.Core.Option.{none, some}
use mathlib.Core.List.{List, [], ◌∷◌, ◌++◌}
use native.Mathlib.Omega.{arith}
use text.Mathlib.Text.{◌==◌}
use text.Mathlib.TextEquality.{eq_iff}
use text.Mathlib.TextPositions.{eq_refl}
use balcony_agent_bridge.Base.Tests.{if◌then◌else◌, Bool-cases}
use balcony_agent_bridge.Base.Lists.{All, All-append, All-take, take}
use balcony_agent_bridge.Base.Table.{update, count, find, select, insert_sorted, sort_by}
use balcony_agent_bridge.Base.Table.Laws.{All-update, All-find, All-select, All-insert_sorted}

module _ {ℓ κ} {A : Type ℓ} {K : Type κ} (key : A → K) where
  -- No row has the key `k`.
  abbrev pub Fresh : K → List A → Type κ
  Fresh k = All (λ r. key r ≢ k)

  -- No two rows have the same key.
  abbrev pub Distinct : List A → Type κ
  Distinct [] = Unit
  Distinct (r ∷ rs) = Fresh (key r) rs × Distinct rs

  pub Distinct-append_one :
      (rs : List A) (r : A) → Fresh (key r) rs → Distinct rs → Distinct (rs ++ r ∷ [])
  Distinct-append_one [] r f d = (tt, tt)
  Distinct-append_one (s ∷ rs) r f d = (
    All-append (λ x. key x ≢ key s) rs (r ∷ []) d.0 ((λ e. f.0 (sym e)), tt),
    Distinct-append_one rs r f.1 d.1,
  )

  pub Distinct-update :
      (p : A → Bool) (f : A → A) (rs : List A)
      → ((r : A) → p r ≡ true → key (f r) ≡ key r)
      → Distinct rs
      → Distinct (update p f rs)
  unfolding update
  Distinct-update p f [] same d = tt
  Distinct-update p f (r ∷ rs) same d = elim (Bool-cases (p r)) [
    | inl e ↦ rw (e, same r e) (rest, Distinct-update p f rs same d.1)
    | inr e ↦ rw e (rest, Distinct-update p f rs same d.1)
  ]
    where
      rest : Fresh (key r) (update p f rs)
      rest = All-update (λ x. key x ≢ key r) p f rs (λ x h px. rw (same x px) h) d.0

  pub Distinct-select : (p : A → Bool) (rs : List A) → Distinct rs → Distinct (select p rs)
  unfolding select
  Distinct-select p [] d = tt
  Distinct-select p (r ∷ rs) d =
      ground (arith, Distinct-select p rs d.1, All-select (λ x. key x ≢ key r) p rs d.0)

  Distinct-insert_sorted :
      (le : A → A → Bool) (r : A) (rs : List A)
      → Fresh (key r) rs
      → Distinct rs
      → Distinct (insert_sorted le r rs)
  unfolding insert_sorted
  Distinct-insert_sorted le r [] f d = (tt, tt)
  Distinct-insert_sorted le r (s ∷ rs) f d = elim (Bool-cases (le r s)) [
    | inl e ↦ rw e (f, d)
    | inr e ↦ rw e (
      All-insert_sorted (λ x. key x ≢ key s) le r rs (λ h. f.0 (sym h)) d.0,
      Distinct-insert_sorted le r rs f.1 d.1,
    )
  ]

  All-sort : (P : A → Type κ) (le : A → A → Bool) (xs : List A) → All P xs → All P (sort_by le xs)
  unfolding sort_by
  All-sort P le [] h = tt
  All-sort P le (x ∷ xs) h = All-insert_sorted P le x (sort_by le xs) h.0 (All-sort P le xs h.1)

  pub Distinct-sort_by : (le : A → A → Bool) (rs : List A) → Distinct rs → Distinct (sort_by le rs)
  unfolding sort_by
  Distinct-sort_by le [] d = tt
  Distinct-sort_by le (r ∷ rs) d =
      Distinct-insert_sorted le r (sort_by le rs) (All-sort (λ x. key x ≢ key r) le rs d.0)
        (Distinct-sort_by le rs d.1)

  pub Distinct-take : (n : ℕ) (rs : List A) → Distinct rs → Distinct (take n rs)
  Distinct-take zero rs d = tt
  Distinct-take (suc n) [] d = tt
  Distinct-take (suc n) (r ∷ rs) d =
      (All-take (λ x. key x ≢ key r) n rs d.0, Distinct-take n rs d.1)

module _ {ℓ} {A : Type ℓ} (key : A → String) where
  -- The test by which a row is found.
  abbrev pub has_key : String → A → Bool
  has_key k r = key r == k

  pub find-none-Fresh : (k : String) (rs : List A) → find (has_key k) rs ≡ none → Fresh key k rs
  unfolding find
  find-none-Fresh k [] e = tt
  find-none-Fresh k (r ∷ rs) e =
      (ground (arith, eq_iff (key r) k), find-none-Fresh k rs (ground arith))

  -- Every row of the table is the one that is found by its key.
  pub find_self : (rs : List A) → Distinct key rs → All (λ r. find (has_key (key r)) rs ≡ some r) rs
  unfolding find
  find_self [] d = tt
  find_self (r ∷ rs) d = (rw (eq_refl (key r)), skip rs d.0 (find_self rs d.1))
    where
      skip :
          (ss : List A)
          → Fresh key (key r) ss
          → All (λ s. find (has_key (key s)) rs ≡ some s) ss
          → All (λ s. find (has_key (key s)) (r ∷ rs) ≡ some s) ss
      skip [] f h = tt
      skip (s ∷ ss) f h = (ground (arith, eq_iff (key r) (key s)), skip ss f.1 h.1)

  module _ (p : A → Bool) (k : String) (only : (r : A) → p r ≡ true → key r ≡ k) where
    -- An update of rows with the key `k` changes none where no row has it.
    pub count_of_Fresh : (rs : List A) → Fresh key k rs → count p rs ≡ 0
    unfolding count
    count_of_Fresh [] f = refl
    count_of_Fresh (r ∷ rs) f = elim (Bool-cases (p r)) [
      | inl e ↦ absurd (f.0 (only r e))
      | inr e ↦ rw e (count_of_Fresh rs f.1)
    ]

    -- In a table with distinct keys it changes one row or none.
    pub count_of_find :
        (rs : List A) (r : A)
        → Distinct key rs
        → find (has_key k) rs ≡ some r
        → count p rs ≡ (if p r then 1 else 0)
    unfolding count find
    count_of_find [] r d e = cc
    count_of_find (s ∷ rs) r d e = elim (Bool-cases (key s == k)) [
      | inl hit ↦
          let rest : count p rs ≡ 0 = count_of_Fresh rs (rw (sym ((eq_iff (key s) k).0 hit)) d.0) in
          ground (arith, rest)
      | inr miss ↦ ground (arith, only s, eq_iff (key s) k, count_of_find rs r d.1 (ground arith))
    ]

    -- So an update that changed a row changed the one with that key.
    pub find_of_count :
        (rs : List A)
        → Distinct key rs
        → count p rs ≡ 1
        → (r : A) × (find (has_key k) rs ≡ some r) × (p r ≡ true)
    unfolding count find
    find_of_count [] d e = absurd (omega arith)
    find_of_count (s ∷ rs) d e = elim (Bool-cases (p s)) [
      | inl hit ↦ (s, ground (arith, only s, eq_iff (key s) k), hit)
      | inr miss ↦
          let (r, found, passes) = find_of_count rs d.1 (ground arith) in
          (r, skip r found passes, passes)
    ]
      where
        skip :
            (r : A) → find (has_key k) rs ≡ some r → p r ≡ true → find (has_key k) (s ∷ rs) ≡ some r
        skip r found passes = elim (Bool-cases (key s == k)) [
          | inl same ↦ absurd (
              All-find (λ x. key x ≢ key s) (has_key k) rs r d.0 found
                (only r passes ∙ sym ((eq_iff (key s) k).0 same)))
          | inr other ↦ rw other found
        ]
