-- ===== src/Base/Table/Growth.antt =====
-- How a table may change from one state to a later one: each row moves by a relation, in place, and
-- new rows are appended.
use mathlib.Core.Path.{◌≡◌, subst}
use mathlib.Core.Logic.{inl, inr}
use mathlib.Core.Bool.{Bool, true}
use mathlib.Core.Option.{some}
use mathlib.Core.List.{List, [], ◌∷◌, ◌++◌}
use native.Mathlib.Omega.{arith}
use balcony_agent_bridge.Base.Tests.{Bool-cases}
use balcony_agent_bridge.Base.Lists.{All}
use balcony_agent_bridge.Base.Table.{update, find}

module _ {ℓ} {A : Type ℓ} (R : A → A → Type 0) where
  abbrev pub Grows : List A → List A → Type 0
  Grows [] ys = Unit
  Grows (x ∷ xs) [] = ⊥
  Grows (x ∷ xs) (y ∷ ys) = R x y × Grows xs ys

  pub Grows-refl : ((r : A) → R r r) → (xs : List A) → Grows xs xs
  Grows-refl same [] = tt
  Grows-refl same (x ∷ xs) = (same x, Grows-refl same xs)

  pub Grows-trans :
      ((r s t : A) → R r s → R s t → R r t)
      → (xs ys zs : List A) → Grows xs ys
      → Grows ys zs
      → Grows xs zs
  Grows-trans trans [] ys zs g h = tt
  Grows-trans trans (x ∷ xs) [] zs g h = elim g [ ]
  Grows-trans trans (x ∷ xs) (y ∷ ys) [] g h = elim h [ ]
  Grows-trans trans (x ∷ xs) (y ∷ ys) (z ∷ zs) g h =
      (trans x y z g.0 h.0, Grows-trans trans xs ys zs g.1 h.1)

  pub Grows-append : ((r : A) → R r r) → (xs ys : List A) → Grows xs (xs ++ ys)
  Grows-append same [] ys = tt
  Grows-append same (x ∷ xs) ys = (same x, Grows-append same xs ys)

  pub Grows-update :
      ((r : A) → R r r)
      → (p : A → Bool) (f : A → A) (rs : List A) → ((r : A) → p r ≡ true → R r (f r))
      → Grows rs (update p f rs)
  unfolding update
  Grows-update same p f [] move = tt
  Grows-update same p f (r ∷ rs) move = elim (Bool-cases (p r)) [
    | inl e ↦ rw e (move r e, Grows-update same p f rs move)
    | inr e ↦ rw e (same r, Grows-update same p f rs move)
  ]

  -- The same, where only the rows of the table are known to move.
  pub Grows-update_rows :
      ((r : A) → R r r)
      → (p : A → Bool) (f : A → A) (rs : List A) → All (λ r. p r ≡ true → R r (f r)) rs
      → Grows rs (update p f rs)
  unfolding update
  Grows-update_rows same p f [] move = tt
  Grows-update_rows same p f (r ∷ rs) move = elim (Bool-cases (p r)) [
    | inl e ↦ rw e (move.0 e, Grows-update_rows same p f rs move.1)
    | inr e ↦ rw e (same r, Grows-update_rows same p f rs move.1)
  ]

  -- A row that is found by an unchanging test is found again, moved by the relation.
  pub find-Grows :
      (q : A → Bool)
      → ((r s : A) → R r s → q s ≡ q r)
      → (xs ys : List A) (x : A) → Grows xs ys
      → find q xs ≡ some x
      → (y : A) × (find q ys ≡ some y) × R x y
  unfolding find
  find-Grows q same [] ys x g e = cc
  find-Grows q same (r ∷ xs) [] x g e = elim g [ ]
  find-Grows q same (r ∷ xs) (s ∷ ys) x g e = elim (Bool-cases (q r)) [
    | inl hit ↦ (
      s,
      ground (arith, same r s g.0),
      let e' : r ≡ x = ground arith in subst (λ z. R z s) e' g.0,
    )
    | inr miss ↦
        let (y, found, related) = find-Grows q same xs ys x g.1 (ground arith) in
        (y, ground (arith, same r s g.0), related)
  ]
