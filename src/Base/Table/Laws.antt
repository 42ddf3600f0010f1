-- ===== src/Base/Table/Laws.antt =====
-- What an update, a selection and an ordering keep.
use mathlib.Core.Path.{◌≡◌, refl}
use mathlib.Core.Logic.{inl, inr}
use mathlib.Core.Bool.{Bool, true, false}
use mathlib.Core.Option
use mathlib.Core.Option.{Option, none, some}
use mathlib.Core.List.{List, [], ◌∷◌, ◌++◌, map}
use native.Mathlib.Omega.{arith}
use balcony_agent_bridge.Base.Tests.{if◌then◌else◌, Bool-cases}
use balcony_agent_bridge.Base.Lists.{All}
use balcony_agent_bridge.Base.Table.{update, find, select, insert_sorted, sort_by}

module _ {ℓ} {A : Type ℓ} where
  -- A row is found by a test that the update leaves alone.
  pub find-update :
      (p q : A → Bool) (f : A → A) (rs : List A)
      → ((r : A) → q (f r) ≡ q r)
      → find q (update p f rs) ≡ Option.map (λ r. if p r then f r else r) (find q rs)
  unfolding find update
  find-update p q f [] same = refl
  find-update p q f (r ∷ rs) same = ground (arith, same r, find-update p q f rs same)

  pub find_sound : (q : A → Bool) (rs : List A) (r : A) → find q rs ≡ some r → q r ≡ true
  unfolding find
  find_sound q [] r h = cc
  find_sound q (x ∷ rs) r h = ground (arith, find_sound q rs r)

  pub find-append_none :
      (q : A → Bool) (rs ss : List A) → find q rs ≡ none → find q (rs ++ ss) ≡ find q ss
  unfolding find
  find-append_none q [] ss e = refl
  find-append_none q (r ∷ rs) ss e = ground (arith, find-append_none q rs ss)

  pub find-append_some :
      (q : A → Bool) (rs ss : List A) (r : A) → find q rs ≡ some r → find q (rs ++ ss) ≡ some r
  unfolding find
  find-append_some q [] ss r e = cc
  find-append_some q (x ∷ rs) ss r e = ground (arith, find-append_some q rs ss r)

  -- A weaker test finds a row too.
  pub find_weaken :
      (p q : A → Bool) (rs : List A) (r : A)
      → ((s : A) → q s ≡ true → p s ≡ true)
      → find q rs ≡ some r
      → (s : A) × (find p rs ≡ some s)
  unfolding find
  find_weaken p q [] r weaker e = cc
  find_weaken p q (x ∷ rs) r weaker e = elim (Bool-cases (p x)) [
    | inl hit ↦ (x, rw hit)
    | inr miss ↦
        let (s, found) = find_weaken p q rs r weaker (ground (arith, weaker x)) in
        (s, rw miss found)
  ]

  pub find-none_weaken :
      (p q : A → Bool) (rs : List A)
      → ((s : A) → q s ≡ true → p s ≡ true)
      → find p rs ≡ none
      → find q rs ≡ none
  unfolding find
  find-none_weaken p q [] weaker e = refl
  find-none_weaken p q (x ∷ rs) weaker e = ground (arith, weaker x, find-none_weaken p q rs weaker)

  pub map-update {κ} :
      {B : Type κ} (g : A → B) (p : A → Bool) (f : A → A) (rs : List A)
      → ((r : A) → g (f r) ≡ g r)
      → map g (update p f rs) ≡ map g rs
  unfolding update
  map-update g p f [] same = refl
  map-update g p f (r ∷ rs) same = ground (arith, same r, map-update g p f rs same)

  pub select_sound : (p : A → Bool) (rs : List A) → All (λ r. p r ≡ true) (select p rs)
  unfolding select
  select_sound p [] = tt
  select_sound p (r ∷ rs) = ground (arith, select_sound p rs)

module _ {ℓ κ} {A : Type ℓ} (P : A → Type κ) where
  pub All-update :
      (p : A → Bool) (f : A → A) (rs : List A)
      → ((r : A) → P r → p r ≡ true → P (f r))
      → All P rs
      → All P (update p f rs)
  unfolding update
  All-update p f [] keep h = tt
  All-update p f (r ∷ rs) keep h = elim (Bool-cases (p r)) [
    | inl e ↦ rw e (keep r h.0 e, All-update p f rs keep h.1)
    | inr e ↦ rw e (h.0, All-update p f rs keep h.1)
  ]

  -- Both kinds of rows of an updated table.
  pub All_of_update :
      (p : A → Bool) (f : A → A) (rs : List A)
      → ((r : A) → p r ≡ true → P (f r))
      → ((r : A) → p r ≡ false → P r)
      → All P (update p f rs)
  unfolding update
  All_of_update p f [] changed kept = tt
  All_of_update p f (r ∷ rs) changed kept = elim (Bool-cases (p r)) [
    | inl e ↦ rw e (changed r e, All_of_update p f rs changed kept)
    | inr e ↦ rw e (kept r e, All_of_update p f rs changed kept)
  ]

  pub All-find : (q : A → Bool) (rs : List A) (r : A) → All P rs → find q rs ≡ some r → P r
  unfolding find
  All-find q [] r h e = cc
  All-find q (x ∷ rs) r h e = ground (arith, All-find q rs r)

  pub All-select : (p : A → Bool) (rs : List A) → All P rs → All P (select p rs)
  unfolding select
  All-select p [] h = tt
  All-select p (r ∷ rs) h = ground (arith, All-select p rs h.1)

  pub All-insert_sorted :
      (le : A → A → Bool) (x : A) (ys : List A) → P x → All P ys → All P (insert_sorted le x ys)
  unfolding insert_sorted
  All-insert_sorted le x [] h hs = (h, tt)
  All-insert_sorted le x (y ∷ ys) h hs = ground (arith, All-insert_sorted le x ys h hs.1)

  pub All-sort_by : (le : A → A → Bool) (xs : List A) → All P xs → All P (sort_by le xs)
  unfolding sort_by
  All-sort_by le [] h = tt
  All-sort_by le (x ∷ xs) h = All-insert_sorted le x (sort_by le xs) h.0 (All-sort_by le xs h.1)
