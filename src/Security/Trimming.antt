-- ===== src/Security/Trimming.antt =====
-- Trimming twice is trimming once (`String.prototype.trim`).
use Prim.Native.Char.{code}
use balcony_agent_bridge.Base.{String, false, ◌&&◌, ◌≡◌, refl, ap, ◌∙◌, inl, inr, Bool-cases}
use balcony_agent_bridge.Security.{is_white, is_empty, trim_start, trim_end, trim}

-- The first character, if there is one, is no white space.
abbrev Begins : String → Type 0
Begins String.[] = Unit {0}
Begins (String.◌∷◌ c s) = is_white (code c) ≡ false

trim_start-Begins : (s : String) → Begins (trim_start s)
unfolding trim_start
trim_start-Begins String.[] = tt
trim_start-Begins (String.◌∷◌ c s) = elim (Bool-cases (is_white (code c))) [
  | inl white ↦ rw white (trim_start-Begins s)
  | inr ink ↦ rw ink ink
]

trim_start_of_Begins : (s : String) → Begins s → trim_start s ≡ s
unfolding trim_start
trim_start_of_Begins String.[] b = refl
trim_start_of_Begins (String.◌∷◌ c s) b = rw b

trim_end-Begins : (s : String) → Begins s → Begins (trim_end s)
unfolding trim_end
trim_end-Begins String.[] b = tt
trim_end-Begins (String.◌∷◌ c s) b = rw b b

trim_end_again : (s : String) → trim_end (trim_end s) ≡ trim_end s
unfolding trim_end
trim_end_again String.[] = refl
trim_end_again (String.◌∷◌ c s) = elim (Bool-cases (is_white (code c) && is_empty (trim_end s))) [
  | inl blank ↦ rw blank
  | inr ink ↦ rw (ink, trim_end_again s, ink)
]

pub trim_again : (s : String) → trim (trim s) ≡ trim s
unfolding trim
trim_again s =
    let begins = trim_end-Begins (trim_start s) (trim_start-Begins s) in
    ap trim_end (trim_start_of_Begins (trim_end (trim_start s)) begins)
    ∙ trim_end_again (trim_start s)
