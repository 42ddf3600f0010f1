-- ===== src/Contracts/Identifiers.antt =====
-- The identifiers of systems (src/contracts/envelope.ts, `NodeIdSchema`) and of resources
-- (src/contracts/resource-authorization.ts). `none` is a text that the schema refuses.
use Prim.Native.Char.{code}
use balcony_agent_bridge.Base.{
  ℕ, zero, suc, ◌-◌, String, Bool, true, false, ◌&&◌, ◌||◌, Option, none, some, List, [], ◌∷◌, eqb,
  leb, if◌then◌else◌, length, ◌==◌, ◌+++◌,
}
use balcony_agent_bridge.Security.{trim}

abbrev pub codes : String → List ℕ
codes String.[] = []
codes (String.◌∷◌ c s) = code c ∷ codes s

abbrev is_lower : ℕ → Bool
is_lower c = leb 97 c && leb c 122

abbrev is_upper : ℕ → Bool
is_upper c = leb 65 c && leb c 90

abbrev is_digit : ℕ → Bool
is_digit c = leb 48 c && leb c 57

abbrev all_codes : (ℕ → Bool) → List ℕ → Bool
all_codes p [] = true
all_codes p (c ∷ cs) = p c && all_codes p cs

abbrev begins : (ℕ → Bool) → List ℕ → Bool
begins p [] = false
begins p (c ∷ cs) = p c

-- /^[a-z0-9][a-z0-9._-]*$/i
matches_resource : List ℕ → Bool
matches_resource cs =
    begins (λ c. is_lower c || is_upper c || is_digit c) cs
    && all_codes (λ c. is_lower c || is_upper c || is_digit c || eqb c 46 || eqb c 95 || eqb c 45)
        cs

-- /^[a-z][a-z0-9-]*$/
unfoldable pub matches_system : List ℕ → Bool
matches_system cs = begins is_lower cs && all_codes (λ c. is_lower c || is_digit c || eqb c 45) cs

letter_at : ℕ → String → String
letter_at n String.[] = ""
letter_at zero (String.◌∷◌ c s) = String.◌∷◌ c ""
letter_at (suc n) (String.◌∷◌ c s) = letter_at n s

lower_case : String → String
unfolding letter_at
lower_case String.[] = ""
lower_case (String.◌∷◌ c s) =
    let rest = lower_case s in
    if is_upper (code c)
    then letter_at (code c - 65) "abcdefghijklmnopqrstuvwxyz" +++ rest
    else String.◌∷◌ c rest

-- `ResourceIdSchema`
unfoldable pub resource_id : String → Option String
unfolding matches_resource lower_case
resource_id value =
    let trimmed = trim value in
    if matches_resource (codes trimmed) && leb (length (codes trimmed)) 120
    then some (lower_case trimmed)
    else none

-- `SystemIdSchema`
unfoldable pub system_id : String → Option String
unfolding matches_system
system_id value =
    let trimmed = trim value in
    if value == "SYS-A" || value == "SYS-B"
    then some value
    else if matches_system (codes trimmed) && leb (length (codes trimmed)) 50
    then some trimmed
    else none
