-- ===== src/Security.antt =====
-- src/security/sanitize-error.ts: the codes under which errors are recorded.
pub mod Trimming
pub mod Authentication
use Prim.Native.Char.{code}
use balcony_agent_bridge.Base.{
  ℕ, String, Bool, true, false, ◌&&◌, ◌||◌, List, [], ◌∷◌, eqb, leb, if◌then◌else◌, length,
}

abbrev codes : String → List ℕ
codes String.[] = []
codes (String.◌∷◌ c s) = code c ∷ codes s

abbrev is_empty : String → Bool
is_empty String.[] = true
is_empty (String.◌∷◌ c s) = false

-- The white space that `String.prototype.trim` removes.
unfoldable pub is_white : ℕ → Bool
is_white c =
    (leb 9 c && leb c 13)
    || eqb c 32
    || eqb c 160
    || eqb c 5760
    || (leb 8192 c && leb c 8202)
    || eqb c 8232
    || eqb c 8233
    || eqb c 8239
    || eqb c 8287
    || eqb c 12288
    || eqb c 65279

trim_start : String → String
trim_start String.[] = ""
trim_start (String.◌∷◌ c s) =
    let rest = trim_start s in if is_white (code c) then rest else String.◌∷◌ c s

trim_end : String → String
trim_end String.[] = ""
trim_end (String.◌∷◌ c s) =
    let rest = trim_end s in if is_white (code c) && is_empty rest then "" else String.◌∷◌ c rest

unfoldable pub trim : String → String
unfolding is_white trim_start trim_end
trim s = trim_end (trim_start s)

is_letter : ℕ → Bool
is_letter c = (leb 65 c && leb c 90) || (leb 97 c && leb c 122)

-- [A-Za-z0-9_.-]
is_code_character : ℕ → Bool
unfolding is_letter
is_code_character c = is_letter c || (leb 48 c && leb c 57) || eqb c 95 || eqb c 46 || eqb c 45

all_code_characters : List ℕ → Bool
unfolding is_code_character
all_code_characters [] = true
all_code_characters (c ∷ cs) = is_code_character c && all_code_characters cs

-- /^[A-Za-z][A-Za-z0-9_.-]{0,79}$/
matches_code : List ℕ → Bool
unfolding is_letter all_code_characters
matches_code [] = false
matches_code (c ∷ cs) = is_letter c && all_code_characters cs && leb (length cs) 79

abbrev pub unknown_transport_error : String
unknown_transport_error = "UNKNOWN_TRANSPORT_ERROR"

unfoldable pub normalize_error_code : String → String
unfolding trim matches_code
normalize_error_code c =
    let trimmed = trim c in
    if matches_code (codes trimmed) then trimmed else unknown_transport_error
