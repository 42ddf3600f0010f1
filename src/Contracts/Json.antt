-- ===== src/Contracts/Json.antt =====
-- Values of JSON, their canonical text (`canonicalJson` of src/contracts/envelope.ts), and the walk
-- of the secret policy (src/security/payload-policy.ts).
use Prim.Native.Char.{code}
use balcony_agent_bridge.Base.{
  ℕ, ◌/◌, ◌%◌, String, Bool, true, not, ◌&&◌, List, [], ◌∷◌, map, eqb, ltb, text_le, if◌then◌else◌,
  ◌+++◌, digit, decimal, join,
}
use balcony_agent_bridge.Base.Table.{sort_by}

mutual
  pub data Json : Type 0 where
    null : Json
    boolean : Bool → Json
    number : ℕ → Json
    text : String → Json
    array : Items → Json
    object : Entries → Json

  pub data Items : Type 0 where
    nil : Items
    item : Json → Items → Items

  pub data Entries : Type 0 where
    end : Entries
    entry : String → Json → Entries → Entries

-- JSON.stringify of one character, given by its code and as a text.
escape : ℕ → String → String
unfolding digit
escape c s =
    if eqb c 34
    then "\\\""
    else if eqb c 92
    then "\\\\"
    else if eqb c 8
    then "\\b"
    else if eqb c 12
    then "\\f"
    else if eqb c 10
    then "\\n"
    else if eqb c 13
    then "\\r"
    else if eqb c 9
    then "\\t"
    else if ltb c 32
    then "\\u00" +++ digit (c / 16) +++ digit (c % 16)
    else s

escaped : String → String
unfolding escape
escaped String.[] = ""
escaped (String.◌∷◌ c s) = escape (code c) (String.◌∷◌ c String.[]) +++ escaped s

unfoldable pub quoted : String → String
unfolding escaped
quoted s = "\"" +++ escaped s +++ "\""

-- The members of an object in the order of their keys. The keys of a payload are lowercase letters
-- and underscores, which `localeCompare` orders by their codes.
abbrev by_key : String × String → String × String → Bool
by_key a b = text_le a.0 b.0

abbrev member : String × String → String
member e = quoted e.0 +++ ":" +++ e.1

unfoldable mutual
  unfolding quoted decimal join sort_by text_le

  pub canonical_json : Json → String
  canonical_json null = "null"
  canonical_json (boolean b) = if b then "true" else "false"
  canonical_json (number n) = decimal 16 n
  canonical_json (text s) = quoted s
  canonical_json (array xs) = "[" +++ join (canonical_items xs) +++ "]"
  canonical_json (object es) =
      "{" +++ join (map member (sort_by by_key (canonical_entries es))) +++ "}"

  pub canonical_items : Items → List String
  canonical_items nil = []
  canonical_items (item x xs) = canonical_json x ∷ canonical_items xs

  pub canonical_entries : Entries → List (String × String)
  canonical_entries end = []
  canonical_entries (entry k x es) = (k, canonical_json x) ∷ canonical_entries es

-- The regular expressions of the secret policy, as tests on a text. Their engine is the language's,
-- and the policy's walk asks nothing else of them.
pub record SecretPatterns : Type 0 where
  pub forbidden_key : String → Bool
  pub forbidden_value : String → Bool

-- `visit`: whether the walk ends without an error.
module _ (patterns : SecretPatterns) where
  unfoldable mutual
    pub visit : Json → Bool
    visit null = true
    visit (boolean b) = true
    visit (number n) = true
    visit (text s) = not (patterns.forbidden_value s)
    visit (array xs) = visit_items xs
    visit (object es) = visit_entries es

    pub visit_items : Items → Bool
    visit_items nil = true
    visit_items (item x xs) = visit x && visit_items xs

    pub visit_entries : Entries → Bool
    visit_entries end = true
    visit_entries (entry k x es) = not (patterns.forbidden_key k) && visit x && visit_entries es
