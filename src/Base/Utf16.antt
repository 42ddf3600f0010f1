-- ===== src/Base/Utf16.antt =====
-- Texts measured in UTF-16 code units, as `length` and `slice` of the language measure them.
use Prim.Native.Char.{code}
use Prim.Native.Nat.{ℕ, ◌+◌, ◌-◌}
use Prim.Native.String.{String}
use balcony_agent_bridge.Base.Tests.{leb, if◌then◌else◌}

abbrev units : ℕ → ℕ
units c = if leb 65536 c then 2 else 1

unfoldable pub utf16_length : String → ℕ
utf16_length String.[] = 0
utf16_length (String.◌∷◌ c s) = units (code c) + utf16_length s

-- `slice(0, n)`
unfoldable pub take_units : ℕ → String → String
take_units n String.[] = ""
take_units n (String.◌∷◌ c s) =
    let rest = take_units (n - units (code c)) s in
    if leb (units (code c)) n then String.◌∷◌ c rest else ""
