-- ===== src/Time.antt =====
-- The language's clock and dates as the code uses them: an instant is a number of milliseconds since
-- the epoch, and storage holds its text, `toISOString` (years 1970 to 9999).
mod Tests
use Prim.Native.Char.{code}
use balcony_agent_bridge.Base.{
  ℕ, zero, suc, ◌+◌, ◌-◌, ◌*◌, ◌/◌, ◌%◌, String, Bool, false, ◌&&◌, List, [], ◌∷◌, ltb, leb, eqb,
  if◌then◌else◌, ◌+++◌, digit,
}

two_digits : ℕ → String
unfolding digit
two_digits n = digit (n / 10 % 10) +++ digit (n % 10)

three_digits : ℕ → String
unfolding digit two_digits
three_digits n = digit (n / 100 % 10) +++ two_digits n

-- The day count since the epoch as year, month and day of the Gregorian calendar.
record CivilDate : Type 0 where
  year : ℕ
  month : ℕ
  day : ℕ

civil_from_days : ℕ → CivilDate
civil_from_days days =
    let z = days + 719468 in
    let era = z / 146097 in
    let doe = z % 146097 in
    let yoe = (doe + doe / 36524 - doe / 1460 - doe / 146096) / 365 in
    let doy = doe - (365 * yoe + yoe / 4 - yoe / 100) in
    let mp = (5 * doy + 2) / 153 in
    let month = if ltb mp 10 then mp + 3 else mp - 9 in
    record {
      year = yoe + era * 400 + (if leb month 2 then 1 else 0);
      month = month;
      day = doy + 1 - (153 * mp + 2) / 5;
    }

-- Date.prototype.toISOString
unfoldable pub to_iso_string : ℕ → String
unfolding two_digits three_digits civil_from_days
to_iso_string ms =
    let date = civil_from_days (ms / 86400000) in
    let rest = ms % 86400000 in
    two_digits (date.year / 100)
    +++ two_digits date.year
    +++ "-"
    +++ two_digits date.month
    +++ "-"
    +++ two_digits date.day
    +++ "T"
    +++ two_digits (rest / 3600000)
    +++ ":"
    +++ two_digits (rest / 60000 % 60)
    +++ ":"
    +++ two_digits (rest / 1000 % 60)
    +++ "."
    +++ three_digits rest
    +++ "Z"

-- `addSeconds` of storage/database.ts
unfoldable pub add_seconds : ℕ → ℕ → ℕ
add_seconds date seconds = date + seconds * 1000

-- The codes of a text's characters.
abbrev codes : String → List ℕ
codes String.[] = []
codes (String.◌∷◌ c s) = code c ∷ codes s

-- A number of `n` digits, and what follows it.
read_digits : ℕ → ℕ → List ℕ → ℕ × List ℕ
read_digits zero acc cs = (acc, cs)
read_digits (suc n) acc [] = (acc, [])
read_digits (suc n) acc (c ∷ cs) = read_digits n (acc * 10 + (c - 48)) cs

skip_one : List ℕ → List ℕ
skip_one [] = []
skip_one (c ∷ cs) = cs

-- What follows the digits of a fraction.
skip_digits : List ℕ → List ℕ
skip_digits [] = []
skip_digits (c ∷ cs) = let rest = skip_digits cs in if leb 48 c && leb c 57 then rest else c ∷ cs

next_is : ℕ → List ℕ → Bool
next_is code [] = false
next_is code (c ∷ cs) = eqb c code

-- The milliseconds of a fraction: three digits at most, the first counts hundreds.
read_fraction : ℕ → List ℕ → ℕ
read_fraction weight [] = 0
read_fraction weight (c ∷ cs) =
    let rest = read_fraction (weight / 10) cs in
    if leb 48 c && leb c 57 then weight * (c - 48) + rest else 0

days_from_civil : ℕ → ℕ → ℕ → ℕ
days_from_civil year month day =
    let y = if leb month 2 then year - 1 else year in
    let yoe = y % 400 in
    let mp = if leb month 2 then month + 9 else month - 3 in
    let doy = (153 * mp + 2) / 5 + (day - 1) in
    y / 400 * 146097 + (yoe * 365 + yoe / 4 - yoe / 100 + doy) - 719468

-- The offset behind the time: `Z`, `+hh:mm` or `-hh:mm`, applied to the local instant.
with_offset : ℕ → List ℕ → ℕ
unfolding read_digits skip_one next_is
with_offset local cs =
    let (hours, r) = read_digits 2 0 (skip_one cs) in
    let (minutes, _) = read_digits 2 0 (if next_is b':' r then skip_one r else r) in
    let offset = (hours * 60 + minutes) * 60000 in
    if next_is b'+' cs then local - offset else if next_is b'-' cs then local + offset else local

-- Date.parse of a date and time with an offset.
unfoldable pub date_parse : String → ℕ
unfolding read_digits skip_one skip_digits next_is read_fraction days_from_civil with_offset
date_parse s =
    let (year, r1) = read_digits 4 0 (codes s) in
    let (month, r2) = read_digits 2 0 (skip_one r1) in
    let (day, r3) = read_digits 2 0 (skip_one r2) in
    let (hour, r4) = read_digits 2 0 (skip_one r3) in
    let (minute, r5) = read_digits 2 0 (skip_one r4) in
    let (second, r6) = if next_is b':' r5 then read_digits 2 0 (skip_one r5) else (0, r5) in
    let milli = if next_is b'.' r6 then read_fraction 100 (skip_one r6) else 0 in
    let r7 = if next_is b'.' r6 then skip_digits (skip_one r6) else r6 in
    with_offset
      (days_from_civil year month day * 86400000
        + hour * 3600000
        + minute * 60000
        + second * 1000
        + milli)
      r7
