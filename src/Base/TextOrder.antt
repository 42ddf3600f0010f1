-- ===== src/Base/TextOrder.antt =====
-- The collation is total: of two texts one stands before the other, or they are equal.
use Prim.Native.Nat.{ℕ, Ordering, compare as compare_ℕ}
use Prim.Native.Char.{code}
use Prim.Native.String.{String, compare, then}
use Prim.Native.String.compare
use mathlib.Core.Path.{◌≡◌, refl}
use mathlib.Core.Bool.{not}
use native.Mathlib.Omega.{arith}
use balcony_agent_bridge.Base.Tests.{text_le, text_lt}

abbrev flip : Ordering → Ordering
flip Ordering.lt = Ordering.gt
flip Ordering.eq = Ordering.eq
flip Ordering.gt = Ordering.lt

flip-compare_number : (m n : ℕ) → flip (compare_ℕ m n) ≡ compare_ℕ n m
flip-compare_number m n = ground arith

flip-then : (o r : Ordering) → flip (then o r) ≡ then (flip o) (flip r)
flip-then Ordering.lt r = refl
flip-then Ordering.eq r = refl
flip-then Ordering.gt r = refl

flip-compare : (s t : String) → flip (compare s t) ≡ compare t s
flip-compare String.[] String.[] = refl
flip-compare String.[] (String.◌∷◌ d t) = rw (compare.nil-cons d t, compare.cons-nil d t)
flip-compare (String.◌∷◌ c s) String.[] = rw (compare.cons-nil c s, compare.nil-cons c s)
flip-compare (String.◌∷◌ c s) (String.◌∷◌ d t) = rw (
  compare.cons-cons c d s t,
  compare.cons-cons d c t s,
  flip-then (compare_ℕ (code c) (code d)) (compare s t),
  flip-compare_number (code c) (code d),
  flip-compare s t,
)

-- `a < b` is the negation of `b ≤ a`.
pub text_lt-eq-not : (a b : String) → text_lt a b ≡ not (text_le b a)
unfolding text_lt text_le
text_lt-eq-not a b = ground (arith, flip-compare a b)
