-- ===== src/Base/Text.antt =====
-- Go's `<` on strings: the order of the bytes, which is that of the native `compare`.
use Prim.Native.Nat.{ℕ, Ordering, compare as compare_ℕ}
use Prim.Native.Char.{code}
use Prim.Native.String.{String, compare, then, [], ◌∷◌}
use Prim.Native.String.compare
use mathlib.Core.Path.{◌≡◌}
use mathlib.Core.Bool.{Bool, true, false}
use native.Mathlib.Omega.{arith}
use text.Mathlib.Text.{◌==◌, is_lt}
use text.Mathlib.TextEquality.{eq_iff, path_by_compare}
use text.Mathlib.TextPositions.{compare_refl}

unfoldable pub lt : String → String → Bool
lt s t = is_lt (compare s t)

abbrev flip : Ordering → Ordering
flip Ordering.lt = Ordering.gt
flip Ordering.eq = Ordering.eq
flip Ordering.gt = Ordering.lt

flip-then : (m n : ℕ) (o : Ordering) → then (compare_ℕ m n) (flip o) ≡ flip (then (compare_ℕ n m) o)
flip-then m n o = ground arith

flip-compare : (s t : String) → compare s t ≡ flip (compare t s)
flip-compare [] [] = rw compare.nil-nil
flip-compare [] (d ∷ t) = rw (compare.nil-cons d t, compare.cons-nil d t)
flip-compare (c ∷ s) [] = rw (compare.cons-nil c s, compare.nil-cons c s)
flip-compare (c ∷ s) (d ∷ t) =
    rw (compare.cons-cons c d s t, compare.cons-cons d c t s, flip-compare s t)
      (flip-then (code c) (code d) (compare t s))

then_trans :
    (a b c : ℕ) (o p q : Ordering)
    → (o ≡ Ordering.lt → p ≡ Ordering.lt → q ≡ Ordering.lt)
    → then (compare_ℕ a b) o ≡ Ordering.lt
    → then (compare_ℕ b c) p ≡ Ordering.lt
    → then (compare_ℕ a c) q ≡ Ordering.lt
then_trans a b c o p q h x y = ground arith

compare_trans :
    (s t u : String)
    → compare s t ≡ Ordering.lt
    → compare t u ≡ Ordering.lt
    → compare s u ≡ Ordering.lt
compare_trans [] [] u h k = cc
compare_trans [] (d ∷ t) [] h k = cc (compare.cons-nil d t)
compare_trans [] (d ∷ t) (e ∷ u) h k = compare.nil-cons e u
compare_trans (c ∷ s) [] u h k = cc (compare.cons-nil c s)
compare_trans (c ∷ s) (d ∷ t) [] h k = cc (compare.cons-nil d t)
compare_trans (c ∷ s) (d ∷ t) (e ∷ u) h k = rw (compare.cons-cons c e s u) (
    then_trans (code c) (code d) (code e) (compare s t) (compare t u) (compare s u)
      (compare_trans s t u) (rw (compare.cons-cons c d s t) at h)
      (rw (compare.cons-cons d e t u) at k))

lt_trans : (s t u : String) → lt s t ≡ true → lt t u ≡ true → lt s u ≡ true
unfolding lt
lt_trans s t u h k = ground (arith, compare_trans s t u)

pub lt_irrefl : (s : String) → lt s s ≡ false
unfolding lt
lt_irrefl s = ground (arith, compare_refl s)

pub lt_asymm : (s t : String) → lt s t ≡ true → lt t s ≡ false
unfolding lt
lt_asymm s t h = ground (arith, flip-compare s t)

pub lt_antisymm : (s t : String) → lt s t ≡ false → lt t s ≡ false → s ≡ t
unfolding lt
lt_antisymm s t h k = ground (arith, flip-compare s t, path_by_compare s t)

pub lt_not_trans : (s t u : String) → lt t s ≡ false → lt u t ≡ false → lt u s ≡ false
unfolding lt
lt_not_trans s t u h k = ground (arith, flip-compare s t, path_by_compare s t, compare_trans u s t)

eq_sym : (s t : String) → (s == t) ≡ (t == s)
eq_sym s t = ground (arith, eq_iff s t, eq_iff t s)
