-- ===== src/Prelude/Order.antt =====
-- The order of texts, and of lists of numbers.
use Prim.Native.Nat.{ℕ, Ordering, compare as compare_ℕ}
use Prim.Native.Char.{code}
use Prim.Native.String.compare
use Prim.Native.String.{String, compare, then as chain}
use mathlib.Core.Path.{◌≡◌, refl, sym, ap, ◌∙◌}
use mathlib.Core.Bool.{Bool, true, false}
use mathlib.Core.List.{List}
use native.Mathlib.Omega.{arith}
use text.Mathlib.Text.{is_lt}
use vetka_backend_panel.Prelude.Tests.{ltb, if◌then◌else◌}

-- The text comes first by code points, `s < t`.
abbrev pub less_text : String → String → Bool
less_text s t = is_lt (compare s t)

unfoldable pub less_bytes : List ℕ → List ℕ → Bool
less_bytes xs List.[] = false
less_bytes List.[] (List.◌∷◌ y ys) = true
less_bytes (List.◌∷◌ x xs) (List.◌∷◌ y ys) =
    let rest = less_bytes xs ys in if ltb x y then true else if ltb y x then false else rest

flip : Ordering → Ordering
flip Ordering.lt = Ordering.gt
flip Ordering.eq = Ordering.eq
flip Ordering.gt = Ordering.lt

compare_ℕ-flip : (m n : ℕ) → compare_ℕ n m ≡ flip (compare_ℕ m n)
unfolding flip
compare_ℕ-flip m n = ground arith

then-flip : (o r : Ordering) → flip (chain o r) ≡ chain (flip o) (flip r)
unfolding flip
then-flip Ordering.lt r = refl
then-flip Ordering.eq r = refl
then-flip Ordering.gt r = refl

compare-flip : (s t : String) → compare t s ≡ flip (compare s t)
unfolding flip
compare-flip String.[] String.[] = refl
compare-flip String.[] (String.◌∷◌ d t) =
    compare.cons-nil d t ∙ sym (ap flip (compare.nil-cons d t))
compare-flip (String.◌∷◌ c s) String.[] =
    compare.nil-cons c s ∙ sym (ap flip (compare.cons-nil c s))
compare-flip (String.◌∷◌ c s) (String.◌∷◌ d t) =
    compare.cons-cons d c t s
    ∙ ap (λ o. chain o (compare t s)) (compare_ℕ-flip (code c) (code d))
    ∙ ap (λ o. chain (flip (compare_ℕ (code c) (code d))) o) (compare-flip s t)
    ∙ sym (then-flip (compare_ℕ (code c) (code d)) (compare s t))
    ∙ sym (ap flip (compare.cons-cons c d s t))

flip-lt : (o : Ordering) → is_lt o ≡ true → is_lt (flip o) ≡ false
unfolding flip
flip-lt Ordering.lt h = refl
flip-lt Ordering.eq h = refl
flip-lt Ordering.gt h = sym h

pub less_text-asymmetric : (s t : String) → less_text s t ≡ true → less_text t s ≡ false
less_text-asymmetric s t h = ap is_lt (compare-flip s t) ∙ flip-lt (compare s t) h

pub less_bytes-asymmetric : (xs ys : List ℕ) → less_bytes xs ys ≡ true → less_bytes ys xs ≡ false
unfolding less_bytes
less_bytes-asymmetric List.[] List.[] h = refl
less_bytes-asymmetric List.[] (List.◌∷◌ y ys) h = refl
less_bytes-asymmetric (List.◌∷◌ x xs) List.[] h = cc
less_bytes-asymmetric (List.◌∷◌ x xs) (List.◌∷◌ y ys) h =
    ground (arith, h, less_bytes-asymmetric xs ys)
