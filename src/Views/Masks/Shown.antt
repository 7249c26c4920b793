-- ===== src/Views/Masks/Shown.antt =====
-- How much internal/http/handlers/view_helpers.go shows of a secret, and how long a shortened text is.
use mathlib.Core.List
use mathlib.Core.List.{append_assoc}
use Prim.Native.Char.{Char}
use vetka_backend_panel.Prelude.{
  Bool, true, false, ◌||◌, sym, ◌∙◌, ℕ, suc, zero, ◌+◌, ◌-◌, ◌≤◌, ◌<◌, ◌≡◌, refl, ap, List, [], ◌∷◌,
  arith, leb, if◌then◌else◌, length, length-append, take, drop, replicate,
}
use vetka_backend_panel.Views.Masks
use vetka_backend_panel.Views.Masks.{bullet, dots}
use vetka_backend_panel.Security

module _ {A : Type 0} where
  length-take : (n : ℕ) (xs : List A) → n ≤ length xs → length (take n xs) ≡ n
  length-take zero xs h = refl
  length-take (suc n) [] h = ground (arith, h)
  length-take (suc n) (x ∷ xs) h = omega (arith, length-take n xs (omega (arith, h)))

  length-drop : (n : ℕ) (xs : List A) → n ≤ length xs → length (drop n xs) + n ≡ length xs
  length-drop zero xs h = omega arith
  length-drop (suc n) [] h = ground (arith, h)
  length-drop (suc n) (x ∷ xs) h = omega (arith, length-drop n xs (omega (arith, h)))

  length-replicate : (n : ℕ) (a : A) → length (replicate n a) ≡ n
  length-replicate zero a = refl
  length-replicate (suc n) a = omega (arith, length-replicate n a)

  take-append : (n : ℕ) (xs ys : List A) → length xs ≡ n → take n (List.◌++◌ xs ys) ≡ xs
  take-append zero [] ys h = refl
  take-append zero (x ∷ xs) ys h = absurd (omega (arith, h))
  take-append (suc n) [] ys h = absurd (omega (arith, h))
  take-append (suc n) (x ∷ xs) ys h = cc (take-append n xs ys (omega (arith, h)))

  drop-append : (n : ℕ) (xs ys : List A) → length xs ≡ n → drop n (List.◌++◌ xs ys) ≡ ys
  drop-append zero [] ys h = refl
  drop-append zero (x ∷ xs) ys h = absurd (omega (arith, h))
  drop-append (suc n) [] ys h = absurd (omega (arith, h))
  drop-append (suc n) (x ∷ xs) ys h = drop-append n xs ys (omega (arith, h))

ends :
    {A : Type 0} (n k : ℕ) (a m z : List A)
    → length a ≡ n
    → length z ≡ k
    → (take n (List.◌++◌ a (List.◌++◌ m z)) ≡ a)
      × (drop (length (List.◌++◌ a (List.◌++◌ m z)) - k) (List.◌++◌ a (List.◌++◌ m z)) ≡ z)
ends n k a m z h q = (
  take-append n a (List.◌++◌ m z) h,
  rw (← append_assoc a m z) (
      drop-append _ (List.◌++◌ a m) z
        (omega (arith, q, ap length (append_assoc a m z), length-append {0} (List.◌++◌ a m) z))),
)

long :
    {A : Type 0} (a m z : List A)
    → length a ≡ 4
    → length z ≡ 4
    → 0 < length m
    → leb (length (List.◌++◌ a (List.◌++◌ m z))) 8 ≡ false
long a m z h q p = ground (arith, length-append a (List.◌++◌ m z), length-append m z)

compact :
    (a m z : List Char)
    → length a ≡ 4
    → length z ≡ 4
    → 0 < length m
    → Masks.mask_runes (List.◌++◌ a (List.◌++◌ m z))
      ≡ List.◌++◌ a (List.◌++◌ (replicate 8 bullet) z)
unfolding Masks.mask_runes
compact a m z h q p =
    let (front, back) = ends 4 4 a m z h q in
    let l = long a m z h q p in
    let l4 : leb (length (List.◌++◌ a (List.◌++◌ m z))) 4 ≡ false = ground (arith, l) in
    rw (l4, l, front, back) refl

starred :
    (b p y : List ℕ)
    → length b ≡ 4
    → length y ≡ 4
    → 0 < length p
    → Security.mask_secret (List.◌++◌ b (List.◌++◌ p y))
      ≡ List.◌++◌ b (List.◌++◌ (replicate (length p) b'*') y)
unfolding Security.mask_secret
starred b p y h q r =
    let (front, back) = ends 4 4 b p y h q in
    let l = long b p y h q r in
    let n : length (List.◌++◌ b (List.◌++◌ p y)) - 8 ≡ length p =
      omega (arith, h, q, length-append {0} b (List.◌++◌ p y), length-append {0} p y) in
    rw (l, front, back, n) refl

-- A masked secret of more than eight characters shows its first and its last four, and nothing of what
-- is between them: the compact mask is the same for every middle part, and the mask that the API and the
-- assignments show is the same for every middle part of the same number of bytes.
pub masks-hide :
    (a m n z : List Char) (b p q y : List ℕ)
    → (length a ≡ 4) × (length z ≡ 4) × (0 < length m) × (0 < length n)
    → (length b ≡ 4) × (length y ≡ 4) × (0 < length p) × (length p ≡ length q)
    → (Masks.mask_runes (List.◌++◌ a (List.◌++◌ m z))
        ≡ Masks.mask_runes (List.◌++◌ a (List.◌++◌ n z)))
      × (Security.mask_secret (List.◌++◌ b (List.◌++◌ p y))
          ≡ Security.mask_secret (List.◌++◌ b (List.◌++◌ q y)))
masks-hide a m n z b p q y h k = (
  compact a m z h.0 h.1 h.2 ∙ sym (compact a n z h.0 h.1 h.3),
  starred b p y k.0 k.1 k.2
      ∙ ap (λ i. List.◌++◌ b (List.◌++◌ (replicate i b'*') y)) k.3
      ∙ sym (starred b q y k.0 k.1 (omega (arith, k.2, k.3))),
)

-- A text within the size, or of any length for a size of at most three, is shown whole; a longer one is
-- cut to two runes more than the size.
pub truncate_runes-length :
    (cs : List Char) (size : ℕ)
    → length (Masks.truncate_runes cs size)
      ≡ (if leb (length cs) size || leb size 3 then length cs else size + 2)
unfolding Masks.truncate_runes
truncate_runes-length cs size = choose (leb (length cs) size) (leb size 3) refl refl
  where
    choose :
        (b c : Bool)
        → leb (length cs) size ≡ b
        → leb size 3 ≡ c
        → length (if b || c then cs else List.◌++◌ (take (size - 1) cs) dots)
          ≡ (if b || c then length cs else size + 2)
    choose true c p q = refl
    choose false true p q = refl
    choose false false p q =
        let small : size - 1 ≤ length cs = ground (arith, p) in
        let big : 3 < size = ground (arith, q) in
        omega
          (arith, length-append {0} (take (size - 1) cs) dots, length-take (size - 1) cs small, big)
