-- ===== src/Prelude/Lists.antt =====
-- Lists measured by native numbers, filtered by Boolean tests, and a stable insertion sort.
use Prim.Native.Nat.{ℕ, zero, suc, ◌+◌, ◌≤◌}
use mathlib.Core.Path.{◌≡◌, refl}
use mathlib.Core.Bool.{Bool, true, false}
use mathlib.Core.List.{List, [], ◌∷◌, ◌++◌}
use native.Mathlib.Omega.{arith}
use vetka_backend_panel.Prelude.Tests.{if◌then◌else◌}

module _ {ℓ} {A : Type ℓ} where
  abbrev pub length : List A → ℕ
  length [] = 0
  length (x ∷ xs) = suc (length xs)

  pub length-append : (xs ys : List A) → length (xs ++ ys) ≡ length xs + length ys
  length-append [] ys = omega arith
  length-append (x ∷ xs) ys = omega (arith, length-append xs ys)

  -- A loop that appends the elements that pass a test.
  abbrev pub keep_if : (A → Bool) → List A → List A
  keep_if p [] = []
  keep_if p (x ∷ xs) = let rest = keep_if p xs in if p x then x ∷ rest else rest

  pub length-keep_if-le : (p : A → Bool) (xs : List A) → length (keep_if p xs) ≤ length xs
  length-keep_if-le p [] = omega arith
  length-keep_if-le p (x ∷ xs) = ground (arith, length-keep_if-le p xs)

  -- Every element has the property.
  abbrev pub All {κ} : (A → Type κ) → List A → Type κ
  All P [] = Unit
  All P (x ∷ xs) = P x × All P xs

  pub All-mono {κ μ} :
      {P : A → Type κ} {Q : A → Type μ} (xs : List A) → ((a : A) → P a → Q a) → All P xs → All Q xs
  All-mono [] f h = tt
  All-mono (x ∷ xs) f h = (f x h.0, All-mono xs f h.1)

  pub All-append {κ} : (P : A → Type κ) (xs ys : List A) → All P xs → All P ys → All P (xs ++ ys)
  All-append P [] ys hx hy = hy
  All-append P (x ∷ xs) ys hx hy = (hx.0, All-append P xs ys hx.1 hy)

  -- Insertion behind the elements that the new one does not precede: `less` is Go's `less`.
  abbrev pub insert_sorted : (A → A → Bool) → A → List A → List A
  insert_sorted less x [] = x ∷ []
  insert_sorted less x (y ∷ ys) =
      let rest = insert_sorted less x ys in if less y x then y ∷ rest else x ∷ y ∷ ys

  -- `sort.SliceStable`: from the back, each element goes before its equals.
  abbrev pub sort_stable : (A → A → Bool) → List A → List A
  sort_stable less [] = []
  sort_stable less (x ∷ xs) = insert_sorted less x (sort_stable less xs)

  abbrev pub take : ℕ → List A → List A
  take zero xs = []
  take (suc n) [] = []
  take (suc n) (x ∷ xs) = x ∷ take n xs

  abbrev pub drop : ℕ → List A → List A
  drop zero xs = xs
  drop (suc n) [] = []
  drop (suc n) (x ∷ xs) = drop n xs

  abbrev pub replicate : ℕ → A → List A
  replicate zero a = []
  replicate (suc n) a = a ∷ replicate n a

-- No element precedes the one before it.
abbrev pub Ordered {ℓ} : {A : Type ℓ} → (A → A → Bool) → List A → Type 0
Ordered less [] = Unit
Ordered less (x ∷ []) = Unit
Ordered less (x ∷ y ∷ ys) = (less y x ≡ false) × Ordered less (y ∷ ys)

module _ {ℓ} {A : Type ℓ} (less : A → A → Bool)
    (asymmetric : (a b : A) → less a b ≡ true → less b a ≡ false) where
  Ordered-pair :
      (q : Bool) (x y : A) → less y x ≡ q → Ordered less (if q then y ∷ x ∷ [] else x ∷ y ∷ [])
  Ordered-pair true x y e = (asymmetric y x e, tt)
  Ordered-pair false x y e = (e, tt)

  Ordered-front :
      (q r : Bool) (x y z : A) (rest ys : List A)
      → less y x ≡ q
      → less z y ≡ false
      → Ordered less (z ∷ ys)
      → Ordered less (if r then z ∷ rest else x ∷ z ∷ ys)
      → Ordered less (if q then y ∷ (if r then z ∷ rest else x ∷ z ∷ ys) else x ∷ y ∷ z ∷ ys)
  Ordered-front true true x y z rest ys e f h k = (f, k)
  Ordered-front true false x y z rest ys e f h k = (asymmetric y x e, k)
  Ordered-front false r x y z rest ys e f h k = (e, (f, h))

  insert_sorted-Ordered :
      (x : A) (ys : List A) → Ordered less ys → Ordered less (insert_sorted less x ys)
  insert_sorted-Ordered x [] h = tt
  insert_sorted-Ordered x (y ∷ []) h = Ordered-pair (less y x) x y refl
  insert_sorted-Ordered x (y ∷ z ∷ ys) h =
      Ordered-front (less y x) (less z x) x y z (insert_sorted less x ys) ys refl h.0 h.1
        (insert_sorted-Ordered x (z ∷ ys) h.1)

  pub sort_stable-Ordered : (xs : List A) → Ordered less (sort_stable less xs)
  sort_stable-Ordered [] = tt
  sort_stable-Ordered (x ∷ xs) =
      insert_sorted-Ordered x (sort_stable less xs) (sort_stable-Ordered xs)

-- For every test, as many elements pass it after sorting as before.
module _ {ℓ} {A : Type ℓ} (less : A → A → Bool) (p : A → Bool) where
  insert_sorted-keep_if :
      (x : A) (ys : List A)
      → length (keep_if p (insert_sorted less x ys)) ≡ length (keep_if p (x ∷ ys))
  insert_sorted-keep_if x [] = omega arith
  insert_sorted-keep_if x (y ∷ ys) = ground (arith, insert_sorted-keep_if x ys)

  pub sort_stable-keep_if :
      (xs : List A) → length (keep_if p (sort_stable less xs)) ≡ length (keep_if p xs)
  sort_stable-keep_if [] = omega arith
  sort_stable-keep_if (x ∷ xs) =
      ground (arith, insert_sorted-keep_if x (sort_stable less xs), sort_stable-keep_if xs)

module _ {ℓ κ} {A : Type ℓ} (P : A → Type κ) where
  All-if :
      (b : Bool) (xs ys : List A)
      → (b ≡ true → All P xs)
      → (b ≡ false → All P ys)
      → All P (if b then xs else ys)
  All-if true xs ys f g = f refl
  All-if false xs ys f g = g refl

  insert_sorted-All :
      (less : A → A → Bool) (x : A) (ys : List A) → P x → All P ys → All P (insert_sorted less x ys)
  insert_sorted-All less x [] p h = (p, tt)
  insert_sorted-All less x (y ∷ ys) p h =
      All-if (less y x) (y ∷ insert_sorted less x ys) (x ∷ y ∷ ys)
        (λ _. (h.0, insert_sorted-All less x ys p h.1)) (λ _. (p, h))

  pub sort_stable-All : (less : A → A → Bool) (xs : List A) → All P xs → All P (sort_stable less xs)
  sort_stable-All less [] h = tt
  sort_stable-All less (x ∷ xs) h =
      insert_sorted-All less x (sort_stable less xs) h.0 (sort_stable-All less xs h.1)

  pub keep_if-All :
      {Q : A → Type κ} (p : A → Bool) (xs : List A)
      → ((a : A) → p a ≡ true → Q a → P a)
      → All Q xs
      → All P (keep_if p xs)
  keep_if-All p [] f h = tt
  keep_if-All p (x ∷ xs) f h =
      All-if (p x) (x ∷ keep_if p xs) (keep_if p xs) (λ e. (f x e h.0, keep_if-All p xs f h.1))
        (λ _. keep_if-All p xs f h.1)

  -- What passes a test has what the test decides.
  pub keep_if-passed :
      (p : A → Bool) (xs : List A) → ((a : A) → p a ≡ true → P a) → All P (keep_if p xs)
  keep_if-passed p [] f = tt
  keep_if-passed p (x ∷ xs) f =
      All-if (p x) (x ∷ keep_if p xs) (keep_if p xs) (λ e. (f x e, keep_if-passed p xs f))
        (λ _. keep_if-passed p xs f)

-- What holds of all elements of a sorted or filtered list.
module _ {ℓ κ} {A : Type ℓ} (P : A → Type κ) where
  unsort_step :
      (b : Bool) (x y : A) (ys zs : List A)
      → (All P zs → P x × All P ys)
      → All P (if b then y ∷ zs else x ∷ y ∷ ys)
      → P x × P y × All P ys
  unsort_step true x y ys zs f h = let (p, q) = f h.1 in (p, h.0, q)
  unsort_step false x y ys zs f h = (h.0, h.1.0, h.1.1)

  unsort :
      (less : A → A → Bool) (x : A) (ys : List A) → All P (insert_sorted less x ys) → P x × All P ys
  unsort less x [] h = h
  unsort less x (y ∷ ys) h =
      let (p, q, r) =
        unsort_step (less y x) x y ys (insert_sorted less x ys) (unsort less x ys) h in
      (p, (q, r))

  pub All-of_sort_stable :
      (less : A → A → Bool) (xs : List A) → All P (sort_stable less xs) → All P xs
  All-of_sort_stable less [] h = tt
  All-of_sort_stable less (x ∷ xs) h =
      let (p, q) = unsort less x (sort_stable less xs) h in (p, All-of_sort_stable less xs q)

  unkeep_step :
      (b : Bool) (x : A) (zs : List A)
      → All P (if b then x ∷ zs else zs)
      → (b ≡ true → P x) × All P zs
  unkeep_step true x zs h = ((λ e. h.0), h.1)
  unkeep_step false x zs h = ((λ e. cc), h)

  pub All-of_keep_if :
      (p : A → Bool) (xs : List A) → All P (keep_if p xs) → All (λ x. p x ≡ true → P x) xs
  All-of_keep_if p [] h = tt
  All-of_keep_if p (x ∷ xs) h =
      let (q, r) = unkeep_step (p x) x (keep_if p xs) h in (q, All-of_keep_if p xs r)
