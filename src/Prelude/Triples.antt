-- ===== src/Prelude/Triples.antt =====
-- Pre- and postconditions of actions: what holds after a return, and what holds after an error.
use vetka_backend_panel.Prelude.Tests.{if◌then◌else◌}
use Prim.Native.String.{String}
use mathlib.Core.Path.{◌≡◌, refl}
use mathlib.Core.Bool.{Bool, true, false}
use vetka_backend_panel.Prelude.Effects.{
  Result, ok, err, Action, Within, pure, raise, attempt, continue, ◌>>=◌,
}

abbrev pub Post : {S A : Type 0} → (A → S → Type 0) → (S → Type 0) → Result A × S → Type 0
Post Q E (ok a, s) = Q a s
Post Q E (err e, s) = E s

pub record Triple {S A : Type 0} (P : S → Type 0) (m : Action S A) (Q : A → S → Type 0)
    (E : S → Type 0) : Type 0 where
  pub at : (s : S) → P s → Post Q E (m s)

module _ {S : Type 0} {E : S → Type 0} where
  Triple-continue :
      {A B : Type 0} {Q : A → S → Type 0} {T : B → S → Type 0} (r : Result A) (f : A → Action S B)
      (s : S)
      → Post Q E (r, s)
      → ((a : A) → Triple (Q a) (f a) T E)
      → Post T E (continue r f s)
  Triple-continue (ok a) f s h k = (k a).at s h
  Triple-continue (err e) f s h k = h

  pub Triple-bind :
      {A B : Type 0} {P : S → Type 0} (Q : A → S → Type 0) {T : B → S → Type 0} (m : Action S A)
      (f : A → Action S B)
      → Triple P m Q E
      → ((a : A) → Triple (Q a) (f a) T E)
      → Triple P (m >>= f) T E
  unfolding ◌>>=◌
  Triple-bind Q m f hm hf = record {
    at = λ s p. let (r, s') = m s in Triple-continue {Q = Q} r f s' (hm.at s p) hf;
  }

-- A fact that does not speak of the state may stand outside.
pub Triple-given :
    {S A : Type 0} {C : Type 0} {P : S → Type 0} (m : Action S A) {Q : A → S → Type 0}
    {E : S → Type 0}
    → (C → Triple P m Q E)
    → Triple (λ s. C × P s) m Q E
Triple-given m h = record { at = λ s p. (h p.0).at s p.1 }

module _ {S A : Type 0} (Q : A → S → Type 0) {E F : S → Type 0} (f : (s : S) → E s → F s) where
  Post-weaken : (r : Result A) (s : S) → Post Q E (r, s) → Post Q F (r, s)
  Post-weaken (ok a) s h = h
  Post-weaken (err e) s h = f s h

  pub Triple-weaken : {P : S → Type 0} (m : Action S A) → Triple P m Q E → Triple P m Q F
  Triple-weaken m h = record { at = λ s p. let (r, s') = m s in Post-weaken r s' (h.at s p) }

-- An invariant that an action keeps, however it ends.
abbrev pub Invariant : {S A : Type 0} → (S → Type 0) → Action S A → Type 0
Invariant I m = Triple I m (λ _. I) I

module _ {S A : Type 0} (I : S → Type 0) where
  Post-same : (r : Result A) (s : S) → I s → Post (λ _. I) I (r, s)
  Post-same (ok a) s h = h
  Post-same (err e) s h = h

  pub Post-any : (r : Result A) (s : S) → Post (λ _. I) I (r, s) → I s
  Post-any (ok a) s h = h
  Post-any (err e) s h = h

module _ {S A : Type 0} {I : S → Type 0} where
  pub Invariant-after : (m : Action S A) → Invariant I m → (s : S) → I s → I (m s).1
  Invariant-after m h s i = let (r, s') = m s in Post-any I r s' (h.at s i)

  -- A relation that carries the assertion along.
  pub Invariant-of_after : (m : Action S A) → ((s : S) → I s → I (m s).1) → Invariant I m
  Invariant-of_after m h = record { at = λ s i. let (r, s') = m s in Post-same I r s' (h s i) }

  pub Invariant-attempt : (m : Action S A) → Invariant I m → Invariant I (attempt m)
  unfolding attempt
  Invariant-attempt m h = record { at = λ s i. Invariant-after m h s i }

  pub Invariant-pure : (a : A) → Invariant I (pure a)
  unfolding pure
  Invariant-pure a = record { at = λ s i. i }

  pub Invariant-raise : (e : String) → Invariant I (raise {A = A} e)
  unfolding raise
  Invariant-raise e = record { at = λ s i. i }

  pub Invariant-if :
      (b : Bool) (m n : Action S A)
      → Invariant I m
      → Invariant I n
      → Invariant I (if b then m else n)
  Invariant-if true m n hm hn = hm
  Invariant-if false m n hm hn = hn

module _ {S A : Type 0} {P : S → Type 0} {Q : A → S → Type 0} {E : S → Type 0} where
  pub Triple-pure : (a : A) → ((s : S) → P s → Q a s) → Triple P (pure a) Q E
  unfolding pure
  Triple-pure a h = record { at = h }

  pub Triple-if :
      (b : Bool) (m n : Action S A)
      → (b ≡ true → Triple P m Q E)
      → (b ≡ false → Triple P n Q E)
      → Triple P (if b then m else n) Q E
  Triple-if true m n h k = h refl
  Triple-if false m n h k = k refl

module _ {S A : Type 0} {Q R : A → S → Type 0} (E : S → Type 0)
    (f : (a : A) (s : S) → Q a s → R a s) where
  Post-imply : (r : Result A) (s : S) → Post Q E (r, s) → Post R E (r, s)
  Post-imply (ok a) s h = f a s h
  Post-imply (err e) s h = h

  pub Triple-imply : {P : S → Type 0} (m : Action S A) → Triple P m Q E → Triple P m R E
  Triple-imply m h = record { at = λ s p. let (r, s') = m s in Post-imply r s' (h.at s p) }

Post-frame :
    {S A : Type 0} (Q : A → S → Type 0) (E F : S → Type 0) (r : Result A) (s : S)
    → F s
    → Post Q E (r, s)
    → Post (λ a t. F t × Q a t) E (r, s)
Post-frame Q E F (ok a) s f h = (f, h)
Post-frame Q E F (err e) s f h = h

module _ {S A : Type 0} {P : S → Type 0} {Q : A → S → Type 0} {E : S → Type 0} where
  -- The caller looks at the error itself.
  pub Triple-attempt :
      {F : S → Type 0} (m : Action S A)
      → Triple P m Q E
      → Triple P (attempt m) (λ r s. Post Q E (r, s)) F
  unfolding attempt
  Triple-attempt m h = record { at = h.at }

  -- What the relation of an action carries along holds after it too.
  pub Triple-frame :
      (F : S → Type 0) {R : S → S → Type 0} (m : Action S A)
      → Within R m
      → ((s t : S) → R s t → F s → F t)
      → Triple P m Q E
      → Triple (λ s. F s × P s) m (λ a s. F s × Q a s) E
  Triple-frame F m within carry h = record {
    at = λ s p. let (r, t) = m s in Post-frame Q E F r t (carry s t (within.at s) p.0) (h.at s p.1);
  }
