-- ===== src/Prelude/Effects.antt =====
-- Go functions that return an error beside their value, and change a shared state. What was written
-- before an error stays written, so the state comes back in both cases. An error is its text.
use Prim.Native.String.{String}
use mathlib.Core.Bool.{Bool, true, false}
use vetka_backend_panel.Prelude.Tests.{if◌then◌else◌}

pub data Result {ℓ} (A : Type ℓ) : Type ℓ where
  ok : A → Result A
  err : String → Result A

-- `err != nil`
abbrev pub is_err {ℓ} : {A : Type ℓ} → Result A → Bool
is_err (ok a) = false
is_err (err e) = true

abbrev pub Action : Type 0 → Type 0 → Type 0
Action S A = S → Result A × S

module _ {S A : Type 0} where
  unfoldable pub pure : A → Action S A
  pure a s = (ok a, s)

  unfoldable pub raise : String → Action S A
  raise e s = (err e, s)

  unfoldable pub gets : (S → A) → Action S A
  gets f s = (ok (f s), s)

  -- A value that carries its own error.
  unfoldable pub lift : Result A → Action S A
  lift r s = (r, s)

  -- A call whose error the caller looks at.
  unfoldable pub attempt : Action S A → Action S (Result A)
  attempt m s = let (r, s') = m s in (ok r, s')

  -- A call whose error is dropped, `_ = f()`.
  unfoldable pub ignore : Action S A → Action S (Unit {0})
  ignore m s = let (r, s') = m s in (ok tt, s')

module _ {S A B : Type 0} where
  abbrev pub continue : Result A → (A → Action S B) → Action S B
  continue (ok a) f s = f a s
  continue (err e) f s = (err e, s)

  infixl 5 ◌>>=◌ ◌>>◌
  unfoldable pub ◌>>=◌ : Action S A → (A → Action S B) → Action S B
  unfolding pure raise gets lift attempt ignore
  ◌>>=◌ m f s = let (r, s') = m s in continue r f s'

  abbrev pub ◌>>◌ : Action S A → Action S B → Action S B
  m >> n = m >>= λ _. n

-- A relation between the states before and after that composes.
pub record Preorder {S : Type 0} (R : S → S → Type 0) : Type 0 where
  pub refl_at : (s : S) → R s s
  pub trans_at : (s t u : S) → R s t → R t u → R s u

-- Whether it returns or fails, `m` goes from a state to a related one.
pub record Within {S A : Type 0} (R : S → S → Type 0) (m : Action S A) : Type 0 where
  pub at : (s : S) → R s (m s).1

module _ {S : Type 0} {R : S → S → Type 0} (order : Preorder R) where
  module _ {A : Type 0} where
    pub Within-pure : (a : A) → Within R (pure a)
    unfolding pure
    Within-pure a = record { at = order.refl_at }

    pub Within-raise : (e : String) → Within R (raise {A = A} e)
    unfolding raise
    Within-raise e = record { at = order.refl_at }

    pub Within-gets : (f : S → A) → Within R (gets f)
    unfolding gets
    Within-gets f = record { at = order.refl_at }

    pub Within-lift : (r : Result A) → Within R (lift r)
    unfolding lift
    Within-lift r = record { at = order.refl_at }

  pub Within-continue :
      {A B : Type 0} (r : Result A) (f : A → Action S B)
      → ((a : A) → Within R (f a))
      → Within R (continue r f)
  Within-continue (ok a) f h = h a
  Within-continue (err e) f h = record { at = order.refl_at }

  pub Within-bind :
      {A B : Type 0} (m : Action S A) (f : A → Action S B)
      → Within R m
      → ((a : A) → Within R (f a))
      → Within R (m >>= f)
  unfolding ◌>>=◌
  Within-bind m f hm hf = record {
    at = λ s. let (r, s') = m s in order.trans_at s s' _ (hm.at s) ((Within-continue r f hf).at s');
  }

module _ {S A : Type 0} {R : S → S → Type 0} where
  pub Within-attempt : (m : Action S A) → Within R m → Within R (attempt m)
  unfolding attempt
  Within-attempt m h = record { at = h.at }

  pub Within-ignore : (m : Action S A) → Within R m → Within R (ignore m)
  unfolding ignore
  Within-ignore m h = record { at = h.at }

  pub Within-if :
      (b : Bool) (m n : Action S A) → Within R m → Within R n → Within R (if b then m else n)
  Within-if true m n hm hn = hm
  Within-if false m n hm hn = hn

pub ruleset within_rules = (
  Within-pure, Within-raise, Within-gets, Within-lift, Within-bind, Within-attempt, Within-ignore,
  Within-if,
)
