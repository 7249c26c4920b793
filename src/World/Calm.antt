-- ===== src/World/Calm.antt =====
-- Actions run step by step while no statement fails.
use vetka_backend_panel.Prelude.{if◌then◌else◌, String, Bool, true, false, ◌≡◌, refl, []}
use vetka_backend_panel.Prelude.Effects.{Result, ok, err, Action, ignore, ◌>>=◌}
use vetka_backend_panel.World.{World, statement, refuse_if}

module _ {S A B : Type 0} (m : Action S A) (f : A → Action S B) (s t : S) where
  pub bind-ok : (a : A) → m s ≡ (ok a, t) → (m >>= f) s ≡ f a t
  unfolding ◌>>=◌
  bind-ok a h = rw h refl

  pub bind-err : (e : String) → m s ≡ (err e, t) → (m >>= f) s ≡ (err e, t)
  unfolding ◌>>=◌
  bind-err e h = rw h refl

pub ignore-ok :
    {S A : Type 0} (m : Action S A) (s t : S) (r : Result A)
    → m s ≡ (r, t)
    → ignore m s ≡ (ok tt, t)
unfolding ignore
ignore-ok m s t r h = rw h refl

pub statement-calm :
    {A : Type 0} (run : World → Result A × World) (w : World)
    → w.schedule ≡ []
    → statement run w ≡ run w
unfolding statement
statement-calm run w h = rw h refl

pub refuse_if-true :
    {A : Type 0} (b : Bool) (e : String) (run : World → Result A × World) (w : World)
    → b ≡ true
    → refuse_if b e run w ≡ (err e, w)
unfolding refuse_if
refuse_if-true b e run w h = rw h refl

pub refuse_if-false :
    {A : Type 0} (b : Bool) (e : String) (run : World → Result A × World) (w : World)
    → b ≡ false
    → refuse_if b e run w ≡ run w
unfolding refuse_if
refuse_if-false b e run w h = rw h refl

module _ {S A : Type 0} (b : Bool) (m n : Action S A) (s : S) where
  pub if-true : b ≡ true → (if b then m else n) s ≡ m s
  if-true h = rw h refl

  pub if-false : b ≡ false → (if b then m else n) s ≡ n s
  if-false h = rw h refl
