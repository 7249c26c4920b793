-- ===== src/Handlers/Rules.antt =====
-- Pre- and postconditions of handlers.
use vetka_backend_panel.Prelude.{String}
use vetka_backend_panel.Prelude.Effects.{Result, ok, err, Action}
use vetka_backend_panel.Prelude.Triples.{Post, Triple}
use vetka_backend_panel.Handlers.{branch, or_else}

module _ {S A B : Type 0} (Q : A → S → Type 0) (E : S → Type 0) {T : B → S → Type 0}
    {F : S → Type 0} (m : Action S A) (fail : String → Action S B) (next : A → Action S B) where
  Post-branch :
      (r : Result A) (s : S)
      → Post Q E (r, s)
      → ((e : String) → Triple E (fail e) T F)
      → ((a : A) → Triple (Q a) (next a) T F)
      → Post T F (branch r fail next s)
  Post-branch (ok a) s h f n = (n a).at s h
  Post-branch (err e) s h f n = (f e).at s h

  pub Triple-or_else :
      {P : S → Type 0}
      → Triple P m Q E
      → ((e : String) → Triple E (fail e) T F)
      → ((a : A) → Triple (Q a) (next a) T F)
      → Triple P (or_else m fail next) T F
  unfolding or_else
  Triple-or_else h f n = record { at = λ s p. let (r, s') = m s in Post-branch r s' (h.at s p) f n }
