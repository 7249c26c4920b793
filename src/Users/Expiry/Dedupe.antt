-- ===== src/Users/Expiry/Dedupe.antt =====
-- `dedupeStrings` of internal/users/expiry_reconciler.go.
use vetka_backend_panel.Prelude.{
  String, Bool, true, false, not, ◌&&◌, ◌≡◌, refl, List, [], ◌∷◌, ◌==◌, arith, eq_iff, eq_refl,
  ◌||◌, ◌∙◌, if◌then◌else◌,
}
use vetka_backend_panel.Users.Expiry.{has_key, dedupe_from, dedupe_strings}

-- No text occurs twice.
abbrev pub Distinct : List String → Type 0
Distinct [] = Unit
Distinct (x ∷ xs) = (has_key x xs ≡ false) × Distinct xs

and_true : (a b : Bool) → (a && b && true) ≡ (a && b)
and_true false b = refl
and_true true false = refl
and_true true true = refl

has_key-dedupe_from :
    (x : String) (seen values : List String)
    → has_key x (dedupe_from seen values)
      ≡ (has_key x values && not (x == "") && not (has_key x seen))
unfolding has_key dedupe_from
has_key-dedupe_from x seen [] = refl
has_key-dedupe_from x seen (v ∷ vs) = ground (
  arith,
  eq_iff x v,
  eq_iff x "",
  eq_iff v "",
  has_key-dedupe_from x seen vs,
  has_key-dedupe_from x (v ∷ seen) vs,
)

Distinct-if :
    (b : Bool) (xs ys : List String) → Distinct xs → Distinct ys → Distinct (if b then xs else ys)
Distinct-if true xs ys h k = h
Distinct-if false xs ys h k = k

dedupe_from-Distinct : (seen values : List String) → Distinct (dedupe_from seen values)
unfolding has_key dedupe_from
dedupe_from-Distinct seen [] = tt
dedupe_from-Distinct seen (v ∷ vs) =
    Distinct-if (v == "" || has_key v seen) _ _ (dedupe_from-Distinct seen vs) (
      ground (arith, eq_refl v, has_key-dedupe_from v (v ∷ seen) vs),
      dedupe_from-Distinct (v ∷ seen) vs,
    )

-- The deduplicated list has no text twice, and its texts are those of the list that are not empty.
pub dedupe_strings_lem :
    (values : List String)
    → Distinct (dedupe_strings values)
      × ((x : String) → has_key x (dedupe_strings values) ≡ (has_key x values && not (x == "")))
unfolding dedupe_strings has_key
dedupe_strings_lem values = (
  dedupe_from-Distinct [] values,
  λ x. has_key-dedupe_from x [] values ∙ and_true (has_key x values) (not (x == "")),
)
