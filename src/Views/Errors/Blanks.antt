-- ===== src/Views/Errors/Blanks.antt =====
-- What the regular expressions of internal/http/handlers/view_helpers.go find in a text without blanks.
use mathlib.Core.List
use Prim.Native.Char.{Char, code}
use vetka_backend_panel.Prelude.{
  ℕ, zero, suc, String, Bool, true, false, ◌||◌, ◌≡◌, refl, ap, Option, none, some, List, [], ◌∷◌,
  All, if◌then◌else◌, nat_eq,
}
use vetka_backend_panel.Prelude.Text.{runes}
use vetka_backend_panel.Views.Patterns
use vetka_backend_panel.Views.Patterns.{
  Split, Match, is_blank, is_value, is_quote, is_word, span, take_word, first_word, take_equals,
  take_key, take_bearer, some_value, replace_from, replace_all, auth_header_at, bearer_token_at,
  sensitive_text_at, take_value, redacted_value,
}

abbrev pub NoBlank : List Char → Type 0
NoBlank s = All (λ c. is_blank c ≡ false) s

-- What a step takes leaves a text without blanks.
abbrev Leaves : Option Split → Type 0
Leaves none = Unit
Leaves (some r) = NoBlank r.1

span-NoBlank : (p : Char → Bool) (s : List Char) → NoBlank s → NoBlank (span p s).1
unfolding span
span-NoBlank p [] h = tt
span-NoBlank p (c ∷ s) h = by_test (p c) (span-NoBlank p s h.1)
  where
    by_test :
        (b : Bool)
        → NoBlank (span p s).1
        → NoBlank
            (let x : Split = (if b then (c ∷ (span p s).0, (span p s).1) else ([], c ∷ s)) in x.1)
    by_test true k = k
    by_test false k = h

take_word-Leaves : (w s : List Char) → NoBlank s → Leaves (take_word w s)
unfolding take_word
take_word-Leaves [] s h = h
take_word-Leaves (x ∷ w) [] h = tt
take_word-Leaves (x ∷ w) (c ∷ s) h =
    by_test (nat_eq (Patterns.fold (code c)) (Patterns.fold (code x))) (take_word w s)
      (take_word-Leaves w s h.1)
  where
    by_test :
        (b : Bool) (o : Option Split)
        → Leaves o
        → Leaves (if b then elim o [ none ↦ none | some r ↦ some (c ∷ r.0, r.1) ] else none)
    by_test true none k = tt
    by_test true (some r) k = k
    by_test false o k = tt

first_word-Leaves : (ws : List String) (s : List Char) → NoBlank s → Leaves (first_word ws s)
unfolding first_word
first_word-Leaves [] s h = tt
first_word-Leaves (w ∷ ws) s h =
    either (take_word (runes w) s) (take_word-Leaves (runes w) s h) (first_word-Leaves ws s h)
  where
    either :
        (o : Option Split)
        → Leaves o
        → Leaves (first_word ws s)
        → Leaves (elim o [ none ↦ first_word ws s | some r ↦ some r ])
    either none k l = l
    either (some r) k l = k

first-none : (s : List Char) → NoBlank s → some_value (span is_blank s) ≡ none
unfolding span
first-none [] h = refl
first-none (c ∷ s) h = rw (h.0) refl

-- No `bearer` with a value stands in a text without blanks.
take_bearer-none : (s : List Char) → NoBlank s → take_bearer s ≡ none
unfolding take_bearer
take_bearer-none s h =
    by_word (take_word (runes "bearer") s) (take_word-Leaves (runes "bearer") s h)
  where
    by_word :
        (o : Option Split)
        → Leaves o
        → elim o [
          | none ↦ none
          | some r ↦ elim (some_value (span is_blank r.1)) [
            | none ↦ none
            | some b ↦ some_value (span is_value b.1)
          ]
        ]
          ≡ none
    by_word none k = refl
    by_word (some r) k = rw (first-none r.1 k) refl

take_quote-NoBlank : (s : List Char) → NoBlank s → NoBlank (Patterns.take_quote s).1
take_quote-NoBlank [] h = tt
take_quote-NoBlank (c ∷ s) h = by_test (is_quote c)
  where
    by_test : (b : Bool) → NoBlank (let x : Split = (if b then (c ∷ [], s) else ([], c ∷ s)) in x.1)
    by_test true = h.1
    by_test false = h

take_sign-Leaves : (s : List Char) → NoBlank s → Leaves (Patterns.take_sign s)
take_sign-Leaves [] h = tt
take_sign-Leaves (c ∷ s) h = by_test (nat_eq (code c) b':' || nat_eq (code c) b'=')
  where
    by_test : (b : Bool) → Leaves (if b then some (c ∷ [], s) else none)
    by_test true = h.1
    by_test false = tt

take_equals-Leaves : (taken s : List Char) → NoBlank s → Leaves (take_equals taken s)
unfolding take_equals
take_equals-Leaves taken s h =
    by_sign (Patterns.take_sign (span is_blank s).1)
      (take_sign-Leaves (span is_blank s).1 (span-NoBlank is_blank s h))
  where
    by_sign :
        (o : Option Split)
        → Leaves o
        → Leaves (elim o [
          | none ↦ none
          | some r ↦ some (
            List.◌++◌ taken (List.◌++◌ (span is_blank s).0 (List.◌++◌ r.0 (span is_blank r.1).0)),
            (span is_blank r.1).1,
          )
        ])
    by_sign none k = tt
    by_sign (some r) k = span-NoBlank is_blank r.1 k

take_key-Leaves : (keys : List String) (s : List Char) → NoBlank s → Leaves (take_key keys s)
unfolding take_key
take_key-Leaves keys s h =
    by_word (first_word keys (Patterns.take_quote s).1)
      (first_word-Leaves keys (Patterns.take_quote s).1 (take_quote-NoBlank s h))
  where
    by_word :
        (o : Option Split)
        → Leaves o
        → Leaves (elim o [
          | none ↦ none
          | some r ↦
              take_equals
                (List.◌++◌ (Patterns.take_quote s).0 (List.◌++◌ r.0 (Patterns.take_quote r.1).0))
                (Patterns.take_quote r.1).1
        ])
    by_word none k = tt
    by_word (some r) k = take_equals-Leaves _ (Patterns.take_quote r.1).1 (take_quote-NoBlank r.1 k)

pub auth_header_at-none :
    (before : Bool) (s : List Char) → NoBlank s → auth_header_at before s ≡ none
unfolding auth_header_at
auth_header_at-none before s h =
    by_key (take_key ("authorization" ∷ []) s) (take_key-Leaves ("authorization" ∷ []) s h)
  where
    by_key :
        (o : Option Split)
        → Leaves o
        → elim o as (λ x. Option Match) [
          | none ↦ none
          | some r ↦ elim (take_bearer r.1) [
            | none ↦ none
            | some v ↦ some (List.◌++◌ r.0 (runes "***"), Patterns.ends_in_word v.0, v.1)
          ]
        ]
          ≡ none
    by_key none k = refl
    by_key (some r) k = rw (take_bearer-none r.1 k) refl

pub bearer_token_at-none :
    (before : Bool) (s : List Char) → NoBlank s → bearer_token_at before s ≡ none
unfolding bearer_token_at
bearer_token_at-none true s h = refl
bearer_token_at-none false s h = rw (take_bearer-none s h) refl

-- A text where nothing matches is kept.
pub replace_from-same :
    (at : Bool → List Char → Option Match)
    → ((b : Bool) (s : List Char) → NoBlank s → at b s ≡ none)
    → (n : ℕ) (before : Bool) (s : List Char) → NoBlank s
    → replace_from at n before s ≡ s
unfolding replace_from
replace_from-same at never zero before s h = refl
replace_from-same at never (suc n) before [] h = refl
replace_from-same at never (suc n) before (c ∷ s) h =
    rw (replace_from, never before (c ∷ s) h)
      (ap (λ x. c ∷ x) (replace_from-same at never n (is_word c) s h.1))
