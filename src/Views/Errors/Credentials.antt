-- ===== src/Views/Errors/Credentials.antt =====
-- What the three replacements of internal/http/handlers/view_helpers.go make of a credential.
use mathlib.Core.List
use Prim.Native.Char.{Char}
use vetka_backend_panel.Prelude.{
  ℕ, zero, suc, String, Bool, true, false, not, ◌&&◌, ◌≡◌, refl, ◌∙◌, ap, Option, none, some, List,
  [], ◌∷◌, All, length, arith,
}
use vetka_backend_panel.Prelude.Text.{runes}
use vetka_backend_panel.Views.Patterns
use vetka_backend_panel.Views.Patterns.{
  Split, Match, is_blank, is_value, is_quote, is_word, span, take_word, first_word, take_equals,
  take_key, take_bearer, some_value, replace_from, replace_all, auth_header_at, bearer_token_at,
  sensitive_text_at, take_value, redacted_value,
}
use vetka_backend_panel.Views.Errors.Blanks.{
  NoBlank, auth_header_at-none, bearer_token_at-none, replace_from-same,
}

-- The characters of a credential: one at least, and no blank, comma, semicolon or quote.
abbrev pub IsCredential : List Char → Type 0
IsCredential [] = ⊥
IsCredential (c ∷ s) = All (λ d. (is_value d && not (is_quote d)) ≡ true) (c ∷ s)

credential-NoBlank :
    (s : List Char) → All (λ d. (is_value d && not (is_quote d)) ≡ true) s → NoBlank s
credential-NoBlank [] h = tt
credential-NoBlank (c ∷ s) h = (ground (arith, h.0), credential-NoBlank s h.1)

span-credential :
    (s : List Char)
    → All (λ d. (is_value d && not (is_quote d)) ≡ true) s
    → span is_value s ≡ (s, [])
unfolding span
span-credential [] h = refl
span-credential (c ∷ s) h =
    let e : is_value c ≡ true = ground (arith, h.0) in
    rw e (ap (λ x. (c ∷ x.0, x.1)) (span-credential s h.1))

-- A match at the front is replaced, and the rest goes on behind it.
replace_from-match :
    (at : Bool → List Char → Option Match) (n : ℕ) (before : Bool) (d : Char) (u : List Char)
    (m : Match)
    → at before (d ∷ u) ≡ some m
    → replace_from at (suc n) before (d ∷ u) ≡ List.◌++◌ m.0 (replace_from at n m.1 m.2)
unfolding replace_from
replace_from-match at n before d u m h = rw (replace_from, h) refl

module _ (c : Char) (s : List Char) (credential : IsCredential (c ∷ s)) where
  not_blank : NoBlank (c ∷ s)
  not_blank = credential-NoBlank (c ∷ s) credential

  auth-bearer :
      replace_all auth_header_at (List.◌++◌ (runes "Bearer ") (c ∷ s))
      ≡ List.◌++◌ (runes "Bearer ") (c ∷ s)
  unfolding replace_all replace_from auth_header_at take_key first_word take_word runes
      Patterns.fold
  auth-bearer =
      ap (λ x. List.◌++◌ (runes "Bearer ") x)
        (replace_from-same auth_header_at auth_header_at-none (length (c ∷ s)) false (c ∷ s)
          not_blank)

  one_blank : span is_blank (" " ∷ c ∷ s) ≡ (" " ∷ [], c ∷ s)
  unfolding span
  one_blank = rw (not_blank.0) refl

  take_bearer-credential : take_bearer (List.◌++◌ (runes "Bearer ") (c ∷ s)) ≡ some (c ∷ s, [])
  unfolding take_bearer take_word runes Patterns.fold
  take_bearer-credential =
      ap
        (λ x. elim (some_value x) as (λ y. Option Split) [
          | none ↦ none
          | some b ↦ some_value (span is_value b.1)
        ])
        one_blank
      ∙ ap some_value (span-credential (c ∷ s) credential)

  bearer-bearer :
      replace_all bearer_token_at (List.◌++◌ (runes "Bearer ") (c ∷ s)) ≡ runes "Bearer ***"
  unfolding replace_all bearer_token_at runes replace_from
  bearer-bearer =
      replace_from-match bearer_token_at (length (List.◌++◌ (runes "earer ") (c ∷ s))) false "B"
        (List.◌++◌ (runes "earer ") (c ∷ s)) (runes "Bearer ***", Patterns.ends_in_word (c ∷ s), [])
        (ap
          (λ o. elim o as (λ y. Option Match) [
            | none ↦ none
            | some v ↦ some (runes "Bearer ***", Patterns.ends_in_word v.0, v.1)
          ])
          take_bearer-credential)

  pub hidden-bearer :
      replace_all sensitive_text_at (
        replace_all bearer_token_at
          (replace_all auth_header_at (List.◌++◌ (runes "Bearer ") (c ∷ s))))
      ≡ List.◌++◌ (runes "Bearer ") (runes "***")
  unfolding replace_all replace_from sensitive_text_at take_key first_word take_word runes
      Patterns.fold
  hidden-bearer = rw (auth-bearer, bearer-bearer) refl

replace_from-end :
    (at : Bool → List Char → Option Match) (n : ℕ) (before : Bool)
    → replace_from at n before [] ≡ []
unfolding replace_from
replace_from-end at zero before = refl
replace_from-end at (suc n) before = refl

-- A match of the whole text.
replace_all-whole :
    (at : Bool → List Char → Option Match) (x : List Char) (c : Char) (s y : List Char) (b : Bool)
    → at false (List.◌++◌ x (c ∷ s)) ≡ some (y, b, [])
    → replace_all at (List.◌++◌ x (c ∷ s)) ≡ y
unfolding replace_all
replace_all-whole at [] c s y b h =
    replace_from-match at (length s) false c s (y, b, []) h
    ∙ ap (λ z. List.◌++◌ y z) (replace_from-end at (length s) b)
    ∙ List.append-nil y
replace_all-whole at (d ∷ x) c s y b h =
    replace_from-match at (length (List.◌++◌ x (c ∷ s))) false d (List.◌++◌ x (c ∷ s)) (y, b, []) h
    ∙ ap (λ z. List.◌++◌ y z) (replace_from-end at (length (List.◌++◌ x (c ∷ s))) b)
    ∙ List.append-nil y

-- What stands before a credential.
abbrev pub leads : List String
leads =
    "password=" ∷ "password:" ∷ "protocol_password=" ∷ "protocol_password:" ∷ "protocol_username="
    ∷ "protocol_username:" ∷ "node_secret=" ∷ "node_secret:" ∷ "nodeSecret=" ∷ "nodeSecret:"
    ∷ "secret=" ∷ "secret:" ∷ "token=" ∷ "token:" ∷ "subscription_token=" ∷ "subscription_token:"
    ∷ "admin_api_token=" ∷ "admin_api_token:" ∷ []

-- The three replacements leave three asterisks.
abbrev pub Hidden : List Char → String → Type 0
Hidden t l =
    replace_all sensitive_text_at
      (replace_all bearer_token_at (replace_all auth_header_at (List.◌++◌ (runes l) t)))
    ≡ List.◌++◌ (runes l) (runes "***")

-- Nothing but the key in front of the credential matches.
abbrev pub Plain : List Char → String → Type 0
Plain t l =
    (replace_all auth_header_at (List.◌++◌ (runes l) t)
      ≡ List.◌++◌ (runes l) (replace_from auth_header_at (length t) false t))
    × (replace_all bearer_token_at (List.◌++◌ (runes l) t)
        ≡ List.◌++◌ (runes l) (replace_from bearer_token_at (length t) false t))
    × (take_key Patterns.sensitive_keys (List.◌++◌ (runes l) t)
        ≡ some (List.◌++◌ (runes l) (span is_blank t).0, (span is_blank t).1))

pub leads-Plain : (t : List Char) → All (Plain t) leads
unfolding replace_all replace_from auth_header_at bearer_token_at take_bearer take_key first_word
    take_word take_equals runes Patterns.fold span is_word
leads-Plain t = (
  (refl, refl, refl),
  (
    (refl, refl, refl),
    (
      (refl, refl, refl),
      (
        (refl, refl, refl),
        (
          (refl, refl, refl),
          (
            (refl, refl, refl),
            (
              (refl, refl, refl),
              (
                (refl, refl, refl),
                (
                  (refl, refl, refl),
                  (
                    (refl, refl, refl),
                    (
                      (refl, refl, refl),
                      (
                        (refl, refl, refl),
                        (
                          (refl, refl, refl),
                          (
                            (refl, refl, refl),
                            (
                              (refl, refl, refl),
                              ((refl, refl, refl), ((refl, refl, refl), ((refl, refl, refl), tt))),
                            ),
                          ),
                        ),
                      ),
                    ),
                  ),
                ),
              ),
            ),
          ),
        ),
      ),
    ),
  ),
)

module _ (c : Char) (s : List Char) (credential : IsCredential (c ∷ s)) where
  take_value-credential : take_value (c ∷ s) ≡ some (c ∷ s, [])
  unfolding take_value
  take_value-credential =
      let q : is_quote c ≡ false = ground (arith, credential.0) in
      rw q (ap some_value (span-credential (c ∷ s) credential))

  redacted_value-credential : redacted_value (c ∷ s) ≡ runes "***"
  unfolding redacted_value
  redacted_value-credential = ground (arith, credential.0)

  front : span is_blank (c ∷ s) ≡ ([], c ∷ s)
  unfolding span
  front = let q : is_blank c ≡ false = (credential-NoBlank (c ∷ s) credential).0 in rw q refl

  sensitive-credential :
      (x : List Char)
      → take_key Patterns.sensitive_keys (List.◌++◌ x (c ∷ s))
        ≡ some (List.◌++◌ x (span is_blank (c ∷ s)).0, (span is_blank (c ∷ s)).1)
      → sensitive_text_at false (List.◌++◌ x (c ∷ s))
        ≡ some (List.◌++◌ x (runes "***"), Patterns.ends_in_word (c ∷ s), [])
  unfolding sensitive_text_at
  sensitive-credential x key =
      ap by_key key
      ∙ ap by_blank front
      ∙ ap by_value take_value-credential
      ∙ rw (redacted_value-credential, List.append-nil x) refl
    where
      by_value : Option Split → Option Match
      by_value o = elim o [
        | none ↦ none
        | some v ↦
            some (List.◌++◌ (List.◌++◌ x []) (redacted_value v.0), Patterns.ends_in_word v.0, v.1)
      ]

      by_key : Option Split → Option Match
      by_key o = elim o [
        | none ↦ none
        | some r ↦ elim (take_value r.1) [
          | none ↦ none
          | some v ↦ some (List.◌++◌ r.0 (redacted_value v.0), Patterns.ends_in_word v.0, v.1)
        ]
      ]

      by_blank : Split → Option Match
      by_blank b = by_key (some (List.◌++◌ x b.0, b.1))

  pub hidden :
      (l : String)
      → Plain (c ∷ s) l
      → replace_all sensitive_text_at
          (replace_all bearer_token_at (replace_all auth_header_at (List.◌++◌ (runes l) (c ∷ s))))
        ≡ List.◌++◌ (runes l) (runes "***")
  hidden l (a, b, key) =
      let plain = credential-NoBlank (c ∷ s) credential in
      rw
        (
          a,
          replace_from-same auth_header_at auth_header_at-none (length (c ∷ s)) false (c ∷ s) plain,
          b,
          replace_from-same bearer_token_at bearer_token_at-none (length (c ∷ s)) false (c ∷ s)
              plain,
        )
        (replace_all-whole sensitive_text_at (runes l) c s (List.◌++◌ (runes l) (runes "***"))
          (Patterns.ends_in_word (c ∷ s)) (sensitive-credential (runes l) key))
