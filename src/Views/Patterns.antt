-- ===== src/Views/Patterns.antt =====
-- internal/http/handlers/view_helpers.go: the three regular expressions of `SafeOperationalError`, each
-- by its leftmost match. In each of them at most one way to match starts at a place: a key is no prefix of
-- another, and what a repetition takes cannot start what follows it. So no match is tried again.
use mathlib.Core.List
use Prim.Native.Char.{Char, code}
use vetka_backend_panel.Prelude.{
  ℕ, zero, suc, ◌+◌, String, Bool, true, false, not, ◌&&◌, ◌||◌, Option, none, some, List, [], ◌∷◌,
  if◌then◌else◌, leb, nat_eq, length,
}
use vetka_backend_panel.Prelude.Text.{runes}

-- `(?i)`: the simple folding of Unicode, as far as it reaches ASCII letters.
unfoldable pub fold : ℕ → ℕ
fold n =
    if leb b'A' n && leb n b'Z'
    then n + 32
    else if nat_eq n 0x17F
    then b's'
    else if nat_eq n 0x212A
    then b'k'
    else n

-- `\s`
abbrev pub is_blank : Char → Bool
is_blank c =
    nat_eq (code c) 9
    || nat_eq (code c) 10
    || nat_eq (code c) 12
    || nat_eq (code c) 13
    || nat_eq (code c) 32

-- `\w`, which `\b` looks at.
unfoldable pub is_word : Char → Bool
is_word c =
    (leb b'0' (code c) && leb (code c) b'9')
    || (leb b'A' (code c) && leb (code c) b'Z')
    || (leb b'a' (code c) && leb (code c) b'z')
    || nat_eq (code c) b'_'

-- `[^\s,;]`
abbrev pub is_value : Char → Bool
is_value c = not (is_blank c || nat_eq (code c) b',' || nat_eq (code c) b';')

-- What was taken, and the rest.
abbrev pub Split : Type 0
Split = List Char × List Char

unfoldable pub span : (Char → Bool) → List Char → Split
span p [] = ([], [])
span p (c ∷ s) = let later = span p s in if p c then (c ∷ later.0, later.1) else ([], c ∷ s)

-- The word at the front, in any case.
unfoldable pub take_word : List Char → List Char → Option Split
unfolding fold
take_word [] s = some ([], s)
take_word (w ∷ ws) [] = none
take_word (w ∷ ws) (c ∷ s) =
    let later = take_word ws s in
    if nat_eq (fold (code c)) (fold (code w))
    then elim later [ none ↦ none | some r ↦ some (c ∷ r.0, r.1) ]
    else none

unfoldable pub first_word : List String → List Char → Option Split
unfolding take_word runes
first_word [] s = none
first_word (w ∷ ws) s = elim (take_word (runes w) s) [ none ↦ first_word ws s | some r ↦ some r ]

abbrev pub is_quote : Char → Bool
is_quote c = nat_eq (code c) b'"' || nat_eq (code c) b'\''

-- `["']?`
abbrev pub take_quote : List Char → Split
take_quote [] = ([], [])
take_quote (c ∷ s) = if is_quote c then (c ∷ [], s) else ([], c ∷ s)

-- `[:=]`
abbrev pub take_sign : List Char → Option Split
take_sign [] = none
take_sign (c ∷ s) = if nat_eq (code c) b':' || nat_eq (code c) b'=' then some (c ∷ [], s) else none

-- `\s*[:=]\s*`, behind what has been taken.
unfoldable pub take_equals : List Char → List Char → Option Split
unfolding span
take_equals taken s =
    let (blank, s1) = span is_blank s in
    elim (take_sign s1) [
      | none ↦ none
      | some r ↦ some (
        List.◌++◌ taken (List.◌++◌ blank (List.◌++◌ r.0 (span is_blank r.1).0)),
        (span is_blank r.1).1,
      )
    ]

-- `["']?(?:…)["']?\s*[:=]\s*` for a list of keys.
unfoldable pub take_key : List String → List Char → Option Split
unfolding first_word take_equals
take_key keys s =
    let (open_quote, s1) = take_quote s in
    elim (first_word keys s1) [
      | none ↦ none
      | some r ↦
          take_equals (List.◌++◌ open_quote (List.◌++◌ r.0 (take_quote r.1).0)) (take_quote r.1).1
    ]

abbrev pub some_value : Split → Option Split
some_value ([], s) = none
some_value (c ∷ v, s) = some (c ∷ v, s)

-- `"[^"]*"` behind its first quote; `none` if no quote closes it.
abbrev pub closed_by : Char → Split → Option Split
closed_by c (v, []) = none
closed_by c (v, q ∷ s) = some (c ∷ List.◌++◌ v (q ∷ []), s)

-- `"[^"]*"|'[^']*'|[^\s,;]+`
unfoldable pub take_value : List Char → Option Split
unfolding span
take_value [] = none
take_value (c ∷ s) =
    let unquoted = some_value (span is_value (c ∷ s)) in
    if is_quote c
    then elim (closed_by c (span (λ d. not (nat_eq (code d) (code c))) s)) [
      | none ↦ unquoted
      | some r ↦ some r
    ]
    else unquoted

abbrev pub sensitive_keys : List String
sensitive_keys =
    "password" ∷ "protocol_password" ∷ "protocol_username" ∷ "node_secret" ∷ "nodeSecret" ∷ "secret"
    ∷ "token" ∷ "subscription_token" ∷ "admin_api_token" ∷ "authorization" ∷ []

-- A match: what stands for it, whether it ends in a word character, and the rest.
abbrev pub Match : Type 0
Match = List Char × Bool × List Char

abbrev pub ends_in_word : List Char → Bool
ends_in_word [] = false
ends_in_word (c ∷ []) = is_word c
ends_in_word (c ∷ d ∷ s) = ends_in_word (d ∷ s)

-- The loop of `ReplaceAll`: `before` says whether a word character stands before the place. Each round
-- takes a character or a match, so the length of the text is enough fuel.
unfoldable pub replace_from : (Bool → List Char → Option Match) → ℕ → Bool → List Char → List Char
unfolding is_word
replace_from at zero before s = s
replace_from at (suc fuel) before [] = []
replace_from at (suc fuel) before (c ∷ s) = elim (at before (c ∷ s)) [
  | none ↦ c ∷ replace_from at fuel (is_word c) s
  | some m ↦ List.◌++◌ m.0 (replace_from at fuel m.1 m.2)
]

unfoldable pub replace_all : (Bool → List Char → Option Match) → List Char → List Char
unfolding replace_from
replace_all at s = replace_from at (length s) false s

-- `bearer\s+[^\s,;]+`
unfoldable pub take_bearer : List Char → Option Split
unfolding take_word runes span
take_bearer s = elim (take_word (runes "bearer") s) [
  | none ↦ none
  | some r ↦ elim (some_value (span is_blank r.1)) [
    | none ↦ none
    | some b ↦ some_value (span is_value b.1)
  ]
]

unfoldable pub auth_header_at : Bool → List Char → Option Match
unfolding take_key take_bearer runes is_word
auth_header_at before s = elim (take_key ("authorization" ∷ []) s) [
  | none ↦ none
  | some r ↦ elim (take_bearer r.1) [
    | none ↦ none
    | some v ↦ some (List.◌++◌ r.0 (runes "***"), ends_in_word v.0, v.1)
  ]
]

unfoldable pub bearer_token_at : Bool → List Char → Option Match
unfolding take_bearer runes is_word
bearer_token_at true s = none
bearer_token_at false s = elim (take_bearer s) [
  | none ↦ none
  | some v ↦ some (runes "Bearer ***", ends_in_word v.0, v.1)
]

abbrev pub last_is : ℕ → List Char → Bool
last_is n [] = false
last_is n (c ∷ []) = nat_eq (code c) n
last_is n (c ∷ d ∷ s) = last_is n (d ∷ s)

abbrev pub first_is : ℕ → List Char → Bool
first_is n [] = false
first_is n (c ∷ s) = nat_eq (code c) n

unfoldable pub redacted_value : List Char → List Char
unfolding runes
redacted_value v =
    if first_is b'"' v && last_is b'"' v
    then runes "\"***\""
    else if first_is b'\'' v && last_is b'\'' v
    then runes "'***'"
    else runes "***"

unfoldable pub sensitive_text_at : Bool → List Char → Option Match
unfolding take_key take_value redacted_value is_word
sensitive_text_at before s = elim (take_key sensitive_keys s) [
  | none ↦ none
  | some r ↦ elim (take_value r.1) [
    | none ↦ none
    | some v ↦ some (List.◌++◌ r.0 (redacted_value v.0), ends_in_word v.0, v.1)
  ]
]
