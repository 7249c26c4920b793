-- ===== src/Subscriptions/Url.antt =====
-- What internal/subscriptions uses of `net/url` and `net`: escaped texts, the text of a URL that is built
-- from its parts, and the split of a host and a port.
use Prim.Native.Char.{code}
use Prim.Native.String.{String, ◌++◌}
use mathlib.Core.List
use vetka_backend_panel.Prelude.{
  ℕ, ◌+◌, ◌-◌, ◌/◌, ◌%◌, Bool, false, ◌&&◌, ◌||◌, ◌≡◌, refl, Option, none, some, List, [], ◌∷◌,
  ◌==◌, if◌then◌else◌, ltb, leb, nat_eq,
}
use vetka_backend_panel.Prelude.Text.{to_char}

-- The bytes of a character.
unfoldable pub utf8 : ℕ → List ℕ
utf8 n =
    if ltb n 0x80
    then n ∷ []
    else if ltb n 0x800
    then (0xC0 + n / 64) ∷ (0x80 + n % 64) ∷ []
    else if ltb n 0x10000
    then (0xE0 + n / 4096) ∷ (0x80 + n / 64 % 64) ∷ (0x80 + n % 64) ∷ []
    else (0xF0 + n / 262144) ∷ (0x80 + n / 4096 % 64) ∷ (0x80 + n / 64 % 64) ∷ (0x80 + n % 64) ∷ []

unfoldable pub bytes : String → List ℕ
unfolding utf8
bytes String.[] = []
bytes (String.◌∷◌ c s) = List.◌++◌ (utf8 (code c)) (bytes s)

unfoldable pub has_byte : ℕ → List ℕ → Bool
has_byte b [] = false
has_byte b (x ∷ xs) = nat_eq b x || has_byte b xs

unfoldable pub is_alphanumeric : ℕ → Bool
is_alphanumeric b =
    (leb b'a' b && leb b b'z') || (leb b'A' b && leb b b'Z') || (leb b'0' b && leb b b'9')

-- The characters of a text whose code points are all below U+0080, as numbers.
abbrev codes : String → List ℕ
codes String.[] = []
codes (String.◌∷◌ c s) = code c ∷ codes s

-- `-_.~`, and what a part of a URL keeps beside it.
unfoldable pub is_kept : String → ℕ → Bool
unfolding has_byte is_alphanumeric
is_kept extra b = is_alphanumeric b || has_byte b (codes "-_.~") || has_byte b (codes extra)

unfoldable pub hex_digit : ℕ → String
unfolding to_char
hex_digit d = String.◌∷◌ (to_char (if ltb d 10 then b'0' + d else b'A' + (d - 10))) ""

unfoldable pub escape_bytes : String → List ℕ → String
unfolding is_kept hex_digit to_char
escape_bytes extra [] = ""
escape_bytes extra (b ∷ bs) =
    (if is_kept extra b
      then String.◌∷◌ (to_char b) ""
      else "%" ++ hex_digit (b / 16) ++ hex_digit (b % 16))
    ++ escape_bytes extra bs

unfoldable pub query_bytes : List ℕ → String
unfolding escape_bytes
query_bytes [] = ""
query_bytes (b ∷ bs) = (if nat_eq b b' ' then "+" else escape_bytes "" (b ∷ [])) ++ query_bytes bs

-- `url.QueryEscape`
unfoldable pub query_escape : String → String
unfolding query_bytes bytes
query_escape s = query_bytes (bytes s)

-- `url.UserPassword(user, password).String()`
unfoldable pub user_password : String → String → String
unfolding escape_bytes bytes
user_password user password =
    escape_bytes "$&+,;=" (bytes user) ++ ":" ++ escape_bytes "$&+,;=" (bytes password)

-- `String` of a `url.URL` with a scheme, a user, a host and a fragment.
unfoldable pub url_text : String → String → String → String → String
unfolding escape_bytes bytes
url_text scheme user host fragment =
    scheme
    ++ "://"
    ++ user
    ++ "@"
    ++ escape_bytes "!$&'()*+,;=:[]<>\"" (bytes host)
    ++ (if fragment == "" then "" else "#" ++ escape_bytes "$&+,/:;=?@!()*" (bytes fragment))

-- What is before the first, or before the last, of a character.
unfoldable pub before_first : ℕ → String → Option String
before_first n String.[] = none
before_first n (String.◌∷◌ c s) =
    let later = before_first n s in
    if nat_eq (code c) n
    then some ""
    else elim later [ none ↦ none | some t ↦ some (String.◌∷◌ c t) ]

unfoldable pub before_last : ℕ → String → Option String
before_last n String.[] = none
before_last n (String.◌∷◌ c s) = elim (before_last n s) [
  | some t ↦ some (String.◌∷◌ c t)
  | none ↦ if nat_eq (code c) n then some "" else none
]

abbrev pub has_char : ℕ → String → Bool
has_char n String.[] = false
has_char n (String.◌∷◌ c s) = nat_eq (code c) n || has_char n s

query_escape_mixed : query_escape "Б 1&a" ≡ "%D0%91+1%26a"
unfolding query_escape
query_escape_mixed = refl
