-- ===== src/Prelude/Text.antt =====
-- What the program uses of Go's `strings`, `strconv` and `unicode`, over texts as sequences of
-- Unicode characters. Lower-casing is written out for the characters up to U+00FF, for Cyrillic and
-- for the Kelvin and dotted I signs; it leaves every other character as it is.
use Prim.Native.Nat.{ℕ, zero, suc, ◌+◌, ◌/◌, ◌%◌, ◌<◌, compare as compare_ℕ, Ordering}
use Prim.Native.Char.{Char, char, code, nul, IsScalar}
use Prim.Native.String.{String, ◌++◌, len, slice}
use mathlib.Core.Path.{◌≡◌, refl}
use mathlib.Core.Bool.{Bool, not, ◌&&◌, ◌||◌}
use mathlib.Core.Logic.{dite}
use mathlib.Core.List.{List}
use native.Mathlib.Omega.{arith}
use native.Mathlib.Decide.{dec_lt}
use text.Mathlib.Text.{◌==◌, starts_with, find?}
use vetka_backend_panel.Prelude.Tests.{leb, ltb, nat_eq, is_some, if◌then◌else◌}

compare-lt : (n : ℕ) → n < 55296 → compare_ℕ n 55296 ≡ Ordering.lt
compare-lt n h = ground arith

low_scalar : (n : ℕ) → n < 55296 → IsScalar n
low_scalar n h = rw (compare-lt n h) tt

-- The character of a number below U+D800; no other number is asked for.
unfoldable pub to_char : ℕ → Char
unfolding dec_lt low_scalar compare-lt
to_char n = dite (dec_lt n 55296) (λ h. char n (low_scalar n h)) (λ _. nul)

-- `unicode.ToLower`
unfoldable pub lower_code : ℕ → ℕ
lower_code n =
    if leb b'A' n && leb n b'Z'
    then n + 32
    else if leb 0xC0 n && leb n 0xDE && not (nat_eq n 0xD7)
    then n + 32
    else if leb 0x410 n && leb n 0x42F
    then n + 32
    else if leb 0x400 n && leb n 0x40F
    then n + 80
    else if nat_eq n 0x212A
    then b'k'
    else if nat_eq n 0x130
    then b'i'
    else n

-- A character that is its own lower case is kept, so that no number above U+D7FF is converted.
unfoldable pub lower_char : Char → Char
unfolding lower_code to_char
lower_char c = if nat_eq (lower_code (code c)) (code c) then c else to_char (lower_code (code c))

-- `strings.ToLower`
unfoldable pub to_lower : String → String
unfolding lower_char
to_lower String.[] = ""
to_lower (String.◌∷◌ c s) = String.◌∷◌ (lower_char c) (to_lower s)

-- `unicode.IsSpace`
unfoldable pub is_space : ℕ → Bool
is_space n =
    (leb 9 n && leb n 13)
    || nat_eq n 32
    || nat_eq n 0x85
    || nat_eq n 0xA0
    || nat_eq n 0x1680
    || (leb 0x2000 n && leb n 0x200A)
    || nat_eq n 0x2028
    || nat_eq n 0x2029
    || nat_eq n 0x202F
    || nat_eq n 0x205F
    || nat_eq n 0x3000

-- `strings.TrimLeftFunc` by a test on characters.
unfoldable pub trim_left : (ℕ → Bool) → String → String
trim_left p String.[] = ""
trim_left p (String.◌∷◌ c s) =
    let rest = trim_left p s in if p (code c) then rest else String.◌∷◌ c s

-- `strings.TrimRightFunc`: a character that the test removes stays if one after it stays.
unfoldable pub trim_right : (ℕ → Bool) → String → String
trim_right p String.[] = ""
trim_right p (String.◌∷◌ c s) =
    let rest = trim_right p s in if p (code c) && rest == "" then "" else String.◌∷◌ c rest

-- `strings.TrimSpace`
unfoldable pub trim_space : String → String
unfolding is_space trim_left trim_right
trim_space s = trim_right is_space (trim_left is_space s)

-- `strings.TrimPrefix`
unfoldable pub trim_prefix : String → String → String
trim_prefix s p = if starts_with s p then slice s (len p) (len s) else s

-- `strings.Contains`
unfoldable pub contains : String → String → Bool
contains s t = is_some (find? s t)

-- `strings.ReplaceAll` of one character.
unfoldable pub replace_char : ℕ → Char → String → String
replace_char from to String.[] = ""
replace_char from to (String.◌∷◌ c s) =
    String.◌∷◌ (if nat_eq (code c) from then to else c) (replace_char from to s)

-- `strings.Join`
unfoldable pub join : List String → String → String
join List.[] sep = ""
join (List.◌∷◌ x List.[]) sep = x
join (List.◌∷◌ x (List.◌∷◌ y ys)) sep = x ++ sep ++ join (List.◌∷◌ y ys) sep

digit : ℕ → String
digit d = String.◌∷◌ (to_char (b'0' + d)) ""

decimal : ℕ → ℕ → String → String
unfolding digit to_char
decimal zero n acc = acc
decimal (suc fuel) n acc =
    let acc' = digit (n % 10) ++ acc in
    let rest = decimal fuel (n / 10) acc' in if ltb n 10 then acc' else rest

-- `strconv.Itoa` of a number that is not negative: a number has at most that many digits.
unfoldable pub itoa : ℕ → String
unfolding decimal
itoa n = decimal (suc n) n ""

trim_space_mixed : trim_space " \t Ab c\n " ≡ "Ab c"
unfolding trim_space
trim_space_mixed = refl

to_lower_mixed : to_lower "MIERU-Ветка" ≡ "mieru-ветка"
unfolding to_lower
to_lower_mixed = refl

itoa_503 : itoa 503 ≡ "503"
unfolding itoa
itoa_503 = refl

-- `[]rune(s)` and `string(runes)`
unfoldable pub runes : String → List Char
runes String.[] = List.[]
runes (String.◌∷◌ c s) = List.◌∷◌ c (runes s)

unfoldable pub of_runes : List Char → String
of_runes List.[] = ""
of_runes (List.◌∷◌ c cs) = String.◌∷◌ c (of_runes cs)
