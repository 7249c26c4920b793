-- ===== src/Security/Base64.antt =====
-- `encoding/base64` as internal/security and internal/subscriptions use it: the standard alphabet with
-- padding, and the URL alphabet with the padding trimmed.
use Prim.Native.String.{◌++◌}
use vetka_backend_panel.Prelude.{
  ℕ, ◌+◌, ◌-◌, ◌*◌, ◌/◌, ◌%◌, String, ◌≡◌, refl, List, [], ◌∷◌, if◌then◌else◌, ltb, nat_eq,
}
use vetka_backend_panel.Prelude.Text.{to_char}

-- The character of a six-bit value, with the alphabet's last two characters.
symbol : ℕ → ℕ → ℕ → ℕ
symbol c62 c63 v =
    if ltb v 26
    then b'A' + v
    else if ltb v 52
    then b'a' + (v - 26)
    else if ltb v 62
    then b'0' + (v - 52)
    else if nat_eq v 62
    then c62
    else c63

one : ℕ → String
unfolding to_char
one c = String.◌∷◌ (to_char c) ""

module _ (c62 c63 : ℕ) (pad : String) where
  encode_with : List ℕ → String
  unfolding symbol one
  encode_with [] = ""
  encode_with (a ∷ []) =
      one (symbol c62 c63 (a / 4)) ++ one (symbol c62 c63 (a % 4 * 16)) ++ pad ++ pad
  encode_with (a ∷ b ∷ []) =
      one (symbol c62 c63 (a / 4))
      ++ one (symbol c62 c63 (a % 4 * 16 + b / 16))
      ++ one (symbol c62 c63 (b % 16 * 4))
      ++ pad
  encode_with (a ∷ b ∷ c ∷ bytes) =
      one (symbol c62 c63 (a / 4))
      ++ one (symbol c62 c63 (a % 4 * 16 + b / 16))
      ++ one (symbol c62 c63 (b % 16 * 4 + c / 64))
      ++ one (symbol c62 c63 (c % 64))
      ++ encode_with bytes

unfoldable pub encode_std : List ℕ → String
unfolding encode_with
encode_std = encode_with b'+' b'/' "="

unfoldable pub encode_url : List ℕ → String
unfolding encode_with
encode_url = encode_with b'-' b'_' ""

encode_url_bytes : encode_url (251 ∷ 255 ∷ 1 ∷ 2 ∷ []) ≡ "-_8BAg"
unfolding encode_url
encode_url_bytes = refl
