-- ===== src/Security.antt =====
-- internal/security/security.go: random tokens, masked secrets and the comparison of secrets.
pub mod Base64
use Prim.Native.String.{◌++◌}
use mathlib.Core.List
use vetka_backend_panel.Prelude.{
  ℕ, ◌-◌, String, Bool, List, [], ◌∷◌, ◌==◌, if◌then◌else◌, leb, nat_eq, length, take, drop,
  replicate,
}
use vetka_backend_panel.Prelude.Effects.{Result, ok, err, Action, pure, lift, ◌>>=◌}
use vetka_backend_panel.World.{World, rest}
use Base64.{encode_url}

abbrev first_draw : ℕ → List (List ℕ) → Result (List ℕ)
first_draw n [] = err "no random bytes"
first_draw n (bytes ∷ more) = if nat_eq (length bytes) n then ok bytes else err "no random bytes"

-- `rand.Read` into a buffer of `n` bytes.
unfoldable pub read_random : ℕ → Action World (List ℕ)
read_random n w = (first_draw n w.entropy, record w { entropy = rest w.entropy })

unfoldable pub token : String → ℕ → Action World String
unfolding read_random encode_url
token prefix n = do
  bytes ← read_random n
  pure (if prefix == "" then encode_url bytes else prefix ++ "_" ++ encode_url bytes)

-- `MaskSecret`, over the bytes of the secret.
unfoldable pub mask_secret : List ℕ → List ℕ
mask_secret secret =
    if leb (length secret) 8
    then replicate 8 b'*'
    else List.◌++◌ (take 4 secret)
        (List.◌++◌ (replicate (length secret - 8) b'*') (drop (length secret - 4) secret))

-- `ConstantTimeEqual`: in which time it answers is not modelled.
unfoldable pub constant_time_equal : String → String → Bool
constant_time_equal a b = a == b
