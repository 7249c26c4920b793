-- ===== src/Views/Errors.antt =====
-- internal/http/handlers/view_helpers.go and handlers.go: what the pages show of an error. The decoder and
-- the encoder of JSON texts are parameters.
pub mod Blanks
pub mod Credentials
pub mod Safe
pub mod Line
use Prim.Native.Char.{Char, code}
use Prim.Native.String.{◌++◌}
use vetka_backend_panel.Prelude.{
  ℕ, String, Bool, true, false, not, ◌&&◌, ◌||◌, Option, none, some, List, [], ◌∷◌, ◌==◌, map,
  if◌then◌else◌, nat_eq, ltb,
}
use vetka_backend_panel.Prelude.Text.{
  runes, of_runes, to_lower, contains, trim_space, is_space, join,
}
use vetka_backend_panel.I18n.{translate}
use vetka_backend_panel.Views.Json.{Value, redact_secrets}
use vetka_backend_panel.Views.Masks.{truncate_text}
use vetka_backend_panel.Views.Patterns.{
  replace_all, auth_header_at, bearer_token_at, sensitive_text_at,
}

abbrev pub markers : List String
markers =
    "password" ∷ "protocol_password" ∷ "protocol_username" ∷ "node_secret" ∷ "nodesecret" ∷ "secret"
    ∷ "token" ∷ "subscription_token" ∷ "admin_api_token" ∷ "authorization" ∷ "bearer " ∷ []

unfoldable pub contains_any : String → List String → Bool
unfolding contains
contains_any s [] = false
contains_any s (k ∷ ks) = contains s k || contains_any s ks

unfoldable pub contains_sensitive_marker : String → Bool
unfolding contains_any to_lower
contains_sensitive_marker value = contains_any (to_lower value) markers

-- The three replacements.
unfoldable pub sanitized : String → String
unfolding runes of_runes replace_all auth_header_at bearer_token_at sensitive_text_at
sanitized s = of_runes (
    replace_all sensitive_text_at
      (replace_all bearer_token_at (replace_all auth_header_at (runes s))))

abbrev pub redacted_error : String
redacted_error = "[redacted operational error]"

unfoldable pub safe_plain : String → String
unfolding sanitized contains_sensitive_marker
safe_plain trimmed =
    if sanitized trimmed == trimmed && contains_sensitive_marker trimmed
    then redacted_error
    else sanitized trimmed

-- `strings.Map` of `safeUIErrorText`: control characters go, or become spaces.
unfoldable pub map_controls : List Char → List Char
map_controls [] = []
map_controls (c ∷ s) =
    let later = map_controls s in
    if nat_eq (code c) 13 || nat_eq (code c) 10 || nat_eq (code c) 9
    then " " ∷ later
    else if ltb (code c) 32 || nat_eq (code c) 127
    then later
    else c ∷ later

-- A word is added unless it is empty.
abbrev pub push_word : List Char → List (List Char) → List (List Char)
push_word [] ws = ws
push_word (c ∷ w) ws = (c ∷ w) ∷ ws

-- The word that goes on at the front, and the words behind it.
unfoldable pub words : List Char → List Char × List (List Char)
unfolding is_space
words [] = ([], [])
words (c ∷ s) =
    let later = words s in
    if is_space (code c) then ([], push_word later.0 later.1) else (c ∷ later.0, later.1)

-- `strings.Fields`
unfoldable pub fields : List Char → List String
unfolding words of_runes
fields s = let (w, ws) = words s in map of_runes (push_word w ws)

module _ (decode : String → Option Value) (encode : Value → String) where
  unfoldable pub safe_trimmed : String → Option Value → String
  unfolding redact_secrets safe_plain
  safe_trimmed trimmed none = safe_plain trimmed
  safe_trimmed trimmed (some v) = encode (redact_secrets v)

  unfoldable pub safe_operational_error : String → String
  unfolding trim_space safe_trimmed
  safe_operational_error value =
      if trim_space value == ""
      then ""
      else safe_trimmed (trim_space value) (decode (trim_space value))

  unfoldable pub preview_of : Option Value → String
  unfolding redact_secrets
  preview_of none = "[invalid response JSON]"
  preview_of (some v) = encode (redact_secrets v)

  unfoldable pub safe_json_preview : String → String
  unfolding preview_of
  safe_json_preview payload = if payload == "" then "" else preview_of (decode payload)

  abbrev pub one_line : String → String
  one_line s = truncate_text (join (fields (map_controls (runes s))) " ") 300

  unfoldable pub shown_error : String → String → String
  unfolding translate trim_space
  shown_error locale line =
      if trim_space line == "" || line == "***" || line == redacted_error
      then translate locale "flash.operation_failed"
      else line

  unfoldable pub safe_ui_error_text : String → String → String
  unfolding safe_operational_error shown_error translate runes map_controls fields join
      truncate_text
  safe_ui_error_text locale value =
      if safe_operational_error value == ""
      then translate locale "flash.operation_failed"
      else shown_error locale (one_line (safe_operational_error value))
