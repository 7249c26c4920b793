-- ===== src/Views/Tests.antt =====
-- Runs of internal/http/handlers/view_helpers.go on the inputs of its tests.
use vetka_backend_panel.Prelude.{
  ℕ, ◌+◌, ◌*◌, ◌≡◌, arith, ◌↔◌, refl, List, [], ◌∷◌, Option, none, some, String, true,
}
use Prim.Native.Char.{Char}
use mathlib.Core.List
use vetka_backend_panel.Prelude.Int.{pos}
use vetka_backend_panel.Prelude.Text.{runes}
use vetka_backend_panel.Security
use vetka_backend_panel.Users.Models.{User}
use vetka_backend_panel.Users.Dashboard.{user_stats_of, count_users}
use vetka_backend_panel.Views.Masks.{mask_secret_compact, truncate_text, mask_runes}
use vetka_backend_panel.Views.Masks.Shown.{masks-hide}
use vetka_backend_panel.Views.Json.{Value, text, object, entry, no_entries, redact_secrets}
use vetka_backend_panel.Views.Json.Redacted.{IsRedacted, redact_secrets-IsRedacted}
use vetka_backend_panel.Views.Errors.{sanitized, safe_plain, safe_ui_error_text}
use vetka_backend_panel.Views.Times.{time_remaining_at, minute}
use vetka_backend_panel.Views.Errors.Line.{IsLine, safe_ui_error_text-IsLine}
use vetka_backend_panel.Views.Tones.{soon}
use vetka_backend_panel.Views.UserList.Listed.{Agree, rows_listed, expires_at, user_items-Agree}

mask_long : mask_secret_compact "5887abcdefghijklmnopd6f9" ≡ "5887••••••••d6f9"
unfolding mask_secret_compact
mask_long = refl

truncated : truncate_text "Привет, мир" 8 ≡ "Привет,..."
unfolding truncate_text
truncated = refl

sanitized_credentials :
    sanitized "authorization: Bearer abcdef protocol_username=u_demo protocol_password=p_demo"
    ≡ "authorization: *** protocol_username=*** protocol_password=***"
unfolding sanitized
sanitized_credentials = refl

sanitized_json :
    sanitized "node agent returned 500: {\"password\":\"secret\"}"
    ≡ "node agent returned 500: {\"password\":\"***\"}"
unfolding sanitized
sanitized_json = refl

token_hidden : safe_plain "token" ≡ "[redacted operational error]"
unfolding safe_plain
token_hidden = refl

abbrev middle : List Char
middle = runes "mno"

abbrev other : List Char
other = runes "x"

abbrev bytes_of : List ℕ
bytes_of = b'a' ∷ b'b' ∷ b'c' ∷ b'd' ∷ []

masks-hide_example :
    (mask_runes (List.◌++◌ (runes "abcd") (List.◌++◌ middle (runes "wxyz")))
      ≡ mask_runes (List.◌++◌ (runes "abcd") (List.◌++◌ other (runes "wxyz"))))
    × (Security.mask_secret (List.◌++◌ bytes_of (List.◌++◌ (b'1' ∷ []) bytes_of))
        ≡ Security.mask_secret (List.◌++◌ bytes_of (List.◌++◌ (b'2' ∷ []) bytes_of)))
unfolding runes
masks-hide_example =
    masks-hide (runes "abcd") middle other (runes "wxyz") bytes_of (b'1' ∷ []) (b'2' ∷ []) bytes_of
      (refl, refl, omega arith, omega arith) (refl, refl, omega arith, refl)

abbrev answer : Value
answer = object (entry "Password" (text "p_demo") (entry "ok" (text "no") no_entries))

redact_secrets-IsRedacted_example :
    IsRedacted (redact_secrets answer) × (IsRedacted answer ↔ (redact_secrets answer ≡ answer))
redact_secrets-IsRedacted_example = redact_secrets-IsRedacted answer

abbrev no_json : String → Option Value
no_json s = none

abbrev no_text : Value → String
no_text v = ""

safe_ui_error_text-IsLine_example :
    IsLine (safe_ui_error_text no_json no_text "en" "dial tcp:\r\n refused")
safe_ui_error_text-IsLine_example =
    safe_ui_error_text-IsLine no_json no_text "en" "dial tcp:\r\n refused"

remaining_days : time_remaining_at "en" (some (3000 * minute + 7)) 7 ≡ "2d 2h remaining"
unfolding time_remaining_at
remaining_days = refl

remaining_minutes : time_remaining_at "ru" (some (61 * minute)) 0 ≡ "Осталось 1 ч 1 мин"
unfolding time_remaining_at
remaining_minutes = refl

abbrev a_user : String → Option ℕ → User
a_user name t = record {
  id = name;
  username = name;
  display_name = none;
  enabled = true;
  expires_at = t;
  expiry_synced_at = none;
  quota_mb = pos 0;
  subscription_token = name;
  notes = none;
  created_at = 1;
  updated_at = 1;
}

abbrev some_users : List User
some_users = a_user "ann" none ∷ a_user "bob" (some 3) ∷ a_user "eve" (some (10 + soon)) ∷ []

user_items-Agree_example :
    Agree
      (rows_listed "en" 10 [] "username" some_users)
      (user_stats_of 10 (10 + soon) some_users)
      (count_users (expires_at (10 + soon)) some_users)
user_items-Agree_example = user_items-Agree "en" "username" 10 [] some_users
