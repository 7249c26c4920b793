-- ===== src/I18n.antt =====
-- internal/http/handlers/i18n.go: the texts of the panel in two languages. A locale is its text.
pub mod Russian
pub mod English
pub mod Complete
mod Tests
use vetka_backend_panel.Prelude.{
  String, Option, none, some, List, [], ◌∷◌, ◌==◌, not, if◌then◌else◌,
}
use vetka_backend_panel.Prelude.Text.{to_lower, trim_space}
use vetka_backend_panel.I18n.Russian.{russian}
use vetka_backend_panel.I18n.English.{english}

unfoldable pub normalize_locale : String → String
unfolding to_lower trim_space
normalize_locale value = if to_lower (trim_space value) == "en" then "en" else "ru"

-- The cookie `vetka_ui_language`, if the request has it.
unfoldable pub resolve_locale : Option String → String
unfolding normalize_locale
resolve_locale none = "ru"
resolve_locale (some value) = normalize_locale value

-- A key that is missing has the empty text.
unfoldable pub text_of : String → List (String × String) → String
text_of key [] = ""
text_of key (e ∷ es) = if e.0 == key then e.1 else text_of key es

unfoldable pub catalog : String → List (String × String)
unfolding russian english
catalog locale = if locale == "en" then english else russian

unfoldable pub translate : String → String → String
unfolding normalize_locale text_of catalog
translate locale key =
    if not (text_of key (catalog (normalize_locale locale)) == "")
    then text_of key (catalog (normalize_locale locale))
    else if not (text_of key russian == "")
    then text_of key russian
    else key
