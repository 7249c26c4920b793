-- ===== src/I18n/Tests.antt =====
-- Runs of internal/http/handlers/i18n.go.
use vetka_backend_panel.Prelude.{◌≡◌, ◌≢◌, refl}
use vetka_backend_panel.I18n.{translate, text_of, catalog, normalize_locale}
use vetka_backend_panel.I18n.Russian.{russian}
use vetka_backend_panel.I18n.Complete.{has_text, translate-own}

missing : translate "en" "no.such.key" ≡ "no.such.key"
unfolding translate
missing = refl

translate-own_example :
    (translate "en" "nav.users" ≡ text_of "nav.users" (catalog (normalize_locale "en")))
    × (translate "en" "nav.users" ≢ "")
unfolding has_text russian
translate-own_example = translate-own "en" "nav.users" refl
