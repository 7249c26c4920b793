-- ===== src/Views/Errors/Safe.antt =====
-- That `SafeOperationalError` of internal/http/handlers/view_helpers.go hides credentials.
use mathlib.Core.List
use Prim.Native.Char.{Char}
use Prim.Native.String.{◌++◌}
use Prim.Native.String.append
use vetka_backend_panel.Prelude.{String, Bool, false, ◌||◌, ◌≡◌, List, [], ◌∷◌, ◌==◌, ◌⊎◌}
use vetka_backend_panel.Views.Errors
use vetka_backend_panel.Views.Errors.{redacted_error}

abbrev pub is_lead : String → List String → Bool
is_lead l [] = false
is_lead l (x ∷ xs) = x == l || is_lead l xs

-- The credential is masked, or the whole text is.
abbrev pub Hides : String → String → Type 0
Hides l shown = (shown ≡ l ++ "***") ⊎ (shown ≡ redacted_error)
