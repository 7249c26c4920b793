-- ===== src/Pages.antt =====
-- internal/http/handlers/handlers.go: the actions of the pages. What a page gets of the request are
-- arguments; the answer is kept before it is written.
pub mod Flash
pub mod Forms
pub mod NodePages
pub mod UserPages
pub mod Withdrawn
mod Tests
use Prim.Native.String.{◌++◌}
use vetka_backend_panel.Prelude.{
  ℕ, zero, suc, ◌+◌, String, Bool, Option, none, some, List, [], ◌∷◌, ◌==◌, if◌then◌else◌,
}
use vetka_backend_panel.Prelude.Effects.{Result, Action, pure}
use vetka_backend_panel.I18n.{translate}
use vetka_backend_panel.Nodes.Models.{Node}
use vetka_backend_panel.Views.Json.{Value}
use vetka_backend_panel.Views.Errors.{safe_ui_error_text}
use vetka_backend_panel.World.{World}

-- A redirect with its flash message and level, which the query carries; an error page; the page of a new
-- node.
pub data PageReply : Type 0 where
  flashed : String → String → String → PageReply
  error_page : ℕ → String → PageReply
  node_created : Node → PageReply

abbrev pub PageAction : Type 0
PageAction = Action World PageReply

-- The library functions that the pages use: the decoder and the encoder of JSON texts, and the parser of
-- `2006-01-02T15:04` in the time zone of the panel.
pub record Library : Type 0 where
  pub decode : String → Option Value
  pub encode : Value → String
  pub parse_time : String → Result ℕ

abbrev pub internal_error : String → PageReply
internal_error locale = error_page 500 (translate locale "flash.internal_server_error")

-- `handleErr`
unfoldable pub handle_err : String → String → PageAction
unfolding translate
handle_err locale e = pure (internal_error locale)

unfoldable pub redirect_with_flash : String → String → String → PageAction
redirect_with_flash path message level = pure (flashed path message level)

-- The text before the first ": ", if there is one, and the text behind it.
unfoldable pub cut : String → Option (String × String)
cut String.[] = none
cut (String.◌∷◌ c String.[]) = none
cut (String.◌∷◌ c (String.◌∷◌ d s)) =
    let later = cut (String.◌∷◌ d s) in
    if String.◌∷◌ c "" == ":"
    then (if String.◌∷◌ d "" == " "
        then some ("", s)
        else elim later [ none ↦ none | some r ↦ some (String.◌∷◌ c r.0, r.1) ])
    else elim later [ none ↦ none | some r ↦ some (String.◌∷◌ c r.0, r.1) ]

module _ (library : Library) (locale : String) where
  unfoldable pub safe_ui_error : String → String
  unfolding safe_ui_error_text
  safe_ui_error e = safe_ui_error_text library.decode library.encode locale e

  unfoldable pub redirect_with_error_flash : String → String → String → PageAction
  unfolding safe_ui_error redirect_with_flash
  redirect_with_error_flash path prefix e =
      redirect_with_flash path (prefix ++ safe_ui_error e) "error"

  abbrev pub safe_part : String → Option (String × String) → String
  safe_part text none = safe_ui_error text
  safe_part text (some r) = r.0 ++ ": " ++ safe_ui_error r.1

  unfoldable pub sanitize_node_sync_errors : List String → List String
  unfolding cut safe_ui_error
  sanitize_node_sync_errors [] = []
  sanitize_node_sync_errors (e ∷ errors) = safe_part e (cut e) ∷ sanitize_node_sync_errors errors
