-- ===== src/Middleware.antt =====
-- internal/http/middleware/auth.go: who may see the pages and use the API. A request is what the guards
-- read of it; the handler behind a guard is the answer `served`.
pub mod Guards
mod Tests
use vetka_backend_panel.Prelude.{
  String, Bool, false, not, ◌&&◌, ◌||◌, Option, none, some, ◌==◌, if◌then◌else◌,
}
use vetka_backend_panel.Prelude.Text.{trim_prefix}
use text.Mathlib.Text.{starts_with}
use vetka_backend_panel.Security.{constant_time_equal}

pub record Config : Type 0 where
  pub admin_username : String
  pub admin_password : String
  pub admin_api_token : String

-- A header or a form value that is missing is the empty text; `cookie` is that named `vetka_admin`.
pub record HttpRequest : Type 0 where
  pub method : String
  pub path : String
  pub cookie : Option String
  pub authorization : String
  pub username : String
  pub password : String

pub data Reply : Type 0 where
  served : Reply
  redirect : String → Reply
  unauthorized : Reply

unfoldable pub is_open : String → Bool
is_open path = path == "/login" || starts_with path "/static/" || starts_with path "/sub/"

abbrev pub has_session : Config → Option String → Bool
has_session cfg none = false
has_session cfg (some value) = constant_time_equal value cfg.admin_api_token

unfoldable pub ui_auth : Config → HttpRequest → Reply
unfolding is_open constant_time_equal
ui_auth cfg r =
    if is_open r.path
    then served
    else if has_session cfg r.cookie
    then served
    else redirect "/login"

abbrev pub bearer : HttpRequest → String
bearer r = trim_prefix r.authorization "Bearer "

unfoldable pub api_auth : Config → HttpRequest → Reply
unfolding constant_time_equal
api_auth cfg r =
    if bearer r == "" || not (constant_time_equal (bearer r) cfg.admin_api_token)
    then unauthorized
    else served

-- The cookie that is set, where the login succeeds.
unfoldable pub login : Config → HttpRequest → Option String
unfolding constant_time_equal
login cfg r =
    if not (r.method == "POST")
    then none
    else if not (constant_time_equal r.username cfg.admin_username)
        || not (constant_time_equal r.password cfg.admin_password)
    then none
    else some cfg.admin_api_token
