-- ===== src/Middleware/Tests.antt =====
-- Runs of the guards of internal/http/middleware/auth.go.
use vetka_backend_panel.Prelude.{String, ◌≡◌, ◌≢◌, ◌↔◌, refl, Option, none, some}
use vetka_backend_panel.Middleware.{
  Config, HttpRequest, served, redirect, ui_auth, api_auth, bearer, is_open, login,
}
use vetka_backend_panel.Middleware.Guards.{guards-served, login-served}

abbrev cfg : Config
cfg = record { admin_username = "admin"; admin_password = "pw"; admin_api_token = "key" }

abbrev visit : Option String → HttpRequest
visit cookie = record {
  method = "GET";
  path = "/nodes";
  cookie = cookie;
  authorization = "";
  username = "";
  password = "";
}

abbrev sign_in : HttpRequest
sign_in = record (visit none) {
  method = "POST";
  path = "/login";
  username = "admin";
  password = "pw";
}

visit_redirected : ui_auth cfg (visit (some "other")) ≡ redirect "/login"
unfolding ui_auth
visit_redirected = refl

guards-served_example :
    ((ui_auth cfg (visit (some "key")) ≡ served) ↔ ((visit (some "key")).cookie ≡ some "key"))
    × ((api_auth cfg (visit (some "key")) ≡ served)
        ↔ ((bearer (visit (some "key")) ≡ "key") × (bearer (visit (some "key")) ≢ "")))
unfolding is_open
guards-served_example = guards-served cfg (visit (some "key")) refl

login-served_example :
    (sign_in.method ≡ "POST")
    × (sign_in.username ≡ "admin")
    × (sign_in.password ≡ "pw")
    × (ui_auth cfg (visit (some "key")) ≡ served)
unfolding login
login-served_example = login-served cfg sign_in (visit (some "key")) "key" refl refl
