-- ===== src/Middleware/Guards.antt =====
-- What the guards of internal/http/middleware/auth.go let through.
use vetka_backend_panel.Prelude.{
  String, Bool, true, false, not, ◌||◌, ◌≡◌, ◌↔◌, ◌≢◌, refl, ap, sym, ◌∙◌, eq_refl, Option, none,
  some, ◌==◌, arith, eq_iff, if◌then◌else◌,
}
use vetka_backend_panel.Middleware
use vetka_backend_panel.Middleware.{Config, HttpRequest, Reply, served, redirect, unauthorized}
use vetka_backend_panel.Security

has_session-cookie :
    (cfg : Config) (o : Option String)
    → Middleware.has_session cfg o ≡ true
    → o ≡ some cfg.admin_api_token
unfolding Security.constant_time_equal
has_session-cookie cfg none h = cc
has_session-cookie cfg (some v) h = ap some ((eq_iff v cfg.admin_api_token).0 h)

cookie-has_session :
    (cfg : Config) (o : Option String)
    → o ≡ some cfg.admin_api_token
    → Middleware.has_session cfg o ≡ true
unfolding Security.constant_time_equal
cookie-has_session cfg o h = rw h (eq_refl cfg.admin_api_token)

abbrev page : Bool → Bool → Reply
page b c = if b then served else if c then served else redirect "/login"

page-session : (b c : Bool) → b ≡ false → page b c ≡ served → c ≡ true
page-session b true h e = refl
page-session true false h e = cc
page-session false false h e = cc

session-page : (b c : Bool) → c ≡ true → page b c ≡ served
session-page true c h = refl
session-page false true h = refl
session-page false false h = cc

served-allowed : (b : Bool) → (if b then unauthorized else served) ≡ served → b ≡ false
served-allowed true h = cc
served-allowed false h = refl

allowed-served : (b : Bool) → b ≡ false → (if b then unauthorized else served) ≡ served
allowed-served true h = cc
allowed-served false h = refl

allowed_iff :
    (t token : String) → ((t == "" || not (t == token)) ≡ false) ↔ ((t ≡ token) × (t ≢ ""))
allowed_iff t token = (
  λ e. ground (arith, e, eq_iff t token, eq_iff t ""),
  λ e. ground (arith, e, eq_iff t token, eq_iff t ""),
)

accepted :
    (m u p : Bool) (token v : String)
    → (if not m then none else if not u || not p then none else some token) ≡ some v
    → (m ≡ true) × (u ≡ true) × (p ≡ true) × (token ≡ v)
accepted true true true token v h = (refl, refl, refl, cc)
accepted true true false token v h = cc
accepted true false p token v h = cc
accepted false u p token v h = cc

-- A page that is not open to all is served just to a request whose cookie is the administrator's token, and
-- the API just to one that carries the token, which is not empty.
pub guards-served :
    (cfg : Config) (r : HttpRequest)
    → Middleware.is_open r.path ≡ false
    → ((Middleware.ui_auth cfg r ≡ served) ↔ (r.cookie ≡ some cfg.admin_api_token))
      × ((Middleware.api_auth cfg r ≡ served)
          ↔ ((Middleware.bearer r ≡ cfg.admin_api_token) × (Middleware.bearer r ≢ "")))
unfolding Middleware.ui_auth Middleware.api_auth Security.constant_time_equal
guards-served cfg r h = (
  (
    λ e. has_session-cookie cfg r.cookie (page-session (Middleware.is_open r.path) _ h e),
    λ e. session-page (Middleware.is_open r.path) _ (cookie-has_session cfg r.cookie e),
  ),
  (
    λ e. (allowed_iff (Middleware.bearer r) cfg.admin_api_token).0 (served-allowed _ e),
    λ e. allowed-served _ ((allowed_iff (Middleware.bearer r) cfg.admin_api_token).1 e),
  ),
)

-- A login that sets a cookie had the administrator's name and password in a POST request, and whoever sends
-- that cookie is served every page.
pub login-served :
    (cfg : Config) (r s : HttpRequest) (value : String)
    → Middleware.login cfg r ≡ some value
    → s.cookie ≡ some value
    → (r.method ≡ "POST")
      × (r.username ≡ cfg.admin_username)
      × (r.password ≡ cfg.admin_password)
      × (Middleware.ui_auth cfg s ≡ served)
unfolding Middleware.login Middleware.ui_auth Security.constant_time_equal
login-served cfg r s value h k =
    let (m, u, p, t) = accepted _ _ _ cfg.admin_api_token value h in
    (
      (eq_iff r.method "POST").0 m,
      (eq_iff r.username cfg.admin_username).0 u,
      (eq_iff r.password cfg.admin_password).0 p,
      session-page (Middleware.is_open s.path) _
          (cookie-has_session cfg s.cookie (k ∙ ap some (sym t))),
    )
