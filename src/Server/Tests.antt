-- ===== src/Server/Tests.antt =====
-- Runs of internal/http/server.go with a router that picks the first route that fits.
use vetka_backend_panel.Prelude.{
  String, Bool, true, false, ◌&&◌, ◌≡◌, refl, Option, none, some, List, [], ◌∷◌, ◌==◌, arith,
  eq_iff, if◌then◌else◌,
}
use vetka_backend_panel.Middleware.{Config, HttpRequest, Reply}
use vetka_backend_panel.Server.{Route, page, route, routes, serve, reached, refused, ready_handler}
use vetka_backend_panel.Server.Paths.{fits}
use vetka_backend_panel.Server.Guarded.{IsRouter, Among, here, there, Carries, serve-Carries}

unfoldable fits_request : Route → HttpRequest → Bool
fits_request t r = t.method == r.method && fits t.pattern r.path

unfoldable pick_first : List Route → HttpRequest → Option Route
pick_first [] r = none
pick_first (t ∷ ts) r = if fits_request t r then some t else pick_first ts r

picked :
    (ts : List Route) (r : HttpRequest) (t : Route)
    → pick_first ts r ≡ some t
    → Among t ts × (fits_request t r ≡ true)
unfolding pick_first
picked [] r t h = cc
picked (s ∷ ts) r t h = by_test (fits_request s r) refl h (picked ts r t)
  where
    by_test :
        (b : Bool)
        → fits_request s r ≡ b
        → (if b then some s else pick_first ts r) ≡ some t
        → (pick_first ts r ≡ some t → Among t ts × (fits_request t r ≡ true))
        → Among t (s ∷ ts) × (fits_request t r ≡ true)
    by_test true e h k = (here cc, cc)
    by_test false e h k = let (m, f) = k h in (there m, f)

pick_first-IsRouter : IsRouter pick_first
unfolding fits_request
pick_first-IsRouter = record {
  picks = λ ts r t h.
      let (m, f) = picked ts r t h in
      (m, (eq_iff t.method r.method).0 (ground (arith, f)), ground (arith, f));
}

abbrev config : Config
config = record { admin_username = "admin"; admin_password = "pw"; admin_api_token = "secret" }

abbrev visit : String → Option String → HttpRequest
visit path cookie = record {
  method = "GET";
  path = path;
  cookie = cookie;
  authorization = "";
  username = "";
  password = "";
}

abbrev node_detail : Route
node_detail = route page "GET" "/nodes/{id}" "NodeDetail"

detail_reached : serve pick_first config (visit "/nodes/de-1" (some "secret")) ≡ reached node_detail
unfolding serve pick_first fits_request fits
detail_reached = refl

detail_refused :
    serve pick_first config (visit "/nodes/de-1" none) ≡ refused (Reply.redirect "/login")
unfolding serve pick_first fits_request fits
detail_refused = refl

not_ready :
    ready_handler
      (some record { is_canceled = false; is_deadline_exceeded = false; timeout = some true })
    ≡ (503, "database unavailable\n", some "timeout")
unfolding ready_handler
not_ready = refl

serve-Carries_example :
    Among node_detail routes
    × (node_detail.method ≡ "GET")
    × Carries config (visit "/nodes/de-1" (some "secret"))
serve-Carries_example =
    serve-Carries pick_first config (visit "/nodes/de-1" (some "secret")) node_detail
      pick_first-IsRouter detail_reached
