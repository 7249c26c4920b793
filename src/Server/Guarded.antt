-- ===== src/Server/Guarded.antt =====
-- No handler of internal/http/server.go behind a guard is reached without the administrator's token.
use vetka_backend_panel.Prelude.{
  String, Bool, true, false, not, ◌&&◌, ◌||◌, ◌≡◌, ◌≢◌, refl, ap, ◌∙◌, Option, none, some, List, [],
  ◌∷◌, ◌==◌, arith, if◌then◌else◌,
}
use vetka_backend_panel.Middleware
use vetka_backend_panel.Middleware.{Config, HttpRequest, Reply, served, redirect, unauthorized}
use vetka_backend_panel.Middleware.Guards.{guards-served}
use vetka_backend_panel.Server
use vetka_backend_panel.Server.{Route, Guard, unguarded, page, api, Answer, reached, routes}
use vetka_backend_panel.Server.Paths.{
  literal, begins, fits, agree, is_public, is_shut, path-shut, by_pattern, begins_trans,
  opened-public, not_api,
}

-- The route is one of the list.
pub data Among (t : Route) : List Route → Type 0 where
  here : {s : Route} {ts : List Route} → t ≡ s → Among t (s ∷ ts)
  there : {s : Route} {ts : List Route} → Among t ts → Among t (s ∷ ts)

-- The documented behaviour of the router that the guards need: the route it picks is one of those that it
-- was given, for the method of the request, and its pattern fits the path.
pub record IsRouter (pick : List Route → HttpRequest → Option Route) : Type 0 where
  pub picks :
      (ts : List Route) (r : HttpRequest) (t : Route)
      → pick ts r ≡ some t
      → Among t ts × (t.method ≡ r.method) × (fits t.pattern r.path ≡ true)

-- The request carries what its path asks for: nothing where the path is public, the administrator's token
-- as a bearer token that is not empty below /api/, and the cookie with that token anywhere else.
abbrev pub Carries : Config → HttpRequest → Type 0
Carries cfg r =
    if is_public r.path
    then Unit
    else if begins "/api/" r.path
    then (Middleware.bearer r ≡ cfg.admin_api_token) × (Middleware.bearer r ≢ "")
    else r.cookie ≡ some cfg.admin_api_token

-- A path that matches the pattern is public; is below /api/; is not below /api/.
unfoldable opens : String → Bool
unfolding literal is_public
opens pattern =
    if literal pattern == pattern
    then is_public pattern
    else literal pattern == "/static/" || literal pattern == "/sub/"

unfoldable is_api : String → Bool
unfolding literal begins
is_api pattern =
    if literal pattern == pattern then begins "/api/" pattern else begins "/api/" (literal pattern)

unfoldable is_page : String → Bool
unfolding literal begins agree
is_page pattern =
    if literal pattern == pattern
    then not (begins "/api/" pattern)
    else not (agree "/api/" (literal pattern))

-- The guard of a route is the one that its pattern asks for.
unfoldable suits : Guard → String → Bool
unfolding opens is_api is_page is_shut
suits unguarded pattern = opens pattern
suits page pattern = is_shut pattern && is_page pattern
suits api pattern = is_shut pattern && is_api pattern

unfoldable all_suit : List Route → Bool
unfolding suits
all_suit [] = true
all_suit (t ∷ ts) = suits t.guard t.pattern && all_suit ts

routes-all_suit : all_suit routes ≡ true
unfolding all_suit routes
routes-all_suit = refl

route-suits :
    (t : Route) (ts : List Route) → all_suit ts ≡ true → Among t ts → suits t.guard t.pattern ≡ true
unfolding all_suit
route-suits t [] h m = elim m [ ]
route-suits t (s ∷ ts) h (here e) = ap (λ x. suits x.guard x.pattern) e ∙ ground (arith, h)
route-suits t (s ∷ ts) h (there m) = route-suits t ts (ground (arith, h)) m

behind-reached : (s t : Route) (y : Reply) → Server.behind s y ≡ reached t → (s ≡ t) × (y ≡ served)
behind-reached s t served h = (cc, refl)
behind-reached s t (redirect to) h = cc
behind-reached s t unauthorized h = cc

enter-reached :
    (cfg : Config) (r : HttpRequest) (t : Route) (o : Option Route)
    → Server.enter cfg r o ≡ reached t
    → (o ≡ some t) × (Server.guarded_by t.guard cfg r ≡ served)
enter-reached cfg r t none h = cc
enter-reached cfg r t (some s) h =
    let (e, g) = behind-reached s t (Server.guarded_by s.guard cfg r) h in (ap some e, rw (← e) g)

elsewhere :
    (A B : Type 0) (open_to_all below : Bool)
    → not below ≡ true
    → B
    → (if open_to_all then Unit else if below then A else B)
elsewhere A B true below h b = tt
elsewhere A B false true h b = absurd (cc)
elsewhere A B false false h b = b

below_api :
    (A B : Type 0) (open_to_all below : Bool)
    → below ≡ true
    → A
    → (if open_to_all then Unit else if below then A else B)
below_api A B true below h a = tt
below_api A B false true h a = a
below_api A B false false h a = absurd (cc)

-- Where the guard that the pattern asks for lets the request through, it carries what its path asks for.
served-Carries :
    (g : Guard) (pattern : String) (cfg : Config) (r : HttpRequest)
    → fits pattern r.path ≡ true
    → suits g pattern ≡ true
    → Server.guarded_by g cfg r ≡ served
    → Carries cfg r
unfolding Server.guarded_by suits opens is_api is_page
served-Carries unguarded pattern cfg r f k h =
    let p : is_public r.path ≡ true =
      by_pattern is_public (λ q. q == "/static/" || q == "/sub/") pattern r.path
        (opened-public (literal pattern) r.path) f k in
    rw p tt
served-Carries page pattern cfg r f k h =
    let p : not (begins "/api/" r.path) ≡ true =
      by_pattern (λ x. not (begins "/api/" x)) (λ q. not (agree "/api/" q)) pattern r.path
        (not_api (literal pattern) r.path) f (ground (arith, k)) in
    elsewhere _ _ (is_public r.path) (begins "/api/" r.path) p
      ((guards-served cfg r (path-shut pattern r.path f (ground (arith, k)))).0.0 h)
served-Carries api pattern cfg r f k h =
    let p : begins "/api/" r.path ≡ true =
      by_pattern (begins "/api/") (begins "/api/") pattern r.path
        (λ b c. begins_trans "/api/" (literal pattern) r.path c b) f (ground (arith, k)) in
    below_api _ _ (is_public r.path) (begins "/api/" r.path) p
      ((guards-served cfg r (path-shut pattern r.path f (ground (arith, k)))).1.0 h)

-- With a router that picks one of the routes for the method and the path of a request, a handler that is
-- reached is that of a route with the method of the request, and the request carries what its path asks
-- for: unless the path is /health, /ready, /login, /ui/language or below /static/ or /sub/, that is the
-- administrator's token, below /api/ as a bearer token that is not empty, anywhere else as the cookie.
pub serve-Carries :
    (pick : List Route → HttpRequest → Option Route) (cfg : Config) (r : HttpRequest) (t : Route)
    → IsRouter pick
    → Server.serve pick cfg r ≡ reached t
    → Among t routes × (t.method ≡ r.method) × Carries cfg r
unfolding Server.serve
serve-Carries pick cfg r t law h =
    let (e, g) = enter-reached cfg r t (pick routes r) h in
    let (m, q, f) = law.picks routes r t e in
    (m, q, served-Carries t.guard t.pattern cfg r f (route-suits t routes routes-all_suit m) g)
