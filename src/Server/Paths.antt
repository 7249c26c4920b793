-- ===== src/Server/Paths.antt =====
-- The paths that the patterns of internal/http/server.go are matched by, and which of them are public.
use Prim.Native.Char.{code}
use Prim.Native.String.append
use Prim.Native.String.{◌++◌}
use text.Mathlib.Text.{starts_with}
use text.Mathlib.TextEquality.{starts_with_iff}
use vetka_backend_panel.Prelude.{
  String, Bool, true, false, not, ◌&&◌, ◌||◌, ◌≡◌, refl, sym, ap, ◌∙◌, ◌==◌, arith, eq_iff,
  if◌then◌else◌, nat_eq,
}
use vetka_backend_panel.Middleware
use vetka_backend_panel.Middleware.{Config, HttpRequest, Reply, served, redirect, unauthorized}

-- The part of a pattern before its first placeholder.
unfoldable pub literal : String → String
literal String.[] = ""
literal (String.◌∷◌ c s) =
    let later = literal s in
    if nat_eq (code c) b'{' || nat_eq (code c) b'*' then "" else String.◌∷◌ c later

unfoldable pub begins : String → String → Bool
begins String.[] s = true
begins (String.◌∷◌ c p) String.[] = false
begins (String.◌∷◌ c p) (String.◌∷◌ d s) = nat_eq (code c) (code d) && begins p s

-- What a path has in common with the pattern that it matches: all of a pattern without placeholders, and
-- what stands before the first placeholder of any other.
unfoldable pub fits : String → String → Bool
unfolding literal begins
fits pattern path =
    if literal pattern == pattern then path == pattern else begins (literal pattern) path

-- Two texts that a third may begin with.
unfoldable pub agree : String → String → Bool
agree String.[] q = true
agree (String.◌∷◌ c p) String.[] = true
agree (String.◌∷◌ c p) (String.◌∷◌ d q) = nat_eq (code c) (code d) && agree p q

pub begins-agree : (p q s : String) → begins p s ≡ true → begins q s ≡ true → agree p q ≡ true
unfolding begins agree
begins-agree String.[] q s h k = refl
begins-agree (String.◌∷◌ c p) String.[] s h k = refl
begins-agree (String.◌∷◌ c p) (String.◌∷◌ d q) String.[] h k = cc
begins-agree (String.◌∷◌ c p) (String.◌∷◌ d q) (String.◌∷◌ e s) h k =
    ground (arith, h, k, begins-agree p q s)

pub begins-append : (p u : String) → begins p (p ++ u) ≡ true
unfolding begins
begins-append String.[] u = refl
begins-append (String.◌∷◌ c p) u = rw (append.cons c p u, begins-append p u) (ground arith)

-- The paths that are meant for everybody: assets, the probes, subscriptions, the login and the language.
unfoldable pub is_public : String → Bool
unfolding begins
is_public path =
    path == "/health"
    || path == "/ready"
    || path == "/login"
    || path == "/ui/language"
    || begins "/static/" path
    || begins "/sub/" path

-- A path that matches the pattern is not one of those that the guard of the pages leaves open.
unfoldable pub is_shut : String → Bool
unfolding literal agree Middleware.is_open
is_shut pattern =
    if literal pattern == pattern
    then not (Middleware.is_open pattern)
    else not (
        agree "/login" (literal pattern)
        || agree "/static/" (literal pattern)
        || agree "/sub/" (literal pattern))

pub starts-agree :
    (p q path : String) → begins q path ≡ true → starts_with path p ≡ true → agree p q ≡ true
starts-agree p q path h k =
    let (u, e) = (starts_with_iff path p).0 k in
    begins-agree p q path (ap (begins p) (sym e) ∙ begins-append p u) h

pub begins_self : (s : String) → begins s s ≡ true
unfolding begins
begins_self String.[] = refl
begins_self (String.◌∷◌ c s) = ground (arith, begins_self s)

pub path-shut :
    (pattern path : String)
    → fits pattern path ≡ true
    → is_shut pattern ≡ true
    → Middleware.is_open path ≡ false
unfolding fits Middleware.is_open is_shut
path-shut pattern path h k = by_kind (literal pattern == pattern) h k
  where
    login_agree :
        begins (literal pattern) path ≡ true
        → (path == "/login") ≡ true
        → agree "/login" (literal pattern) ≡ true
    login_agree h e =
        begins-agree "/login" (literal pattern) path
          (ap (begins "/login") ((eq_iff path "/login").0 e) ∙ begins_self "/login") h

    by_kind :
        (b : Bool)
        → (if b then path == pattern else begins (literal pattern) path) ≡ true
        → (if b
            then not (Middleware.is_open pattern)
            else not (
                agree "/login" (literal pattern)
                || agree "/static/" (literal pattern)
                || agree "/sub/" (literal pattern)))
          ≡ true
        → Middleware.is_open path ≡ false
    by_kind true h k = ap Middleware.is_open ((eq_iff path pattern).0 h) ∙ ground (arith, k)
    by_kind false h k = ground (
      arith,
      k,
      starts-agree "/static/" (literal pattern) path h,
      starts-agree "/sub/" (literal pattern) path h,
      login_agree h,
    )

-- A test of a path that follows from the test of the pattern, by the kind of the pattern.
pub by_pattern :
    (test other : String → Bool) (pattern path : String)
    → (begins (literal pattern) path ≡ true → other (literal pattern) ≡ true → test path ≡ true)
    → fits pattern path ≡ true
    → (if literal pattern == pattern then test pattern else other (literal pattern)) ≡ true
    → test path ≡ true
unfolding fits
by_pattern test other pattern path f h k = by_kind (literal pattern == pattern) h k
  where
    by_kind :
        (b : Bool)
        → (if b then path == pattern else begins (literal pattern) path) ≡ true
        → (if b then test pattern else other (literal pattern)) ≡ true
        → test path ≡ true
    by_kind true h k = ap test ((eq_iff path pattern).0 h) ∙ k
    by_kind false h k = f h k

pub begins_trans : (p q s : String) → begins p q ≡ true → begins q s ≡ true → begins p s ≡ true
unfolding begins
begins_trans String.[] q s h k = refl
begins_trans (String.◌∷◌ c p) String.[] s h k = cc
begins_trans (String.◌∷◌ c p) (String.◌∷◌ d q) String.[] h k = cc
begins_trans (String.◌∷◌ c p) (String.◌∷◌ d q) (String.◌∷◌ e s) h k =
    ground (arith, h, k, begins_trans p q s)

pub opened-public :
    (q path : String)
    → begins q path ≡ true
    → (q == "/static/" || q == "/sub/") ≡ true
    → is_public path ≡ true
unfolding is_public
opened-public q path h k = ground (arith, k, below "/static/", below "/sub/")
  where
    below : (p : String) → (q == p) ≡ true → begins p path ≡ true
    below p e = ap (λ x. begins x path) (sym ((eq_iff q p).0 e)) ∙ h

pub not_api :
    (q path : String)
    → begins q path ≡ true
    → not (agree "/api/" q) ≡ true
    → not (begins "/api/" path) ≡ true
not_api q path h k = ground (arith, k, begins-agree "/api/" q path)
