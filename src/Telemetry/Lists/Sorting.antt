-- ===== src/Telemetry/Lists/Sorting.antt =====
-- The order of the sessions of internal/telemetry/service.go.
use vetka_backend_panel.Prelude.{
  ℕ, Bool, true, false, ◌≡◌, Option, none, some, List, [], ◌∷◌, ◌≤◌, arith, String, sym, not, ◌==◌,
  if◌then◌else◌, Bool-cases, inl, inr, eq_iff, keep_if, length, Ordered, sort_stable-Ordered,
  sort_stable-keep_if,
}
use vetka_backend_panel.Prelude.Order.{
  less_text, less_bytes, less_text-asymmetric, less_bytes-asymmetric,
}
use mathlib.Core.Path.{subst}
use vetka_backend_panel.Telemetry.Models.{SessionView}
use vetka_backend_panel.Telemetry.Lists.{
  session_less, sort_sessions, less_names, less_seen, shown_user,
}

less_names-asymmetric : (a b : SessionView) → less_names a b ≡ true → less_names b a ≡ false
unfolding less_names
less_names-asymmetric a b h = ground (
  arith,
  h,
  eq_iff a.node_name b.node_name,
  eq_iff b.node_name a.node_name,
  less_text-asymmetric a.node_name b.node_name,
  less_bytes-asymmetric (shown_user a) (shown_user b),
)

less_seen-asymmetric :
    (s t : Option ℕ) (p q : Bool)
    → (p ≡ true → q ≡ false)
    → less_seen s t p ≡ true
    → less_seen t s q ≡ false
less_seen-asymmetric none none p q f h = f h
less_seen-asymmetric none (some t) p q f h = ground (arith, h)
less_seen-asymmetric (some s) none p q f h = ground (arith, h)
less_seen-asymmetric (some s) (some t) p q f h = ground (arith, f, h)

session_less-asymmetric : (a b : SessionView) → session_less a b ≡ true → session_less b a ≡ false
unfolding session_less
session_less-asymmetric a b h = ground (
  arith,
  h,
  less_seen-asymmetric a.last_seen_at b.last_seen_at (less_names a b) (less_names b a)
      (less_names-asymmetric a b),
)

-- The one was seen as late as the other; a session with a time goes before one without.
abbrev pub SeenAsLate : Option ℕ → Option ℕ → Type 0
SeenAsLate s none = Unit
SeenAsLate none (some t) = ⊥
SeenAsLate (some s) (some t) = t ≤ s

-- One session may stand ahead of another: an inactive one only ahead of an inactive one; of two that are
-- equally active, the one that was seen as late; of two that were seen at the same time, the one whose
-- node is not behind by its name; of two of one node, the one whose user is not behind by the shown name.
pub record MayPrecede (a b : SessionView) : Type 0 where
  pub active_first : b.active ≡ true → a.active ≡ true
  pub last_seen : a.active ≡ b.active → SeenAsLate a.last_seen_at b.last_seen_at
  pub by_node :
      a.active ≡ b.active
      → a.last_seen_at ≡ b.last_seen_at
      → less_text b.node_name a.node_name ≡ false
  pub by_user :
      a.active ≡ b.active
      → a.last_seen_at ≡ b.last_seen_at
      → a.node_name ≡ b.node_name
      → less_bytes (shown_user b) (shown_user a) ≡ false

-- Each session may stand ahead of the next one.
abbrev pub InOrder : List SessionView → Type 0
InOrder [] = Unit
InOrder (a ∷ []) = Unit
InOrder (a ∷ b ∷ rows) = MayPrecede a b × InOrder (b ∷ rows)

seen-late : (s t : Option ℕ) (names : Bool) → less_seen t s names ≡ false → SeenAsLate s t
seen-late none none names h = tt
seen-late none (some t) names h = absurd (cc)
seen-late (some s) none names h = tt
seen-late (some s) (some t) names h = ground (arith, h)

seen_same : (s : Option ℕ) (names : Bool) → less_seen s s names ≡ false → names ≡ false
seen_same none names h = h
seen_same (some s) names h = ground (arith, h)

tied :
    (a b : SessionView)
    → session_less b a ≡ false
    → a.active ≡ b.active
    → less_seen b.last_seen_at a.last_seen_at (less_names b a) ≡ false
unfolding session_less
tied a b h e = ground (arith, h, e)

tied_names :
    (a b : SessionView)
    → session_less b a ≡ false
    → a.active ≡ b.active
    → a.last_seen_at ≡ b.last_seen_at
    → less_names b a ≡ false
tied_names a b h e f =
    seen_same b.last_seen_at (less_names b a)
      (subst (λ s. less_seen b.last_seen_at s (less_names b a) ≡ false) f (tied a b h e))

irreflexive : (p : String) → less_text p p ≡ false
irreflexive p = elim (Bool-cases (less_text p p)) [ inl e ↦ less_text-asymmetric p p e | inr e ↦ e ]

node_names :
    (p q : String) (rest : Bool)
    → (if not (p == q) then less_text p q else rest) ≡ false
    → less_text p q ≡ false
node_names p q rest h = elim (Bool-cases (p == q)) [
  | inl e ↦ subst (λ x. less_text p x ≡ false) ((eq_iff p q).0 e) (irreflexive p)
  | inr e ↦ ground (arith, e, h)
]

user_names :
    (p q : String) (rest : Bool)
    → p ≡ q
    → (if not (p == q) then less_text p q else rest) ≡ false
    → rest ≡ false
user_names p q rest e h = ground (arith, h, (eq_iff p q).1 e)

less-MayPrecede : (a b : SessionView) → session_less b a ≡ false → MayPrecede a b
unfolding session_less less_names
less-MayPrecede a b h = record {
  active_first = λ e. ground (arith, h, e);
  last_seen = λ e. seen-late a.last_seen_at b.last_seen_at (less_names b a) (tied a b h e);
  by_node = λ e f. node_names b.node_name a.node_name _ (tied_names a b h e f);
  by_user = λ e f g. user_names b.node_name a.node_name _ (sym g) (tied_names a b h e f);
}

Ordered-InOrder : (rows : List SessionView) → Ordered session_less rows → InOrder rows
Ordered-InOrder [] h = tt
Ordered-InOrder (a ∷ []) h = tt
Ordered-InOrder (a ∷ b ∷ rows) h = (less-MayPrecede a b h.0, Ordered-InOrder (b ∷ rows) h.1)

-- After sorting, each session may stand ahead of the next one: active ones go before inactive ones, then
-- those that were seen later (those never seen last), then by the names of the nodes and of the users;
-- and for every test as many sessions pass it as before.
pub sort_sessions_lem :
    (rows : List SessionView)
    → InOrder (sort_sessions rows)
      × ((p : SessionView → Bool)
          → length (keep_if p (sort_sessions rows)) ≡ length (keep_if p rows))
unfolding sort_sessions
sort_sessions_lem rows = (
  Ordered-InOrder _ (sort_stable-Ordered session_less session_less-asymmetric rows),
  λ p. sort_stable-keep_if session_less p rows,
)
