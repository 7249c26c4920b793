-- ===== src/Telemetry/Resolve/Scope.antt =====
-- What a resolution of internal/telemetry/service.go may be.
use vetka_backend_panel.Prelude.{
  String, Bool, true, false, ◌≡◌, refl, ◌∙◌, sym, ap, Option, none, some, List, [], ◌∷◌, ◌==◌,
  arith, eq_iff, if◌then◌else◌, ◌||◌,
}
use vetka_backend_panel.Users.Models.{User}
use vetka_backend_panel.Users.Repository.{find_user}
use vetka_backend_panel.Nodes.Models.{Node}
use vetka_backend_panel.Telemetry.Models.{TelemetrySession, SessionLookup}
use vetka_backend_panel.Telemetry.Resolve.{
  FallbackIndex, Resolution, excluded, unknown, matched, unresolved, known_or, sole, by_sole,
  items_of, users_of, has_user, build_fallback_index, resolve_session_user,
}
use vetka_backend_panel.Telemetry.Resolve.Index.{some_names, build_fallback_index_lem}

pub find_user-key : (id : String) (us : List User) (u : User) → find_user id us ≡ some u → u.id ≡ id
unfolding find_user
find_user-key id [] u h = cc
find_user-key id (v ∷ us) u h = ground (arith, eq_iff v.id id, find_user-key id us u)

find_user-id :
    (id : String) (us : List User) (u : User)
    → find_user id us ≡ some u
    → find_user u.id us ≡ some u
find_user-id id us u h = ap (λ i. find_user i us) (find_user-key id us u h) ∙ h

-- In the strict scope a session is matched or left out, in the other it is matched or shown as unknown; a
-- matched user is the one of the map under its own key.
abbrev pub InScope : Bool → List User → Resolution → Type 0
InScope strict user_map (matched u) = find_user u.id user_map ≡ some u
InScope strict user_map excluded = strict ≡ true
InScope strict user_map unknown = strict ≡ false

unresolved-InScope : (strict : Bool) (us : List User) → InScope strict us (unresolved strict)
unresolved-InScope true us = refl
unresolved-InScope false us = refl

known_or-InScope :
    (strict : Bool) (us : List User) (id : String) (o : Option User)
    → find_user id us ≡ o
    → InScope strict us (known_or strict o)
known_or-InScope strict us id none h = unresolved-InScope strict us
known_or-InScope strict us id (some u) h = find_user-id id us u h

by_sole-InScope :
    (strict : Bool) (us : List User) (o : Option String) → InScope strict us (by_sole strict us o)
by_sole-InScope strict us none = unresolved-InScope strict us
by_sole-InScope strict us (some id) = known_or-InScope strict us id (find_user id us) refl

InScope-if :
    (b strict : Bool) (us : List User) (r q : Resolution)
    → InScope strict us r
    → InScope strict us q
    → InScope strict us (if b then r else q)
InScope-if true strict us r q h k = h
InScope-if false strict us r q h k = k

-- In the strict scope a session is matched or left out and never shown as unknown, in the other it is
-- matched or unknown and never left out; a matched user is the user of the map under its own key.
pub resolve_session_user-InScope :
    (node : Node) (session : TelemetrySession) (us : List User) (index : FallbackIndex)
    (strict : Bool)
    → InScope strict us (resolve_session_user node session us index strict)
unfolding resolve_session_user
resolve_session_user-InScope node session us index strict =
    InScope-if (session.user_id == "") strict us _ _ (by_sole-InScope strict us _)
      (known_or-InScope strict us session.user_id _ refl)

abbrev user_id : Resolution → String
user_id (matched u) = u.id
user_id excluded = ""
user_id unknown = ""

abbrev is_matched : Resolution → Bool
is_matched (matched u) = true
is_matched excluded = false
is_matched unknown = false

or_false : (b : Bool) → (b || false) ≡ b
or_false false = refl
or_false true = refl

unresolved-not_matched : (strict : Bool) (u : User) → unresolved strict ≡ matched u → ⊥
unresolved-not_matched true u h = let k : false ≡ true = ap is_matched h in absurd (cc)
unresolved-not_matched false u h = let k : false ≡ true = ap is_matched h in absurd (cc)

known_or-key :
    (strict : Bool) (us : List User) (id : String) (u : User) (o : Option User)
    → find_user id us ≡ o
    → known_or strict o ≡ matched u
    → u.id ≡ id
known_or-key strict us id u none e h = absurd (unresolved-not_matched strict u h)
known_or-key strict us id u (some v) e h = ap user_id (sym h) ∙ find_user-key id us v e

sole-users :
    (strict : Bool) (us : List User) (u : User) (xs : List String)
    → by_sole strict us (sole xs) ≡ matched u
    → (id : String) → has_user id xs ≡ (u.id == id)
unfolding has_user
sole-users strict us u [] h id = absurd (unresolved-not_matched strict u h)
sole-users strict us u (x ∷ []) h id =
    let k : u.id ≡ x = known_or-key strict us x u (find_user x us) refl h in
    rw k (or_false (x == id))
sole-users strict us u (x ∷ y ∷ ys) h id = absurd (unresolved-not_matched strict u h)

by_name : (b : Bool) (r q : Resolution) → b ≡ true → r ≡ (if b then r else q)
by_name b r q h = rw h refl

-- A session without a user key is only matched with a user if exactly that user has, among the lookups,
-- the name of the session on the node.
pub resolve_session_user-sole :
    (node : Node) (session : TelemetrySession) (us : List User) (ls : List SessionLookup)
    (strict : Bool) (u : User)
    → (session.user_id == "") ≡ true
    → resolve_session_user node session us (build_fallback_index ls) strict ≡ matched u
    → (id : String) → some_names node.id session.protocol_username id ls ≡ (u.id == id)
unfolding resolve_session_user
resolve_session_user-sole node session us ls strict u anonymous found id =
    sym (build_fallback_index_lem node.id session.protocol_username id ls)
    ∙ sole-users strict us u
        (users_of session.protocol_username (items_of node.id (build_fallback_index ls)))
        (by_name (session.user_id == "") _ _ anonymous ∙ found) id
