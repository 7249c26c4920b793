-- ===== src/Telemetry/Resolve.antt =====
-- internal/telemetry/service.go: whose session it is. The user map is the list of its users, the later
-- one first where two have one key; the index maps a node and a name to users.
pub mod Index
pub mod Scope
use vetka_backend_panel.Prelude.{
  ℕ, String, Bool, true, false, ◌&&◌, ◌||◌, Option, none, some, List, [], ◌∷◌, ◌++◌, ◌==◌,
  if◌then◌else◌,
}
use vetka_backend_panel.Users.Models.{User}
use vetka_backend_panel.Users.Repository.{find_user}
use vetka_backend_panel.Nodes.Models.{Node}
use vetka_backend_panel.Telemetry.Models.{TelemetrySession, SessionLookup}

-- `map[string]map[string][]string`: an entry for each node, and in it one for each name.
abbrev pub NodeItems : Type 0
NodeItems = List (String × List String)

abbrev pub FallbackIndex : Type 0
FallbackIndex = List (String × NodeItems)

unfoldable pub items_of : String → FallbackIndex → NodeItems
items_of node [] = []
items_of node (e ∷ es) = if e.0 == node then e.1 else items_of node es

unfoldable pub users_of : String → NodeItems → List String
users_of name [] = []
users_of name (e ∷ es) = if e.0 == name then e.1 else users_of name es

unfoldable pub has_user : String → List String → Bool
has_user id [] = false
has_user id (x ∷ xs) = x == id || has_user id xs

-- `append(existing, item.UserID)` unless it is there.
unfoldable pub with_user : String → List String → List String
unfolding has_user
with_user id existing = if has_user id existing then existing else existing ++ id ∷ []

unfoldable pub put_user : String → String → NodeItems → NodeItems
unfolding with_user
put_user name id [] = (name, id ∷ []) ∷ []
put_user name id (e ∷ es) =
    let later = put_user name id es in
    if e.0 == name then (name, with_user id e.1) ∷ es else e ∷ later

unfoldable pub put_item : SessionLookup → FallbackIndex → FallbackIndex
unfolding put_user
put_item l [] = (l.node_id, put_user l.protocol_username l.user_id []) ∷ []
put_item l (e ∷ es) =
    let later = put_item l es in
    if e.0 == l.node_id
    then (l.node_id, put_user l.protocol_username l.user_id e.1) ∷ es
    else e ∷ later

unfoldable pub index_from : FallbackIndex → List SessionLookup → FallbackIndex
unfolding put_item
index_from index [] = index
index_from index (l ∷ ls) = index_from (put_item l index) ls

unfoldable pub build_fallback_index : List SessionLookup → FallbackIndex
unfolding index_from
build_fallback_index lookups = index_from [] lookups

-- `sessionResolution`, with the user that a match carries.
pub data Resolution : Type 0 where
  excluded unknown : Resolution
  matched : User → Resolution

abbrev pub unresolved : Bool → Resolution
unresolved strict = if strict then excluded else unknown

abbrev pub known_or : Bool → Option User → Resolution
known_or strict none = unresolved strict
known_or strict (some u) = matched u

-- The only user of a name, if it has one.
abbrev pub sole : List String → Option String
sole [] = none
sole (id ∷ []) = some id
sole (id ∷ x ∷ xs) = none

abbrev pub by_sole : Bool → List User → Option String → Resolution
by_sole strict user_map none = unresolved strict
by_sole strict user_map (some id) = known_or strict (find_user id user_map)

unfoldable pub resolve_session_user :
    Node → TelemetrySession → List User → FallbackIndex → Bool → Resolution
unfolding find_user items_of users_of
resolve_session_user node session user_map assignments strict =
    if session.user_id == ""
    then by_sole strict user_map
        (sole (users_of session.protocol_username (items_of node.id assignments)))
    else known_or strict (find_user session.user_id user_map)
