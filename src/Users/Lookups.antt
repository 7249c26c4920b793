-- ===== src/Users/Lookups.antt =====
-- internal/users/ui_queries.go: the lookups of sessions and the counts of assignments. The parser of
-- identifiers, `Scan` of pgtype.UUID, is a parameter: it gives the canonical text of an identifier.
use Prim.Native.String.{◌++◌}
use vetka_backend_panel.Prelude.{
  ℕ, ◌+◌, String, Bool, false, ◌||◌, List, [], ◌∷◌, map, ◌==◌, if◌then◌else◌, keep_if,
}
use vetka_backend_panel.Prelude.Effects.{ok, err, Result, Action}
use vetka_backend_panel.Users.Models.{Access}
use vetka_backend_panel.Telemetry.Models.{SessionLookup}
use vetka_backend_panel.World.{World, statement}

abbrev pub lookup_of : Access → SessionLookup
lookup_of a = record {
  user_id = a.user_id;
  node_id = a.node_id;
  protocol_username = a.protocol_username;
}

unfoldable pub session_lookup_for_user : String → Action World (List SessionLookup)
unfolding statement
session_lookup_for_user user_id =
    statement λ w. (ok (map lookup_of (keep_if (λ a. a.user_id == user_id) w.access)), w)

unfoldable pub listed : String → List String → Bool
listed id [] = false
listed id (i ∷ is) = i == id || listed id is

-- `group by user_id`: the first row of a user opens its group.
unfoldable pub add_one_to : String → List (String × ℕ) → List (String × ℕ)
add_one_to id [] = (id, 1) ∷ []
add_one_to id (c ∷ cs) =
    let later = add_one_to id cs in if c.0 == id then (id, c.1 + 1) ∷ cs else c ∷ later

unfoldable pub counts_by_user : List Access → List (String × ℕ)
unfolding add_one_to
counts_by_user [] = []
counts_by_user (a ∷ rows) = add_one_to a.user_id (counts_by_user rows)

unfoldable pub assignment_counts : Action World (List (String × ℕ))
unfolding statement counts_by_user
assignment_counts = statement λ w. (ok (counts_by_user w.access), w)

-- `result[userID]`, which is zero without an entry.
unfoldable pub count_of : String → List (String × ℕ) → ℕ
count_of id [] = 0
count_of id (c ∷ cs) = if c.0 == id then c.1 else count_of id cs

module _ (parse : String → Result String) where
  abbrev pub add_parsed : String → Result String → Result (List String) → Result (List String)
  add_parsed id (err e) later = err ("invalid node id for session lookup \"" ++ id ++ "\": " ++ e)
  add_parsed id (ok p) (err e) = err e
  add_parsed id (ok p) (ok ps) = ok (p ∷ ps)

  -- The loop of `normalizeNodeLookupIDs`, with the identifiers seen so far.
  unfoldable pub scan_ids : List String → List String → Result (List String)
  unfolding listed
  scan_ids seen [] = ok []
  scan_ids seen (id ∷ ids) =
      let later = scan_ids (if listed id seen then seen else id ∷ seen) ids in
      if id == ""
      then err "invalid node id for session lookup: empty value"
      else if listed id seen
      then later
      else add_parsed id (parse id) later

  unfoldable pub normalize_node_lookup_ids : List String → Result (List String)
  unfolding scan_ids
  normalize_node_lookup_ids ids = scan_ids [] ids

  unfoldable pub lookup_rows : List String → Action World (List SessionLookup)
  unfolding statement listed
  lookup_rows typed_ids =
      statement λ w. (ok (map lookup_of (keep_if (λ a. listed a.node_id typed_ids) w.access)), w)

  abbrev pub lookup_typed : Result (List String) → Action World (List SessionLookup)
  lookup_typed (err e) w = (err e, w)
  lookup_typed (ok []) w = (ok [], w)
  lookup_typed (ok (id ∷ ids)) w = lookup_rows (id ∷ ids) w

  unfoldable pub session_lookup_for_nodes : List String → Action World (List SessionLookup)
  unfolding normalize_node_lookup_ids lookup_rows
  session_lookup_for_nodes ids = lookup_typed (normalize_node_lookup_ids ids)
