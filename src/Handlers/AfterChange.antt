-- ===== src/Handlers/AfterChange.antt =====
-- internal/http/handlers/handlers.go: the nodes that are synchronised after a change of users.
use Prim.Native.String.{◌++◌}
use mathlib.Core.List
use vetka_backend_panel.Prelude.{String, not, ◌||◌, List, [], ◌∷◌, map, ◌==◌, if◌then◌else◌}
use vetka_backend_panel.Prelude.Effects.{Result, ok, err, Action, pure, attempt, ◌>>=◌}
use vetka_backend_panel.Users.Models.{Access}
use vetka_backend_panel.Users.Updates.{access_for_user}
use vetka_backend_panel.Users.Expiry.{has_key}
use vetka_backend_panel.Nodes.Models.{Node}
use vetka_backend_panel.Nodes.Repository.{get}
use vetka_backend_panel.Nodes.Sync.{sync_node}
use vetka_backend_panel.World.{World}

-- `formatRawNodeSyncError`
abbrev pub format_raw_node_sync_error : String → String → String
format_raw_node_sync_error node_id e = node_id ++ ": " ++ e

abbrev pub sync_error : {A : Type 0} → String → Result A → List String
sync_error node_id (ok a) = []
sync_error node_id (err e) = format_raw_node_sync_error node_id e ∷ []

unfoldable pub sync_listed : String → Action World (List String)
unfolding sync_node
sync_listed node_id = do r ← attempt (sync_node node_id); pure (sync_error node_id r)

-- A node that cannot be read is an error, one that is disabled is passed over.
unfoldable pub sync_if_enabled : String → Result Node → Action World (List String)
unfolding sync_listed
sync_if_enabled node_id (err e) = pure (format_raw_node_sync_error node_id e ∷ [])
sync_if_enabled node_id (ok node) = if not node.enabled then pure [] else sync_listed node_id

unfoldable pub sync_changed : String → Action World (List String) → Action World (List String)
unfolding get sync_if_enabled
sync_changed node_id others = do
  node ← attempt (get node_id)
  errors ← sync_if_enabled node_id node
  later ← others
  pure (List.◌++◌ errors later)

-- The loop of `syncNodesAfterChange`, from the identifiers seen so far.
unfoldable pub sync_unseen : List String → List String → Action World (List String)
unfolding has_key sync_changed
sync_unseen seen [] = pure []
sync_unseen seen (id ∷ ids) =
    let skipped = sync_unseen seen ids in
    let others = sync_unseen (id ∷ seen) ids in
    if id == "" || has_key id seen then skipped else sync_changed id others

unfoldable pub sync_nodes_after_change : List String → Action World (List String)
unfolding sync_unseen
sync_nodes_after_change node_ids = sync_unseen [] node_ids

unfoldable pub user_node_ids : String → Action World (List String)
unfolding access_for_user
user_node_ids user_id = do access ← access_for_user user_id; pure (map (λ a. a.node_id) access)

unfoldable pub sync_assigned : List Access → Action World (List String)
unfolding sync_listed
sync_assigned [] = pure []
sync_assigned (a ∷ rows) = do
  errors ← sync_listed a.node_id
  later ← sync_assigned rows
  pure (List.◌++◌ errors later)

unfoldable pub sync_user_assignments : String → Action World (List String)
unfolding access_for_user sync_assigned
sync_user_assignments user_id = do access ← access_for_user user_id; sync_assigned access
