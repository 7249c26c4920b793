-- ===== src/Handlers/UsersApi.antt =====
-- internal/http/handlers/handlers.go: the API of users.
use Prim.Native.String.{◌++◌}
use vetka_backend_panel.Prelude.{
  ℕ, String, Bool, true, false, Option, none, some, List, [], ◌∷◌, ◌==◌, if◌then◌else◌,
}
use vetka_backend_panel.Prelude.Effects.{Result, ok, err, Action, pure, attempt, ◌>>=◌}
use vetka_backend_panel.Security.{token}
use vetka_backend_panel.Users.Models.{CreateUserInput}
use vetka_backend_panel.Users.Repository.{
  users_pending_expiry_reconcile, active_node_ids_for_expired_user, mark_expiry_synced,
}
use vetka_backend_panel.Users.Updates
use vetka_backend_panel.Users.Updates.{set_enabled, unassign_node}
use vetka_backend_panel.Users.Service.{AssignmentCredential, create_user}
use vetka_backend_panel.Users.Expiry.{ExpiryReconcileRepository, ExpiryReconcileResult, run_once}
use vetka_backend_panel.Nodes.Models.{Node}
use vetka_backend_panel.Nodes.Repository
use vetka_backend_panel.Nodes.Sync.{sync_node}
use vetka_backend_panel.Handlers.{
  Handler, Response, ok_body, user_body, saved_body, synced_body, unsynced_body, links_body,
  reconciled_body, unreconciled_body, plain, json, or_else, write_json_or_error,
}
use vetka_backend_panel.Handlers.AfterChange.{
  sync_nodes_after_change, user_node_ids, sync_user_assignments,
}
use vetka_backend_panel.World.{World}

-- A value whose error is dropped: the zero value stands for it.
abbrev pub or_zero : {A : Type 0} → A → Result A → A
or_zero zero_value (ok a) = a
or_zero zero_value (err e) = zero_value

-- `protocols[node.ID] = node.ProtocolType`: a later node is found first.
unfoldable pub protocols_from : List (String × String) → List Node → List (String × String)
protocols_from acc [] = acc
protocols_from acc (n ∷ ns) = protocols_from ((n.id, n.protocol_type) ∷ acc) ns

abbrev pub refuse_json : String → Handler World
refuse_json e = pure (write_json_or_error 400 (err e))

unfoldable pub api_create_user : Result CreateUserInput → Handler World
unfolding or_else Repository.list protocols_from create_user sync_nodes_after_change
    write_json_or_error
api_create_user (err e) = pure (plain 400 e)
api_create_user (ok input) = do
  nodes ← attempt Repository.list
  or_else (create_user input (protocols_from [] (or_zero [] nodes))) refuse_json λ user. (do
    sync_errors ← sync_nodes_after_change input.node_ids
    pure (json 201 (saved_body user sync_errors)))

unfoldable pub api_get_user : String → Handler World
unfolding or_else Updates.get write_json_or_error
api_get_user id = or_else (Updates.get id) refuse_json λ user. pure (json 200 (user_body user))

-- The nodes of the user, or none where they cannot be read, are synchronised.
unfoldable pub sync_nodes_of : String → Action World (List String)
unfolding user_node_ids sync_nodes_after_change
sync_nodes_of id = do
  node_ids ← attempt (user_node_ids id)
  sync_nodes_after_change (or_zero [] node_ids)

unfoldable pub api_update_user : String → Result CreateUserInput → Handler World
unfolding or_else Updates.update sync_nodes_of write_json_or_error
api_update_user id (err e) = pure (plain 400 e)
api_update_user id (ok input) =
    or_else (Updates.update id input) refuse_json
      λ user. (do sync_errors ← sync_nodes_of id; pure (json 200 (saved_body user sync_errors)))

unfoldable pub api_set_user_enabled : String → Bool → Handler World
unfolding or_else set_enabled sync_nodes_of write_json_or_error
api_set_user_enabled id enabled =
    or_else (set_enabled id enabled) refuse_json
      λ u. (do sync_errors ← sync_nodes_of id; pure (json 200 (synced_body sync_errors)))

unfoldable pub api_enable_user : String → Handler World
unfolding api_set_user_enabled
api_enable_user id = api_set_user_enabled id true

unfoldable pub api_disable_user : String → Handler World
unfolding api_set_user_enabled
api_disable_user id = api_set_user_enabled id false

-- The body of the two requests on assignments; unassigning reads the first field only.
pub record AssignInput : Type 0 where
  pub node_id : String
  pub protocol_username : String
  pub protocol_password : String

-- A missing credential is drawn; the error of the draw is dropped.
unfoldable pub given_or_token : String → String → ℕ → Action World String
unfolding token
given_or_token value prefix n =
    if value == "" then (do t ← attempt (token prefix n); pure (or_zero "" t)) else pure value

abbrev pub given_for : Node → String → String → AssignmentCredential
given_for node username password = record {
  node_id = node.id;
  protocol_username = username;
  protocol_password = password;
}

unfoldable pub assign_with : String → Node → AssignInput → Handler World
unfolding or_else given_or_token Updates.assign_node sync_nodes_after_change write_json_or_error
assign_with id node input = do
  username ← given_or_token input.protocol_username "u" 8
  password ← given_or_token input.protocol_password "p" 18
  or_else (Updates.assign_node id node.protocol_type (given_for node username password)) refuse_json
      λ u. (do
        sync_errors ← sync_nodes_after_change (node.id ∷ [])
        pure (json 200 (synced_body sync_errors)))

unfoldable pub api_assign_node : String → Result AssignInput → Handler World
unfolding or_else Repository.get assign_with write_json_or_error
api_assign_node id (err e) = pure (plain 400 e)
api_assign_node id (ok input) =
    or_else (Repository.get input.node_id) refuse_json λ node. assign_with id node input

unfoldable pub api_unassign_node : String → Result AssignInput → Handler World
unfolding or_else unassign_node sync_nodes_after_change write_json_or_error
api_unassign_node id (err e) = pure (plain 400 e)
api_unassign_node id (ok input) = or_else (unassign_node id input.node_id) refuse_json λ u. (do
  sync_errors ← sync_nodes_after_change (input.node_id ∷ [])
  pure (json 200 (synced_body sync_errors)))

abbrev pub answer_sync : List String → Response
answer_sync [] = json 200 ok_body
answer_sync (e ∷ errors) = json 502 (unsynced_body (e ∷ errors))

unfoldable pub api_sync_user : String → Handler World
unfolding or_else sync_user_assignments write_json_or_error
api_sync_user id =
    or_else (sync_user_assignments id) refuse_json λ errors. pure (answer_sync errors)

abbrev pub links : String → String → List (String × String)
links base profile_title =
    ("url", base)
    ∷ ("json_url", base ++ "?format=json")
    ∷ ("karing_url", base ++ "?format=karing")
    ∷ ("hiddify_url", base ++ "?format=hiddify")
    ∷ ("hiddify_json", base ++ "?format=hiddify-json")
    ∷ ("raw_url", base ++ "?format=raw")
    ∷ ("mierus_url", base ++ "?format=mierus")
    ∷ ("naive_url", base ++ "?format=naive")
    ∷ ("singbox_url", base ++ "?format=sing-box")
    ∷ ("profile_title", profile_title)
    ∷ []

-- The base URL and the title are those of the configuration.
unfoldable pub api_user_subscription : String → String → String → Handler World
unfolding or_else Updates.get write_json_or_error
api_user_subscription base_url profile_title id =
    or_else (Updates.get id) (λ e. pure (write_json_or_error 404 (err e)))
      λ user. pure (
        json 200
          (links_body (links (base_url ++ "/sub/" ++ user.subscription_token) profile_title)))

-- The reconciler that `NewServer` builds.
unfoldable pub user_repository : ExpiryReconcileRepository World
user_repository = record {
  users_pending_expiry_reconcile = users_pending_expiry_reconcile;
  active_node_ids_for_expired_user = active_node_ids_for_expired_user;
  mark_expiry_synced = mark_expiry_synced;
}

unfoldable pub sync_quietly : String → Action World (Unit {0})
unfolding sync_node
sync_quietly id = do r ← sync_node id; pure tt

abbrev pub answer_reconcile : ExpiryReconcileResult × Option String → Response
answer_reconcile (result, none) = json 200 (reconciled_body result)
answer_reconcile (result, some e) = json 502 (unreconciled_body result)

-- On the state and the flag `running` of the reconciler.
unfoldable pub api_reconcile_expired_users : Bool × World → Response × (Bool × World)
unfolding run_once user_repository sync_quietly
api_reconcile_expired_users s =
    let (result, s') = run_once user_repository sync_quietly (λ w. w.now) s in
    (answer_reconcile result, s')
