-- ===== src/Pages/UserPages.antt =====
-- internal/http/handlers/handlers.go: the actions on users of the pages.
use Prim.Native.String.{◌++◌}
use vetka_backend_panel.Prelude.{String, Bool, true, false, Option, none, some, List, [], ◌∷◌}
use vetka_backend_panel.Prelude.Text.{itoa, join}
use vetka_backend_panel.Prelude.Effects.{Result, ok, err, ◌>>=◌}
use vetka_backend_panel.I18n.{translate}
use vetka_backend_panel.Users.Models.{CreateUserInput}
use vetka_backend_panel.Users.Updates
use vetka_backend_panel.Users.Updates.{set_enabled, unassign_node, access_by_id, set_access_enabled}
use vetka_backend_panel.Users.Service.{create_user}
use vetka_backend_panel.Users.Expiry.{ExpiryReconcileResult, run_once}
use vetka_backend_panel.Nodes.Models.{Node}
use vetka_backend_panel.Nodes.Repository
use vetka_backend_panel.Handlers.{or_else}
use vetka_backend_panel.Handlers.AfterChange.{
  sync_nodes_after_change, user_node_ids, sync_user_assignments,
}
use vetka_backend_panel.Handlers.UsersApi.{
  AssignInput, given_or_token, given_for, protocols_from, user_repository, sync_quietly,
}
use vetka_backend_panel.Pages.{
  Library, PageAction, PageReply, flashed, handle_err, redirect_with_flash,
  sanitize_node_sync_errors,
}
use vetka_backend_panel.Pages.Flash.{flash_text, flash_with_list}
use vetka_backend_panel.World.{World}

abbrev pub user_path : String → String
user_path id = "/users/" ++ id

module _ (library : Library) (locale : String) where
  abbrev pub sync_flash : String → String → String → List String → PageAction
  sync_flash path failed_key done_key [] =
      redirect_with_flash path (flash_text locale done_key) "success"
  sync_flash path failed_key done_key (e ∷ errors) =
      redirect_with_flash path
        (flash_with_list locale failed_key (sanitize_node_sync_errors library locale (e ∷ errors)))
        "error"

  -- `syncNodesAfterChangeForUI`, and the redirect with its outcome.
  unfoldable pub sync_and_flash : String → String → String → List String → PageAction
  unfolding sync_nodes_after_change redirect_with_flash flash_text flash_with_list
      sanitize_node_sync_errors
  sync_and_flash path failed_key done_key node_ids = do
    errors ← sync_nodes_after_change node_ids
    sync_flash path failed_key done_key errors

  unfoldable pub create_user_page : Result CreateUserInput → PageAction
  unfolding or_else handle_err Repository.list protocols_from create_user sync_and_flash
      redirect_with_flash flash_text
  create_user_page input = or_else Repository.list (handle_err locale) λ nodes. elim input [
    | err e ↦ redirect_with_flash "/users" (flash_text locale "invalid_expiration") "error"
    | ok i ↦ or_else (create_user i (protocols_from [] nodes)) (handle_err locale) λ user.
        sync_and_flash (user_path user.id) "user_saved_sync_failed" "user_saved_synced" i.node_ids
  ]

  unfoldable pub update_user_page : String → Result CreateUserInput → PageAction
  unfolding or_else handle_err user_node_ids Updates.update sync_and_flash redirect_with_flash
      flash_text
  update_user_page id input = or_else (user_node_ids id) (handle_err locale) λ node_ids.
      elim input [
        | err e ↦
            redirect_with_flash (user_path id) (flash_text locale "invalid_expiration") "error"
        | ok i ↦ or_else (Updates.update id i) (handle_err locale) λ user.
            sync_and_flash (user_path id) "user_saved_sync_failed" "user_saved_synced" node_ids
      ]

  unfoldable pub delete_user_page : String → PageAction
  unfolding or_else handle_err user_node_ids Updates.delete sync_and_flash
  delete_user_page id = or_else (user_node_ids id) (handle_err locale) λ node_ids.
      or_else (Updates.delete id) (handle_err locale)
        λ u. sync_and_flash "/users" "user_deleted_sync_failed" "user_deleted_synced" node_ids

  unfoldable pub set_user_enabled_page : String → Bool → String → String → PageAction
  unfolding or_else handle_err set_enabled user_node_ids sync_and_flash
  set_user_enabled_page id enabled failed_key done_key =
      or_else (set_enabled id enabled) (handle_err locale) λ u.
        or_else (user_node_ids id) (handle_err locale)
          λ node_ids. sync_and_flash (user_path id) failed_key done_key node_ids

  unfoldable pub enable_user_page : String → PageAction
  unfolding set_user_enabled_page
  enable_user_page id =
      set_user_enabled_page id true "user_enabled_sync_failed" "user_enabled_synced"

  unfoldable pub disable_user_page : String → PageAction
  unfolding set_user_enabled_page
  disable_user_page id =
      set_user_enabled_page id false "user_disabled_sync_failed" "user_disabled_synced"

  unfoldable pub assign_given : String → Node → AssignInput → PageAction
  unfolding or_else handle_err given_or_token Updates.assign_node sync_and_flash
  assign_given id node input = do
    username ← given_or_token input.protocol_username "u" 8
    password ← given_or_token input.protocol_password "p" 18
    or_else (Updates.assign_node id node.protocol_type (given_for node username password))
        (handle_err locale)
        λ u.
          sync_and_flash (user_path id) "assignment_saved_sync_failed" "assignment_saved_synced"
            (node.id ∷ [])

  unfoldable pub assign_node_page : String → AssignInput → PageAction
  unfolding or_else handle_err Repository.get assign_given
  assign_node_page id input =
      or_else (Repository.get input.node_id) (handle_err locale) λ node. assign_given id node input

  unfoldable pub unassign_node_page : String → String → PageAction
  unfolding or_else handle_err unassign_node sync_and_flash
  unassign_node_page id node_id = or_else (unassign_node id node_id) (handle_err locale) λ u.
      sync_and_flash (user_path id) "unassigned_sync_failed" "node_unassigned_synced" (node_id ∷ [])

  unfoldable pub set_access_page : String → String → Bool → String → String → PageAction
  unfolding or_else handle_err access_by_id set_access_enabled sync_and_flash
  set_access_page id access_id enabled failed_key done_key =
      or_else (access_by_id id access_id) (handle_err locale) λ access.
        or_else (set_access_enabled id access.id enabled) (handle_err locale)
          λ u. sync_and_flash (user_path id) failed_key done_key (access.node_id ∷ [])

  unfoldable pub enable_user_node_access_page : String → String → PageAction
  unfolding set_access_page
  enable_user_node_access_page id access_id =
      set_access_page id access_id true "node_access_enabled_sync_failed"
        "node_access_enabled_synced"

  unfoldable pub disable_user_node_access_page : String → String → PageAction
  unfolding set_access_page
  disable_user_node_access_page id access_id =
      set_access_page id access_id false "node_access_disabled_sync_failed"
        "node_access_disabled_synced"

  unfoldable pub sync_user_nodes_page : String → PageAction
  unfolding or_else handle_err sync_user_assignments redirect_with_flash flash_text flash_with_list
      sanitize_node_sync_errors
  sync_user_nodes_page id =
      or_else (sync_user_assignments id) (handle_err locale)
        (sync_flash (user_path id) "sync_failed_for_nodes" "affected_nodes_synced")

  abbrev pub errors_part : List String → List String
  errors_part [] = []
  errors_part (e ∷ errors) =
      (translate locale "reconcile.errors"
        ++ ": "
        ++ join (sanitize_node_sync_errors library locale (e ∷ errors)) "; ")
      ∷ []

  unfoldable pub format_expiry_reconcile_result : ExpiryReconcileResult → String
  unfolding translate itoa join sanitize_node_sync_errors
  format_expiry_reconcile_result result =
      join
        ((translate locale "reconcile.users_found" ++ ": " ++ itoa result.users_found)
          ∷ (translate locale "reconcile.nodes_affected" ++ ": " ++ itoa result.nodes_affected)
          ∷ (translate locale "reconcile.successful_syncs"
              ++ ": "
              ++ itoa result.sync_success_count)
          ∷ (translate locale "reconcile.users_processed" ++ ": " ++ itoa result.users_synced)
          ∷ errors_part result.errors)
        ", "

  abbrev pub flash_reconcile : ExpiryReconcileResult × Option String → PageReply
  flash_reconcile (result, none) =
      flashed "/users"
        (flash_text locale "expired_reconcile_ok" ++ ": " ++ format_expiry_reconcile_result result)
        "success"
  flash_reconcile (result, some e) =
      flashed "/users"
        (flash_text locale "expired_reconcile_failed"
          ++ ": "
          ++ format_expiry_reconcile_result result)
        "error"

  -- On the state and the flag `running` of the reconciler.
  unfoldable pub reconcile_expired_users_page : Bool × World → PageReply × (Bool × World)
  unfolding run_once user_repository sync_quietly flash_text format_expiry_reconcile_result
  reconcile_expired_users_page s =
      let (result, s') = run_once user_repository sync_quietly (λ w. w.now) s in
      (flash_reconcile result, s')
