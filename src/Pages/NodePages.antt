-- ===== src/Pages/NodePages.antt =====
-- internal/http/handlers/handlers.go: the actions on nodes of the pages.
use Prim.Native.String.{◌++◌}
use vetka_backend_panel.Prelude.{String, ◌==◌, if◌then◌else◌}
use vetka_backend_panel.Prelude.Effects.{Action, pure}
use vetka_backend_panel.I18n.{translate}
use vetka_backend_panel.Nodes.Models.{Node, CreateNodeInput, AgentStatusResponse, AgentResponse}
use vetka_backend_panel.Nodes.Repository.{get}
use vetka_backend_panel.Nodes.Status.{validate_node_status, check_node_health, fetch_node_status}
use vetka_backend_panel.Nodes.Sync.{sync_node, sync_all_nodes}
use vetka_backend_panel.Nodes.Manager.{create_node, update_node, delete_node}
use vetka_backend_panel.Subscriptions.Fields.{itoa_ℤ}
use vetka_backend_panel.Handlers.{or_else}
use vetka_backend_panel.Pages.{
  Library, PageAction, node_created, handle_err, redirect_with_flash, redirect_with_error_flash,
}
use vetka_backend_panel.Pages.Flash.{flash_text}
use vetka_backend_panel.World.{World}

unfoldable pub format_node_status_flash : String → AgentStatusResponse → String
unfolding translate
format_node_status_flash locale status =
    translate locale "flash.status_ok"
    ++ ": "
    ++ translate locale "status.current_version"
    ++ "="
    ++ itoa_ℤ status.current_version
    ++ ", "
    ++ translate locale "status.applied_version"
    ++ "="
    ++ itoa_ℤ status.applied_version
    ++ ", "
    ++ translate locale "status.users_cached"
    ++ "="
    ++ itoa_ℤ status.users_cached

unfoldable pub format_sync_flash : String → AgentResponse → String
unfolding translate
format_sync_flash locale resp =
    translate locale "flash.sync_ok"
    ++ ": "
    ++ translate locale "status.applied_version"
    ++ "="
    ++ itoa_ℤ resp.applied_version

abbrev pub node_path : String → String
node_path id = "/nodes/" ++ id

module _ (library : Library) (locale : String) where
  unfoldable pub create_node_page : CreateNodeInput → PageAction
  unfolding or_else create_node redirect_with_error_flash redirect_with_flash flash_text
  create_node_page input =
      or_else (create_node input) (redirect_with_error_flash library locale "/nodes" "") λ node.
        if input.mode == "adopt"
        then redirect_with_flash "/nodes" (flash_text locale "node_adopted_connected") "success"
        else pure (node_created node)

  unfoldable pub validate_node_status_page : String → PageAction
  unfolding or_else validate_node_status redirect_with_error_flash redirect_with_flash flash_text
      format_node_status_flash
  validate_node_status_page id =
      or_else (validate_node_status id)
        (redirect_with_error_flash library locale (node_path id ++ "/edit")
          (flash_text locale "validation_failed" ++ ": "))
        λ status.
          redirect_with_flash (node_path id ++ "/edit") (format_node_status_flash locale status)
            "success"

  unfoldable pub update_node_page : String → CreateNodeInput → PageAction
  unfolding or_else update_node redirect_with_error_flash redirect_with_flash flash_text
  update_node_page id input =
      or_else (update_node id input)
        (redirect_with_error_flash library locale (node_path id ++ "/edit") "")
        λ node. redirect_with_flash (node_path id) (flash_text locale "node_updated") "success"

  unfoldable pub delete_node_page : String → PageAction
  unfolding or_else delete_node handle_err redirect_with_flash flash_text
  delete_node_page id =
      or_else (delete_node id) (handle_err locale)
        λ u. redirect_with_flash "/nodes" (flash_text locale "node_deleted") "success"

  -- The answer to an agent that cannot be asked, for a node that was read before.
  unfoldable pub agent_failed : String → Node → String → String → PageAction
  unfolding redirect_with_error_flash redirect_with_flash flash_text
  agent_failed id node key e =
      if node.setup_state == "planned"
      then redirect_with_flash (node_path id) (flash_text locale "node_not_reachable_yet") "error"
      else redirect_with_error_flash library locale (node_path id) (flash_text locale key ++ ": ") e

  -- The node, then the call of its agent, then the message of the answer.
  unfoldable pub agent_page :
      {A : Type 0} → String → Action World A → String → (A → String) → PageAction
  unfolding or_else get agent_failed redirect_with_error_flash redirect_with_flash
  agent_page id call key message =
      or_else (get id) (redirect_with_error_flash library locale (node_path id) "") λ node.
        or_else call (agent_failed id node key)
          λ a. redirect_with_flash (node_path id) (message a) "success"

  unfoldable pub node_health_page : String → PageAction
  unfolding agent_page check_node_health flash_text
  node_health_page id =
      agent_page id (check_node_health id) "health_failed" (λ s. flash_text locale "health_ok")

  unfoldable pub node_status_page : String → PageAction
  unfolding agent_page fetch_node_status format_node_status_flash
  node_status_page id =
      agent_page id (fetch_node_status id) "status_failed" (format_node_status_flash locale)

  unfoldable pub sync_node_page : String → PageAction
  unfolding agent_page sync_node format_sync_flash
  sync_node_page id = agent_page id (sync_node id) "sync_failed" (format_sync_flash locale)

  unfoldable pub sync_all_nodes_page : PageAction
  unfolding or_else sync_all_nodes redirect_with_error_flash redirect_with_flash flash_text
  sync_all_nodes_page =
      or_else sync_all_nodes
        (redirect_with_error_flash library locale "/nodes"
          (flash_text locale "sync_all_failed" ++ ": "))
        λ u. redirect_with_flash "/nodes" (flash_text locale "sync_all_ok") "success"
