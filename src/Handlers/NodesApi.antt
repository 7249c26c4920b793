-- ===== src/Handlers/NodesApi.antt =====
-- internal/http/handlers/handlers.go: the API of nodes.
use vetka_backend_panel.Prelude.{String, true, false, map, ◌==◌, if◌then◌else◌}
use vetka_backend_panel.Prelude.Effects.{Result, ok, err, pure}
use vetka_backend_panel.Nodes.Models.{CreateNodeInput}
use vetka_backend_panel.Nodes.Repository.{get, list}
use vetka_backend_panel.Nodes.Status.{check_node_health, fetch_node_status}
use vetka_backend_panel.Nodes.Sync.{sync_node, sync_all_nodes}
use vetka_backend_panel.Nodes.Manager.{create_node, update_node}
use vetka_backend_panel.Handlers.{
  Handler, failure_body, ok_body, node_body, nodes_body, status_body, response_body, plain, json,
  or_else, new_node_response, write_json_or_error,
}
use vetka_backend_panel.World.{World}

abbrev pub refused : String → Handler World
refused e = pure (write_json_or_error 400 (err e))

-- The status 502 with the error of the agent's call.
abbrev pub bad_gateway : String → Handler World
bad_gateway e = pure (json 502 (failure_body e))

unfoldable pub api_list_nodes : Handler World
unfolding or_else list new_node_response write_json_or_error
api_list_nodes =
    or_else list refused
      λ nodes. pure (json 200 (nodes_body (map (λ n. new_node_response n false) nodes)))

unfoldable pub api_create_node : Result CreateNodeInput → Handler World
unfolding or_else create_node new_node_response write_json_or_error
api_create_node (err e) = pure (plain 400 e)
api_create_node (ok input) =
    or_else
      (create_node (record input { mode = if input.mode == "" then "planned" else input.mode }))
      refused λ node. pure (json 201 (node_body (new_node_response node true)))

unfoldable pub api_get_node : String → Handler World
unfolding or_else get new_node_response write_json_or_error
api_get_node id =
    or_else (get id) (λ e. pure (write_json_or_error 404 (err e)))
      λ node. pure (json 200 (node_body (new_node_response node false)))

unfoldable pub api_update_node : String → Result CreateNodeInput → Handler World
unfolding or_else update_node new_node_response write_json_or_error
api_update_node id (err e) = pure (plain 400 e)
api_update_node id (ok input) =
    or_else (update_node id input) refused
      λ node. pure (json 200 (node_body (new_node_response node false)))

unfoldable pub api_node_health : String → Handler World
unfolding or_else check_node_health
api_node_health id =
    or_else (check_node_health id) bad_gateway λ status. pure (json 200 (status_body status))

unfoldable pub api_node_status : String → Handler World
unfolding or_else fetch_node_status
api_node_status id =
    or_else (fetch_node_status id) bad_gateway λ status. pure (json 200 (status_body status))

unfoldable pub api_sync_node : String → Handler World
unfolding or_else sync_node
api_sync_node id =
    or_else (sync_node id) bad_gateway λ response. pure (json 200 (response_body response))

unfoldable pub api_sync_all_nodes : Handler World
unfolding or_else sync_all_nodes
api_sync_all_nodes = or_else sync_all_nodes bad_gateway λ u. pure (json 200 ok_body)
