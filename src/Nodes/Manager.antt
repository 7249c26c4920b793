-- ===== src/Nodes/Manager.antt =====
-- internal/nodes/manager.go: creating, changing and deleting nodes. The tokens are those of
-- internal/security.
pub mod Progress
pub mod Closed
pub mod Pushes
pub mod Silence
pub mod Steady
pub mod Order
pub mod Operations
pub mod Outcomes
pub mod Recorded
pub mod Answers
pub mod Settled
pub mod Retries
pub mod Delivery
pub mod Taken
pub mod Accepted
use Prim.Native.String.{◌++◌}
use vetka_backend_panel.Prelude.{
  String, Bool, false, not, ◌&&◌, ◌||◌, none, [], ◌==◌, if◌then◌else◌,
}
use vetka_backend_panel.Prelude.Int.{pos}
use vetka_backend_panel.Prelude.Text.{to_lower, trim_space}
use vetka_backend_panel.Prelude.Effects.{Action, pure, raise, ◌>>=◌, ◌>>◌}
use vetka_backend_panel.Security.{token}
use vetka_backend_panel.Nodes.Models.{Node, CreateNodeInput}
use vetka_backend_panel.Nodes.Repository.{default_to, get, create}
use vetka_backend_panel.Nodes.Updates.{update, delete}
use vetka_backend_panel.Nodes.Status.{validate_node_agent_config, adopt_status}
use vetka_backend_panel.World.{World}

unfoldable pub normalize_input : CreateNodeInput → CreateNodeInput
unfolding to_lower trim_space
normalize_input input = record input {
  mode = default_to "planned" (to_lower (trim_space input.mode));
  protocol_type = default_to "naive" (to_lower (trim_space input.protocol_type));
}

abbrev pub adopt_incomplete : CreateNodeInput → Bool
adopt_incomplete i =
    i.node_id == "" || i.node_secret == "" || i.api_url == "" || i.protocol_type == ""

-- `if value == "" { value = token }`
unfoldable pub or_token : String → Action World String → Action World String
or_token value fresh = if value == "" then fresh else pure value

abbrev pub default_api_url : CreateNodeInput → String
default_api_url i =
    if i.api_url == "" && not (i.mode == "planned")
    then "http://" ++ i.domain ++ ":2222"
    else i.api_url

-- The node that is checked against the agent: the four fields that the form gives, the rest zero.
unfoldable pub candidate : CreateNodeInput → Node
candidate i = record {
  id = "";
  node_id = i.node_id;
  name = "";
  domain = "";
  api_url = i.api_url;
  protocol_type = i.protocol_type;
  node_secret = i.node_secret;
  enabled = false;
  setup_state = "";
  protocol_settings = record {
    mieru = record {
      ports = [];
      protocol = "";
      mtu = pos 0;
      multiplexing = "";
      handshake_mode = "";
      traffic_pattern = "";
      profile = "";
    };
    naive_port = pos 0;
  };
  desired_config_version = pos 0;
  last_applied_version = pos 0;
  last_seen_at = none;
  last_status = none;
  last_error = none;
  last_sync_at = none;
  created_at = 0;
  updated_at = 0;
}

unfoldable pub adopt : CreateNodeInput → Action World Node
unfolding validate_node_agent_config candidate create adopt_status get
adopt i = do
  status ← validate_node_agent_config (candidate i)
  node ← create (record i { mode = "adopt" })
  adopt_status node.id status
  get node.id

unfoldable pub create_normalized : CreateNodeInput → Action World Node
unfolding or_token token create adopt
create_normalized i =
    if i.mode == "adopt" && adopt_incomplete i
    then raise "adopt mode requires node_id, node_secret, api_url, and protocol_type"
    else (do
      node_id ← or_token i.node_id (token "node" 10)
      node_secret ← or_token i.node_secret (token "ns" 32)
      let full = record i {
        node_id = node_id;
        node_secret = node_secret;
        api_url = default_api_url i;
      }
      if i.mode == "planned" then create full else adopt full)

unfoldable pub create_node : CreateNodeInput → Action World Node
unfolding normalize_input create_normalized
create_node input = create_normalized (normalize_input input)

abbrev pub kept_secret : Node → CreateNodeInput → CreateNodeInput
kept_secret current i = record i {
  node_secret = if i.node_secret == "" then current.node_secret else i.node_secret;
}

abbrev pub should_validate : Node → CreateNodeInput → Bool
should_validate current i =
    current.setup_state == "connected"
    && not (i.api_url == "")
    && not (i.node_secret == "")
    && not (i.node_id == "")
    && not (i.protocol_type == "")

unfoldable pub update_validated : String → CreateNodeInput → Action World Node
unfolding validate_node_agent_config candidate update adopt_status get
update_validated id i = do
  status ← validate_node_agent_config (candidate i)
  node ← update id i
  adopt_status node.id status
  get node.id

unfoldable pub update_unvalidated : String → CreateNodeInput → Action World Node
unfolding update get
update_unvalidated id i = do node ← update id i; get node.id

unfoldable pub update_node : String → CreateNodeInput → Action World Node
unfolding get update_validated update_unvalidated
update_node id input = do
  current ← get id
  let i = kept_secret current input
  if should_validate current i then update_validated id i else update_unvalidated id i

unfoldable pub delete_node : String → Action World (Unit {0})
unfolding delete
delete_node id = delete id
