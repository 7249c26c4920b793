-- ===== src/Nodes/Repository.antt =====
-- internal/nodes/repository.go: each method is one SQL statement over the rows of `nodes` and
-- `node_sync_events`, with the constraints and triggers of the migrations. The protocol settings are
-- stored as the value that their JSON stands for.
use vetka_backend_panel.Prelude.{
  ℕ, String, Bool, false, not, ◌&&◌, ◌||◌, Option, none, some, List, [], ◌∷◌, ◌++◌, map, ◌==◌,
  if◌then◌else◌, ltb, sort_stable,
}
use vetka_backend_panel.Prelude.Int.{pos, eq_ℤ}
use vetka_backend_panel.Prelude.Text.{to_lower}
use vetka_backend_panel.Prelude.Effects.{Result, ok, err, Action}
use vetka_backend_panel.Nodes.Models.{ProtocolSettings, Node, CreateNodeInput}
use vetka_backend_panel.World.{World, statement, refuse_if, take_row_id}

-- `if s == "" { s = d }`
abbrev pub default_to : String → String → String
default_to d s = if s == "" then d else s

unfoldable pub default_ports : List String → List String
default_ports [] = "2012-2022" ∷ []
default_ports (p ∷ ps) = p ∷ ps

unfoldable pub normalize_protocol_settings : ProtocolSettings → String → ProtocolSettings
unfolding default_ports
normalize_protocol_settings settings node_name = record {
  mieru = record settings.mieru {
    ports = default_ports settings.mieru.ports;
    protocol = default_to "TCP" settings.mieru.protocol;
    mtu = if eq_ℤ settings.mieru.mtu (pos 0) then pos 1400 else settings.mieru.mtu;
    multiplexing = default_to "MULTIPLEXING_HIGH" settings.mieru.multiplexing;
    handshake_mode = default_to "HANDSHAKE_NO_WAIT" settings.mieru.handshake_mode;
    profile = default_to node_name settings.mieru.profile;
  };
  naive_port = if eq_ℤ settings.naive_port (pos 0) then pos 443 else settings.naive_port;
}

unfoldable pub scan_node : Node → Node
unfolding normalize_protocol_settings
scan_node n = record n {
  protocol_settings = normalize_protocol_settings n.protocol_settings n.name;
}

-- The row with a primary key, if there is one.
unfoldable pub find_node : String → List Node → Option Node
find_node id [] = none
find_node id (n ∷ ns) = if n.id == id then some n else find_node id ns

-- `update nodes set … where id = $1`
unfoldable pub update_node : String → (Node → Node) → List Node → List Node
update_node id f [] = []
update_node id f (n ∷ ns) = (if n.id == id then f n else n) ∷ update_node id f ns

abbrev pub no_rows : String
no_rows = "no rows in result set"

abbrev pub one_row : Option Node → Result Node
one_row none = err no_rows
one_row (some n) = ok (scan_node n)

unfoldable pub list : Action World (List Node)
unfolding statement
list =
    statement
      λ w. (ok (map scan_node (sort_stable (λ a b. ltb b.created_at a.created_at) w.nodes)), w)

unfoldable pub get : String → Action World Node
unfolding statement find_node
get id = statement λ w. (one_row (find_node id w.nodes), w)

-- `check (protocol_type in ('naive', 'mieru'))`
abbrev pub is_protocol : String → Bool
is_protocol p = p == "naive" || p == "mieru"

-- `node_id text unique`, for the rows other than the one being written.
unfoldable pub takes_node_id : String → String → List Node → Bool
takes_node_id id node_id [] = false
takes_node_id id node_id (n ∷ ns) =
    (n.node_id == node_id && not (n.id == id)) || takes_node_id id node_id ns

abbrev pub initial_setup_state : CreateNodeInput → String
initial_setup_state input =
    if not input.enabled
    then "disabled"
    else if input.mode == "adopt"
    then "connected"
    else "planned"

abbrev pub new_row : CreateNodeInput → String → ℕ → Node
new_row input id now = record {
  id = id;
  node_id = input.node_id;
  name = input.name;
  domain = input.domain;
  api_url = input.api_url;
  protocol_type = to_lower input.protocol_type;
  node_secret = input.node_secret;
  enabled = input.enabled;
  setup_state = initial_setup_state input;
  protocol_settings = normalize_protocol_settings input.protocol_settings input.name;
  desired_config_version = pos 0;
  last_applied_version = pos 0;
  last_seen_at = none;
  last_status = none;
  last_error = none;
  last_sync_at = none;
  created_at = now;
  updated_at = now;
}

unfoldable pub write_row : CreateNodeInput → String → World → Result Node × World
unfolding scan_node
write_row input id w = (
  ok (scan_node (new_row input id w.now)),
  record w { nodes = w.nodes ++ new_row input id w.now ∷ [] },
)

unfoldable pub insert_row : CreateNodeInput → Result String × World → Result Node × World
unfolding takes_node_id write_row
insert_row input (err e, w) = (err e, w)
insert_row input (ok id, w) =
    refuse_if (not (is_protocol (to_lower input.protocol_type)))
      "violates check constraint nodes_protocol_type_check"
      (refuse_if (takes_node_id id input.node_id w.nodes)
        "duplicate key value violates unique constraint nodes_node_id_key" (write_row input id))
      w

unfoldable pub create : CreateNodeInput → Action World Node
unfolding statement insert_row
create input = statement λ w. insert_row input (take_row_id w.row_ids w)
