-- ===== src/Nodes/Samples.antt =====
-- Data for the runs of internal/nodes: one node, one user on it, and an agent that answers.
use vetka_backend_panel.Prelude.{String, Bool, true, false, none, some, List, [], ◌∷◌}
use vetka_backend_panel.Prelude.Int.{ℤ, pos}
use vetka_backend_panel.Prelude.Effects.{ok, err}
use vetka_backend_panel.Users.Models.{User, Access}
use vetka_backend_panel.Nodes.Models.{
  Node, CreateNodeInput, AgentResponse, AgentStatusResponse, ProtocolSettings, Body, json, Exchange,
}
use vetka_backend_panel.World.{World, Tick}

abbrev pub settings : ProtocolSettings
settings = record {
  mieru = record {
    ports = "2012-2022" ∷ [];
    protocol = "TCP";
    mtu = pos 1400;
    multiplexing = "MULTIPLEXING_HIGH";
    handshake_mode = "HANDSHAKE_NO_WAIT";
    traffic_pattern = "";
    profile = "Berlin";
  };
  naive_port = pos 443;
}

abbrev pub berlin : Node
berlin = record {
  id = "row-1";
  node_id = "node-berlin";
  name = "Berlin";
  domain = "berlin.example";
  api_url = "http://berlin.example:2222/";
  protocol_type = "naive";
  node_secret = "secret";
  enabled = true;
  setup_state = "connected";
  protocol_settings = settings;
  desired_config_version = pos 4;
  last_applied_version = pos 4;
  last_seen_at = none;
  last_status = none;
  last_error = none;
  last_sync_at = none;
  created_at = 10;
  updated_at = 10;
}

abbrev pub anna : User
anna = record {
  id = "user-1";
  username = "anna";
  display_name = none;
  enabled = true;
  expires_at = some 500;
  expiry_synced_at = none;
  quota_mb = pos 0;
  subscription_token = "sub_1";
  notes = none;
  created_at = 20;
  updated_at = 20;
}

abbrev pub anna_in_berlin : Access
anna_in_berlin = record {
  id = "access-1";
  user_id = "user-1";
  node_id = "row-1";
  protocol_type = "naive";
  protocol_username = "u_1";
  protocol_password = "p_1";
  enabled = true;
  created_at = 30;
  updated_at = 30;
}

abbrev pub response : Bool → String → ℤ → ℤ → AgentResponse
response accepted status current applied = record {
  ok = accepted;
  node_id = "node-berlin";
  current_version = current;
  applied_version = applied;
  received_version = pos 0;
  status = status;
  changed = true;
  message = "";
  error = "";
}

abbrev pub agent_status : AgentStatusResponse
agent_status = record {
  ok = true;
  node_id = "node-berlin";
  protocol_type = "naive";
  current_version = pos 7;
  applied_version = pos 7;
  last_error = none;
  users_cached = pos 1;
  message = "";
  error = "";
}

abbrev pub response_body : AgentResponse → Body
response_body r = json "{}" (ok r) (err "not a status")

abbrev pub status_body : Body
status_body = json "{}" (err "not a response") (ok agent_status)

abbrev pub world : List Exchange → List Tick → World
world network schedule = record {
  users = anna ∷ [];
  access = anna_in_berlin ∷ [];
  nodes = berlin ∷ [];
  events = [];
  now = 100;
  sent = [];
  schedule = schedule;
  network = network;
  row_ids = "row-2" ∷ [];
  entropy = [];
}

abbrev pub applied : AgentResponse
applied = response true "ok" (pos 5) (pos 0)

abbrev pub refused : AgentResponse
refused = response false "invalid_config" (pos 4) (pos 4)

abbrev pub stale : AgentResponse
stale = response false "stale_version" (pos 9) (pos 8)

abbrev pub new_node : CreateNodeInput
new_node = record {
  mode = "planned";
  node_id = "node-paris";
  name = "Paris";
  domain = "paris.example";
  api_url = "";
  protocol_type = "mieru";
  node_secret = "secret-2";
  enabled = true;
  protocol_settings = settings;
}
