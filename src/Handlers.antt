-- ===== src/Handlers.antt =====
-- internal/http/handlers/handlers.go: what the panel answers. A response is what is written to the
-- client; the request is an argument, its JSON body decoded or the decoder's error.
pub mod AfterChange
pub mod NodesApi
pub mod UsersApi
pub mod Rules
pub mod Withheld
pub mod Withdrawal
pub mod Completion
pub mod Reconciled
mod Tests
use vetka_backend_panel.Prelude.{ℕ, String, Bool, Option, List, if◌then◌else◌}
use vetka_backend_panel.Prelude.Int.{ℤ}
use vetka_backend_panel.Prelude.Effects.{Result, ok, err, Action}
use vetka_backend_panel.Subscriptions.Url.{bytes}
use vetka_backend_panel.Security.{mask_secret}
use vetka_backend_panel.Users.Models.{User}
use vetka_backend_panel.Users.Expiry.{ExpiryReconcileResult}
use vetka_backend_panel.Nodes.Models.{Node, ProtocolSettings, AgentResponse, AgentStatusResponse}

-- The secret is the bytes that go to the encoder.
pub record NodeResponse : Type 0 where
  pub id : String
  pub node_id : String
  pub name : String
  pub domain : String
  pub api_url : String
  pub protocol_type : String
  pub node_secret : List ℕ
  pub enabled : Bool
  pub setup_state : String
  pub protocol_settings : ProtocolSettings
  pub desired_config_version : ℤ
  pub last_applied_version : ℤ
  pub last_seen_at : Option ℕ
  pub last_status : Option String
  pub last_error : Option String
  pub last_sync_at : Option ℕ
  pub created_at : ℕ
  pub updated_at : ℕ

-- `Mask`
unfoldable pub mask : String → List ℕ
unfolding bytes mask_secret
mask secret = mask_secret (bytes secret)

unfoldable pub new_node_response : Node → Bool → NodeResponse
unfolding mask
new_node_response node expose_raw_secret = record {
  id = node.id;
  node_id = node.node_id;
  name = node.name;
  domain = node.domain;
  api_url = node.api_url;
  protocol_type = node.protocol_type;
  node_secret = if expose_raw_secret then bytes node.node_secret else mask node.node_secret;
  enabled = node.enabled;
  setup_state = node.setup_state;
  protocol_settings = node.protocol_settings;
  desired_config_version = node.desired_config_version;
  last_applied_version = node.last_applied_version;
  last_seen_at = node.last_seen_at;
  last_status = node.last_status;
  last_error = node.last_error;
  last_sync_at = node.last_sync_at;
  created_at = node.created_at;
  updated_at = node.updated_at;
}

-- The values that the handlers encode: {"error": e}, {"ok": false, "error": e}, {"ok": true}, and so on.
pub data JsonBody : Type 0 where
  error_body failure_body : String → JsonBody
  ok_body : JsonBody
  user_body : User → JsonBody
  saved_body : User → List String → JsonBody
  synced_body unsynced_body : List String → JsonBody
  node_body : NodeResponse → JsonBody
  nodes_body : List NodeResponse → JsonBody
  status_body : AgentStatusResponse → JsonBody
  response_body : AgentResponse → JsonBody
  links_body : List (String × String) → JsonBody
  reconciled_body unreconciled_body : ExpiryReconcileResult → JsonBody

-- `http.Error`, and a status code with JSON.
pub data Response : Type 0 where
  plain : ℕ → String → Response
  json : ℕ → JsonBody → Response

abbrev pub Handler : Type 0 → Type 0
Handler S = Action S Response

module _ {S A R : Type 0} where
  abbrev pub branch : Result A → (String → Action S R) → (A → Action S R) → Action S R
  branch (ok a) fail next = next a
  branch (err e) fail next = fail e

  -- `if err != nil { …; return }` after a call.
  unfoldable pub or_else : Action S A → (String → Action S R) → (A → Action S R) → Action S R
  or_else m fail next s = let (r, s') = m s in branch r fail next s'

-- `writeJSONOrError`: an error is answered by the status 400, whatever status is given.
unfoldable pub write_json_or_error : ℕ → Result JsonBody → Response
write_json_or_error status (ok body) = json status body
write_json_or_error status (err e) = json 400 (error_body e)
