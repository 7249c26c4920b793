-- ===== src/Nodes/Models.antt =====
-- The types of internal/nodes/models.go, and what passes between the panel and a node agent.
use vetka_backend_panel.Prelude.{ℕ, String, Bool, Option, List}
use vetka_backend_panel.Prelude.Int.{ℤ}
use vetka_backend_panel.Prelude.Effects.{Result, err}

pub record MieruProtocolSettings : Type 0 where
  pub ports : List String
  pub protocol : String
  pub mtu : ℤ
  pub multiplexing : String
  pub handshake_mode : String
  pub traffic_pattern : String
  pub profile : String

pub record ProtocolSettings : Type 0 where
  pub mieru : MieruProtocolSettings
  pub naive_port : ℤ

pub record Node : Type 0 where
  pub id : String
  pub node_id : String
  pub name : String
  pub domain : String
  pub api_url : String
  pub protocol_type : String
  pub node_secret : String
  pub enabled : Bool
  pub setup_state : String
  pub protocol_settings : ProtocolSettings
  pub desired_config_version : ℤ
  pub last_applied_version : ℤ
  pub last_seen_at : Option ℕ
  pub last_status : Option String
  pub last_error : Option String
  pub last_sync_at : Option ℕ
  pub created_at : ℕ
  pub updated_at : ℕ

pub record CreateNodeInput : Type 0 where
  pub mode : String
  pub node_id : String
  pub name : String
  pub domain : String
  pub api_url : String
  pub protocol_type : String
  pub node_secret : String
  pub enabled : Bool
  pub protocol_settings : ProtocolSettings

pub record AgentUser : Type 0 where
  pub id : String
  pub username : String
  pub password : String
  pub enabled : Bool
  pub expires_at : Option ℕ
  pub quota_mb : ℤ
  pub protocols : List String
  pub meta : List (String × String)

pub record SyncPayload : Type 0 where
  pub node_id : String
  pub config_version : ℤ
  pub protocol_type : String
  pub users : List AgentUser

pub record AgentResponse : Type 0 where
  pub ok : Bool
  pub node_id : String
  pub current_version : ℤ
  pub applied_version : ℤ
  pub received_version : ℤ
  pub status : String
  pub changed : Bool
  pub message : String
  pub error : String

pub record AgentStatusResponse : Type 0 where
  pub ok : Bool
  pub node_id : String
  pub protocol_type : String
  pub current_version : ℤ
  pub applied_version : ℤ
  pub last_error : Option String
  pub users_cached : ℤ
  pub message : String
  pub error : String

-- The bytes of an answer: no JSON, with the decoder's error, or JSON with what decoding it into each
-- of the two response types gives.
pub data Body : Type 0 where
  malformed : String → String → Body
  json : String → Result AgentResponse → Result AgentStatusResponse → Body

unfoldable pub text : Body → String
text (malformed s e) = s
text (json s r t) = s

-- `json.Unmarshal` into an `AgentResponse` and into an `AgentStatusResponse`.
unfoldable pub decode_response : Body → Result AgentResponse
decode_response (malformed s e) = err e
decode_response (json s r t) = r

unfoldable pub decode_status : Body → Result AgentStatusResponse
decode_status (malformed s e) = err e
decode_status (json s r t) = t

-- `AgentCallResult`: the body is `none` where the call got no answer.
pub record AgentCallResult : Type 0 where
  pub status_code : ℕ
  pub body : Option Body

pub record SyncEvent : Type 0 where
  pub node_id : String
  pub config_version : ℤ
  pub status : String
  pub http_status : Option ℕ
  pub request_json : SyncPayload
  pub response_json : Option Body
  pub error : Option String
  pub created_at : ℕ

-- A request that the client sends, and the agent's turn: no answer, or a status code and a body.
pub record Request : Type 0 where
  pub node : Node
  pub method : String
  pub url : String
  pub payload : Option SyncPayload

pub data Exchange : Type 0 where
  no_reply : String → Exchange
  reply : ℕ → Body → Exchange
