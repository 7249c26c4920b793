-- ===== src/Subscriptions/Models.antt =====
-- The assignments that internal/subscriptions/subscriptions.go reads (internal/users/repository.go), and
-- the documents that it builds. The protocol settings are the value of their JSON.
use vetka_backend_panel.Prelude.{String, Bool, Option, List}
use vetka_backend_panel.Prelude.Int.{ℤ}
use vetka_backend_panel.Users.Models.{Access}
use vetka_backend_panel.Nodes.Models.{ProtocolSettings}

pub record AccessWithNode : Type 0 where
  pub access : Access
  pub agent_node_id : String
  pub node_name : String
  pub node_domain : String
  pub node_api_url : String
  pub node_protocol_type : String
  pub node_protocol_settings : ProtocolSettings

-- The JSON of `BuildSingboxJSON`; a field that is left out where it is empty is an empty text, list or
-- option.
pub record DnsServer : Type 0 where
  pub tag : String
  pub address : String
  pub detour : String

pub record TlsOptions : Type 0 where
  pub enabled : Bool
  pub server_name : String

pub record SingboxOutbound : Type 0 where
  pub kind : String
  pub tag : String
  pub outbounds : List String
  pub server : String
  pub server_port : ℤ
  pub transport : String
  pub username : String
  pub password : String
  pub multiplexing : String
  pub quic : Option Bool
  pub tls : Option TlsOptions

-- The rules of both sections are pairs: an outbound and a server, a protocol and an outbound.
pub record SingboxConfig : Type 0 where
  pub log_level : String
  pub log_timestamp : Bool
  pub dns_servers : List DnsServer
  pub dns_rules : List (String × String)
  pub dns_final : String
  pub outbounds : List SingboxOutbound
  pub route_rules : List (String × String)
  pub route_final : String
  pub auto_detect_interface : Bool

-- The JSON of `BuildHiddifyJSON`.
pub record PortBinding : Type 0 where
  pub protocol : String
  pub port_range : String

pub record HiddifyOutbound : Type 0 where
  pub kind : String
  pub tag : String
  pub server : String
  pub server_port : ℤ
  pub port_bindings : List PortBinding
  pub username : String
  pub password : String
  pub multiplexing : String
  pub udp_over_tcp : Option Bool
  pub tls_enabled : Option Bool

-- A body: a text, or the value that `json.MarshalIndent` writes.
pub data Body : Type 0 where
  lines : String → Body
  singbox : SingboxConfig → Body
  hiddify : List HiddifyOutbound → Body
