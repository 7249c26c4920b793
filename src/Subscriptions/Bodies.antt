-- ===== src/Subscriptions/Bodies.antt =====
-- internal/subscriptions/subscriptions.go: the URIs of the assignments and the documents made of them.
use Prim.Native.String.{String, ◌++◌}
use mathlib.Core.List
use vetka_backend_panel.Prelude.{
  ℕ, suc, true, false, Option, none, some, List, [], ◌∷◌, map, ◌==◌, if◌then◌else◌,
}
use vetka_backend_panel.Prelude.Int.{pos}
use vetka_backend_panel.Prelude.Text.{join, itoa}
use vetka_backend_panel.Security.Base64.{encode_std}
use vetka_backend_panel.Nodes.Models.{ProtocolSettings}
use vetka_backend_panel.Nodes.Repository.{default_to, default_ports}
use vetka_backend_panel.Subscriptions.Models.{
  AccessWithNode, SingboxOutbound, SingboxConfig, HiddifyOutbound,
}
use vetka_backend_panel.Subscriptions.Url.{bytes, query_escape, user_password, url_text}
use vetka_backend_panel.Subscriptions.Fields.{
  itoa_ℤ, outbound_tag, node_server, first_mieru_port, default_string, protocol_settings_for_access,
}

unfoldable pub profile_title_base64 : String → String
unfolding bytes encode_std
profile_title_base64 title = encode_std (bytes title)

abbrev no_outbound : SingboxOutbound
no_outbound = record {
  kind = "";
  tag = "";
  outbounds = [];
  server = "";
  server_port = pos 0;
  transport = "";
  username = "";
  password = "";
  multiplexing = "";
  quic = none;
  tls = none;
}

abbrev pub fixed_outbounds : List SingboxOutbound
fixed_outbounds =
    record no_outbound { kind = "direct"; tag = "direct" }
    ∷ record no_outbound { kind = "dns"; tag = "dns-out" }
    ∷ []

abbrev pub credentials : AccessWithNode → String
credentials a = user_password a.access.protocol_username a.access.protocol_password

-- The pairs of a port and the protocol, one after the other.
unfoldable pub port_parts : String → List String → List String
unfolding query_escape
port_parts protocol [] = []
port_parts protocol (p ∷ ps) =
    ("port=" ++ query_escape p) ∷ ("protocol=" ++ query_escape protocol) ∷ port_parts protocol ps

abbrev pub pattern_part : String → List String
pattern_part pattern =
    if pattern == "" then [] else ("traffic-pattern=" ++ query_escape pattern) ∷ []

abbrev pub query_parts : AccessWithNode → ProtocolSettings → List String
query_parts a s =
    ("profile=" ++ query_escape (default_to a.node_name s.mieru.profile))
    ∷ ("mtu=" ++ query_escape (itoa_ℤ s.mieru.mtu))
    ∷ ("multiplexing=" ++ query_escape s.mieru.multiplexing)
    ∷ ("handshake-mode=" ++ query_escape s.mieru.handshake_mode)
    ∷ List.◌++◌ (pattern_part s.mieru.traffic_pattern)
        (port_parts (default_to "TCP" s.mieru.protocol) (default_ports s.mieru.ports))

abbrev pub or_direct : List String → List String
or_direct [] = "direct" ∷ []
or_direct (t ∷ ts) = t ∷ ts

-- `fmt.Sprintf("%s § %d", name, i)`
abbrev pub hiddify_tag : AccessWithNode → ℕ → String
hiddify_tag a i = a.node_name ++ " § " ++ itoa i

module _ (parse : String → Option (String × String)) where
  abbrev pub naive_host : AccessWithNode → String
  naive_host a = node_server parse a ++ ":" ++ itoa_ℤ (protocol_settings_for_access a).naive_port

  unfoldable pub build_naive_uri : AccessWithNode → String
  unfolding url_text user_password node_server protocol_settings_for_access
  build_naive_uri a = url_text "naive+https" (credentials a) (naive_host a) a.node_name

  unfoldable pub build_naive_hiddify_uri : AccessWithNode → String
  unfolding url_text user_password node_server protocol_settings_for_access
  build_naive_hiddify_uri a = url_text "naive" (credentials a) (naive_host a) a.node_name

  -- `devMode` is not used.
  unfoldable pub build_mieru_uri : AccessWithNode → String
  unfolding user_password query_escape port_parts node_server protocol_settings_for_access join
  build_mieru_uri a =
      let s = protocol_settings_for_access a in
      "mierus://"
      ++ credentials a
      ++ "@"
      ++ node_server parse a
      ++ "?"
      ++ join (query_parts a s) "&"
      ++ "#"
      ++ query_escape (default_to a.node_name s.mieru.profile)

  abbrev pub naive_outbound : AccessWithNode → SingboxOutbound
  naive_outbound a = record no_outbound {
    kind = "naive";
    tag = outbound_tag a;
    server = node_server parse a;
    server_port = (protocol_settings_for_access a).naive_port;
    username = a.access.protocol_username;
    password = a.access.protocol_password;
    quic = some false;
    tls = some (record { enabled = true; server_name = node_server parse a });
  }

  abbrev pub mieru_outbound : AccessWithNode → SingboxOutbound
  mieru_outbound a =
      let s = protocol_settings_for_access a in
      record no_outbound {
        kind = "mieru";
        tag = outbound_tag a;
        server = node_server parse a;
        server_port = first_mieru_port s.mieru.ports;
        transport = default_string s.mieru.protocol "TCP";
        username = a.access.protocol_username;
        password = a.access.protocol_password;
        multiplexing = default_string s.mieru.multiplexing "MULTIPLEXING_HIGH";
      }

  unfoldable pub singbox_outbounds : List AccessWithNode → List SingboxOutbound
  unfolding outbound_tag node_server protocol_settings_for_access first_mieru_port default_string
  singbox_outbounds [] = []
  singbox_outbounds (a ∷ rows) =
      let later = singbox_outbounds rows in
      if a.node_protocol_type == "naive"
      then naive_outbound a ∷ later
      else if a.node_protocol_type == "mieru"
      then mieru_outbound a ∷ later
      else later

  unfoldable pub build_singbox_json : List AccessWithNode → SingboxConfig
  unfolding singbox_outbounds outbound_tag
  build_singbox_json rows = record {
    log_level = "info";
    log_timestamp = true;
    dns_servers =
        record { tag = "remote"; address = "tls://8.8.8.8"; detour = "proxy" }
        ∷ record { tag = "local"; address = "https://223.5.5.5/dns-query"; detour = "direct" }
        ∷ [];
    dns_rules = ("any", "local") ∷ [];
    dns_final = "remote";
    outbounds =
        record no_outbound {
          kind = "selector";
          tag = "proxy";
          outbounds = or_direct (map outbound_tag rows);
        }
        ∷ List.◌++◌ (singbox_outbounds rows) fixed_outbounds;
    route_rules = ("dns", "dns-out") ∷ [];
    route_final = "proxy";
    auto_detect_interface = true;
  }

  abbrev pub hiddify_mieru : AccessWithNode → ℕ → HiddifyOutbound
  hiddify_mieru a i =
      let s = protocol_settings_for_access a in
      record {
        kind = "mieru";
        tag = hiddify_tag a i;
        server = node_server parse a;
        server_port = pos 0;
        port_bindings =
            map (λ p. record { protocol = default_string s.mieru.protocol "TCP"; port_range = p })
              s.mieru.ports;
        username = a.access.protocol_username;
        password = a.access.protocol_password;
        multiplexing = default_string s.mieru.multiplexing "MULTIPLEXING_HIGH";
        udp_over_tcp = none;
        tls_enabled = none;
      }

  abbrev pub hiddify_naive : AccessWithNode → ℕ → HiddifyOutbound
  hiddify_naive a i = record {
    kind = "naive";
    tag = hiddify_tag a i;
    server = node_server parse a;
    server_port = (protocol_settings_for_access a).naive_port;
    port_bindings = [];
    username = a.access.protocol_username;
    password = a.access.protocol_password;
    multiplexing = "";
    udp_over_tcp = some false;
    tls_enabled = some true;
  }

  -- From the index of the first assignment.
  unfoldable pub hiddify_from : ℕ → List AccessWithNode → List HiddifyOutbound
  unfolding node_server protocol_settings_for_access default_string itoa
  hiddify_from i [] = []
  hiddify_from i (a ∷ rows) =
      let later = hiddify_from (suc i) rows in
      if a.node_protocol_type == "mieru"
      then hiddify_mieru a i ∷ later
      else if a.node_protocol_type == "naive"
      then hiddify_naive a i ∷ later
      else later

  unfoldable pub build_hiddify_json : List AccessWithNode → List HiddifyOutbound
  unfolding hiddify_from
  build_hiddify_json rows = hiddify_from 0 rows
