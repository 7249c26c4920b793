-- ===== src/Telemetry/Views.antt =====
-- internal/telemetry/service.go: what is shown of one node. The answer of the agent is a result.
use mathlib.Core.List
use vetka_backend_panel.Prelude.{
  String, Bool, true, false, ◌||◌, Option, none, some, List, [], ◌∷◌, ◌==◌, if◌then◌else◌,
}
use vetka_backend_panel.Prelude.Text.{to_lower, trim_space}
use vetka_backend_panel.Prelude.Effects.{Result, ok, err}
use vetka_backend_panel.Security.{mask_secret}
use vetka_backend_panel.Users.Models.{User}
use vetka_backend_panel.Nodes.Models.{Node}
use vetka_backend_panel.Subscriptions.Url.{bytes}
use vetka_backend_panel.Telemetry.Models.{
  TelemetryCapabilities, TelemetrySession, TelemetryResponse, SessionView, NodeCollectorView,
}
use vetka_backend_panel.Telemetry.Resolve.{
  FallbackIndex, Resolution, excluded, unknown, matched, resolve_session_user,
}

-- The reason why a node is skipped, if it is.
unfoldable pub skip_node : Node → Option String
unfolding trim_space
skip_node node =
    if node.setup_state == "planned"
    then some "planned"
    else if trim_space node.api_url == ""
    then some "missing_api_url"
    else if trim_space node.node_id == ""
    then some "missing_node_id"
    else if trim_space node.node_secret == ""
    then some "missing_node_secret"
    else none

unfoldable pub collector_status_of : String → String
collector_status_of s =
    if s == "ok"
    then "ok"
    else if s == "partial"
    then "partial"
    else if s == "disabled"
    then "disabled"
    else "unavailable"

unfoldable pub normalized_collector_status : String → String
unfolding collector_status_of to_lower trim_space
normalized_collector_status value = collector_status_of (to_lower (trim_space value))

unfoldable pub configuration_issue_for_reason : String → String
configuration_issue_for_reason reason =
    if reason == "missing_api_url" || reason == "missing_node_id" || reason == "missing_node_secret"
    then reason
    else ""

abbrev pub ptr_string : Option String → String
ptr_string none = ""
ptr_string (some s) = s

unfoldable pub anonymous_view : Node → TelemetrySession → SessionView
unfolding mask_secret bytes trim_space to_lower
anonymous_view node session = record {
  node_db_id = node.id;
  node_id = node.node_id;
  node_name = node.name;
  node_protocol = node.protocol_type;
  backend_user_id = "";
  backend_username = "";
  backend_display_name = none;
  user_known = false;
  masked_protocol_username = mask_secret (bytes session.protocol_username);
  client_ip = trim_space (ptr_string session.client_ip);
  active = session.active;
  first_seen_at = session.first_seen_at;
  last_seen_at = session.last_seen_at;
  upload_bytes = session.upload_bytes;
  download_bytes = session.download_bytes;
  source = session.source;
  traffic_scope = session.traffic_scope;
  user_present_in_cache = session.user_present_in_cache;
  ip_observed = session.ip_observed;
  traffic_observed = session.traffic_observed;
  search_protocol_username = to_lower (trim_space session.protocol_username);
  search_backend_display = "";
}

unfoldable pub build_session_view : Node → TelemetrySession → Option User → SessionView
unfolding anonymous_view trim_space to_lower
build_session_view node session none = anonymous_view node session
build_session_view node session (some u) = record (anonymous_view node session) {
  backend_user_id = u.id;
  backend_username = u.username;
  backend_display_name = u.display_name;
  user_known = true;
  search_backend_display = to_lower (trim_space (ptr_string u.display_name));
}

-- The views of one session: none if it is left out.
unfoldable pub view_of : Node → TelemetrySession → Resolution → List SessionView
unfolding build_session_view
view_of node session excluded = []
view_of node session unknown = build_session_view node session none ∷ []
view_of node session (matched u) = build_session_view node session (some u) ∷ []

unfoldable pub views_of :
    Node → List TelemetrySession → List User → FallbackIndex → Bool → List SessionView
unfolding view_of resolve_session_user
views_of node [] us index strict = []
views_of node (s ∷ ss) us index strict =
    List.◌++◌ (view_of node s (resolve_session_user node s us index strict))
      (views_of node ss us index strict)

abbrev pub no_capabilities : TelemetryCapabilities
no_capabilities = record {
  client_ip = false;
  per_user_activity = false;
  traffic_counters = false;
  first_seen = false;
  last_seen = false;
}

abbrev pub base_view : Node → NodeCollectorView
base_view node = record {
  node_db_id = node.id;
  node_id = node.node_id;
  node_name = node.name;
  node_protocol = node.protocol_type;
  node_enabled = node.enabled;
  collector_status = "";
  last_successful_collection_at = none;
  capabilities = no_capabilities;
  warnings = [];
  error = "";
  configuration_issue = "";
  sessions = [];
  skipped_reason = "";
}

unfoldable pub skipped_view : Node → String → NodeCollectorView
unfolding configuration_issue_for_reason
skipped_view node reason = record (base_view node) {
  collector_status = "disabled";
  skipped_reason = reason;
  configuration_issue = configuration_issue_for_reason reason;
}

unfoldable pub answered_view :
    Node → Result TelemetryResponse → List User → FallbackIndex → Bool → NodeCollectorView
unfolding normalized_collector_status views_of
answered_view node (err e) us index strict = record (base_view node) {
  collector_status = "unavailable";
  error = e;
}
answered_view node (ok r) us index strict = record (base_view node) {
  collector_status = normalized_collector_status r.collector_status;
  last_successful_collection_at = r.last_successful_collection_at;
  capabilities = r.capabilities;
  warnings = r.warnings;
  sessions = views_of node r.sessions us index strict;
}

abbrev pub view_for :
    Option String
    → Node
    → Result TelemetryResponse
    → List User
    → FallbackIndex
    → Bool
    → NodeCollectorView
view_for none node answer us index strict = answered_view node answer us index strict
view_for (some reason) node answer us index strict = skipped_view node reason

-- `fetchNodeView`, with the answer that the agent would give; a skipped node is not asked.
unfoldable pub fetch_node_view :
    Node → Result TelemetryResponse → List User → FallbackIndex → Bool → NodeCollectorView
unfolding skip_node skipped_view answered_view
fetch_node_view node answer us index strict = view_for (skip_node node) node answer us index strict
