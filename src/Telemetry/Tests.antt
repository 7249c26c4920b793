-- ===== src/Telemetry/Tests.antt =====
-- Runs of internal/telemetry on small data.
use vetka_backend_panel.Prelude.{
  String, Bool, true, false, ◌≡◌, refl, none, some, List, [], ◌∷◌, ◌==◌, length, keep_if, map,
}
use vetka_backend_panel.Prelude.Int.{pos}
use vetka_backend_panel.Prelude.Effects.{ok, err, Action}
use vetka_backend_panel.Users.Models.{User}
use vetka_backend_panel.Nodes.Models.{Node}
use vetka_backend_panel.Telemetry.Models.{
  TelemetryResponse, TelemetrySession, SessionView, SessionLookup,
}
use vetka_backend_panel.Telemetry.Resolve.{
  resolve_session_user, build_fallback_index, items_of, users_of, has_user,
}
use vetka_backend_panel.Telemetry.Resolve.Index.{some_names, build_fallback_index_lem}
use vetka_backend_panel.Telemetry.Resolve.Scope.{resolve_session_user-sole}
use vetka_backend_panel.Telemetry.Views.{answered_view, no_capabilities, build_session_view}
use vetka_backend_panel.Telemetry.Lists.{sort_sessions}
use vetka_backend_panel.Telemetry.Requests.{telemetry_sessions}
use vetka_backend_panel.Telemetry.Pages.{user_sessions, rows_of}
use vetka_backend_panel.Users.Updates
use vetka_backend_panel.Users.Lookups.{session_lookup_for_nodes}
use vetka_backend_panel.Nodes.Repository
use vetka_backend_panel.Telemetry.Pages.Assigned.{OwnResult}
use vetka_backend_panel.Telemetry.Pages.Own.{Anything, user_sessions-Own}
use vetka_backend_panel.Telemetry.Pages.Ready.{Impossible}
use vetka_backend_panel.Telemetry.Pages.Answered.{user_sessions-Answered}
use vetka_backend_panel.Nodes.Samples
use vetka_backend_panel.Users.Repository.{find_user}
use vetka_backend_panel.Nodes.Models.{reply}
use vetka_backend_panel.Nodes.Samples.{world, status_body}
use vetka_backend_panel.World.{World}
use vetka_backend_panel.Prelude.Triples.{Post}
use vetka_backend_panel.Telemetry.Lists.Sorting.{InOrder, sort_sessions_lem}

abbrev node : String → Node
node api_url = record {
  id = "row-1";
  node_id = "node-berlin";
  name = "Berlin";
  domain = "berlin.example";
  api_url = api_url;
  protocol_type = "naive";
  node_secret = "secret";
  enabled = true;
  setup_state = "connected";
  protocol_settings = record {
    mieru = record {
      ports = [];
      protocol = "";
      mtu = pos 0;
      multiplexing = "";
      handshake_mode = "";
      traffic_pattern = "";
      profile = "";
    };
    naive_port = pos 0;
  };
  desired_config_version = pos 4;
  last_applied_version = pos 4;
  last_seen_at = none;
  last_status = none;
  last_error = none;
  last_sync_at = none;
  created_at = 10;
  updated_at = 10;
}

abbrev session : Bool → TelemetrySession
session active = record {
  user_id = "";
  protocol_username = "u_1";
  user_present_in_cache = true;
  protocol = "naive";
  client_ip = some "10.0.0.1";
  first_seen_at = none;
  last_seen_at = some 50;
  upload_bytes = pos 1;
  download_bytes = pos 2;
  active = active;
  ip_observed = true;
  traffic_observed = true;
  source = "log";
  traffic_scope = "session";
}

abbrev anna : User
anna = record {
  id = "user-1";
  username = "anna";
  display_name = none;
  enabled = true;
  expires_at = none;
  expiry_synced_at = none;
  quota_mb = pos 0;
  subscription_token = "sub_1";
  notes = none;
  created_at = 20;
  updated_at = 20;
}

abbrev lookups : List SessionLookup
lookups =
    record { node_id = "row-1"; protocol_username = "u_1"; user_id = "user-1" }
    ∷ record { node_id = "row-1"; protocol_username = "u_2"; user_id = "user-2" }
    ∷ record { node_id = "row-1"; protocol_username = "u_1"; user_id = "user-1" }
    ∷ []

abbrev rows : List SessionView
rows =
    build_session_view (node "") (session false) none
    ∷ build_session_view (node "") (session true) (some anna)
    ∷ []

build_fallback_index_example :
    has_user "user-1" (users_of "u_1" (items_of "row-1" (build_fallback_index lookups)))
    ≡ some_names "row-1" "u_1" "user-1" lookups
build_fallback_index_example = build_fallback_index_lem "row-1" "u_1" "user-1" lookups

resolve_session_user-sole_example :
    some_names "row-1" "u_1" "user-2" lookups ≡ ("user-1" == "user-2")
unfolding resolve_session_user build_fallback_index
resolve_session_user-sole_example =
    resolve_session_user-sole (node "") (session true) (anna ∷ []) lookups true anna refl refl
      "user-2"

sort_sessions_example :
    InOrder (sort_sessions rows)
    × ((p : SessionView → Bool) → length (keep_if p (sort_sessions rows)) ≡ length (keep_if p rows))
sort_sessions_example = sort_sessions_lem rows

abbrev answer : TelemetryResponse
answer = record {
  ok = true;
  node_id = "node-berlin";
  protocol_type = "naive";
  generated_at = some 60;
  collector_status = "ok";
  session_ttl_seconds = pos 90;
  history_ttl_seconds = pos 900;
  last_successful_collection_at = some 60;
  capabilities = no_capabilities;
  warnings = [];
  sessions = session true ∷ session false ∷ [];
}

abbrev panel : World
panel = world (reply 200 status_body ∷ []) []

abbrev ask : Node → Bool → Action World TelemetryResponse
ask node recent = telemetry_sessions (λ body. ok answer) node recent

-- The two sessions of the user on its only node, the active one first.
shown_sessions :
    (let r = (user_sessions ask (λ w. false) ok "user-1" true panel).0 in
      elim r [ err e ↦ [] | ok page ↦ map (λ row. row.active) page.rows ])
    ≡ true ∷ false ∷ []
unfolding user_sessions telemetry_sessions Updates.get Repository.list session_lookup_for_nodes
    Repository.scan_node sort_sessions rows_of answered_view build_fallback_index
shown_sessions = refl

user_sessions-Own_example :
    Post
      (λ r s. OwnResult "user-1" panel.access r)
      Anything
      (user_sessions ask (λ w. false) ok "user-1" true panel)
user_sessions-Own_example = user_sessions-Own ask (λ w. false) ok "user-1" true panel

user_sessions-Answered_example :
    Post
      (λ r s. OwnResult "user-1" panel.access r)
      Impossible
      (user_sessions ask (λ w. false) ok "user-1" true panel)
unfolding find_user
user_sessions-Answered_example =
    user_sessions-Answered ask (λ w. false) ok "user-1" Samples.anna true panel
      (tt, refl, ((refl, refl), tt))
