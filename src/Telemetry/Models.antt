-- ===== src/Telemetry/Models.antt =====
-- The types of internal/telemetry/models.go, internal/nodes/telemetry_models.go and the lookups of
-- internal/users/ui_queries.go. A masked name is a sequence of bytes.
use vetka_backend_panel.Prelude.{ℕ, String, Bool, Option, List}
use vetka_backend_panel.Prelude.Int.{ℤ}

pub record TelemetryCapabilities : Type 0 where
  pub client_ip : Bool
  pub per_user_activity : Bool
  pub traffic_counters : Bool
  pub first_seen : Bool
  pub last_seen : Bool

pub record TelemetrySession : Type 0 where
  pub user_id : String
  pub protocol_username : String
  pub user_present_in_cache : Bool
  pub protocol : String
  pub client_ip : Option String
  pub first_seen_at : Option ℕ
  pub last_seen_at : Option ℕ
  pub upload_bytes : ℤ
  pub download_bytes : ℤ
  pub active : Bool
  pub ip_observed : Bool
  pub traffic_observed : Bool
  pub source : String
  pub traffic_scope : String

pub record TelemetryResponse : Type 0 where
  pub ok : Bool
  pub node_id : String
  pub protocol_type : String
  pub generated_at : Option ℕ
  pub collector_status : String
  pub session_ttl_seconds : ℤ
  pub history_ttl_seconds : ℤ
  pub last_successful_collection_at : Option ℕ
  pub capabilities : TelemetryCapabilities
  pub warnings : List String
  pub sessions : List TelemetrySession

pub record Query : Type 0 where
  pub include_recent : Bool
  pub search : String
  pub protocol : String
  pub status : String

pub record Summary : Type 0 where
  pub active_sessions : ℕ
  pub unique_active_ips : ℕ
  pub collectors_ok : ℕ
  pub collectors_issues : ℕ

pub record SessionView : Type 0 where
  pub node_db_id : String
  pub node_id : String
  pub node_name : String
  pub node_protocol : String
  pub backend_user_id : String
  pub backend_username : String
  pub backend_display_name : Option String
  pub user_known : Bool
  pub masked_protocol_username : List ℕ
  pub client_ip : String
  pub active : Bool
  pub first_seen_at : Option ℕ
  pub last_seen_at : Option ℕ
  pub upload_bytes : ℤ
  pub download_bytes : ℤ
  pub source : String
  pub traffic_scope : String
  pub user_present_in_cache : Bool
  pub ip_observed : Bool
  pub traffic_observed : Bool
  pub search_protocol_username : String
  pub search_backend_display : String

pub record NodeCollectorView : Type 0 where
  pub node_db_id : String
  pub node_id : String
  pub node_name : String
  pub node_protocol : String
  pub node_enabled : Bool
  pub collector_status : String
  pub last_successful_collection_at : Option ℕ
  pub capabilities : TelemetryCapabilities
  pub warnings : List String
  pub error : String
  pub configuration_issue : String
  pub sessions : List SessionView
  pub skipped_reason : String

-- The fields of `SessionLookup` that the service reads.
pub record SessionLookup : Type 0 where
  pub node_id : String
  pub protocol_username : String
  pub user_id : String
