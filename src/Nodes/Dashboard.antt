-- ===== src/Nodes/Dashboard.antt =====
-- internal/nodes/ui_queries.go: the counts of the dashboard and the users of each node.
pub mod Shares
use vetka_backend_panel.Prelude.{
  ℕ, String, Bool, true, false, not, ◌&&◌, ◌||◌, List, ◌==◌, leb, keep_if, length,
}
use vetka_backend_panel.Prelude.Effects.{ok, Action}
use vetka_backend_panel.Nodes.Models.{Node, SyncEvent}
use vetka_backend_panel.World.{World, statement}

pub record DashboardStats : Type 0 where
  pub total : ℕ
  pub connected : ℕ
  pub planned : ℕ
  pub unreachable : ℕ
  pub disabled : ℕ
  pub mieru : ℕ
  pub naive : ℕ
  pub recent_sync_errors : ℕ

-- `count(*) filter (where …)`
abbrev pub count : {A : Type 0} → (A → Bool) → List A → ℕ
count p rows = length (keep_if p rows)

abbrev pub is_shown : String → Node → Bool
is_shown state n = n.enabled && n.setup_state == state

abbrev pub is_disabled : Node → Bool
is_disabled n = not n.enabled || n.setup_state == "disabled"

abbrev pub has_protocol : String → Node → Bool
has_protocol protocol n = n.protocol_type == protocol

abbrev pub is_recent_error : ℕ → SyncEvent → Bool
is_recent_error since e = leb since e.created_at && not (e.status == "ok")

abbrev pub stats_of : ℕ → World → DashboardStats
stats_of since w = record {
  total = length w.nodes;
  connected = count (is_shown "connected") w.nodes;
  planned = count (is_shown "planned") w.nodes;
  unreachable = count (is_shown "unreachable") w.nodes;
  disabled = count is_disabled w.nodes;
  mieru = count (has_protocol "mieru") w.nodes;
  naive = count (has_protocol "naive") w.nodes;
  recent_sync_errors = count (is_recent_error since) w.events;
}

unfoldable pub dashboard_stats : ℕ → Action World DashboardStats
unfolding statement
dashboard_stats since = statement λ w. (ok (stats_of since w), w)
