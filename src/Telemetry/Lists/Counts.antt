-- ===== src/Telemetry/Lists/Counts.antt =====
-- The counts of the summary of internal/telemetry/service.go.
use vetka_backend_panel.Prelude.{◌+◌, ◌≤◌, List, [], ◌∷◌, arith, length}
use vetka_backend_panel.Telemetry.Models.{SessionView, NodeCollectorView}
use vetka_backend_panel.Telemetry.Lists.{count_rows, count_nodes, build_summary}

count_rows-le : (rows : List SessionView) → length (count_rows rows).1 ≤ (count_rows rows).0
unfolding count_rows
count_rows-le [] = omega arith
count_rows-le (r ∷ rows) = ground (arith, count_rows-le rows)

count_rows-length : (rows : List SessionView) → (count_rows rows).0 ≤ length rows
unfolding count_rows
count_rows-length [] = omega arith
count_rows-length (r ∷ rows) = ground (arith, count_rows-length rows)

count_nodes-le :
    (nodes : List NodeCollectorView) → (count_nodes nodes).0 + (count_nodes nodes).1 ≤ length nodes
unfolding count_nodes
count_nodes-le [] = omega arith
count_nodes-le (n ∷ nodes) = ground (arith, count_nodes-le nodes)

-- The summary counts no more addresses than active sessions, no more active sessions than rows, and each
-- node at most once among those that are fine and those with an issue.
pub build_summary_lem :
    (rows : List SessionView) (nodes : List NodeCollectorView)
    → ((build_summary rows nodes).unique_active_ips ≤ (build_summary rows nodes).active_sessions)
      × ((build_summary rows nodes).active_sessions ≤ length rows)
      × ((build_summary rows nodes).collectors_issues + (build_summary rows nodes).collectors_ok
          ≤ length nodes)
unfolding build_summary
build_summary_lem rows nodes = (count_rows-le rows, count_rows-length rows, count_nodes-le nodes)
