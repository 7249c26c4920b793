-- ===== src/Nodes/Dashboard/Shares.antt =====
-- The counts of the dashboard of internal/nodes/ui_queries.go add up to the number of nodes.
use vetka_backend_panel.Prelude.{
  ℕ, ◌+◌, String, Bool, true, false, ◌&&◌, ◌||◌, not, ◌≡◌, refl, ◌⊎◌, inl, inr, List, [], ◌∷◌, ◌==◌,
  arith, All, if◌then◌else◌, length,
}
use vetka_backend_panel.Prelude.Triples.{Post}
use vetka_backend_panel.Nodes.Models.{Node}
use vetka_backend_panel.Nodes.Dashboard
use vetka_backend_panel.Nodes.Dashboard.{DashboardStats}
use vetka_backend_panel.World.{World}
use vetka_backend_panel.World.Statements.{Triple-statement}

-- The check constraints on `setup_state` and `protocol_type`.
abbrev pub Checked : Node → Type 0
Checked n =
    ((n.setup_state ≡ "planned")
      ⊎ ((n.setup_state ≡ "connected")
          ⊎ ((n.setup_state ≡ "unreachable") ⊎ (n.setup_state ≡ "disabled"))))
    × ((n.protocol_type ≡ "mieru") ⊎ (n.protocol_type ≡ "naive"))

abbrev one : Bool → ℕ
one b = if b then 1 else 0

abbrev state_shares : Bool → String → ℕ
state_shares enabled state =
    one (enabled && state == "connected")
    + one (enabled && state == "planned")
    + one (enabled && state == "unreachable")
    + one (not enabled || state == "disabled")

state_share :
    (b : Bool) (s : String)
    → (s ≡ "planned") ⊎ ((s ≡ "connected") ⊎ ((s ≡ "unreachable") ⊎ (s ≡ "disabled")))
    → state_shares b s ≡ 1
state_share true s (inl h) = rw h refl
state_share true s (inr (inl h)) = rw h refl
state_share true s (inr (inr (inl h))) = rw h refl
state_share true s (inr (inr (inr h))) = rw h refl
state_share false s h = refl

protocol_share :
    (s : String) → (s ≡ "mieru") ⊎ (s ≡ "naive") → one (s == "mieru") + one (s == "naive") ≡ 1
protocol_share s (inl h) = rw h refl
protocol_share s (inr h) = rw h refl

states_sum :
    (ns : List Node)
    → All Checked ns
    → Dashboard.count (Dashboard.is_shown "connected") ns
        + Dashboard.count (Dashboard.is_shown "planned") ns
        + Dashboard.count (Dashboard.is_shown "unreachable") ns
        + Dashboard.count Dashboard.is_disabled ns
      ≡ length ns
states_sum [] h = refl
states_sum (n ∷ ns) h = ground (arith, state_share n.enabled n.setup_state h.0.0, states_sum ns h.1)

protocols_sum :
    (ns : List Node)
    → All Checked ns
    → Dashboard.count (Dashboard.has_protocol "mieru") ns
        + Dashboard.count (Dashboard.has_protocol "naive") ns
      ≡ length ns
protocols_sum [] h = refl
protocols_sum (n ∷ ns) h =
    ground (arith, protocol_share n.protocol_type h.0.1, protocols_sum ns h.1)

-- The counts by state, and those by protocol, add up to the number of nodes.
abbrev pub AddsUp : DashboardStats → World → Type 0
AddsUp s v =
    (s.connected + s.planned + s.unreachable + s.disabled ≡ s.total)
    × (s.mieru + s.naive ≡ s.total)
    × (s.total ≡ length v.nodes)

-- While all nodes are within the check constraints of the schema, the dashboard's four counts by state add
-- up to the number of nodes, and so do its two counts by protocol; a query that fails leaves them so.
pub dashboard_stats-AddsUp :
    (since : ℕ) (w : World)
    → All Checked w.nodes
    → Post AddsUp (λ v. All Checked v.nodes) (Dashboard.dashboard_stats since w)
unfolding Dashboard.dashboard_stats
dashboard_stats-AddsUp since w h =
    (Triple-statement AddsUp (λ v e ts k. k) _
        λ v k. (states_sum v.nodes k, protocols_sum v.nodes k, refl)).at
      w h
