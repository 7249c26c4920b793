-- ===== src/Telemetry/Lists.antt =====
-- internal/telemetry/service.go: filtering, ordering and counting sessions. Names are compared by code
-- points, which is the order of their bytes; a masked name is compared by its bytes.
pub mod Counts
pub mod Issues
pub mod Sorting
use vetka_backend_panel.Prelude.{
  ℕ, suc, ◌+◌, String, Bool, true, false, not, ◌&&◌, ◌||◌, Option, none, some, List, [], ◌∷◌, ◌==◌,
  if◌then◌else◌, ltb, nat_eq, keep_if, length, sort_stable,
}
use vetka_backend_panel.Prelude.Text.{to_lower, trim_space, contains}
use vetka_backend_panel.Prelude.Order.{less_text, less_bytes}
use vetka_backend_panel.Subscriptions.Url.{bytes}
use vetka_backend_panel.Telemetry.Models.{Query, Summary, SessionView, NodeCollectorView}

unfoldable pub matches_search : SessionView → String → Bool
unfolding to_lower contains
matches_search row search =
    contains (to_lower row.backend_username) search
    || contains (to_lower row.search_backend_display) search
    || contains (to_lower row.node_name) search
    || contains (to_lower row.client_ip) search
    || contains (to_lower row.search_protocol_username) search

abbrev pub passes_status : String → Bool → Bool
passes_status status active =
    if status == "recent" then not active else if status == "all" then true else active

unfoldable pub is_listed : String → String → String → SessionView → Bool
unfolding matches_search to_lower
is_listed search protocol status row =
    (protocol == "" || protocol == "all" || to_lower row.node_protocol == protocol)
    && passes_status status row.active
    && (search == "" || matches_search row search)

-- `strings.ToLower(strings.TrimSpace(s))`
unfoldable pub folded : String → String
unfolding to_lower trim_space
folded s = to_lower (trim_space s)

unfoldable pub filter_sessions : List SessionView → Query → List SessionView
unfolding is_listed folded
filter_sessions rows query =
    keep_if (is_listed (folded query.search) (folded query.protocol) (folded query.status)) rows

-- A trimmed text of bytes is empty: only white space of one byte counts, a masked name has an asterisk.
unfoldable pub is_blank : List ℕ → Bool
is_blank [] = true
is_blank (b ∷ bs) = (nat_eq b 32 || (ltb 8 b && ltb b 14)) && is_blank bs

unfoldable pub shown_user : SessionView → List ℕ
unfolding trim_space bytes is_blank
shown_user row =
    if not (trim_space row.backend_username == "")
    then bytes row.backend_username
    else if not (is_blank row.masked_protocol_username)
    then row.masked_protocol_username
    else []

unfoldable pub less_names : SessionView → SessionView → Bool
unfolding less_bytes shown_user
less_names a b =
    if not (a.node_name == b.node_name)
    then less_text a.node_name b.node_name
    else less_bytes (shown_user a) (shown_user b)

abbrev pub less_seen : Option ℕ → Option ℕ → Bool → Bool
less_seen none none names = names
less_seen none (some t) names = false
less_seen (some s) none names = true
less_seen (some s) (some t) names = if nat_eq s t then names else ltb t s

-- The `less` of `sortSessions`.
unfoldable pub session_less : SessionView → SessionView → Bool
unfolding less_names
session_less a b =
    if (a.active && not b.active) || (not a.active && b.active)
    then a.active
    else less_seen a.last_seen_at b.last_seen_at (less_names a b)

unfoldable pub sort_sessions : List SessionView → List SessionView
unfolding session_less
sort_sessions rows = sort_stable session_less rows

abbrev pub trimmed_or_none : String → List String → List String
trimmed_or_none trimmed rest = if trimmed == "" then rest else trimmed ∷ rest

unfoldable pub normalized_warnings : List String → List String
unfolding trim_space
normalized_warnings [] = []
normalized_warnings (w ∷ ws) = trimmed_or_none (trim_space w) (normalized_warnings ws)

abbrev pub is_empty : {A : Type 0} → List A → Bool
is_empty [] = true
is_empty (x ∷ xs) = false

unfoldable pub status_issue : String → String
status_issue s =
    if s == "partial"
    then "collector_partial"
    else if s == "unavailable"
    then "collector_unavailable"
    else if s == "disabled"
    then "collector_disabled"
    else ""

abbrev pub is_missing : String → Bool
is_missing reason =
    reason == "missing_api_url" || reason == "missing_node_id" || reason == "missing_node_secret"

unfoldable pub node_issue_code : NodeCollectorView → String
unfolding normalized_warnings status_issue folded trim_space
node_issue_code node =
    if node.skipped_reason == "planned"
    then ""
    else if is_missing node.skipped_reason
    then node.skipped_reason
    else if not (trim_space node.error == "")
    then "collector_unavailable"
    else if not (is_empty (normalized_warnings node.warnings))
    then "collector_warning"
    else if not (trim_space node.configuration_issue == "")
    then node.configuration_issue
    else status_issue (folded node.collector_status)

unfoldable pub node_has_issue : NodeCollectorView → Bool
unfolding node_issue_code
node_has_issue node = not (node_issue_code node == "")

unfoldable pub has_ip : String → List String → Bool
has_ip ip [] = false
has_ip ip (x ∷ xs) = x == ip || has_ip ip xs

abbrev pub add_ip : String → List String → List String
add_ip ip ips = if has_ip ip ips then ips else ip ∷ ips

-- The loop over the rows: the active ones, and their addresses as a set.
unfoldable pub count_rows : List SessionView → ℕ × List String
unfolding has_ip
count_rows [] = (0, [])
count_rows (row ∷ rows) =
    let (n, ips) = count_rows rows in
    if row.active
    then (n + 1, if row.client_ip == "" then ips else add_ip row.client_ip ips)
    else (n, ips)

-- The nodes with an issue, and the others whose collector is "ok".
unfoldable pub count_nodes : List NodeCollectorView → ℕ × ℕ
unfolding node_has_issue
count_nodes [] = (0, 0)
count_nodes (node ∷ nodes) =
    let (issues, fine) = count_nodes nodes in
    if node_has_issue node
    then (issues + 1, fine)
    else (issues, if node.collector_status == "ok" then fine + 1 else fine)

unfoldable pub build_summary : List SessionView → List NodeCollectorView → Summary
unfolding count_rows count_nodes
build_summary rows nodes = record {
  active_sessions = (count_rows rows).0;
  unique_active_ips = length (count_rows rows).1;
  collectors_ok = (count_nodes nodes).1;
  collectors_issues = (count_nodes nodes).0;
}
