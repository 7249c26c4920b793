-- ===== src/Telemetry/Pages.antt =====
-- internal/telemetry/service.go: the sessions of a node, of a user and of all nodes. The workers of
-- fetchNodes fill one slot for each node; here the slots are filled in the order of the nodes. A later
-- entry of a map replaces an earlier one with its key, so a map is its entries, the last one first.
pub mod Assigned
pub mod Own
pub mod Ready
pub mod Answered
use vetka_backend_panel.Prelude.{
  String, Bool, true, false, Option, none, some, List, [], ◌∷◌, ◌++◌, if◌then◌else◌,
}
use vetka_backend_panel.Prelude.Effects.{Result, Action, ◌>>=◌, pure, gets, attempt}
use vetka_backend_panel.Users.Models.{User}
use vetka_backend_panel.Users.Updates
use vetka_backend_panel.Users.Lookups.{listed, session_lookup_for_user, session_lookup_for_nodes}
use vetka_backend_panel.Nodes.Models.{Node}
use vetka_backend_panel.Nodes.Repository
use vetka_backend_panel.Nodes.Repository.{find_node}
use vetka_backend_panel.Telemetry.Models.{
  TelemetryResponse, SessionLookup, SessionView, NodeCollectorView, Summary, Query,
}
use vetka_backend_panel.Telemetry.Resolve.{FallbackIndex, build_fallback_index}
use vetka_backend_panel.Telemetry.Views.{skip_node, skipped_view, answered_view, base_view}
use vetka_backend_panel.Telemetry.Lists.{filter_sessions, sort_sessions, build_summary}
use vetka_backend_panel.World.{World}

pub record NodeSessionsResult : Type 0 where
  pub node : NodeCollectorView
  pub include_recent : Bool

pub record UserSessionsResult : Type 0 where
  pub rows : List SessionView
  pub nodes : List NodeCollectorView
  pub summary : Summary
  pub include_recent : Bool

pub record AllSessionsResult : Type 0 where
  pub rows : List SessionView
  pub nodes : List NodeCollectorView
  pub summary : Summary
  pub include_recent : Bool

-- `m[x.ID] = x` for each element in turn, before the entries that are there.
unfoldable pub map_from : {A : Type 0} → List A → List A → List A
map_from entries [] = entries
map_from entries (x ∷ xs) = map_from (x ∷ entries) xs

unfoldable pub collect_node_ids : List Node → List String
collect_node_ids [] = []
collect_node_ids (n ∷ ns) = n.id ∷ collect_node_ids ns

abbrev pub next_node : Bool → Option Node → Option Node
next_node true found = none
next_node false found = found

abbrev pub seen_after : Option Node → String → List String → List String
seen_after none id seen = seen
seen_after (some n) id seen = id ∷ seen

abbrev pub target_before : Option Node → List Node → List Node
target_before none ns = ns
target_before (some n) ns = n ∷ ns

-- The loop over the lookups of a user: each of its nodes once.
unfoldable pub target_nodes : List Node → List String → List SessionLookup → List Node
unfolding listed find_node
target_nodes node_map seen [] = []
target_nodes node_map seen (l ∷ ls) =
    let node = next_node (listed l.node_id seen) (find_node l.node_id node_map) in
    target_before node (target_nodes node_map (seen_after node l.node_id seen) ls)

-- `rows = append(rows, nodeView.Sessions...)`
unfoldable pub rows_of : List NodeCollectorView → List SessionView
rows_of [] = []
rows_of (v ∷ vs) = v.sessions ++ rows_of vs

abbrev pub canceled_view : Node → NodeCollectorView
canceled_view node = record (base_view node) {
  collector_status = "unavailable";
  error = "telemetry request canceled";
}

abbrev pub user_result : Bool → List NodeCollectorView → UserSessionsResult
user_result recent views =
    let rows = sort_sessions (rows_of views) in
    record {
      rows = rows;
      nodes = views;
      summary = build_summary rows views;
      include_recent = recent;
    }

abbrev pub all_result : Query → List NodeCollectorView → AllSessionsResult
all_result query views =
    let rows = sort_sessions (filter_sessions (rows_of views) query) in
    record {
      rows = rows;
      nodes = views;
      summary = build_summary rows views;
      include_recent = query.include_recent;
    }

-- The agents are an interface of the service. `canceled` tells whether the select of fetchNodes takes
-- the case of a context that is done, `parse` is the parser of identifiers.
module _ (telemetry_sessions : Node → Bool → Action World TelemetryResponse)
    (canceled : World → Bool) where
  module _ (recent : Bool) (user_map : List User) (assignments : FallbackIndex)
      (strict : Bool) where
    -- `fetchNodeView` with its request: a node that is skipped is not asked.
    abbrev pub fetch_unless : Option String → Node → Action World NodeCollectorView
    fetch_unless (some reason) node = pure (skipped_view node reason)
    fetch_unless none node = do
      answer ← attempt (telemetry_sessions node recent)
      pure (answered_view node answer user_map assignments strict)

    unfoldable pub fetch_slot : Node → Action World NodeCollectorView
    unfolding skip_node ◌>>=◌
    fetch_slot node = do
      done ← gets canceled
      if done then pure (canceled_view node) else fetch_unless (skip_node node) node

    unfoldable pub fetch_nodes : List Node → Action World (List NodeCollectorView)
    unfolding fetch_slot ◌>>=◌
    fetch_nodes [] = pure []
    fetch_nodes (n ∷ ns) = do view ← fetch_slot n; views ← fetch_nodes ns; pure (view ∷ views)

  module _ (parse : String → Result String) where
    unfoldable pub node_sessions : String → Bool → Action World NodeSessionsResult
    unfolding ◌>>=◌ map_from skip_node session_lookup_for_nodes build_fallback_index sort_sessions
    node_sessions node_id recent = do
      node ← Repository.get node_id
      users ← Updates.list
      lookups ← session_lookup_for_nodes parse (node.id ∷ [])
      view ←
          fetch_unless recent (map_from [] users) (build_fallback_index lookups) false
            (skip_node node) node
      pure (record {
        node = record view { sessions = sort_sessions view.sessions };
        include_recent = recent;
      })

    unfoldable pub user_sessions : String → Bool → Action World UserSessionsResult
    unfolding ◌>>=◌ map_from collect_node_ids target_nodes fetch_nodes session_lookup_for_user
    user_sessions user_id recent = do
      known ← Updates.get user_id
      lookups ← session_lookup_for_user user_id
      nodes ← Repository.list
      let targets = target_nodes (map_from [] nodes) [] lookups
      node_lookups ← session_lookup_for_nodes parse (collect_node_ids targets)
      user ← Updates.get user_id
      views ← fetch_nodes recent (user ∷ []) (build_fallback_index node_lookups) true targets
      pure (user_result recent views)

    unfoldable pub all_sessions : Query → Action World AllSessionsResult
    unfolding ◌>>=◌ map_from collect_node_ids fetch_nodes
    all_sessions query = do
      nodes ← Repository.list
      users ← Updates.list
      lookups ← session_lookup_for_nodes parse (collect_node_ids nodes)
      views ←
          fetch_nodes query.include_recent (map_from [] users) (build_fallback_index lookups) false
            nodes
      pure (all_result query views)
