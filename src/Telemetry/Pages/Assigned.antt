-- ===== src/Telemetry/Pages/Assigned.antt =====
-- The rows of one user among the views of internal/telemetry/service.go, and the nodes of its lookups.
use vetka_backend_panel.Prelude.{
  ◌≡◌, refl, ◌∙◌, sym, ap, String, Bool, true, false, ◌&&◌, ◌||◌, Option, none, some, List, [], ◌∷◌,
  ◌==◌, arith, eq_iff, map, keep_if, keep_if-All, if◌then◌else◌, All, All-mono, All-append,
  sort_stable-All,
}
use mathlib.Core.Path.{subst}
use vetka_backend_panel.Prelude.Effects.{Result, ok, err}
use vetka_backend_panel.Users.Models.{User, Access}
use vetka_backend_panel.Users.Repository.{find_user}
use vetka_backend_panel.Users.Lookups.{listed, lookup_of}
use vetka_backend_panel.Nodes.Models.{Node}
use vetka_backend_panel.Nodes.Repository.{find_node}
use vetka_backend_panel.Telemetry.Models.{
  TelemetryResponse, TelemetrySession, SessionLookup, SessionView, NodeCollectorView,
}
use vetka_backend_panel.Telemetry.Resolve.{FallbackIndex, Resolution, excluded, unknown, matched}
use vetka_backend_panel.Telemetry.Resolve.Scope.{InScope, resolve_session_user-InScope}
use vetka_backend_panel.Telemetry.Views.{view_of, views_of, answered_view}
use vetka_backend_panel.Telemetry.Lists.{session_less, sort_sessions}
use vetka_backend_panel.Telemetry.Lists.Sorting.{InOrder, sort_sessions_lem}
use vetka_backend_panel.Telemetry.Pages.{
  UserSessionsResult, target_nodes, next_node, seen_after, target_before, rows_of, user_result,
}

or_unit : User → Option User → User
or_unit u none = u
or_unit u (some v) = v

picked : (u v : User) (b : Bool) → (if b then some u else none) ≡ some v → u ≡ v
unfolding or_unit
picked u v true h = ap (or_unit u) h
picked u v false h = ap (or_unit u) h

-- A row of a session of a user, on a node.
abbrev Of : String → String → SessionView → Type 0
Of user node row = (row.backend_user_id ≡ user) × (row.node_db_id ≡ node)

view_of-Of :
    (node : Node) (s : TelemetrySession) (u : User) (r : Resolution)
    → InScope true (u ∷ []) r
    → All (Of u.id node.id) (view_of node s r)
unfolding view_of find_user
view_of-Of node s u excluded h = tt
view_of-Of node s u unknown h = absurd (cc)
view_of-Of node s u (matched v) h = ((ap (λ x. x.id) (sym (picked u v (u.id == v.id) h)), refl), tt)

views_of-Of :
    (node : Node) (ss : List TelemetrySession) (u : User) (index : FallbackIndex)
    → All (Of u.id node.id) (views_of node ss (u ∷ []) index true)
unfolding views_of
views_of-Of node [] u index = tt
views_of-Of node (s ∷ ss) u index =
    All-append (Of u.id node.id) (view_of node s _) (views_of node ss _ index true)
      (view_of-Of node s u _ (resolve_session_user-InScope node s (u ∷ []) index true))
      (views_of-Of node ss u index)

answered_view-Of :
    (node : Node) (answer : Result TelemetryResponse) (u : User) (index : FallbackIndex)
    → All (Of u.id node.id) (answered_view node answer (u ∷ []) index true).sessions
unfolding answered_view
answered_view-Of node (err e) u index = tt
answered_view-Of node (ok r) u index = views_of-Of node r.sessions u index

unfoldable pub has_access : String → String → List Access → Bool
has_access user node [] = false
has_access user node (a ∷ rows) =
    (a.user_id == user && a.node_id == node) || has_access user node rows

or_left : (b c : Bool) → b ≡ true → (b || c) ≡ true
or_left b c h = rw h refl

or_right : (b c : Bool) → c ≡ true → (b || c) ≡ true
or_right true c h = refl
or_right false c h = h

access_self : (rows : List Access) → All (λ a. has_access a.user_id a.node_id rows ≡ true) rows
unfolding has_access
access_self [] = tt
access_self (a ∷ rows) = (
  or_left (a.user_id == a.user_id && a.node_id == a.node_id) (has_access a.user_id a.node_id rows)
      (ground (arith, eq_iff a.user_id a.user_id, eq_iff a.node_id a.node_id)),
  All-mono rows (λ x h. or_right _ _ h) (access_self rows),
)

module _ (user : String) (rows : List Access) where
  -- A node that the user has an access row for.
  abbrev pub Assigned : String → Type 0
  Assigned node = has_access user node rows ≡ true

  lookups-Assigned :
      (some_rows : List Access)
      → All (λ a. Assigned a.node_id) some_rows
      → All (λ l. Assigned l.node_id) (map lookup_of some_rows)
  lookups-Assigned [] h = tt
  lookups-Assigned (a ∷ more) h = (h.0, lookups-Assigned more h.1)

  pub own_lookups-Assigned :
      All (λ l. Assigned l.node_id) (map lookup_of (keep_if (λ a. a.user_id == user) rows))
  own_lookups-Assigned = lookups-Assigned _ (
      keep_if-All (λ a. Assigned a.node_id) {Q = λ a. has_access a.user_id a.node_id rows ≡ true}
        (λ a. a.user_id == user) rows
        (λ a mine h.
          subst (λ u. has_access u a.node_id rows ≡ true) ((eq_iff a.user_id user).0 mine) h)
        (access_self rows))

  find_node-key : (id : String) (ns : List Node) (n : Node) → find_node id ns ≡ some n → n.id ≡ id
  unfolding find_node
  find_node-key id [] n h = cc
  find_node-key id (m ∷ ns) n h = ground (arith, eq_iff m.id id, find_node-key id ns n)

  target_before-Assigned :
      (o : Option Node) (ns : List Node)
      → ((n : Node) → o ≡ some n → Assigned n.id)
      → All (λ n. Assigned n.id) ns
      → All (λ n. Assigned n.id) (target_before o ns)
  target_before-Assigned none ns h k = k
  target_before-Assigned (some n) ns h k = (h n refl, k)

  next_node-Assigned :
      (b : Bool) (id : String) (ns : List Node) (n : Node)
      → Assigned id
      → next_node b (find_node id ns) ≡ some n
      → Assigned n.id
  next_node-Assigned true id ns n h e = absurd (cc)
  next_node-Assigned false id ns n h e = subst Assigned (sym (find_node-key id ns n e)) h

  pub target_nodes-Assigned :
      (ns : List Node) (seen : List String) (ls : List SessionLookup)
      → All (λ l. Assigned l.node_id) ls
      → All (λ n. Assigned n.id) (target_nodes ns seen ls)
  unfolding target_nodes
  target_nodes-Assigned ns seen [] h = tt
  target_nodes-Assigned ns seen (l ∷ ls) h =
      target_before-Assigned _ _ (λ n e. next_node-Assigned _ l.node_id ns n h.0 e)
        (target_nodes-Assigned ns
          (seen_after (next_node (listed l.node_id seen) (find_node l.node_id ns)) l.node_id seen)
          ls h.1)

  -- A row of a session of the user, on a node that it has an access row for.
  abbrev pub IsOwn : SessionView → Type 0
  IsOwn row = (row.backend_user_id ≡ user) × Assigned row.node_db_id

  abbrev pub OwnView : NodeCollectorView → Type 0
  OwnView v = All IsOwn v.sessions

  rows_of-IsOwn : (vs : List NodeCollectorView) → All OwnView vs → All IsOwn (rows_of vs)
  unfolding rows_of
  rows_of-IsOwn [] h = tt
  rows_of-IsOwn (v ∷ vs) h = All-append IsOwn v.sessions (rows_of vs) h.0 (rows_of-IsOwn vs h.1)

  pub answered_view-OwnView :
      (node : Node) (answer : Result TelemetryResponse) (u : User) (index : FallbackIndex)
      → u.id ≡ user
      → Assigned node.id
      → OwnView (answered_view node answer (u ∷ []) index true)
  answered_view-OwnView node answer u index mine assigned =
      All-mono _ (λ row h. (h.0 ∙ mine, subst Assigned (sym h.1) assigned))
        (answered_view-Of node answer u index)

  -- The rows are the user's own and in order, and so are the sessions of the nodes its own.
  abbrev pub OwnResult : UserSessionsResult → Type 0
  OwnResult r = All IsOwn r.rows × InOrder r.rows × All OwnView r.nodes

  pub user_result-OwnResult :
      (recent : Bool) (vs : List NodeCollectorView)
      → All OwnView vs
      → OwnResult (user_result recent vs)
  unfolding sort_sessions
  user_result-OwnResult recent vs h = (
    sort_stable-All IsOwn session_less (rows_of vs) (rows_of-IsOwn vs h),
    (sort_sessions_lem (rows_of vs)).0,
    h,
  )
