-- ===== src/Telemetry/Pages/Own.antt =====
-- Whose sessions the page of a user of internal/telemetry/service.go shows.
use vetka_backend_panel.Prelude.{
  ◌≡◌, refl, sym, String, Bool, true, Option, none, some, List, [], ◌∷◌, ◌==◌, map, keep_if, All,
}
use mathlib.Core.Path.{subst}
use vetka_backend_panel.Prelude.Effects.{Result, ok, err, Action, ◌>>=◌, pure, gets}
use vetka_backend_panel.Prelude.Triples.{
  Post, Triple, Triple-bind, Triple-pure, Triple-if, Triple-weaken,
}
use vetka_backend_panel.Users.Models.{User, Access}
use vetka_backend_panel.Users.Repository.{find_user}
use vetka_backend_panel.Users.Updates
use vetka_backend_panel.Users.Lookups.{lookup_of, session_lookup_for_user, session_lookup_for_nodes}
use vetka_backend_panel.Nodes.Models.{Node}
use vetka_backend_panel.Nodes.Repository
use vetka_backend_panel.Nodes.Repository.{find_node}
use vetka_backend_panel.Telemetry.Models.{TelemetryResponse}
use vetka_backend_panel.Telemetry.Resolve.{FallbackIndex, build_fallback_index}
use vetka_backend_panel.Telemetry.Resolve.Scope.{find_user-key}
use vetka_backend_panel.Telemetry.Views.{skip_node, skipped_view}
use vetka_backend_panel.Telemetry.Pages.{
  map_from, collect_node_ids, target_nodes, canceled_view, fetch_unless, fetch_slot, fetch_nodes,
  user_result, user_sessions,
}
use vetka_backend_panel.Telemetry.Pages.Assigned.{
  Assigned, OwnView, OwnResult, own_lookups-Assigned, target_nodes-Assigned, answered_view-OwnView,
  user_result-OwnResult,
}
use vetka_backend_panel.World.{World}
use vetka_backend_panel.World.Statements.{Triple-statement}

abbrev pub Anything : World → Type 0
Anything w = Unit

module _ {A : Type 0} where
  Post-given :
      (Q : A → World → Type 0) (r : Result A) (s : World)
      → ((a : A) → Q a s)
      → Post Q Anything (r, s)
  Post-given Q (ok a) s h = h a
  Post-given Q (err e) s h = tt

  -- An action that nothing is asked of.
  Triple-Anything : {P : World → Type 0} (m : Action World A) → Triple P m (λ a. Anything) Anything
  Triple-Anything m = record {
    at = λ s p. let (r, s') = m s in Post-given (λ a. Anything) r s' (λ a. tt);
  }

  Triple-fact :
      {C : Type 0} (m : Action World A) {Q : A → World → Type 0}
      → (C → Triple Anything m Q Anything)
      → Triple (λ s. C) m Q Anything
  Triple-fact m h = record { at = λ s c. (h c).at s tt }

module _ (telemetry_sessions : Node → Bool → Action World TelemetryResponse)
    (canceled : World → Bool) (user : String) (rows : List Access) where
  module _ (recent : Bool) (u : User) (index : FallbackIndex) (mine : u.id ≡ user) where
    fetch_unless-OwnView :
        (skipped : Option String) (node : Node)
        → Assigned user rows node.id
        → Triple Anything
            (fetch_unless telemetry_sessions canceled recent (u ∷ []) index true skipped node)
            (λ v s. OwnView user rows v)
            Anything
    unfolding skipped_view
    fetch_unless-OwnView (some reason) node h = Triple-pure _ λ s p. tt
    fetch_unless-OwnView none node h =
        Triple-bind (λ a. Anything) _ _ (Triple-Anything _)
          λ answer. Triple-pure _ λ s p. answered_view-OwnView user rows node answer u index mine h

    fetch_slot-OwnView :
        (node : Node)
        → Assigned user rows node.id
        → Triple Anything
            (fetch_slot telemetry_sessions canceled recent (u ∷ []) index true node)
            (λ v s. OwnView user rows v)
            Anything
    unfolding fetch_slot
    fetch_slot-OwnView node h =
        Triple-bind (λ a. Anything) (gets canceled) _ (Triple-Anything _)
          λ done.
            Triple-if done (pure (canceled_view node)) _
              (λ e. Triple-pure (canceled_view node) λ s p. tt)
              (λ e. fetch_unless-OwnView (skip_node node) node h)

    fetch_nodes-OwnView :
        (ns : List Node)
        → All (λ n. Assigned user rows n.id) ns
        → Triple Anything
            (fetch_nodes telemetry_sessions canceled recent (u ∷ []) index true ns)
            (λ vs s. All (OwnView user rows) vs)
            Anything
    unfolding fetch_nodes
    fetch_nodes-OwnView [] h = Triple-pure _ λ s p. tt
    fetch_nodes-OwnView (n ∷ ns) h =
        Triple-bind (λ v s. OwnView user rows v) _ _ (fetch_slot-OwnView n h.0)
          λ v. Triple-fact _ λ own.
            Triple-bind (λ vs s. All (OwnView user rows) vs) _ _ (fetch_nodes-OwnView ns h.1)
              λ vs. Triple-pure _ λ s k. (own, k)

  abbrev Rows : World → Type 0
  Rows w = w.access ≡ rows

  collected-Post :
      (o : Option User) (w : World) → Rows w → Post (λ u. Rows) Rows (Updates.collect_row o, w)
  collected-Post none w h = h
  collected-Post (some u) w h = h

  get-Rows : Triple Rows (Updates.get user) (λ u. Rows) Anything
  unfolding Updates.get
  get-Rows =
      Triple-weaken (λ u. Rows) (λ s h. tt) (Updates.get user)
        (Triple-statement (λ u. Rows) (λ w e ticks h. h) _
          λ w h. collected-Post (find_user user w.users) w h)

  lookups-Rows :
      Triple Rows
        (session_lookup_for_user user)
        (λ ls s. All (λ l. Assigned user rows l.node_id) ls)
        Anything
  unfolding session_lookup_for_user
  lookups-Rows =
      Triple-weaken _ (λ s h. tt) (session_lookup_for_user user)
        (Triple-statement _ (λ w e ticks h. h) _
          λ w h.
            subst
              (λ as_now.
                All (λ l. Assigned user rows l.node_id)
                  (map lookup_of (keep_if (λ a. a.user_id == user) as_now)))
              (sym h) (own_lookups-Assigned user rows))

  collected-key :
      (us : List User) (o : Option User) (w : World)
      → find_user user us ≡ o
      → Post (λ u s. u.id ≡ user) Anything (Updates.collect_row o, w)
  collected-key us none w h = tt
  collected-key us (some u) w h = find_user-key user us u h

  get-key : Triple Anything (Updates.get user) (λ u s. u.id ≡ user) Anything
  unfolding Updates.get
  get-key =
      Triple-statement (λ u s. u.id ≡ user) (λ w e ticks h. h) _
        λ w h. collected-key w.users (find_user user w.users) w refl

  fetched-OwnResult :
      (recent : Bool) (u : User) (index : FallbackIndex) (ns : List Node)
      → All (λ n. Assigned user rows n.id) ns
      → u.id ≡ user
      → Triple Anything
          (fetch_nodes telemetry_sessions canceled recent (u ∷ []) index true ns >>= λ views.
            pure (user_result recent views))
          (λ r s. OwnResult user rows r)
          Anything
  fetched-OwnResult recent u index ns assigned mine =
      Triple-bind (λ vs s. All (OwnView user rows) vs) _ _
        (fetch_nodes-OwnView recent u index mine ns assigned)
        λ vs. Triple-pure _ λ s h. user_result-OwnResult user rows recent vs h

  sessions-OwnResult :
      (parse : String → Result String) (recent : Bool)
      → Triple Rows
          (user_sessions telemetry_sessions canceled parse user recent)
          (λ r s. OwnResult user rows r)
          Anything
  unfolding user_sessions
  sessions-OwnResult parse recent =
      Triple-bind (λ u. Rows) (Updates.get user) _ get-Rows
        λ known.
          Triple-bind (λ ls s. All (λ l. Assigned user rows l.node_id) ls)
            (session_lookup_for_user user) _ lookups-Rows
            λ ls. Triple-fact _ λ assigned.
              Triple-bind (λ ns. Anything) Repository.list _ (Triple-Anything _)
                λ ns.
                  let targets = target_nodes (map_from [] ns) [] ls in
                  Triple-bind (λ l. Anything)
                    (session_lookup_for_nodes parse (collect_node_ids targets)) _
                    (Triple-Anything _)
                    λ node_lookups.
                      Triple-bind (λ u s. u.id ≡ user) (Updates.get user) _ get-key
                        λ u. Triple-fact _ λ mine.
                          fetched-OwnResult recent u (build_fallback_index node_lookups) targets
                            (target_nodes-Assigned user rows (map_from [] ns) [] ls assigned) mine

-- Whatever the agents answer and whichever requests are cut off, the page of a user that is returned shows,
-- in the order of the list, only sessions of that user on nodes for which it has an access row at the
-- start; so do the sessions of the nodes beside them.
pub user_sessions-Own :
    (telemetry_sessions : Node → Bool → Action World TelemetryResponse) (canceled : World → Bool)
    (parse : String → Result String) (user : String) (recent : Bool) (w : World)
    → Post
        (λ r s. OwnResult user w.access r)
        Anything
        (user_sessions telemetry_sessions canceled parse user recent w)
user_sessions-Own telemetry_sessions canceled parse user recent w =
    (sessions-OwnResult telemetry_sessions canceled user w.access parse recent).at w refl
