-- ===== src/Telemetry/Pages/Answered.antt =====
-- That the page of a user of internal/telemetry/service.go is answered.
use vetka_backend_panel.Prelude.{String, Bool, true, Option, none, some, List, [], ◌∷◌, All}
use vetka_backend_panel.Prelude.Effects.{Result, ok, err, Action, pure, gets, attempt}
use vetka_backend_panel.Prelude.Triples.{
  Post, Triple, Triple-bind, Triple-pure, Triple-if, Triple-given,
}
use vetka_backend_panel.Users.Models.{User}
use vetka_backend_panel.Users.Updates
use vetka_backend_panel.Users.Lookups.{session_lookup_for_user, session_lookup_for_nodes}
use vetka_backend_panel.Nodes.Models.{Node}
use vetka_backend_panel.Nodes.Repository
use vetka_backend_panel.Nodes.Repository.{scan_node, find_node}
use vetka_backend_panel.Telemetry.Models.{TelemetryResponse}
use vetka_backend_panel.Telemetry.Resolve.{FallbackIndex, build_fallback_index}
use vetka_backend_panel.Telemetry.Views.{skip_node}
use vetka_backend_panel.Telemetry.Pages.{
  map_from, collect_node_ids, target_nodes, canceled_view, user_result, fetch_unless, fetch_slot,
  fetch_nodes, user_sessions,
}
use vetka_backend_panel.Telemetry.Pages.Assigned.{OwnResult}
use vetka_backend_panel.Telemetry.Pages.Own.{Anything, user_sessions-Own}
use vetka_backend_panel.Telemetry.Pages.Ready.{
  Impossible, IsNamed, Ready, get-Ready, lookups-Ready, list-Ready, for_nodes-Ready,
  target_nodes-named, mapped-IsNamed,
}
use vetka_backend_panel.World.{World}

module _ {A : Type 0} where
  -- What both hold of an ending, holds.
  Post-both :
      (Q : A → World → Type 0) (r : Result A) (w : World)
      → Post Q Anything (r, w)
      → Post (λ a. Anything) Impossible (r, w)
      → Post Q Impossible (r, w)
  Post-both Q (ok a) w h k = h
  Post-both Q (err e) w h k = k

  -- The state before does not matter.
  Triple-at_all :
      {P Q : World → Type 0} {m : Action World A}
      → Triple Anything m (λ a. Q) Impossible
      → Triple P m (λ a. Q) Impossible
  Triple-at_all h = record { at = λ w p. h.at w tt }

  Triple-attempt : (m : Action World A) → Triple Anything (attempt m) (λ a. Anything) Impossible
  unfolding attempt
  Triple-attempt m = record { at = λ w h. tt }

module _ (telemetry_sessions : Node → Bool → Action World TelemetryResponse)
    (canceled : World → Bool) (recent : Bool) (us : List User) (index : FallbackIndex)
    (strict : Bool) where
  fetch_unless-Answered :
      (skipped : Option String) (node : Node)
      → Triple Anything
          (fetch_unless telemetry_sessions canceled recent us index strict skipped node)
          (λ v. Anything)
          Impossible
  fetch_unless-Answered (some reason) node = Triple-pure _ λ w h. tt
  fetch_unless-Answered none node =
      Triple-bind (λ a. Anything) _ _ (Triple-attempt (telemetry_sessions node recent))
        λ answer. Triple-pure _ λ w h. tt

  fetch_slot-Answered :
      (node : Node)
      → Triple Anything
          (fetch_slot telemetry_sessions canceled recent us index strict node)
          (λ v. Anything)
          Impossible
  unfolding fetch_slot gets
  fetch_slot-Answered node =
      Triple-bind (λ a. Anything) (gets canceled) _ (record { at = λ w h. tt })
        λ done.
          Triple-if done (pure (canceled_view node)) _
            (λ e. Triple-pure (canceled_view node) λ w h. tt)
            (λ e. fetch_unless-Answered (skip_node node) node)

  fetch_nodes-Answered :
      (ns : List Node)
      → Triple Anything
          (fetch_nodes telemetry_sessions canceled recent us index strict ns)
          (λ vs. Anything)
          Impossible
  unfolding fetch_nodes
  fetch_nodes-Answered [] = Triple-pure _ λ w h. tt
  fetch_nodes-Answered (n ∷ ns) =
      Triple-bind (λ v. Anything) _ _ (fetch_slot-Answered n)
        λ v.
          Triple-bind (λ vs. Anything) _ _ (fetch_nodes-Answered ns) λ vs. Triple-pure _ λ w h. tt

module _ (telemetry_sessions : Node → Bool → Action World TelemetryResponse)
    (canceled : World → Bool) (parse : String → Result String) (user : String) (u : User)
    (recent : Bool) where
  sessions-Answered :
      Triple
        (Ready parse user u)
        (user_sessions telemetry_sessions canceled parse user recent)
        (λ r. Anything)
        Impossible
  unfolding user_sessions
  sessions-Answered =
      Triple-bind (λ x. Ready parse user u) (Updates.get user) _ (get-Ready parse user u)
        λ known.
          Triple-bind (λ ls. Ready parse user u) (session_lookup_for_user user) _
            (lookups-Ready parse user u)
            λ ls.
              Triple-bind (λ ns w. All (IsNamed parse) ns × Ready parse user u w) Repository.list _
                (list-Ready parse user u)
                λ ns. Triple-given _ λ named.
                  let targets = target_nodes (map_from [] ns) [] ls in
                  Triple-bind (λ l. Ready parse user u)
                    (session_lookup_for_nodes parse (collect_node_ids targets)) _
                    (for_nodes-Ready parse user u (collect_node_ids targets) (
                      target_nodes-named parse (map_from [] ns) [] ls
                        (mapped-IsNamed parse [] ns tt named)))
                    λ node_lookups.
                      Triple-bind (λ x. Ready parse user u) (Updates.get user) _
                        (get-Ready parse user u)
                        λ x.
                          Triple-bind (λ vs. Anything)
                            (fetch_nodes telemetry_sessions canceled recent (x ∷ [])
                              (build_fallback_index node_lookups) true targets)
                            _
                            (Triple-at_all (
                              fetch_nodes-Answered telemetry_sessions canceled recent (x ∷ [])
                                (build_fallback_index node_lookups) true targets))
                            λ vs. Triple-pure (user_result recent vs) λ w h. tt

  -- The page of a user that is there is answered, with the sessions of that user, whatever the agents do
  -- and whichever requests are cut off, if no statement fails and the identifiers of the nodes are
  -- identifiers.
  pub user_sessions-Answered :
      (w : World)
      → Ready parse user u w
      → Post
          (λ r s. OwnResult user w.access r)
          Impossible
          (user_sessions telemetry_sessions canceled parse user recent w)
  user_sessions-Answered w ready =
      let (r, s) = user_sessions telemetry_sessions canceled parse user recent w in
      Post-both (λ r s. OwnResult user w.access r) r s
        (user_sessions-Own telemetry_sessions canceled parse user recent w)
        (sessions-Answered.at w ready)
