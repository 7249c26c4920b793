-- ===== src/Handlers/Withdrawal.antt =====
-- While a withdrawal is answered (internal/http/handlers/handlers.go), no agent is sent the user.
use vetka_backend_panel.Prelude.{
  String, false, ◌&&◌, ◌≡◌, refl, List, [], ◌∷◌, ◌==◌, arith, All, keep_if-passed,
}
use vetka_backend_panel.Prelude.Effects.{Result, ok, err, Action, ◌>>=◌, pure}
use vetka_backend_panel.Prelude.Triples.{
  Post-any, Triple, Triple-bind, Triple-pure, Triple-weaken, Invariant, Invariant-attempt,
}
use vetka_backend_panel.Users.Models.{User, Access}
use vetka_backend_panel.Users.Updates
use vetka_backend_panel.Users.Updates.Revocation.{IsOff, by_user, by_access, switched-IsOff}
use vetka_backend_panel.Nodes.Models.{Node, SyncPayload}
use vetka_backend_panel.Nodes.Manager.Pushes.{deliveries}
use vetka_backend_panel.Handlers.{Response}
use vetka_backend_panel.Handlers.UsersApi
use vetka_backend_panel.Handlers.UsersApi.{AssignInput}
use vetka_backend_panel.Handlers.Rules.{Triple-or_else}
use vetka_backend_panel.Handlers.Withheld.{Withheld, Off, user_node_ids-Off, sync_nodes-Off}
use vetka_backend_panel.World.{World}
use vetka_backend_panel.World.Statements.{Triple-statement}

-- Nothing has been pushed.
abbrev pub Fresh : List (Node × SyncPayload) → World → Type 0
Fresh old v = deliveries v.sent ≡ old

pub All-anywhere : {P : String → Type 0} (ids : List String) → ((n : String) → P n) → All P ids
All-anywhere [] h = tt
All-anywhere (i ∷ ids) h = (h i, All-anywhere ids h)

module _ (id : String) (old : List (Node × SyncPayload)) where
  abbrev pub UsersOff : List User → List Access → Type 0
  UsersOff us rows = All (IsOff id) us

  pub set_enabled-Off :
      Triple (Fresh old) (Updates.set_enabled id false) (λ _. Off id old UsersOff) (Fresh old)
  unfolding Updates.set_enabled
  set_enabled-Off =
      Triple-statement _ (λ w e ts h. h) _ λ w h. (switched-IsOff id w.now w.users, ([], h, tt))

  sync_nodes_of-Off : Invariant (Off id old UsersOff) (UsersApi.sync_nodes_of id)
  unfolding UsersApi.sync_nodes_of
  sync_nodes_of-Off =
      Triple-bind _ _ _ (Invariant-attempt _ (user_node_ids-Off id old UsersOff id)) λ r.
        sync_nodes-Off id old UsersOff (UsersApi.or_zero [] r)
          (All-anywhere (UsersApi.or_zero [] r) λ n v h. by_user id n v h)

  abbrev pub NodeOff : String → List User → List Access → Type 0
  NodeOff node us rows = All (λ a. (a.user_id == id && a.node_id == node) ≡ false) rows

  pub unassign_node-Off :
      (node : String)
      → Triple
          (Fresh old)
          (Updates.unassign_node id node)
          (λ _. Off id old (NodeOff node))
          (Fresh old)
  unfolding Updates.unassign_node
  unassign_node-Off node =
      Triple-statement _ (λ w e ts h. h) _
        λ w h. (keep_if-passed _ _ w.access (λ a e. ground (arith, e)), ([], h, tt))

  refused-Withheld :
      (e : String)
      → Triple (Fresh old) (UsersApi.refuse_json e) (λ _. Withheld id old) (Withheld id old)
  refused-Withheld e = Triple-pure _ λ w h. ([], h, tt)

  -- Synchronising and answering, once the user is withdrawn.
  answered-Withheld :
      (P : List User → List Access → Type 0) (m : Action World (List String))
      (f : List String → Response)
      → Invariant (Off id old P) m
      → Triple (Off id old P) (do es ← m; pure (f es)) (λ _. Withheld id old) (Withheld id old)
  answered-Withheld P m f h =
      Triple-weaken (λ _. Withheld id old) (λ w k. k.1) _
        (Triple-bind _ _ _ h λ es. Triple-pure _ λ w k. k.1)

  disable-Withheld :
      Triple (Fresh old) (UsersApi.api_disable_user id) (λ _. Withheld id old) (Withheld id old)
  unfolding UsersApi.api_disable_user UsersApi.api_set_user_enabled
  disable-Withheld =
      Triple-or_else (λ _. Off id old UsersOff) (Fresh old) _ _ _ set_enabled-Off refused-Withheld
        λ u. answered-Withheld UsersOff _ _ sync_nodes_of-Off

  unassign-Withheld :
      (input : Result AssignInput)
      → Triple
          (Fresh old)
          (UsersApi.api_unassign_node id input)
          (λ _. Withheld id old)
          (Withheld id old)
  unfolding UsersApi.api_unassign_node
  unassign-Withheld (err e) = Triple-pure _ λ w h. ([], h, tt)
  unassign-Withheld (ok input) =
      Triple-or_else (λ _. Off id old (NodeOff input.node_id)) (Fresh old) _ _ _
        (unassign_node-Off input.node_id) refused-Withheld
        λ u. answered-Withheld (NodeOff input.node_id) _ _ (
          sync_nodes-Off id old (NodeOff input.node_id) (input.node_id ∷ [])
            ((λ v h. by_access id input.node_id v h), tt))

-- Whatever statements fail and whatever agents answer: while the API disables a user, or takes a node
-- from it, no push that is sent to any agent lists the user.
pub withdrawals-Withheld :
    (id : String) (input : Result AssignInput) (w : World)
    → Withheld id (deliveries w.sent) (UsersApi.api_disable_user id w).1
      × Withheld id (deliveries w.sent) (UsersApi.api_unassign_node id input w).1
withdrawals-Withheld id input w = (
  Post-any (Withheld id (deliveries w.sent)) (UsersApi.api_disable_user id w).0
      (UsersApi.api_disable_user id w).1 ((disable-Withheld id (deliveries w.sent)).at w refl),
  Post-any (Withheld id (deliveries w.sent)) _ (UsersApi.api_unassign_node id input w).1
      ((unassign-Withheld id (deliveries w.sent) input).at w refl),
)
