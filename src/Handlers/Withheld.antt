-- ===== src/Handlers/Withheld.antt =====
-- Synchronising nodes after a change (internal/http/handlers/handlers.go) while a user is withdrawn.
use vetka_backend_panel.Prelude.{
  ℕ, ◌+◌, String, false, ◌||◌, not, ◌≡◌, ap, ◌∙◌, List, [], ◌∷◌, ◌++◌, map, ◌==◌, All,
}
use vetka_backend_panel.Prelude.Int.{ℤ}
use vetka_backend_panel.Prelude.Effects.{Result, ok, err, Action, Within, ◌>>=◌}
use vetka_backend_panel.Prelude.Triples.{
  Triple, Triple-bind, Invariant, Invariant-of_after, Invariant-if, Invariant-attempt,
  Invariant-pure,
}
use vetka_backend_panel.Users.Models.{User, Access, AccessWithUser}
use vetka_backend_panel.Users.Repository.{active_access_for_node}
use vetka_backend_panel.Users.Updates
use vetka_backend_panel.Users.Updates.Revocation.{NotSent}
use vetka_backend_panel.Users.Expiry.{has_key}
use vetka_backend_panel.Nodes.Models.{Node, SyncPayload}
use vetka_backend_panel.Nodes.Client
use vetka_backend_panel.Nodes.Sync
use vetka_backend_panel.Nodes.Manager.Closed.{Closed}
use vetka_backend_panel.Nodes.Manager.Progress.{Progress, closed_Progress}
use vetka_backend_panel.Nodes.Manager.Silence.{closed_Silent}
use vetka_backend_panel.Nodes.Manager.Pushes.{deliveries, Silent}
use vetka_backend_panel.Nodes.Manager.Delivery.{Delivers, sync_node-kept}
use vetka_backend_panel.Handlers.AfterChange
use vetka_backend_panel.World.{World, Tick}
use vetka_backend_panel.World.Statements.{Triple-statement}

-- A push whose list lacks the user.
abbrev pub Omits : String → Node × SyncPayload → Type 0
Omits id d = All (λ u. (u.id == id) ≡ false) d.1.users

-- Whatever was pushed since the given pushes lacks the user.
abbrev pub Withheld : String → List (Node × SyncPayload) → World → Type 0
Withheld id old v =
    (new : List (Node × SyncPayload)) × (deliveries v.sent ≡ new ++ old) × All (Omits id) new

abbrev IsGood : String → List AccessWithUser → Type 0
IsGood id us = All (λ r. (r.access.user_id == id) ≡ false) us

agent_users-lack :
    (id : String) (n : Node) (us : List AccessWithUser)
    → IsGood id us
    → All (λ u. (u.id == id) ≡ false) (map (Sync.agent_user n) us)
unfolding Sync.agent_user
agent_users-lack id n [] h = tt
agent_users-lack id n (a ∷ us) h = (h.0, agent_users-lack id n us h.1)

-- A condition on users and access rows under which the node is not sent the user.
module _ (id : String) (old : List (Node × SyncPayload))
    (P : List User → List Access → Type 0) where
  abbrev pub Off : World → Type 0
  Off v = P v.users v.access × Withheld id old v

  Off-same : (v w : World) → Progress v w → Silent v w → Off v → Off w
  Off-same v w p s h = (rw (p.users, p.access) h.0, (h.1.0, s ∙ h.1.1, h.1.2))

  Off-clock :
      (w : World) (elapsed : ℕ) (ticks : List Tick)
      → Off w
      → Off (record w { now = w.now + elapsed; schedule = ticks })
  Off-clock w elapsed ticks h = h

  calm-Off :
      {A : Type 0} (m : Action World A)
      → ((R : World → World → Type 0) → Closed R → Within R m)
      → Invariant Off m
  calm-Off m keeps = Invariant-of_after m λ w h.
      Off-same w (m w).1 ((keeps Progress closed_Progress).at w) ((keeps Silent closed_Silent).at w)
        h

  push-Off :
      (n : Node) (us : List AccessWithUser) (v : ℤ)
      → IsGood id us
      → Invariant Off (Client.sync n (Sync.sync_payload n us v))
  unfolding Client.sync Client.call ◌>>=◌ Sync.sync_payload
  push-Off n us v g = record {
    at = λ w h. (
      h.0,
      (
        (n, Sync.sync_payload n us v) ∷ h.1.0,
        ap (λ l. (n, Sync.sync_payload n us v) ∷ l) h.1.1,
        (agent_users-lack id n us g, h.1.2),
      ),
    );
  }

  read-Off :
      (node : String)
      → ((v : World) → P v.users v.access → NotSent id node v)
      → Triple Off (active_access_for_node node) (λ us w. IsGood id us × Off w) Off
  unfolding active_access_for_node
  read-Off node h = Triple-statement _ Off-clock _ λ w k. (h w k.0, k)

  delivers :
      (node : String)
      → ((v : World) → P v.users v.access → NotSent id node v)
      → Delivers Off (IsGood id) node
  delivers node h = record { calm = calm-Off; push = push-Off; read = read-Off node h }

  pub access_for_user-Off : (u : String) → Invariant Off (Updates.access_for_user u)
  unfolding Updates.access_for_user
  access_for_user-Off u = Triple-statement _ Off-clock _ λ w k. k

  pub user_node_ids-Off : (u : String) → Invariant Off (AfterChange.user_node_ids u)
  unfolding AfterChange.user_node_ids
  user_node_ids-Off u = Triple-bind _ _ _ (access_for_user-Off u) λ a. Invariant-pure _

  abbrev pub Covers : String → Type 0
  Covers node = (v : World) → P v.users v.access → NotSent id node v

  pub sync_listed-Off : (node : String) → Covers node → Invariant Off (AfterChange.sync_listed node)
  unfolding AfterChange.sync_listed
  sync_listed-Off node h =
      Triple-bind _ _ _ (Invariant-attempt _ (sync_node-kept (delivers node h)))
        λ r. Invariant-pure _

  sync_if_enabled-Off :
      (node : String) (r : Result Node)
      → Covers node
      → Invariant Off (AfterChange.sync_if_enabled node r)
  unfolding AfterChange.sync_if_enabled
  sync_if_enabled-Off node (err e) h = Invariant-pure _
  sync_if_enabled-Off node (ok n) h =
      Invariant-if (not n.enabled) _ _ (Invariant-pure _) (sync_listed-Off node h)

  sync_changed-Off :
      (node : String) (others : Action World (List String))
      → Covers node
      → Invariant Off others
      → Invariant Off (AfterChange.sync_changed node others)
  unfolding AfterChange.sync_changed
  sync_changed-Off node others h k =
      Triple-bind _ _ _ (Invariant-attempt _ (calm-Off _ λ R c. c.get_lem node)) λ r.
        Triple-bind _ _ _ (sync_if_enabled-Off node r h)
          λ es. Triple-bind _ _ _ k λ later. Invariant-pure _

  sync_unseen-Off :
      (seen ids : List String) → All Covers ids → Invariant Off (AfterChange.sync_unseen seen ids)
  unfolding AfterChange.sync_unseen
  sync_unseen-Off seen [] h = Invariant-pure _
  sync_unseen-Off seen (i ∷ ids) h =
      Invariant-if (i == "" || has_key i seen) _ _ (sync_unseen-Off seen ids h.1)
        (sync_changed-Off i _ h.0 (sync_unseen-Off (i ∷ seen) ids h.1))

  pub sync_nodes-Off :
      (ids : List String) → All Covers ids → Invariant Off (AfterChange.sync_nodes_after_change ids)
  unfolding AfterChange.sync_nodes_after_change
  sync_nodes-Off = sync_unseen-Off []
