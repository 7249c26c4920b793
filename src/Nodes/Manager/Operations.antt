-- ===== src/Nodes/Manager/Operations.antt =====
-- Sequences of manager operations.
use vetka_backend_panel.Prelude.{String, List, [], ◌∷◌}
use vetka_backend_panel.Prelude.Effects.{Within}
use vetka_backend_panel.Nodes.Models.{Node, CreateNodeInput, SyncPayload}
use vetka_backend_panel.Nodes.Client
use vetka_backend_panel.Nodes.Status
use vetka_backend_panel.Nodes.Sync
use vetka_backend_panel.Nodes.Manager
use vetka_backend_panel.Nodes.Manager.Closed.{
  Closed, create_node-keeps, update_node-keeps, validate_node_status-keeps, check_node_health-keeps,
  fetch_node_status-keeps, sync_node-keeps, sync_all_nodes-keeps,
}
use vetka_backend_panel.Nodes.Manager.Progress.{Progress, closed_Progress, push-Progress}
use vetka_backend_panel.Nodes.Manager.Pushes.{InOrder}
use vetka_backend_panel.Nodes.Manager.Order.{calmly, sync_node-InOrder, sync_all_nodes-InOrder}
use vetka_backend_panel.Prelude.Triples.{Invariant-after}
use vetka_backend_panel.World.{World}

-- The operations of the manager that an API call or the reconciler can start, but deletion.
pub data Operation : Type 0 where
  creates : CreateNodeInput → Operation
  updates : String → CreateNodeInput → Operation
  validates checks_health fetches syncs : String → Operation
  syncs_all : Operation

-- The state that an operation leaves, whether it returned or failed.
unfoldable pub after : Operation → World → World
after (creates i) w = (Manager.create_node i w).1
after (updates id i) w = (Manager.update_node id i w).1
after (validates id) w = (Status.validate_node_status id w).1
after (checks_health id) w = (Status.check_node_health id w).1
after (fetches id) w = (Status.fetch_node_status id w).1
after (syncs id) w = (Sync.sync_node id w).1
after syncs_all w = (Sync.sync_all_nodes w).1

unfoldable pub after_all : List Operation → World → World
unfolding after
after_all [] w = w
after_all (o ∷ os) w = after_all os (after o w)

module _ {R : World → World → Type 0} (closed : Closed R)
    (push_lem : (n : Node) (p : SyncPayload) → Within R (Client.sync n p)) where
  after-keeps : (o : Operation) (w : World) → R w (after o w)
  unfolding after
  after-keeps (creates i) w = (create_node-keeps closed i).at w
  after-keeps (updates id i) w = (update_node-keeps closed id i).at w
  after-keeps (validates id) w = (validate_node_status-keeps closed.steps id).at w
  after-keeps (checks_health id) w = (check_node_health-keeps closed.steps id).at w
  after-keeps (fetches id) w = (fetch_node_status-keeps closed.steps id).at w
  after-keeps (syncs id) w = (sync_node-keeps closed.steps push_lem id).at w
  after-keeps syncs_all w = (sync_all_nodes-keeps closed.steps push_lem).at w

  after_all-keeps : (os : List Operation) (w : World) → R w (after_all os w)
  unfolding after_all
  after_all-keeps [] w = closed.order.refl_at w
  after_all-keeps (o ∷ os) w =
      closed.order.trans_at w (after o w) _ (after-keeps o w) (after_all-keeps os (after o w))

-- Over any sequence of manager operations other than deletion, and whatever statements fail, agents
-- answer or requests get lost: no node row goes and no desired version falls, the clock does not go
-- back, users and access rows are as they were, and the log of sync events is only added to.
pub after_all-Progress : (os : List Operation) (w : World) → Progress w (after_all os w)
after_all-Progress = after_all-keeps closed_Progress push-Progress

-- An operation that pushes nothing keeps the order of the pushes.
after-InOrder : (o : Operation) (w : World) → InOrder w → InOrder (after o w)
unfolding after
after-InOrder (creates i) = Invariant-after _ (calmly _ λ R c. create_node-keeps c i)
after-InOrder (updates id i) = Invariant-after _ (calmly _ λ R c. update_node-keeps c id i)
after-InOrder (validates id) =
    Invariant-after _ (calmly _ λ R c. validate_node_status-keeps c.steps id)
after-InOrder (checks_health id) =
    Invariant-after _ (calmly _ λ R c. check_node_health-keeps c.steps id)
after-InOrder (fetches id) = Invariant-after _ (calmly _ λ R c. fetch_node_status-keeps c.steps id)
after-InOrder (syncs id) = Invariant-after _ (sync_node-InOrder id)
after-InOrder syncs_all = Invariant-after _ sync_all_nodes-InOrder

-- If the pushes so far are in order (each push to a row with a higher version than every earlier push
-- to it, and no pushed version above the desired version of its row), then they are after any sequence
-- of manager operations other than deletion, whatever statements fail and whatever agents answer.
pub after_all-InOrder : (os : List Operation) (w : World) → InOrder w → InOrder (after_all os w)
unfolding after_all
after_all-InOrder [] w h = h
after_all-InOrder (o ∷ os) w h = after_all-InOrder os (after o w) (after-InOrder o w h)
