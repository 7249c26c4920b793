-- ===== src/Nodes/Manager/Pushes.antt =====
-- The configuration versions that are pushed to the agents.
use vetka_backend_panel.Prelude.{
  String, ◌≡◌, ap, map, Option, none, some, List, [], ◌∷◌, ◌++◌, arith, All, All-mono,
}
use vetka_backend_panel.Prelude.Int.{ℤ, ◌≤ℤ◌, ◌<ℤ◌}
use vetka_backend_panel.Nodes.Models.{Node, SyncPayload, Request}
use vetka_backend_panel.Nodes.Repository.{find_node}
use vetka_backend_panel.Nodes.Manager.Progress.{LeRow, Progress}
use vetka_backend_panel.World.{World}

-- One push: the row of the node, and the version.
abbrev pub Push : Type 0
Push = String × ℤ

-- What a request carries to a node, if it is a push.
abbrev pub delivery_of : Option SyncPayload → Node → List (Node × SyncPayload)
delivery_of none n = []
delivery_of (some p) n = (n, p) ∷ []

-- The payloads among the requests, the newest first.
abbrev pub deliveries : List Request → List (Node × SyncPayload)
deliveries [] = []
deliveries (r ∷ rs) = delivery_of r.payload r.node ++ deliveries rs

abbrev pub push_of : Node × SyncPayload → Push
push_of d = (d.0.id, d.1.config_version)

abbrev pub pushes : List Request → List Push
pushes rs = map push_of (deliveries rs)

-- The earlier push, if it is to the same row, has the lower version.
abbrev pub Precedes : String → ℤ → Push → Type 0
Precedes id v q = q.0 ≡ id → q.1 <ℤ v

abbrev pub Ascends : List Push → Type 0
Ascends [] = Unit
Ascends ((id, v) ∷ older) = All (Precedes id v) older × Ascends older

abbrev pub AtMostRow : ℤ → Option Node → Type 0
AtMostRow v none = ⊥
AtMostRow v (some n) = v ≤ℤ n.desired_config_version

-- Every pushed version is at most the desired version of its row.
abbrev pub Covered : List Node → Push → Type 0
Covered nodes q = AtMostRow q.1 (find_node q.0 nodes)

pub record InOrder (w : World) : Type 0 where
  pub ascends : Ascends (pushes w.sent)
  pub covered : All (Covered w.nodes) (pushes w.sent)

-- A version that may be pushed next to a row.
pub record IsReady (id : String) (v : ℤ) (w : World) : Type 0 where
  pub order : InOrder w
  pub row : AtMostRow v (find_node id w.nodes)
  pub fresh : All (Precedes id v) (pushes w.sent)

-- No push happens.
abbrev pub Silent : World → World → Type 0
Silent v w = deliveries w.sent ≡ deliveries v.sent

AtMostRow-mono : (v : ℤ) (a b : Option Node) → LeRow a b → AtMostRow v a → AtMostRow v b
AtMostRow-mono v none b h k = absurd k
AtMostRow-mono v (some n) none h k = absurd h
AtMostRow-mono v (some n) (some m) h k = omega arith

Covered-mono :
    (v w : World)
    → Progress v w
    → (ps : List Push) → All (Covered v.nodes) ps
    → All (Covered w.nodes) ps
Covered-mono v w h ps =
    All-mono ps
      λ q. AtMostRow-mono q.1 (find_node q.0 v.nodes) (find_node q.0 w.nodes) (h.versions q.0)

pub InOrder-mono : (v w : World) → Progress v w → Silent v w → InOrder v → InOrder w
InOrder-mono v w p e h = record {
  ascends = rw (ap (map push_of) e) h.ascends;
  covered = rw (ap (map push_of) e) (Covered-mono v w p (pushes v.sent) h.covered);
}

pub IsReady-mono :
    (id : String) (x : ℤ) (v w : World)
    → Progress v w
    → Silent v w
    → IsReady id x v
    → IsReady id x w
IsReady-mono id x v w p e h = record {
  order = InOrder-mono v w p e h.order;
  row = AtMostRow-mono x (find_node id v.nodes) (find_node id w.nodes) (p.versions id) h.row;
  fresh = rw (ap (map push_of) e) h.fresh;
}
