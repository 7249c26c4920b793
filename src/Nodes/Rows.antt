-- ===== src/Nodes/Rows.antt =====
-- Finding and updating a row by its key: internal/nodes/repository.go.
use vetka_backend_panel.Prelude.{String, ◌≡◌, some, List, [], ◌∷◌, arith, eq_iff}
use vetka_backend_panel.Nodes.Models.{Node}
use vetka_backend_panel.Nodes.Repository.{find_node, update_node}

pub find_node-id : (id : String) (ns : List Node) (n : Node) → find_node id ns ≡ some n → n.id ≡ id
unfolding find_node
find_node-id id [] n h = cc
find_node-id id (m ∷ ns) n h = ground (arith, eq_iff m.id id, find_node-id id ns n)

pub find_node-update :
    (id : String) (f : Node → Node) (ns : List Node) (n : Node)
    → ((m : Node) → (f m).id ≡ m.id)
    → find_node id ns ≡ some n
    → find_node id (update_node id f ns) ≡ some (f n)
unfolding find_node update_node
find_node-update id f [] n k h = cc
find_node-update id f (m ∷ ns) n k h =
    ground (arith, k m, eq_iff m.id id, find_node-update id f ns n k)
