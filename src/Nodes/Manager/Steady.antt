-- ===== src/Nodes/Manager/Steady.antt =====
-- What no statement of a synchronisation (internal/nodes/manager.go) changes: which nodes have an address,
-- and that no statement to come fails.
use mathlib.Core.Path.{subst}
use vetka_backend_panel.Prelude.{String, ◌≡◌, refl, ◌∙◌, Option, none, some, List, [], ◌∷◌, arith}
use vetka_backend_panel.Prelude.Effects.{Within, Within-bind, Within-pure}
use vetka_backend_panel.Users.Repository.{active_access_for_node, has_api_url, active_node_ids}
use vetka_backend_panel.Users.Models.{Access}
use vetka_backend_panel.Nodes.Models.{Node, SyncPayload, SyncEvent, Request}
use vetka_backend_panel.Nodes.Client
use vetka_backend_panel.Nodes.Repository
use vetka_backend_panel.Nodes.Repository.{find_node, update_node}
use vetka_backend_panel.Nodes.Updates
use vetka_backend_panel.Nodes.Updates.{
  touch, set_row, exec_row, remote_state, with_status, synced, failed, bumped,
}
use vetka_backend_panel.Nodes.Manager.Closed.{Steps, sync_node-keeps}
use vetka_backend_panel.Nodes.Sync
use vetka_backend_panel.Security.{read_random}
use vetka_backend_panel.World.{World, Tick, exchange}
use vetka_backend_panel.World.Statements.{Faultless, Stable, Within-statement, refuse_if-related}

pub record Steady (v w : World) : Type 0 where
  pub urls : (id : String) → has_api_url id w.nodes ≡ has_api_url id v.nodes
  pub calm : Faultless v.schedule → Faultless w.schedule

pub steady : Stable Steady
steady = record {
  order = record {
    refl_at = λ w. record { urls = λ id. refl; calm = λ h. h };
    trans_at =
        λ u v w h k. record { urls = λ id. k.urls id ∙ h.urls id; calm = λ f. k.calm (h.calm f) };
  };
  clock = λ w t ticks e. record { urls = λ id. refl; calm = λ h. later ticks t w.schedule e h };
}
  where
    later :
        (ticks : List Tick) (t : Tick) (all : List Tick)
        → all ≡ t ∷ ticks
        → Faultless all
        → Faultless ticks
    later ticks t all e h = let k : Faultless (t ∷ ticks) = subst Faultless e h in k.1

-- A change of a row that keeps its key and its address.
abbrev Stays : (Node → Node) → Type 0
Stays f = (n : Node) → ((f n).id ≡ n.id) × ((f n).api_url ≡ n.api_url)

update_node-has_api_url :
    (key id : String) (f : Node → Node) (ns : List Node)
    → Stays f
    → has_api_url id (update_node key f ns) ≡ has_api_url id ns
unfolding has_api_url update_node
update_node-has_api_url key id f [] h = refl
update_node-has_api_url key id f (n ∷ ns) h =
    ground (arith, h n, update_node-has_api_url key id f ns h)

set_row-Steady : (key : String) (f : Node → Node) (w : World) → Stays f → Steady w (set_row key f w)
unfolding set_row touch
set_row-Steady key f w h = record {
  urls = λ id. update_node-has_api_url key id (λ n. touch w.now (f n)) w.nodes (λ n. h n);
  calm = λ k. k;
}

exec_row-Steady :
    (key : String) (f : World → Node → Node)
    → ((w : World) → Stays (f w))
    → Within Steady (exec_row key f)
unfolding exec_row
exec_row-Steady key f h = Within-statement steady _ λ w. set_row-Steady key (f w) w (h w)

bump_row-Steady : (id : String) (w : World) (o : Option Node) → Steady w (Updates.bump_row id w o).1
unfolding Updates.bump_row Updates.write_bump bumped
bump_row-Steady id w none = steady.order.refl_at w
bump_row-Steady id w (some n) =
    refuse_if-related Steady w _ _ _ w (steady.order.refl_at w)
      (set_row-Steady id bumped w λ m. (refl, refl))

insert_event-Steady : (e : SyncEvent) (w : World) → Steady w (Updates.insert_event e w).1
unfolding Updates.insert_event Updates.write_event
insert_event-Steady e w =
    let here = steady.order.refl_at w in
    refuse_if-related Steady w _ _ _ w here
      (refuse_if-related Steady w _ _ _ w here (record { urls = λ id. refl; calm = λ k. k }))

exchange-Steady : (r : Request) → Within Steady (exchange r)
unfolding exchange
exchange-Steady r = record { at = λ w. record { urls = λ id. refl; calm = λ k. k } }

steps_Steady : Steps Steady
unfolding Repository.get Repository.list active_access_for_node Updates.mark_status
    Updates.mark_sync_failure Updates.mark_sync_success Updates.sync_remote_state
    Updates.bump_version Updates.insert_sync_event read_random
steps_Steady = record {
  stable = steady;
  get_lem = λ id. Within-statement steady _ steady.order.refl_at;
  list_lem = Within-statement steady _ steady.order.refl_at;
  active_access_lem = λ id. Within-statement steady _ steady.order.refl_at;
  mark_status_lem =
      λ id status e. exec_row-Steady id (λ w. with_status status e w.now) λ w n. (refl, refl);
  mark_sync_failure_lem =
      λ id status e. exec_row-Steady id (λ w. failed status e w.now) λ w n. (refl, refl);
  mark_sync_success_lem = λ id v. exec_row-Steady id (λ w. synced v w.now) λ w n. (refl, refl);
  sync_remote_state_lem =
      λ id c a e. exec_row-Steady id (λ w. remote_state c a e w.now) λ w n. (refl, refl);
  bump_version_lem =
      λ id. Within-statement steady _ λ w. bump_row-Steady id w (find_node id w.nodes);
  insert_sync_event_lem = λ e. Within-statement steady _ (insert_event-Steady e);
  ask_lem = λ n m p. exchange-Steady _;
  read_random_lem = λ n. record { at = λ w. record { urls = λ id. refl; calm = λ k. k } };
}

push-Steady : (n : Node) (p : SyncPayload) → Within Steady (Client.sync n p)
unfolding Client.sync
push-Steady n p = Within-bind steady.order _ _ (exchange-Steady _) λ e. Within-pure steady.order _

pub sync_node-Steady : (id : String) → Within Steady (Sync.sync_node id)
sync_node-Steady id = sync_node-keeps steps_Steady push-Steady id

pub active_node_ids-same :
    (u : String) (ns ms : List Node) (rows : List Access)
    → ((id : String) → has_api_url id ns ≡ has_api_url id ms)
    → active_node_ids u ns rows ≡ active_node_ids u ms rows
unfolding active_node_ids
active_node_ids-same u ns ms [] h = refl
active_node_ids-same u ns ms (a ∷ rows) h =
    rw (h a.node_id, active_node_ids-same u ns ms rows h) refl
