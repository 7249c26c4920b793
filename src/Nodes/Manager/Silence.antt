-- ===== src/Nodes/Manager/Silence.antt =====
-- Nothing but a synchronisation pushes to an agent, statement by statement.
use vetka_backend_panel.Prelude.{String, refl, ◌∙◌, none, some, List, [], ◌∷◌, Option}
use vetka_backend_panel.Prelude.Effects.{Result, ok, err, Within}
use vetka_backend_panel.Users.Repository.{active_access_for_node}
use vetka_backend_panel.Nodes.Models.{Node, CreateNodeInput, SyncEvent}
use vetka_backend_panel.Nodes.Client
use vetka_backend_panel.Nodes.Repository
use vetka_backend_panel.Nodes.Repository.{find_node, insert_row}
use vetka_backend_panel.Nodes.Updates
use vetka_backend_panel.Nodes.Updates.{exec_row, remote_state, with_status, synced, failed}
use vetka_backend_panel.Nodes.Manager.Closed.{Closed}
use vetka_backend_panel.Nodes.Manager.Pushes.{Silent}
use vetka_backend_panel.Security.{read_random}
use vetka_backend_panel.World.{World, exchange, take_row_id}
use vetka_backend_panel.World.Statements.{Stable, Within-statement, refuse_if-related}

silence : Stable Silent
silence = record {
  order = record { refl_at = λ w. refl; trans_at = λ u v w h k. k ∙ h };
  clock = λ w t ticks e. refl;
}

exec_row-Silent : (id : String) (f : World → Node → Node) → Within Silent (exec_row id f)
unfolding exec_row
exec_row-Silent id f = Within-statement silence _ λ w. refl

bump_row-Silent : (id : String) (w : World) (o : Option Node) → Silent w (Updates.bump_row id w o).1
unfolding Updates.bump_row
bump_row-Silent id w none = refl
bump_row-Silent id w (some n) = refuse_if-related Silent w _ _ _ w refl refl

update_row-Silent :
    (id : String) (i : CreateNodeInput) (w : World) (o : Option Node)
    → Silent w (Updates.update_row id i w o).1
unfolding Updates.update_row
update_row-Silent id i w none = refl
update_row-Silent id i w (some n) =
    refuse_if-related Silent w _ _ _ w refl
      (refuse_if-related Silent w _ _ _ w refl (refuse_if-related Silent w _ _ _ w refl refl))

insert_event-Silent : (e : SyncEvent) (w : World) → Silent w (Updates.insert_event e w).1
unfolding Updates.insert_event
insert_event-Silent e w =
    refuse_if-related Silent w _ _ _ w refl (refuse_if-related Silent w _ _ _ w refl refl)

insert_row-Silent :
    (i : CreateNodeInput) (v : World) (r : Result String) (w : World)
    → Silent v w
    → Silent v (insert_row i (r, w)).1
unfolding insert_row
insert_row-Silent i v (err e) w h = h
insert_row-Silent i v (ok id) w h =
    refuse_if-related Silent v _ _ _ w h (refuse_if-related Silent v _ _ _ w h h)

take_row_id-Silent : (ids : List String) (w : World) → Silent w (take_row_id ids w).1
take_row_id-Silent [] w = refl
take_row_id-Silent (i ∷ is) w = refl

create-Silent : (i : CreateNodeInput) → Within Silent (Repository.create i)
unfolding Repository.create
create-Silent i = Within-statement silence _ λ w.
    let (r, w') = take_row_id w.row_ids w in
    insert_row-Silent i w r w' (take_row_id-Silent w.row_ids w)

pub closed_Silent : Closed Silent
unfolding Repository.get Repository.list active_access_for_node Updates.mark_status
    Updates.mark_sync_failure Updates.mark_sync_success Updates.sync_remote_state
    Updates.bump_version Updates.insert_sync_event exchange Client.request read_random
    Updates.update
closed_Silent = record {
  steps = record {
    stable = silence;
    get_lem = λ id. Within-statement silence _ λ w. refl;
    list_lem = Within-statement silence _ λ w. refl;
    active_access_lem = λ id. Within-statement silence _ λ w. refl;
    mark_status_lem = λ id status e. exec_row-Silent id (λ w. with_status status e w.now);
    mark_sync_failure_lem = λ id status e. exec_row-Silent id (λ w. failed status e w.now);
    mark_sync_success_lem = λ id v. exec_row-Silent id (λ w. synced v w.now);
    sync_remote_state_lem = λ id c a e. exec_row-Silent id (λ w. remote_state c a e w.now);
    bump_version_lem =
        λ id. Within-statement silence _ λ w. bump_row-Silent id w (find_node id w.nodes);
    insert_sync_event_lem = λ e. Within-statement silence _ (insert_event-Silent e);
    ask_lem = λ n m p. record { at = λ w. refl };
    read_random_lem = λ n. record { at = λ w. refl };
  };
  update_lem =
      λ id i. Within-statement silence _ λ w. update_row-Silent id i w (find_node id w.nodes);
  create_lem = create-Silent;
}
