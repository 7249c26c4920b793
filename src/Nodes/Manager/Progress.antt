-- ===== src/Nodes/Manager/Progress.antt =====
-- What no operation of the node manager takes back, statement by statement.
use mathlib.Core.List.{append_assoc}
use vetka_backend_panel.Prelude.{
  ℕ, ◌+◌, ◌≤◌, String, ◌≡◌, refl, sym, ap, ◌∙◌, Option, none, some, List, [], ◌∷◌, ◌++◌, arith,
}
use vetka_backend_panel.Prelude.Int.{ℤ, ◌≤ℤ◌, le-greatest_left, lt-add_one}
use vetka_backend_panel.Prelude.Effects.{Result, ok, err, Within, Within-bind, Within-pure}
use vetka_backend_panel.Users.Repository.{active_access_for_node}
use vetka_backend_panel.Nodes.Models.{Node, CreateNodeInput, SyncPayload, SyncEvent, Request}
use vetka_backend_panel.Nodes.Client
use vetka_backend_panel.Nodes.Manager.Closed.{Closed}
use vetka_backend_panel.Nodes.Repository
use vetka_backend_panel.Nodes.Repository.{find_node, update_node, insert_row}
use vetka_backend_panel.Nodes.Updates
use vetka_backend_panel.Nodes.Updates.{
  touch, set_row, exec_row, remote_state, with_status, synced, failed, bumped, apply_input,
}
use vetka_backend_panel.Security.{read_random}
use vetka_backend_panel.World.{World, Tick, exchange, take_row_id}
use vetka_backend_panel.World.Statements.{Stable, Within-statement, refuse_if-related}

-- A row that was there is there, and its desired version is not lower.
abbrev pub LeRow : Option Node → Option Node → Type 0
LeRow none b = Unit
LeRow (some n) none = ⊥
LeRow (some n) (some m) = n.desired_config_version ≤ℤ m.desired_config_version

-- From one state to a later one: no desired version falls and no node goes, the clock does not go back,
-- users and access rows are as they were, and the log of sync events is only added to.
pub record Progress (v w : World) : Type 0 where
  pub versions : (id : String) → LeRow (find_node id v.nodes) (find_node id w.nodes)
  pub clock : v.now ≤ w.now
  pub users : w.users ≡ v.users
  pub access : w.access ≡ v.access
  pub log : (added : List SyncEvent) × (w.events ≡ added ++ v.events)

LeRow-refl : (a : Option Node) → LeRow a a
LeRow-refl none = tt
LeRow-refl (some n) = omega arith

LeRow-trans : (a b c : Option Node) → LeRow a b → LeRow b c → LeRow a c
LeRow-trans none b c h k = tt
LeRow-trans (some n) none c h k = absurd h
LeRow-trans (some n) (some m) none h k = absurd k
LeRow-trans (some n) (some m) (some o) h k = omega arith

Progress-trans : (u v w : World) → Progress u v → Progress v w → Progress u w
Progress-trans u v w h k = record {
  versions = λ id.
      LeRow-trans (find_node id u.nodes) (find_node id v.nodes) (find_node id w.nodes)
        (h.versions id) (k.versions id);
  clock = omega (arith, h.clock, k.clock);
  users = k.users ∙ h.users;
  access = k.access ∙ h.access;
  log = (
    k.log.0 ++ h.log.0,
    k.log.1 ∙ ap (λ l. k.log.0 ++ l) h.log.1 ∙ sym (append_assoc k.log.0 h.log.0 u.events),
  );
}

pub Progress-clock :
    (w : World) (elapsed : ℕ) (ticks : List Tick)
    → Progress w (record w { now = w.now + elapsed; schedule = ticks })
Progress-clock w elapsed ticks = record {
  versions = λ id. LeRow-refl (find_node id w.nodes);
  clock = omega arith;
  users = refl;
  access = refl;
  log = ([], refl);
}

pub progress : Stable Progress
progress = record {
  order = record {
    refl_at = λ w. record {
      versions = λ id. LeRow-refl (find_node id w.nodes);
      clock = omega arith;
      users = refl;
      access = refl;
      log = ([], refl);
    };
    trans_at = Progress-trans;
  };
  clock = λ w t ticks e. Progress-clock w t.elapsed ticks;
}

-- A change of rows that keeps the key and does not lower the desired version.
abbrev Raises : (Node → Node) → Type 0
Raises f =
    (n : Node) → ((f n).id ≡ n.id) × (n.desired_config_version ≤ℤ (f n).desired_config_version)

update_node-LeRow :
    (key id : String) (f : Node → Node) (ns : List Node)
    → Raises f
    → LeRow (find_node id ns) (find_node id (update_node key f ns))
unfolding find_node update_node
update_node-LeRow key id f [] h = tt
update_node-LeRow key id f (n ∷ ns) h = ground (arith, h n, update_node-LeRow key id f ns h)

set_row-Progress :
    (key : String) (f : Node → Node) (w : World) → Raises f → Progress w (set_row key f w)
unfolding set_row touch
set_row-Progress key f w h = record {
  versions = λ id. update_node-LeRow key id (λ n. touch w.now (f n)) w.nodes (λ n. h n);
  clock = omega arith;
  users = refl;
  access = refl;
  log = ([], refl);
}

exec_row-Progress :
    (key : String) (f : World → Node → Node)
    → ((w : World) → Raises (f w))
    → Within Progress (exec_row key f)
unfolding exec_row
exec_row-Progress key f h = Within-statement progress _ λ w. set_row-Progress key (f w) w (h w)

get-Progress : (id : String) → Within Progress (Repository.get id)
unfolding Repository.get
get-Progress id = Within-statement progress _ progress.order.refl_at

list-Progress : Within Progress Repository.list
unfolding Repository.list
list-Progress = Within-statement progress _ progress.order.refl_at

active_access-Progress : (id : String) → Within Progress (active_access_for_node id)
unfolding active_access_for_node
active_access-Progress id = Within-statement progress _ progress.order.refl_at

mark_status-Progress :
    (id status : String) (e : Option String) → Within Progress (Updates.mark_status id status e)
unfolding Updates.mark_status
mark_status-Progress id status e =
    exec_row-Progress id (λ w. with_status status e w.now) λ w n. (refl, omega arith)

mark_sync_failure-Progress :
    (id status e : String) → Within Progress (Updates.mark_sync_failure id status e)
unfolding Updates.mark_sync_failure
mark_sync_failure-Progress id status e =
    exec_row-Progress id (λ w. failed status e w.now) λ w n. (refl, omega arith)

mark_sync_success-Progress :
    (id : String) (v : ℤ) → Within Progress (Updates.mark_sync_success id v)
unfolding Updates.mark_sync_success
mark_sync_success-Progress id v =
    exec_row-Progress id (λ w. synced v w.now) λ w n. (refl, omega arith)

sync_remote_state-Progress :
    (id : String) (c a : ℤ) (e : Option String)
    → Within Progress (Updates.sync_remote_state id c a e)
unfolding Updates.sync_remote_state
sync_remote_state-Progress id c a e =
    exec_row-Progress id (λ w. remote_state c a e w.now)
      λ w n. (refl, le-greatest_left n.desired_config_version c)

bumped-Raises : Raises bumped
unfolding bumped
bumped-Raises n = (refl, omega (arith, lt-add_one n.desired_config_version))

pub write_bump-Progress :
    (id : String) (n : Node) (w : World) → Progress w (Updates.write_bump id n w).1
unfolding Updates.write_bump
write_bump-Progress id n w = set_row-Progress id bumped w bumped-Raises

bump_row-Progress :
    (id : String) (w : World) (o : Option Node) → Progress w (Updates.bump_row id w o).1
unfolding Updates.bump_row
bump_row-Progress id w none = progress.order.refl_at w
bump_row-Progress id w (some n) =
    refuse_if-related Progress _ _ _ _ w (progress.order.refl_at w) (write_bump-Progress id n w)

bump_version-Progress : (id : String) → Within Progress (Updates.bump_version id)
unfolding Updates.bump_version
bump_version-Progress id =
    Within-statement progress _ λ w. bump_row-Progress id w (find_node id w.nodes)

write_event-Progress : (e : SyncEvent) (w : World) → Progress w (Updates.write_event e w).1
unfolding Updates.write_event
write_event-Progress e w = record {
  versions = λ id. LeRow-refl (find_node id w.nodes);
  clock = omega arith;
  users = refl;
  access = refl;
  log = (record e { created_at = w.now } ∷ [], refl);
}

insert_event-Progress : (e : SyncEvent) (w : World) → Progress w (Updates.insert_event e w).1
unfolding Updates.insert_event
insert_event-Progress e w =
    let here = progress.order.refl_at w in
    refuse_if-related Progress _ _ _ _ w here
      (refuse_if-related Progress _ _ _ _ w here (write_event-Progress e w))

insert_sync_event-Progress : (e : SyncEvent) → Within Progress (Updates.insert_sync_event e)
unfolding Updates.insert_sync_event
insert_sync_event-Progress e = Within-statement progress _ (insert_event-Progress e)

exchange-Progress : (r : Request) → Within Progress (exchange r)
unfolding exchange
exchange-Progress r = record {
  at = λ w. record {
    versions = λ id. LeRow-refl (find_node id w.nodes);
    clock = omega arith;
    users = refl;
    access = refl;
    log = ([], refl);
  };
}

read_random-Progress : (n : ℕ) → Within Progress (read_random n)
unfolding read_random
read_random-Progress n = record {
  at = λ w. record {
    versions = λ id. LeRow-refl (find_node id w.nodes);
    clock = omega arith;
    users = refl;
    access = refl;
    log = ([], refl);
  };
}

update_row-Progress :
    (id : String) (i : CreateNodeInput) (w : World) (o : Option Node)
    → Progress w (Updates.update_row id i w o).1
unfolding Updates.update_row Updates.write_input
update_row-Progress id i w none = progress.order.refl_at w
update_row-Progress id i w (some n) =
    let here = progress.order.refl_at w in
    refuse_if-related Progress _ _ _ _ w here (
      refuse_if-related Progress _ _ _ _ w here (
        refuse_if-related Progress _ _ _ _ w here
          (set_row-Progress id (apply_input i) w (λ n. (refl, omega arith)))))

update-Progress : (id : String) (i : CreateNodeInput) → Within Progress (Updates.update id i)
unfolding Updates.update
update-Progress id i =
    Within-statement progress _ λ w. update_row-Progress id i w (find_node id w.nodes)

append-LeRow : (id : String) (ns ms : List Node) → LeRow (find_node id ns) (find_node id (ns ++ ms))
unfolding find_node
append-LeRow id [] ms = tt
append-LeRow id (n ∷ ns) ms = ground (arith, append-LeRow id ns ms)

write_row-Progress :
    (i : CreateNodeInput) (id : String) (w : World) → Progress w (Repository.write_row i id w).1
unfolding Repository.write_row
write_row-Progress i id w = record {
  versions = λ key. append-LeRow key w.nodes _;
  clock = omega arith;
  users = refl;
  access = refl;
  log = ([], refl);
}

insert_row-Progress :
    (i : CreateNodeInput) (v : World) (r : Result String) (w : World)
    → Progress v w
    → Progress v (insert_row i (r, w)).1
unfolding insert_row
insert_row-Progress i v (err e) w h = h
insert_row-Progress i v (ok id) w h = refuse_if-related Progress _ _ _ _ w h (
    refuse_if-related Progress _ _ _ _ w h
      (progress.order.trans_at v w _ h (write_row-Progress i id w)))

take_row_id-Progress : (ids : List String) (w : World) → Progress w (take_row_id ids w).1
take_row_id-Progress [] w = progress.order.refl_at w
take_row_id-Progress (i ∷ is) w = record {
  versions = λ id. LeRow-refl (find_node id w.nodes);
  clock = omega arith;
  users = refl;
  access = refl;
  log = ([], refl);
}

create-Progress : (i : CreateNodeInput) → Within Progress (Repository.create i)
unfolding Repository.create
create-Progress i = Within-statement progress _ λ w.
    let (r, w') = take_row_id w.row_ids w in
    insert_row-Progress i w r w' (take_row_id-Progress w.row_ids w)

pub closed_Progress : Closed Progress
closed_Progress = record {
  steps = record {
    stable = progress;
    get_lem = get-Progress;
    list_lem = list-Progress;
    active_access_lem = active_access-Progress;
    mark_status_lem = mark_status-Progress;
    mark_sync_failure_lem = mark_sync_failure-Progress;
    mark_sync_success_lem = mark_sync_success-Progress;
    sync_remote_state_lem = sync_remote_state-Progress;
    bump_version_lem = bump_version-Progress;
    insert_sync_event_lem = insert_sync_event-Progress;
    ask_lem = λ n m p. exchange-Progress _;
    read_random_lem = read_random-Progress;
  };
  update_lem = update-Progress;
  create_lem = create-Progress;
}

pub push-Progress : (n : Node) (p : SyncPayload) → Within Progress (Client.sync n p)
unfolding Client.sync
push-Progress n p =
    Within-bind progress.order _ _ (exchange-Progress _) λ e. Within-pure progress.order _
