-- ===== src/Nodes/Updates.antt =====
-- internal/nodes/repository.go: the statements that change rows which are there. Every update also runs
-- the trigger that sets `updated_at`.
use vetka_backend_panel.Prelude.{
  ℕ, String, Bool, true, false, not, ◌&&◌, ◌||◌, Option, none, some, List, [], ◌∷◌, ◌==◌,
  if◌then◌else◌, keep_if, is_some,
}
use vetka_backend_panel.Prelude.Int.{ℤ, pos, leb_ℤ, eq_ℤ, greatest, add_one}
use vetka_backend_panel.Prelude.Text.{to_lower}
use vetka_backend_panel.Prelude.Effects.{Result, ok, err, Action}
use vetka_backend_panel.Users.Models.{Access}
use vetka_backend_panel.Nodes.Models.{Node, CreateNodeInput, Body, malformed, json, SyncEvent}
use vetka_backend_panel.Nodes.Repository.{
  normalize_protocol_settings, find_node, update_node, one_row, no_rows, is_protocol, takes_node_id,
}
use vetka_backend_panel.World.{World, statement, refuse_if}

unfoldable pub touch : ℕ → Node → Node
touch now n = record n { updated_at = now }

unfoldable pub set_row : String → (Node → Node) → World → World
unfolding update_node touch
set_row id f w = record w { nodes = update_node id (λ n. touch w.now (f n)) w.nodes }

-- An `Exec`: that no row has the key is no error.
unfoldable pub exec_row : String → (World → Node → Node) → Action World (Unit {0})
unfolding statement set_row
exec_row id f = statement λ w. (ok tt, set_row id (f w) w)

abbrev pub updated_setup_state : Bool → String → String
updated_setup_state enabled state =
    if not enabled then "disabled" else if state == "disabled" then "planned" else state

unfoldable pub apply_input : CreateNodeInput → Node → Node
unfolding normalize_protocol_settings
apply_input input n = record n {
  node_id = input.node_id;
  name = input.name;
  domain = input.domain;
  api_url = input.api_url;
  protocol_type = to_lower input.protocol_type;
  node_secret = input.node_secret;
  enabled = input.enabled;
  setup_state = updated_setup_state input.enabled n.setup_state;
  protocol_settings = normalize_protocol_settings input.protocol_settings input.name;
}

unfoldable pub has_access : String → List Access → Bool
has_access id [] = false
has_access id (a ∷ rows) = a.node_id == id || has_access id rows

unfoldable pub write_input : String → CreateNodeInput → Node → World → Result Node × World
unfolding apply_input set_row
write_input id input old w =
    (one_row (some (touch w.now (apply_input input old))), set_row id (apply_input input) w)

unfoldable pub update_row : String → CreateNodeInput → World → Option Node → Result Node × World
unfolding takes_node_id has_access write_input
update_row id input w none = (err no_rows, w)
update_row id input w (some old) =
    refuse_if (not (is_protocol (to_lower input.protocol_type)))
      "violates check constraint nodes_protocol_type_check"
      (refuse_if (takes_node_id id input.node_id w.nodes)
        "duplicate key value violates unique constraint nodes_node_id_key"
        (refuse_if
          (not (old.protocol_type == to_lower input.protocol_type) && has_access id w.access)
          "cannot change node protocol_type while user assignments exist"
          (write_input id input old)))
      w

unfoldable pub update : String → CreateNodeInput → Action World Node
unfolding statement find_node update_row
update id input = statement λ w. update_row id input w (find_node id w.nodes)

abbrev pub default_version : ℤ → ℤ → ℤ
default_version current applied = if leb_ℤ applied (pos 0) then current else applied

unfoldable pub remote_state : ℤ → ℤ → Option String → ℕ → Node → Node
unfolding greatest
remote_state current applied last_error now n = record n {
  desired_config_version = greatest n.desired_config_version current;
  last_applied_version = greatest n.last_applied_version (default_version current applied);
  last_seen_at = some now;
  last_status = some "ok";
  last_error = last_error;
  setup_state = "connected";
}

unfoldable pub sync_remote_state : String → ℤ → ℤ → Option String → Action World (Unit {0})
unfolding exec_row remote_state
sync_remote_state id current applied last_error =
    exec_row id λ w. remote_state current applied last_error w.now

-- The access rows and the events of the node go with it, `on delete cascade`.
unfoldable pub delete : String → Action World (Unit {0})
unfolding statement
delete id = statement λ w. (
  ok tt,
  record w {
    nodes = keep_if (λ n. not (n.id == id)) w.nodes;
    access = keep_if (λ a. not (a.node_id == id)) w.access;
    events = keep_if (λ e. not (e.node_id == id)) w.events;
  },
)

abbrev pub max_int64 : ℤ
max_int64 = pos 9223372036854775807

unfoldable pub bumped : Node → Node
unfolding add_one
bumped n = record n { desired_config_version = add_one n.desired_config_version }

unfoldable pub write_bump : String → Node → World → Result ℤ × World
unfolding bumped set_row
write_bump id n w = (ok (add_one n.desired_config_version), set_row id bumped w)

unfoldable pub bump_row : String → World → Option Node → Result ℤ × World
unfolding write_bump
bump_row id w none = (err no_rows, w)
bump_row id w (some n) =
    refuse_if (eq_ℤ n.desired_config_version max_int64) "bigint out of range" (write_bump id n) w

unfoldable pub bump_version : String → Action World ℤ
unfolding statement find_node bump_row
bump_version id = statement λ w. bump_row id w (find_node id w.nodes)

unfoldable pub with_status : String → Option String → ℕ → Node → Node
with_status status error now n = record n {
  last_status = some status;
  last_error = error;
  last_seen_at = some now;
  setup_state = if status == "ok" then "connected" else n.setup_state;
}

unfoldable pub mark_status : String → String → Option String → Action World (Unit {0})
unfolding exec_row with_status
mark_status id status error = exec_row id λ w. with_status status error w.now

unfoldable pub synced : ℤ → ℕ → Node → Node
synced version now n = record n {
  last_applied_version = version;
  last_sync_at = some now;
  last_error = none;
  last_status = some "ok";
  last_seen_at = some now;
  setup_state = "connected";
}

unfoldable pub mark_sync_success : String → ℤ → Action World (Unit {0})
unfolding exec_row synced
mark_sync_success id version = exec_row id λ w. synced version w.now

unfoldable pub failed : String → String → ℕ → Node → Node
failed status message now n = record n {
  last_error = some message;
  last_status = some status;
  last_seen_at = some now;
  setup_state = if status == "http_error" then "unreachable" else n.setup_state;
}

unfoldable pub mark_sync_failure : String → String → String → Action World (Unit {0})
unfolding exec_row failed
mark_sync_failure id status message = exec_row id λ w. failed status message w.now

-- A `jsonb` column takes a null and JSON text, and nothing else.
abbrev pub is_jsonb : Option Body → Bool
is_jsonb none = true
is_jsonb (some (malformed s e)) = false
is_jsonb (some (json s r t)) = true

unfoldable pub write_event : SyncEvent → World → Result (Unit {0}) × World
write_event e w = (ok tt, record w { events = record e { created_at = w.now } ∷ w.events })

unfoldable pub insert_event : SyncEvent → World → Result (Unit {0}) × World
unfolding find_node write_event
insert_event e w =
    refuse_if (not (is_jsonb e.response_json)) "invalid input syntax for type json"
      (refuse_if (not (is_some (find_node e.node_id w.nodes)))
        "violates foreign key constraint node_sync_events_node_id_fkey" (write_event e))
      w

unfoldable pub insert_sync_event : SyncEvent → Action World (Unit {0})
unfolding statement insert_event
insert_sync_event e = statement (insert_event e)
