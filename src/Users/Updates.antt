-- ===== src/Users/Updates.antt =====
-- internal/users/repository.go: the statements on users and access rows that are there. Every update also
-- runs the trigger that sets `updated_at`; deleting a user deletes its access rows.
pub mod Revocation
use vetka_backend_panel.Prelude.{
  ℕ, String, Bool, true, false, not, ◌&&◌, ◌||◌, Option, none, some, List, [], ◌∷◌, ◌==◌,
  if◌then◌else◌, keep_if, sort_stable, ltb,
}
use vetka_backend_panel.Prelude.Effects.{Result, ok, err, Action}
use vetka_backend_panel.Users.Models.{User, Access, CreateUserInput}
use vetka_backend_panel.Users.Repository.{find_user, update_user}
use vetka_backend_panel.Users.Service.{AssignmentCredential, insert_access, refusal, unless_refused}
use vetka_backend_panel.Nodes.Models.{Node}
use vetka_backend_panel.Nodes.Repository.{find_node}
use vetka_backend_panel.World.{World, statement, refuse_if, take_row_id}

-- `AssignNode`, outside of a transaction.
unfoldable pub assign_node : String → String → AssignmentCredential → Action World (Unit {0})
unfolding statement insert_access
assign_node user_id protocol c =
    statement λ w. insert_access user_id protocol c w.now (take_row_id w.row_ids w)

-- `CollectOneRow`
abbrev pub collect_row : {A : Type 0} → Option A → Result A
collect_row none = err "no rows in result set"
collect_row (some a) = ok a

unfoldable pub list : Action World (List User)
unfolding statement
list = statement λ w. (ok (sort_stable (λ a b. ltb b.created_at a.created_at) w.users), w)

unfoldable pub get : String → Action World User
unfolding statement find_user
get id = statement λ w. (collect_row (find_user id w.users), w)

unfoldable pub find_token : String → List User → Option User
find_token token [] = none
find_token token (u ∷ us) = if u.subscription_token == token then some u else find_token token us

unfoldable pub get_by_token : String → Action World User
unfolding statement find_token
get_by_token token = statement λ w. (collect_row (find_token token w.users), w)

-- Another user has the name.
unfoldable pub takes_username : String → String → List User → Bool
takes_username id username [] = false
takes_username id username (u ∷ us) =
    (u.username == username && not (u.id == id)) || takes_username id username us

abbrev pub updated : CreateUserInput → ℕ → User → User
updated input now u = record u {
  username = input.username;
  display_name = input.display_name;
  enabled = input.enabled;
  expires_at = input.expires_at;
  quota_mb = input.quota_mb;
  notes = input.notes;
  updated_at = now;
}

unfoldable pub write_updated : String → CreateUserInput → User → World → Result User × World
unfolding update_user
write_updated id input old w = (
  ok (updated input w.now old),
  record w { users = update_user id (updated input w.now) w.users },
)

unfoldable pub update_found : String → CreateUserInput → World → Option User → Result User × World
unfolding takes_username write_updated
update_found id input w none = (collect_row none, w)
update_found id input w (some old) =
    refuse_if (takes_username id input.username w.users)
      "duplicate key value violates unique constraint users_username_key"
      (write_updated id input old) w

unfoldable pub update : String → CreateUserInput → Action World User
unfolding statement find_user update_found
update id input = statement λ w. update_found id input w (find_user id w.users)

abbrev pub switched : Bool → ℕ → User → User
switched enabled now u = record u { enabled = enabled; updated_at = now }

unfoldable pub set_enabled : String → Bool → Action World (Unit {0})
unfolding statement update_user
set_enabled id enabled =
    statement λ w. (ok tt, record w { users = update_user id (switched enabled w.now) w.users })

-- `on delete cascade`
unfoldable pub delete : String → Action World (Unit {0})
unfolding statement
delete id = statement λ w. (
  ok tt,
  record w {
    users = keep_if (λ u. not (u.id == id)) w.users;
    access = keep_if (λ a. not (a.user_id == id)) w.access;
  },
)

unfoldable pub unassign_node : String → String → Action World (Unit {0})
unfolding statement
unassign_node user_id node_id = statement λ w. (
  ok tt,
  record w { access = keep_if (λ a. not (a.user_id == user_id && a.node_id == node_id)) w.access },
)

unfoldable pub find_access : String → String → List Access → Option Access
find_access user_id id [] = none
find_access user_id id (a ∷ rows) =
    if a.user_id == user_id && a.id == id then some a else find_access user_id id rows

unfoldable pub access_by_id : String → String → Action World Access
unfolding statement find_access
access_by_id user_id id = statement λ w. (collect_row (find_access user_id id w.access), w)

abbrev pub access_switched : Bool → ℕ → Access → Access
access_switched enabled now a = record a { enabled = enabled; updated_at = now }

unfoldable pub switch_access : String → String → (Access → Access) → List Access → List Access
switch_access user_id id f [] = []
switch_access user_id id f (a ∷ rows) =
    (if a.user_id == user_id && a.id == id then f a else a) ∷ switch_access user_id id f rows

-- The trigger `enforce_access_protocol` runs for each row that is updated.
abbrev pub first_refusal : Option String → Option String → Option String
first_refusal none later = later
first_refusal (some e) later = some e

unfoldable pub switch_refusal : String → String → List Node → List Access → Option String
unfolding find_node
switch_refusal user_id id nodes [] = none
switch_refusal user_id id nodes (a ∷ rows) =
    let later = switch_refusal user_id id nodes rows in
    if a.user_id == user_id && a.id == id
    then first_refusal (refusal a.protocol_type (find_node a.node_id nodes)) later
    else later

abbrev pub write_switch : String → String → Bool → World → Result (Unit {0}) × World
write_switch user_id id enabled w =
    (ok tt, record w { access = switch_access user_id id (access_switched enabled w.now) w.access })

unfoldable pub set_access_enabled : String → String → Bool → Action World (Unit {0})
unfolding statement switch_access switch_refusal
set_access_enabled user_id id enabled = statement λ w.
    unless_refused (switch_refusal user_id id w.nodes w.access) (write_switch user_id id enabled) w

unfoldable pub access_for_user : String → Action World (List Access)
unfolding statement
access_for_user user_id = statement λ w. (
  ok (
      sort_stable (λ a b. ltb a.created_at b.created_at)
        (keep_if (λ a. a.user_id == user_id) w.access)),
  w,
)
