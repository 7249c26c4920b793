-- ===== src/Users/Service.antt =====
-- internal/users/service.go, with the transaction of internal/users/repository.go that it runs. A map of
-- node protocols is an association list; a transaction that fails leaves the rows as they were.
pub mod Atomic
use Prim.Native.String.{◌++◌}
use mathlib.Core.List
use vetka_backend_panel.Prelude.{
  ℕ, String, Bool, true, false, not, ◌&&◌, ◌||◌, Option, none, some, List, [], ◌∷◌, ◌==◌,
  if◌then◌else◌, is_some,
}
use vetka_backend_panel.Prelude.Effects.{Result, ok, err, Action, pure, raise, ◌>>=◌, ◌>>◌}
use vetka_backend_panel.Security.{token}
use vetka_backend_panel.Users.Models.{User, Access, CreateUserInput}
use vetka_backend_panel.Users.Repository.{find_user}
use vetka_backend_panel.Nodes.Models.{Node}
use vetka_backend_panel.Nodes.Repository.{find_node}
use vetka_backend_panel.World.{World, statement, refuse_if, take_row_id}

pub record AssignmentCredential : Type 0 where
  pub node_id : String
  pub protocol_username : String
  pub protocol_password : String

-- A missing key is the empty text.
unfoldable pub protocol_of : String → List (String × String) → String
protocol_of node [] = ""
protocol_of node (e ∷ es) = if e.0 == node then e.1 else protocol_of node es

-- `username text unique`, `subscription_token text unique`.
unfoldable pub is_taken : String → String → List User → Bool
is_taken username token [] = false
is_taken username token (u ∷ us) =
    u.username == username || u.subscription_token == token || is_taken username token us

abbrev pub new_user : CreateUserInput → String → String → ℕ → User
new_user input token id now = record {
  id = id;
  username = input.username;
  display_name = input.display_name;
  enabled = input.enabled;
  expires_at = input.expires_at;
  expiry_synced_at = none;
  quota_mb = input.quota_mb;
  subscription_token = token;
  notes = input.notes;
  created_at = now;
  updated_at = now;
}

unfoldable pub write_user : CreateUserInput → String → ℕ → String → World → Result User × World
write_user input token now id w = (
  ok (new_user input token id now),
  record w { users = List.◌++◌ w.users (new_user input token id now ∷ []) },
)

unfoldable pub insert_user :
    CreateUserInput → String → ℕ → Result String × World → Result User × World
unfolding is_taken write_user
insert_user input token now (err e, w) = (err e, w)
insert_user input token now (ok id, w) =
    refuse_if (is_taken input.username token w.users)
      "duplicate key value violates unique constraint" (write_user input token now id) w

-- `createUserWithQuerier`
unfoldable pub create_user_row : CreateUserInput → String → ℕ → Action World User
unfolding statement insert_user
create_user_row input token now =
    statement λ w. insert_user input token now (take_row_id w.row_ids w)

abbrev pub renewed : String → String → String → ℕ → Access → Access
renewed protocol username password now a = record a {
  protocol_type = protocol;
  protocol_username = username;
  protocol_password = password;
  enabled = true;
  updated_at = now;
}

-- `on conflict(user_id, node_id) do update`
unfoldable pub upsert : Access → List Access → List Access
upsert new [] = new ∷ []
upsert new (a ∷ rows) =
    let later = upsert new rows in
    if a.user_id == new.user_id && a.node_id == new.node_id
    then renewed new.protocol_type new.protocol_username new.protocol_password new.updated_at a
      ∷ rows
    else a ∷ later

abbrev pub new_access : String → String → AssignmentCredential → String → ℕ → Access
new_access user_id protocol c id now = record {
  id = id;
  user_id = user_id;
  node_id = c.node_id;
  protocol_type = protocol;
  protocol_username = c.protocol_username;
  protocol_password = c.protocol_password;
  enabled = true;
  created_at = now;
  updated_at = now;
}

-- The trigger `enforce_access_protocol`, by the row of the node.
abbrev pub refusal : String → Option Node → Option String
refusal protocol none = some "node not found"
refusal protocol (some n) =
    if n.protocol_type == protocol
    then none
    else some "access protocol_type must match node protocol_type"

unfoldable pub write_access :
    String → String → AssignmentCredential → ℕ → String → World → Result (Unit {0}) × World
unfolding upsert
write_access user_id protocol c now id w =
    (ok tt, record w { access = upsert (new_access user_id protocol c id now) w.access })

abbrev pub unless_refused :
    Option String → (World → Result (Unit {0}) × World) → World → Result (Unit {0}) × World
unless_refused none run w = run w
unless_refused (some e) run w = (err e, w)

unfoldable pub store_access :
    String → String → AssignmentCredential → ℕ → String → World → Result (Unit {0}) × World
unfolding write_access find_user
store_access user_id protocol c now id w =
    refuse_if (not (is_some (find_user user_id w.users)))
      "violates foreign key constraint user_node_access_user_id_fkey"
      (write_access user_id protocol c now id) w

unfoldable pub insert_access :
    String → String → AssignmentCredential → ℕ → Result String × World → Result (Unit {0}) × World
unfolding find_node store_access
insert_access user_id protocol c now (err e, w) = (err e, w)
insert_access user_id protocol c now (ok id, w) =
    unless_refused (refusal protocol (find_node c.node_id w.nodes))
      (store_access user_id protocol c now id) w

-- `assignNodeWithExecutor`
unfoldable pub assign_node : String → String → AssignmentCredential → ℕ → Action World (Unit {0})
unfolding statement insert_access
assign_node user_id protocol c now =
    statement λ w. insert_access user_id protocol c now (take_row_id w.row_ids w)

unfoldable pub assign_each :
    String → List (String × String) → List AssignmentCredential → ℕ → Action World (Unit {0})
unfolding assign_node protocol_of
assign_each user_id protocols [] now = pure tt
assign_each user_id protocols (c ∷ cs) now =
    let rest = assign_each user_id protocols cs now in
    if protocol_of c.node_id protocols == ""
    then raise "no rows in result set"
    else (assign_node user_id (protocol_of c.node_id protocols) c now >> rest)

abbrev pub rolled_back : {A : Type 0} → World → Result A × World → Result A × World
rolled_back w (ok a, v) = (ok a, v)
rolled_back w (err e, v) = (err e, record v { users = w.users; access = w.access })

-- `begin` and `commit`.
abbrev pub mark_time : Action World ℕ
mark_time = statement λ w. (ok w.now, w)

abbrev pub commit : Action World (Unit {0})
commit = statement λ w. (ok tt, w)

-- In a transaction the time is that of its start.
unfoldable pub transaction : {A : Type 0} → (ℕ → Action World A) → Action World A
unfolding statement
transaction body w = rolled_back w ((do now ← mark_time; a ← body now; commit; pure a) w)

unfoldable pub create_with_assignments :
    CreateUserInput
    → String
    → List (String × String)
    → List AssignmentCredential
    → Action World User
unfolding transaction create_user_row assign_each
create_with_assignments input token protocols creds = transaction λ now. (do
  user ← create_user_row input token now
  assign_each user.id protocols creds now
  pure user)

unfoldable pub credential : List (String × String) → String → Action World AssignmentCredential
unfolding protocol_of token
credential protocols node_id =
    if protocol_of node_id protocols == ""
    then raise ("unknown node protocol for node " ++ node_id)
    else (do
      username ← token "u" 8
      password ← token "p" 18
      pure (record {
        node_id = node_id;
        protocol_username = username;
        protocol_password = password;
      }))

unfoldable pub credentials_for :
    List (String × String) → List String → Action World (List AssignmentCredential)
unfolding credential
credentials_for protocols [] = pure []
credentials_for protocols (n ∷ ns) = do
  c ← credential protocols n
  cs ← credentials_for protocols ns
  pure (c ∷ cs)

abbrev pub wrapped : {A : Type 0} → Result A × World → Result A × World
wrapped (ok a, w) = (ok a, w)
wrapped (err e, w) = (err ("create user with assignments: " ++ e), w)

unfoldable pub create_user : CreateUserInput → List (String × String) → Action World User
unfolding token credentials_for create_with_assignments
create_user input protocols = do
  subscription ← token "sub" 24
  creds ← credentials_for protocols input.node_ids
  λ w. wrapped (create_with_assignments input subscription protocols creds w)
