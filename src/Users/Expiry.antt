-- ===== src/Users/Expiry.antt =====
-- internal/users/expiry_reconciler.go. The repository, the call that synchronises a node and the clock
-- are parameters, on a state of any type; a Go map is an association list whose first entry counts.
pub mod Candidates
pub mod Dedupe
pub mod Lookup
pub mod Tally
pub mod Counts
pub mod Contract
pub mod Marking
use Prim.Native.String.{◌++◌}
use mathlib.Core.List
use vetka_backend_panel.Prelude.{
  ℕ, ◌+◌, String, Bool, true, false, not, ◌&&◌, ◌||◌, Option, none, some, List, [], ◌∷◌, ◌==◌,
  if◌then◌else◌, ltb, is_some, length, sort_stable,
}
use vetka_backend_panel.Prelude.Effects.{Result, ok, err, Action, pure, attempt, gets, ◌>>=◌, ◌>>◌}
use vetka_backend_panel.Users.Models.{User}
use vetka_backend_panel.Prelude.Order.{less_text}
use vetka_backend_panel.Users.Repository.{synced_before}

pub record ExpiryReconcileRepository (S : Type 0) : Type 0 where
  pub users_pending_expiry_reconcile : Action S (List User)
  pub active_node_ids_for_expired_user : String → Action S (List String)
  pub mark_expiry_synced : String → Action S (Unit {0})

pub record ExpiryReconcileResult : Type 0 where
  pub users_found : ℕ
  pub nodes_affected : ℕ
  pub sync_success_count : ℕ
  pub users_synced : ℕ
  pub errors : List String

abbrev pub no_result : ExpiryReconcileResult
no_result = record {
  users_found = 0;
  nodes_affected = 0;
  sync_success_count = 0;
  users_synced = 0;
  errors = [];
}

abbrev pub log_error : String → ExpiryReconcileResult → ExpiryReconcileResult
log_error e r = record r { errors = List.◌++◌ r.errors (e ∷ []) }

-- `!user.ExpiresAt.After(now)` and the test of the last synchronisation.
abbrev pub due : ℕ → Option ℕ → Option ℕ → Bool
due now none synced_at = false
due now (some expires_at) synced_at =
    if ltb now expires_at then false else synced_before synced_at expires_at

unfoldable pub needs_expiry_sync : User → ℕ → Bool
needs_expiry_sync user now =
    if not user.enabled || not (is_some user.expires_at)
    then false
    else due now user.expires_at user.expiry_synced_at

unfoldable pub has_key : String → List String → Bool
has_key x [] = false
has_key x (y ∷ ys) = x == y || has_key x ys

-- The loop of `dedupeStrings`, from the values seen so far.
unfoldable pub dedupe_from : List String → List String → List String
unfolding has_key
dedupe_from seen [] = []
dedupe_from seen (value ∷ values) =
    let skipped = dedupe_from seen values in
    let added = dedupe_from (value ∷ seen) values in
    if value == "" || has_key value seen then skipped else value ∷ added

unfoldable pub dedupe_strings : List String → List String
unfolding dedupe_from
dedupe_strings values = dedupe_from [] values

-- `uniqueNodes[nodeID] = true` for each of a list.
unfoldable pub add_keys : List String → List String → List String
unfolding has_key
add_keys [] keys = keys
add_keys (id ∷ ids) keys = add_keys ids (if has_key id keys then keys else id ∷ keys)

unfoldable pub map_keys : List String → List String
map_keys keys = sort_stable less_text keys

-- A missing key is the empty list.
unfoldable pub nodes_of : String → List (String × List String) → List String
nodes_of id [] = []
nodes_of id (e ∷ es) = if e.0 == id then e.1 else nodes_of id es

-- The variables of `reconcile`.
pub record Run : Type 0 where
  pub result : ExpiryReconcileResult
  pub user_ids : List String
  pub users_to_nodes : List (String × List String)
  pub unique_nodes : List String
  pub node_errors : List String

abbrev pub first_run : Run
first_run = record {
  result = no_result;
  user_ids = [];
  users_to_nodes = [];
  unique_nodes = [];
  node_errors = [];
}

abbrev pub count_user : User → Run → Run
count_user user r = record r {
  result = record r.result { users_found = r.result.users_found + 1 };
  user_ids = List.◌++◌ r.user_ids (user.id ∷ []);
}

-- The nodes of one candidate, or the error of the query: it is logged, and the user stays counted.
unfoldable pub record_nodes : User → Result (List String) → Run → Run
unfolding dedupe_strings add_keys
record_nodes user (err e) r = record r { result = log_error (user.username ++ ": " ++ e) r.result }
record_nodes user (ok ids) r = record r {
  users_to_nodes = (user.id, dedupe_strings ids) ∷ r.users_to_nodes;
  unique_nodes = add_keys (dedupe_strings ids) r.unique_nodes;
}

unfoldable pub record_sync : String → Result (Unit {0}) → Run → Run
record_sync id (err e) r = record r {
  result = log_error (id ++ ": " ++ e) r.result;
  node_errors = id ∷ r.node_errors;
}
record_sync id (ok u) r = record r {
  result = record r.result { sync_success_count = r.result.sync_success_count + 1 };
}

-- No node of the list is among the failed ones.
unfoldable pub all_synced : List String → List String → Bool
unfolding has_key
all_synced [] failed = true
all_synced (id ∷ ids) failed = if has_key id failed then false else all_synced ids failed

unfoldable pub record_mark : String → Result (Unit {0}) → Run → Run
record_mark id (err e) r = record r { result = log_error (id ++ ": " ++ e) r.result }
record_mark id (ok u) r = record r {
  result = record r.result { users_synced = r.result.users_synced + 1 };
}

abbrev pub close_with : ExpiryReconcileResult → List String → ExpiryReconcileResult × Option String
close_with r [] = (r, none)
close_with r (e ∷ es) = (r, some "expiry reconcile completed with errors")

abbrev pub close : ExpiryReconcileResult → ExpiryReconcileResult × Option String
close r = close_with r r.errors

module _ {S : Type 0} (repo : ExpiryReconcileRepository S)
    (sync_node : String → Action S (Unit {0})) (clock : S → ℕ) where
  unfoldable pub collect_one : ℕ → User → Run → Action S Run
  unfolding needs_expiry_sync record_nodes
  collect_one now user r = if not (needs_expiry_sync user now) then pure r else (do
    ids ← attempt (repo.active_node_ids_for_expired_user user.id)
    pure (record_nodes user ids (count_user user r)))

  unfoldable pub collect : ℕ → List User → Run → Action S Run
  unfolding collect_one
  collect now [] r = pure r
  collect now (user ∷ users) r = do r' ← collect_one now user r; collect now users r'

  unfoldable pub sync_nodes : List String → Run → Action S Run
  unfolding record_sync
  sync_nodes [] r = pure r
  sync_nodes (id ∷ ids) r = do e ← attempt (sync_node id); sync_nodes ids (record_sync id e r)

  unfoldable pub mark_one : String → Run → Action S Run
  unfolding all_synced nodes_of record_mark
  mark_one id r =
      if all_synced (nodes_of id r.users_to_nodes) r.node_errors
      then (do e ← attempt (repo.mark_expiry_synced id); pure (record_mark id e r))
      else pure r

  unfoldable pub mark_users : List String → Run → Action S Run
  unfolding mark_one
  mark_users [] r = pure r
  mark_users (id ∷ ids) r = do r' ← mark_one id r; mark_users ids r'

  abbrev pub affected : Run → Run
  affected r = record r {
    result = record r.result { nodes_affected = length (map_keys r.unique_nodes) };
  }

  unfoldable pub reconcile_candidates : List User → Action S (ExpiryReconcileResult × Option String)
  unfolding collect sync_nodes mark_users map_keys
  reconcile_candidates candidates = do
    now ← gets clock
    found ← collect now candidates first_run
    pushed ← sync_nodes (map_keys found.unique_nodes) (affected found)
    marked ← mark_users pushed.user_ids pushed
    pure (close marked.result)

  abbrev pub reconcile_pending :
      Result (List User) → Action S (ExpiryReconcileResult × Option String)
  reconcile_pending (err e) = pure (no_result, some e)
  reconcile_pending (ok candidates) = reconcile_candidates candidates

  -- The result and the error come back side by side, so the action itself never fails.
  unfoldable pub reconcile : Action S (ExpiryReconcileResult × Option String)
  unfolding reconcile_candidates
  reconcile = do
    candidates ← attempt repo.users_pending_expiry_reconcile
    reconcile_pending candidates

  -- `RunOnce`, on the state and the flag `running`.
  unfoldable pub run_once : Bool × S → (ExpiryReconcileResult × Option String) × (Bool × S)
  unfolding reconcile
  run_once (true, s) = ((no_result, some "expiry reconcile already running"), (true, s))
  run_once (false, s) = let (r, s') = reconcile s in (released r, (false, s'))
    where
      released :
          Result (ExpiryReconcileResult × Option String) → ExpiryReconcileResult × Option String
      released (ok r) = r
      released (err e) = (no_result, some e)
