-- ===== src/Users/Tests.antt =====
-- Runs of internal/users on small data: a reconciliation over a list of marked users.
use vetka_backend_panel.Prelude.{
  if◌then◌else◌, ℕ, String, true, ◌≡◌, refl, none, some, List, [], ◌∷◌, ◌&&◌, not, ◌==◌,
}
use vetka_backend_panel.Prelude.Int.{pos}
use vetka_backend_panel.Prelude.Effects.{ok, err, Action, is_err, pure, ◌>>=◌}
use vetka_backend_panel.Prelude.Triples.{Post}
use vetka_backend_panel.Users.Models.{User, CreateUserInput}
use vetka_backend_panel.Users.Service.{create_user}
use vetka_backend_panel.Users.Service.Atomic.{Created, create_user-Created}
use vetka_backend_panel.Users.Updates.{set_enabled, delete, unassign_node}
use vetka_backend_panel.Users.Updates.Revocation.{NotSent, withdrawals-NotSent}
use vetka_backend_panel.Nodes.Samples.{world, anna, anna_in_berlin}
use vetka_backend_panel.World.{World}
use vetka_backend_panel.Prelude.{replicate, false}
use vetka_backend_panel.Users.Repository.{is_pending}
use vetka_backend_panel.Users.Expiry.{
  ExpiryReconcileRepository, needs_expiry_sync, dedupe_strings, has_key, reconcile,
}
use vetka_backend_panel.Users.Expiry.Candidates.{needs_expiry_sync-is_pending}
use vetka_backend_panel.Users.Expiry.Dedupe.{Distinct, dedupe_strings_lem}
use vetka_backend_panel.Users.Expiry.Lookup.{reconcile-unread}
use vetka_backend_panel.Users.Expiry.Marking.{reconcile-keeps}
use vetka_backend_panel.Users.Journal.{
  IsBacked, WasSynced, ReadsTwo, journal, reach, journal-Contract,
}
use vetka_backend_panel.Users.Expiry.Counts.{Balanced, reconcile-Balanced}

abbrev boris : User
boris = record {
  id = "user-2";
  username = "boris";
  display_name = none;
  enabled = true;
  expires_at = some 50;
  expiry_synced_at = some 40;
  quota_mb = pos 0;
  subscription_token = "sub_2";
  notes = none;
  created_at = 20;
  updated_at = 20;
}

-- The state is the list of marked users; the clock stands at 100.
abbrev Marks : Type 0
Marks = List String

abbrev clock : Marks → ℕ
clock s = 100

abbrev candidates : List User → Action Marks (List User)
candidates us s = (ok us, s)

abbrev unreadable : String → Action Marks (List String)
unreadable id s = (err "connection reset", s)

abbrev readable : String → Action Marks (List String)
readable id s = (ok ("row-1" ∷ "row-2" ∷ "row-1" ∷ []), s)

abbrev mark : String → Action Marks (Unit {0})
mark id s = (ok tt, id ∷ s)

abbrev one_down : String → Action Marks (Unit {0})
one_down id s = (if id == "row-2" then err "unreachable" else ok tt, s)

abbrev repository : (String → Action Marks (List String)) → ExpiryReconcileRepository Marks
repository lookup = record {
  users_pending_expiry_reconcile = candidates (boris ∷ []);
  active_node_ids_for_expired_user = lookup;
  mark_expiry_synced = mark;
}

needs_expiry_sync-is_pending_example : needs_expiry_sync boris 100 ≡ is_pending 100 boris
needs_expiry_sync-is_pending_example = needs_expiry_sync-is_pending boris 100

dedupe_strings_example :
    Distinct (dedupe_strings ("row-1" ∷ "" ∷ "row-1" ∷ []))
    × ((x : String)
        → has_key x (dedupe_strings ("row-1" ∷ "" ∷ "row-1" ∷ []))
          ≡ (has_key x ("row-1" ∷ "" ∷ "row-1" ∷ []) && not (x == "")))
dedupe_strings_example = dedupe_strings_lem ("row-1" ∷ "" ∷ "row-1" ∷ [])

reconcile-Balanced_example :
    Post (λ o _. Balanced o) (λ _. ⊥) (reconcile (repository readable) one_down clock [])
reconcile-Balanced_example = reconcile-Balanced (repository readable) one_down clock []

reconcile-unread_example : reconcile (repository unreadable) one_down clock [] ≡ (
  ok (
    record {
      users_found = 1;
      nodes_affected = 0;
      sync_success_count = 0;
      users_synced = 1;
      errors = "boris: connection reset" ∷ [];
    },
    some "expiry reconcile completed with errors",
  ),
  "user-2" ∷ [],
)
unfolding needs_expiry_sync
reconcile-unread_example =
    reconcile-unread (repository unreadable) one_down clock [] [] ("user-2" ∷ []) boris
      "connection reset" refl refl refl refl

reconcile-keeps_example :
    Post (λ _. IsBacked) (λ _. ⊥) (reconcile (journal (boris ∷ [])) reach (λ j. 100) [])
reconcile-keeps_example =
    reconcile-keeps IsBacked WasSynced ReadsTwo (journal (boris ∷ [])) reach (λ j. 100)
      (journal-Contract (boris ∷ [])) [] tt

abbrev request : CreateUserInput
request = record {
  username = "boris";
  display_name = none;
  enabled = true;
  expires_at = none;
  quota_mb = pos 0;
  notes = none;
  node_ids = "row-1" ∷ [];
}

abbrev ready : World
ready = record (world [] []) {
  row_ids = "user-2" ∷ "access-2" ∷ [];
  entropy = replicate 24 1 ∷ replicate 8 2 ∷ replicate 18 3 ∷ [];
}

abbrev protocols : List (String × String)
protocols = ("row-1", "naive") ∷ []

create_user_succeeds : is_err (create_user request protocols ready).0 ≡ false
unfolding create_user ◌>>=◌ pure vetka_backend_panel.World.refuse_if
create_user_succeeds = refl

create_user-Created_example :
    Post
      (Created ready.users ("row-1" ∷ []))
      (λ v. (v.users ≡ ready.users) × (v.access ≡ ready.access))
      (create_user request protocols ready)
create_user-Created_example = create_user-Created request protocols ready

abbrev stored : World
stored = record (world [] []) { users = anna ∷ boris ∷ []; access = anna_in_berlin ∷ [] }

withdrawals-NotSent_example :
    Post
      (λ _. NotSent "user-1" "row-1")
      (λ v. (v.users ≡ stored.users) × (v.access ≡ stored.access))
      (set_enabled "user-1" false stored)
    × Post
        (λ _. NotSent "user-1" "row-1")
        (λ v. (v.users ≡ stored.users) × (v.access ≡ stored.access))
        (delete "user-1" stored)
    × Post
        (λ _. NotSent "user-1" "row-1")
        (λ v. (v.users ≡ stored.users) × (v.access ≡ stored.access))
        (unassign_node "user-1" "row-1" stored)
withdrawals-NotSent_example = withdrawals-NotSent "user-1" "row-1" stored
