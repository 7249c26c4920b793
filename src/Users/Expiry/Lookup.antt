-- ===== src/Users/Expiry/Lookup.antt =====
-- A candidate whose nodes cannot be read: internal/users/expiry_reconciler.go.
use Prim.Native.String.{◌++◌}
use vetka_backend_panel.Prelude.{ℕ, String, true, ◌≡◌, some, [], ◌∷◌}
use vetka_backend_panel.Prelude.Effects.{ok, err, Action, pure, attempt, gets, ◌>>=◌}
use vetka_backend_panel.Users.Models.{User}
use vetka_backend_panel.Users.Expiry

module _ {S : Type 0} (repo : Expiry.ExpiryReconcileRepository S)
    (sync_node : String → Action S (Unit {0})) (clock : S → ℕ) (s t m : S) (u : User)
    (e : String) where
  -- If the only candidate is due, the query of its nodes fails and the mark of the user is written, then
  -- the candidate is marked all the same: the run ends in the state of the mark, no node has been
  -- synchronised, and the user counts as synchronised beside the error.
  pub reconcile-unread :
      repo.users_pending_expiry_reconcile s ≡ (ok (u ∷ []), t)
      → Expiry.needs_expiry_sync u (clock t) ≡ true
      → repo.active_node_ids_for_expired_user u.id t ≡ (err e, t)
      → repo.mark_expiry_synced u.id t ≡ (ok tt, m)
      → Expiry.reconcile repo sync_node clock s ≡ (
        ok (
          record {
            users_found = 1;
            nodes_affected = 0;
            sync_success_count = 0;
            users_synced = 1;
            errors = (u.username ++ ": " ++ e) ∷ [];
          },
          some "expiry reconcile completed with errors",
        ),
        m,
      )
  unfolding Expiry.reconcile Expiry.reconcile_candidates Expiry.collect Expiry.collect_one
      Expiry.sync_nodes Expiry.mark_users Expiry.mark_one Expiry.record_nodes Expiry.record_mark
      Expiry.nodes_of Expiry.map_keys Expiry.all_synced ◌>>=◌ pure attempt gets
  reconcile-unread pending due lookup mark = simp (pending, due, lookup, mark)
