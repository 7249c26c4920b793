-- ===== src/Users/Expiry/Counts.antt =====
-- The counts of a whole run of internal/users/expiry_reconciler.go.
use vetka_backend_panel.Prelude.{
  ℕ, ◌+◌, ◌≤◌, String, Bool, true, false, not, ◌≡◌, refl, ap, Option, none, List, [], ◌∷◌, arith,
  length, if◌then◌else◌,
}
use vetka_backend_panel.Prelude.Effects.{Result, ok, err, Action, pure, attempt, gets, ◌>>=◌}
use vetka_backend_panel.Prelude.Triples.{Post, Triple, Triple-bind}
use vetka_backend_panel.Users.Models.{User}
use vetka_backend_panel.Users.Expiry
use vetka_backend_panel.Users.Expiry.{Run, ExpiryReconcileResult}
use vetka_backend_panel.Users.Expiry.Tally.{
  Tally, record_sync-Tally, record_mark-Tally, skip-Tally, record_nodes-Tally,
}

-- It returns, never fails, and what it returns has the property.
abbrev Returns : {S A : Type 0} → (A → Type 0) → Action S A → Type 0
Returns Q m = Triple (λ _. Unit {0}) m (λ a _. Q a) (λ _. ⊥)

module _ {S A : Type 0} where
  Returns-pure : (Q : A → Type 0) (a : A) → Q a → Returns Q (pure {S = S} a)
  unfolding pure
  Returns-pure Q a q = record { at = λ s u. q }

  Returns-attempt : (m : Action S A) → Returns (λ r. Unit {0}) (attempt m)
  unfolding attempt
  Returns-attempt m = record { at = λ s u. tt }

  Returns-gets : (f : S → A) → Returns (λ r. Unit {0}) (gets f)
  unfolding gets
  Returns-gets f = record { at = λ s u. tt }

  Returns-if :
      (Q : A → Type 0) (b : Bool) (m n : Action S A)
      → (b ≡ true → Returns Q m)
      → (b ≡ false → Returns Q n)
      → Returns Q (if b then m else n)
  Returns-if Q true m n h k = h refl
  Returns-if Q false m n h k = k refl

module _ {S A B : Type 0} where
  Returns-bind :
      (P : A → Type 0) (Q : B → Type 0) (m : Action S A) (f : A → Action S B)
      → Returns P m
      → ((a : A) → P a → Returns Q (f a))
      → Returns Q (m >>= f)
  Returns-bind P Q m f h k =
      Triple-bind (λ a _. P a) m f h λ a. record { at = λ s p. (k a p).at s tt }

-- What a run reports: no more nodes and users than it met, an error exactly where errors are listed, and
-- every node and every user if there is none.
pub record Balanced (o : ExpiryReconcileResult × Option String) : Type 0 where
  pub nodes_le : o.0.sync_success_count ≤ o.0.nodes_affected
  pub users_le : o.0.users_synced ≤ o.0.users_found
  pub complete :
      o.1 ≡ none
      → (o.0.errors ≡ [])
        × (o.0.sync_success_count ≡ o.0.nodes_affected)
        × (o.0.users_synced ≡ o.0.users_found)

module _ (ids : List String) (n : ℕ) (r : Run) (h : Tally ids n n (length ids) r) where
  close_with-Balanced :
      (es : List String) → r.result.errors ≡ es → Balanced (Expiry.close_with r.result es)
  close_with-Balanced [] e = record {
    nodes_le = omega (arith, h.pushed_le, h.affected);
    users_le = omega (arith, h.marked_le, h.found);
    complete = λ k.
        (e, omega (arith, (h.pushed_all e).0, h.affected), omega (arith, h.marked_all e, h.found));
  }
  close_with-Balanced (x ∷ es) e = record {
    nodes_le = omega (arith, h.pushed_le, h.affected);
    users_le = omega (arith, h.marked_le, h.found);
    complete = λ k. absurd (cc);
  }

module _ {S : Type 0} (repo : Expiry.ExpiryReconcileRepository S)
    (sync_node : String → Action S (Unit {0})) (clock : S → ℕ) where
  collect_one-Tally :
      (now : ℕ) (u : User) (r : Run)
      → Tally r.user_ids 0 0 0 r
      → Returns (λ q. Tally q.user_ids 0 0 0 q) (Expiry.collect_one repo sync_node clock now u r)
  unfolding Expiry.collect_one
  collect_one-Tally now u r h =
      Returns-if _ (not (Expiry.needs_expiry_sync u now)) _ _ (λ _. Returns-pure _ r h)
        λ _.
          Returns-bind _ _ _ _ (Returns-attempt (repo.active_node_ids_for_expired_user u.id))
            λ e _. Returns-pure _ _ (record_nodes-Tally u e r h)

  collect-Tally :
      (now : ℕ) (us : List User) (r : Run)
      → Tally r.user_ids 0 0 0 r
      → Returns (λ q. Tally q.user_ids 0 0 0 q) (Expiry.collect repo sync_node clock now us r)
  unfolding Expiry.collect
  collect-Tally now [] r h = Returns-pure _ r h
  collect-Tally now (u ∷ us) r h =
      Returns-bind _ _ _ _ (collect_one-Tally now u r h) (collect-Tally now us)

  sync_nodes-Tally :
      (ids : List String) (n i total : ℕ) (ns : List String) (r : Run)
      → i + length ns ≡ total
      → Tally ids n i 0 r
      → Returns (Tally ids n total 0) (Expiry.sync_nodes repo sync_node clock ns r)
  unfolding Expiry.sync_nodes
  sync_nodes-Tally ids n i total [] r e h =
      let last : total ≡ i = omega (arith, e) in Returns-pure _ r (rw last h)
  sync_nodes-Tally ids n i total (m ∷ ns) r e h =
      Returns-bind _ _ _ _ (Returns-attempt (sync_node m)) λ o _.
        sync_nodes-Tally ids n (i + 1) total ns (Expiry.record_sync m o r) (omega (arith, e))
          (record_sync-Tally ids n i 0 m o r h)

  mark_one-Tally :
      (ids : List String) (n i j : ℕ) (id : String) (r : Run)
      → Tally ids n i j r
      → Returns (Tally ids n i (j + 1)) (Expiry.mark_one repo sync_node clock id r)
  unfolding Expiry.mark_one
  mark_one-Tally ids n i j id r h =
      Returns-if _ (Expiry.all_synced (Expiry.nodes_of id r.users_to_nodes) r.node_errors) _ _
        (λ _.
          Returns-bind _ _ _ _ (Returns-attempt (repo.mark_expiry_synced id))
            λ e _. Returns-pure _ _ (record_mark-Tally ids n i j id e r h))
        λ skipped.
          Returns-pure _ r (skip-Tally ids n i j (Expiry.nodes_of id r.users_to_nodes) r skipped h)

  mark_users-Tally :
      (ids : List String) (n i j total : ℕ) (us : List String) (r : Run)
      → j + length us ≡ total
      → Tally ids n i j r
      → Returns (Tally ids n i total) (Expiry.mark_users repo sync_node clock us r)
  unfolding Expiry.mark_users
  mark_users-Tally ids n i j total [] r e h =
      let last : total ≡ j = omega (arith, e) in Returns-pure _ r (rw last h)
  mark_users-Tally ids n i j total (u ∷ us) r e h =
      Returns-bind _ _ _ _ (mark_one-Tally ids n i j u r h)
        λ q k. mark_users-Tally ids n i (j + 1) total us q (omega (arith, e)) k

  affected-Tally :
      (r : Run)
      → Tally r.user_ids 0 0 0 r
      → Tally r.user_ids
          (length (Expiry.map_keys r.unique_nodes))
          0
          0
          (Expiry.affected repo sync_node clock r)
  affected-Tally r h = record {
    collected = refl;
    found = h.found;
    affected = refl;
    pushed_le = h.pushed_le;
    pushed_all = h.pushed_all;
    marked_le = h.marked_le;
    marked_all = h.marked_all;
  }

  first_run-Tally : Tally [] 0 0 0 Expiry.first_run
  first_run-Tally = record {
    collected = refl;
    found = refl;
    affected = refl;
    pushed_le = omega arith;
    pushed_all = λ k. (refl, refl);
    marked_le = omega arith;
    marked_all = λ k. refl;
  }

  reconcile_candidates-Balanced :
      (us : List User) → Returns Balanced (Expiry.reconcile_candidates repo sync_node clock us)
  unfolding Expiry.reconcile_candidates
  reconcile_candidates-Balanced us = Returns-bind _ _ _ _ (Returns-gets clock) λ now _.
      Returns-bind _ _ _ _ (collect-Tally now us Expiry.first_run first_run-Tally) λ r h.
        let n = length (Expiry.map_keys r.unique_nodes) in
        Returns-bind _ _ _ _
          (sync_nodes-Tally r.user_ids n 0 n (Expiry.map_keys r.unique_nodes)
            (Expiry.affected repo sync_node clock r) (omega arith) (affected-Tally r h))
          λ q k.
            Returns-bind _ _ _ _
              (mark_users-Tally r.user_ids n n 0 (length r.user_ids) q.user_ids q
                (omega (arith, ap length k.collected)) k)
              λ p l. Returns-pure _ _ (close_with-Balanced r.user_ids n p l p.result.errors refl)

  reconcile_pending-Balanced :
      (r : Result (List User)) → Returns Balanced (Expiry.reconcile_pending repo sync_node clock r)
  reconcile_pending-Balanced (ok us) = reconcile_candidates-Balanced us
  reconcile_pending-Balanced (err e) =
      Returns-pure _ _
        (record { nodes_le = omega arith; users_le = omega arith; complete = λ k. absurd (cc) })

  -- Whatever the repository and the synchronisation of nodes do, the reconciliation returns a report that
  -- counts at most the affected nodes as synchronised and at most the users found as synchronised; a
  -- report without an error lists no errors and counts every affected node and every user found.
  pub reconcile-Balanced :
      (s : S) → Post (λ o _. Balanced o) (λ _. ⊥) (Expiry.reconcile repo sync_node clock s)
  unfolding Expiry.reconcile
  reconcile-Balanced s =
      (Returns-bind _ _ _ _ (Returns-attempt repo.users_pending_expiry_reconcile)
          λ r _. reconcile_pending-Balanced r).at
        s tt
