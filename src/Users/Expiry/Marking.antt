-- ===== src/Users/Expiry/Marking.antt =====
-- Under the contract, internal/users/expiry_reconciler.go keeps the invariant that says of the marked users
-- that their nodes are synchronised.
use vetka_backend_panel.Prelude.{
  ℕ, String, true, false, not, ◌≡◌, refl, sym, ap, ◌∙◌, List, [], ◌∷◌, arith, eq_iff, All, All-mono,
}
use vetka_backend_panel.Prelude.Effects.{Result, ok, err, Action, pure, attempt, gets}
use vetka_backend_panel.Prelude.Triples.{
  Post, Triple, Triple-bind, Triple-if, Triple-pure, Invariant, Invariant-after,
}
use vetka_backend_panel.Prelude.Order.{less_text}
use vetka_backend_panel.Users.Models.{User}
use vetka_backend_panel.Users.Expiry
use vetka_backend_panel.Users.Expiry.{
  Run, has_key, dedupe_strings, nodes_of, ExpiryReconcileRepository,
}
use vetka_backend_panel.Users.Expiry.Contract.{
  Contract, Reached, IsRead, AllRead, record_nodes-AllRead, has_key-sort, all_synced-none_failed,
}

true-not_false : true ≡ false → ⊥
true-not_false h = absurd (cc)

gets-keeps : {S A : Type 0} {I : S → Type 0} (f : S → A) → Triple I (gets f) (λ _. I) (λ _. ⊥)
unfolding gets
gets-keeps f = record { at = λ s i. i }

attempt-keeps :
    {S A : Type 0} {I : S → Type 0} (m : Action S A)
    → Invariant I m
    → Triple I (attempt m) (λ _. I) (λ _. ⊥)
unfolding attempt
attempt-keeps m h = record { at = λ s i. Invariant-after m h s i }

module _ {S : Type 0} (I : S → Type 0) (Synced : String → S → Type 0)
    (Read : String → List String → Type 0) (repo : ExpiryReconcileRepository S)
    (sync_node : String → Action S (Unit {0})) (clock : S → ℕ)
    (contract : Contract I Synced Read repo sync_node) where
  abbrev WasRead : String → Result (List String) → S → Type 0
  WasRead u (ok ids) s = I s × Read u ids
  WasRead u (err e) s = ⊥

  lookup-WasRead :
      (u : String)
      → Triple I (attempt (repo.active_node_ids_for_expired_user u)) (WasRead u) (λ _. ⊥)
  unfolding attempt
  lookup-WasRead u = record {
    at = λ s i.
        let (r, t) = repo.active_node_ids_for_expired_user u s in
        was r t ((contract.lookup u).at s i);
  }
    where
      was :
          (r : Result (List String)) (t : S)
          → Post (λ ids s. I s × Read u ids) (λ _. ⊥) (r, t)
          → WasRead u r t
      was (ok ids) t h = h
      was (err e) t h = h

  collect_one-AllRead :
      (now : ℕ) (u : User) (r : Run)
      → AllRead Read r
      → Triple I
          (Expiry.collect_one repo sync_node clock now u r)
          (λ q s. I s × AllRead Read q)
          (λ _. ⊥)
  unfolding Expiry.collect_one
  collect_one-AllRead now u r h =
      Triple-if (not (Expiry.needs_expiry_sync u now)) _ _ (λ _. Triple-pure r λ s i. (i, h))
        λ _. Triple-bind (WasRead u.id) _ _ (lookup-WasRead u.id) after_read
    where
      after_read :
          (e : Result (List String))
          → Triple
              (WasRead u.id e)
              (pure (Expiry.record_nodes u e (Expiry.count_user u r)))
              (λ q s. I s × AllRead Read q)
              (λ _. ⊥)
      after_read (ok ids) = Triple-pure _ λ s p. (p.0, record_nodes-AllRead Read u ids r p.1 h)
      after_read (err e) = Triple-pure _ λ s p. absurd p

  collect-AllRead :
      (now : ℕ) (us : List User) (r : Run)
      → AllRead Read r
      → Triple I
          (Expiry.collect repo sync_node clock now us r)
          (λ q s. I s × AllRead Read q)
          (λ _. ⊥)
  unfolding Expiry.collect
  collect-AllRead now [] r h = Triple-pure r λ s i. (i, h)
  collect-AllRead now (u ∷ us) r h =
      Triple-bind _ _ _ (collect_one-AllRead now u r h)
        λ q. record { at = λ s p. (collect-AllRead now us q p.1).at s p.0 }

  -- Of `keys`, those that are not to come and have not failed are synchronised.
  abbrev Pushed : List String → List String → Run → S → Type 0
  Pushed keys coming r s =
      (ns : List String) × Reached I Synced ns s
      × ((n : String)
          → has_key n keys ≡ true
          → has_key n coming ≡ false
          → has_key n r.node_errors ≡ false
          → has_key n ns ≡ true)

  -- The users of a run, read and within `keys`.
  abbrev Users : List String → Run → Type 0
  Users keys r = All (IsRead Read keys r) r.user_ids

  record_sync-Users :
      (keys : List String) (m : String) (e : Result (Unit {0})) (r : Run)
      → Users keys r
      → Users keys (Expiry.record_sync m e r)
  unfolding Expiry.record_sync
  record_sync-Users keys m (ok u) r h =
      All-mono r.user_ids
        (λ v k. record { ids = k.ids; read = k.read; recorded = k.recorded; covered = k.covered }) h
  record_sync-Users keys m (err e) r h =
      All-mono r.user_ids
        (λ v k. record { ids = k.ids; read = k.read; recorded = k.recorded; covered = k.covered }) h

  push_one :
      (keys : List String) (m : String) (coming : List String) (r : Run)
      → Triple
          (Pushed keys (m ∷ coming) r)
          (attempt (sync_node m))
          (λ e. Pushed keys coming (Expiry.record_sync m e r))
          (λ _. ⊥)
  unfolding attempt Expiry.record_sync has_key
  push_one keys m coming r = record {
    at = λ s p. let (e, t) = sync_node m s in step p.0 p.2 e t ((contract.push p.0 m).at s p.1);
  }
    where
      step :
          (ns : List String)
          → ((n : String)
              → has_key n keys ≡ true
              → has_key n (m ∷ coming) ≡ false
              → has_key n r.node_errors ≡ false
              → has_key n ns ≡ true)
          → (e : Result (Unit {0})) (t : S)
          → Post (λ _. Reached I Synced (m ∷ ns)) (Reached I Synced ns) (e, t)
          → Pushed keys coming (Expiry.record_sync m e r) t
      step ns f (ok u) t h = (m ∷ ns, h, λ n a b c. ground (arith, eq_iff n m, f n, a, b, c))
      step ns f (err e) t h = (ns, h, λ n a b c. ground (arith, eq_iff n m, f n, a, b, c))

  sync_nodes-Pushed :
      (keys coming : List String) (r : Run)
      → Users keys r
      → Triple
          (Pushed keys coming r)
          (Expiry.sync_nodes repo sync_node clock coming r)
          (λ q s. Pushed keys [] q s × Users keys q)
          (λ _. ⊥)
  unfolding Expiry.sync_nodes
  sync_nodes-Pushed keys [] r h = Triple-pure r λ s p. (p, h)
  sync_nodes-Pushed keys (m ∷ coming) r h =
      Triple-bind _ _ _ (push_one keys m coming r) λ e.
        sync_nodes-Pushed keys coming (Expiry.record_sync m e r) (record_sync-Users keys m e r h)

  mark_call :
      (keys : List String) (u : String) (r : Run)
      → IsRead Read keys r u
      → Expiry.all_synced (nodes_of u r.users_to_nodes) r.node_errors ≡ true
      → Triple
          (Pushed keys [] r)
          (attempt (repo.mark_expiry_synced u))
          (λ e. Pushed keys [] (Expiry.record_mark u e r))
          (λ _. ⊥)
  unfolding attempt Expiry.record_mark has_key
  mark_call keys u r h synced = record {
    at = λ s p.
        let (e, t) = repo.mark_expiry_synced u s in
        step p.0 p.2 e t ((contract.mark u h.ids p.0 h.read (allowed p.0 p.2)).at s p.1);
  }
    where
      allowed :
          (ns : List String)
          → ((n : String)
              → has_key n keys ≡ true
              → has_key n [] ≡ false
              → has_key n r.node_errors ≡ false
              → has_key n ns ≡ true)
          → (n : String) → has_key n (dedupe_strings h.ids) ≡ true
          → has_key n ns ≡ true
      allowed ns f n k = f n (h.covered n k) refl (
          all_synced-none_failed n (nodes_of u r.users_to_nodes) r.node_errors synced
            (ap (has_key n) h.recorded ∙ k))

      step :
          (ns : List String)
          → ((n : String)
              → has_key n keys ≡ true
              → has_key n [] ≡ false
              → has_key n r.node_errors ≡ false
              → has_key n ns ≡ true)
          → (e : Result (Unit {0})) (t : S)
          → Post (λ _. Reached I Synced ns) (Reached I Synced ns) (e, t)
          → Pushed keys [] (Expiry.record_mark u e r) t
      step ns f (ok x) t j = (ns, j, f)
      step ns f (err x) t j = (ns, j, f)

  record_mark-IsRead :
      (keys : List String) (u : String) (e : Result (Unit {0})) (r : Run) (v : String)
      → IsRead Read keys r v
      → IsRead Read keys (Expiry.record_mark u e r) v
  unfolding Expiry.record_mark
  record_mark-IsRead keys u (ok x) r v k = record {
    ids = k.ids;
    read = k.read;
    recorded = k.recorded;
    covered = k.covered;
  }
  record_mark-IsRead keys u (err x) r v k = record {
    ids = k.ids;
    read = k.read;
    recorded = k.recorded;
    covered = k.covered;
  }

  mark_one-Pushed :
      (keys : List String) (u : String) (us : List String) (r : Run)
      → IsRead Read keys r u
      → All (IsRead Read keys r) us
      → Triple
          (Pushed keys [] r)
          (Expiry.mark_one repo sync_node clock u r)
          (λ q s. Pushed keys [] q s × All (IsRead Read keys q) us)
          (λ _. ⊥)
  unfolding Expiry.mark_one
  mark_one-Pushed keys u us r h hs =
      Triple-if (Expiry.all_synced (nodes_of u r.users_to_nodes) r.node_errors) _ _
        (λ synced.
          Triple-bind _ _ _ (mark_call keys u r h synced)
            λ e. Triple-pure _ λ s p. (p, All-mono us (record_mark-IsRead keys u e r) hs))
        λ _. Triple-pure r λ s p. (p, hs)

  mark_users-Pushed :
      (keys us : List String) (r : Run)
      → All (IsRead Read keys r) us
      → Triple
          (Pushed keys [] r)
          (Expiry.mark_users repo sync_node clock us r)
          (λ q s. Pushed keys [] q s)
          (λ _. ⊥)
  unfolding Expiry.mark_users
  mark_users-Pushed keys [] r h = Triple-pure r λ s p. p
  mark_users-Pushed keys (u ∷ us) r h =
      Triple-bind _ _ _ (mark_one-Pushed keys u us r h.0 h.1)
        λ q. record { at = λ s p. (mark_users-Pushed keys us q p.1).at s p.0 }

  affected-Users :
      (found : Run)
      → AllRead Read found
      → Users (Expiry.map_keys found.unique_nodes) (Expiry.affected repo sync_node clock found)
  unfolding Expiry.map_keys
  affected-Users found h =
      All-mono found.user_ids
        (λ v k. record {
          ids = k.ids;
          read = k.read;
          recorded = k.recorded;
          covered = λ n m. has_key-sort less_text n found.unique_nodes ∙ k.covered n m;
        })
        h

  sync_found-Pushed :
      (found : Run)
      → AllRead Read found
      → Triple I
          (Expiry.sync_nodes repo sync_node clock
            (Expiry.map_keys found.unique_nodes)
            (Expiry.affected repo sync_node clock found))
          (λ q s.
            Pushed (Expiry.map_keys found.unique_nodes) [] q s
            × Users (Expiry.map_keys found.unique_nodes) q)
          (λ _. ⊥)
  sync_found-Pushed found h =
      let keys = Expiry.map_keys found.unique_nodes in
      record {
        at = λ s i.
            (sync_nodes-Pushed keys keys (Expiry.affected repo sync_node clock found)
                (affected-Users found h)).at
              s ([], (i, tt), λ n a b c. absurd (true-not_false (sym a ∙ b)));
      }

  mark_found-keeps :
      (keys : List String) (q : Run)
      → Triple
          (λ s. Pushed keys [] q s × Users keys q)
          (Expiry.mark_users repo sync_node clock q.user_ids q)
          (λ _. I)
          (λ _. ⊥)
  mark_found-keeps keys q = record {
    at = λ s p.
        let (r, t) = Expiry.mark_users repo sync_node clock q.user_ids q s in
        kept r t ((mark_users-Pushed keys q.user_ids q p.1).at s p.0);
  }
    where
      kept :
          (r : Result Run) (t : S)
          → Post (λ m. Pushed keys [] m) (λ _. ⊥) (r, t)
          → Post (λ _. I) (λ _. ⊥) (r, t)
      kept (ok m) t h = h.1.0
      kept (err e) t h = h

  reconcile_candidates-keeps :
      (us : List User)
      → Triple I (Expiry.reconcile_candidates repo sync_node clock us) (λ _. I) (λ _. ⊥)
  unfolding Expiry.reconcile_candidates
  reconcile_candidates-keeps us =
      Triple-bind (λ _. I) _ _ (gets-keeps clock)
        λ now. Triple-bind _ _ _ (collect-AllRead now us Expiry.first_run tt) λ found. record {
          at = λ s p.
              (Triple-bind _ _ _ (sync_found-Pushed found p.1) λ q.
                  Triple-bind (λ _. I) _ _ (mark_found-keeps (Expiry.map_keys found.unique_nodes) q)
                    λ m. Triple-pure _ λ t i. i).at
                s p.0;
        }

  reconcile_pending-keeps :
      (r : Result (List User))
      → Triple I (Expiry.reconcile_pending repo sync_node clock r) (λ _. I) (λ _. ⊥)
  reconcile_pending-keeps (ok us) = reconcile_candidates-keeps us
  reconcile_pending-keeps (err e) = Triple-pure _ λ s i. i

  -- Under the contract (the nodes of a user can always be read, and marking a user whose nodes that were
  -- read are all synchronised keeps the invariant), the reconciliation returns and keeps the invariant.
  pub reconcile-keeps :
      (s : S) → I s → Post (λ _. I) (λ _. ⊥) (Expiry.reconcile repo sync_node clock s)
  unfolding Expiry.reconcile
  reconcile-keeps s i =
      (Triple-bind (λ _. I) _ _ (attempt-keeps repo.users_pending_expiry_reconcile contract.pending)
          reconcile_pending-keeps).at
        s i
