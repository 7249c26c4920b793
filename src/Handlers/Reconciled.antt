-- ===== src/Handlers/Reconciled.antt =====
-- The reconciliation that internal/http/handlers/handlers.go starts, over the repository of users and the
-- node manager: a user is marked only when each of its nodes has accepted a push.
use vetka_backend_panel.Prelude.{
  String, Bool, true, false, ◌≡◌, refl, sym, ap, ◌∙◌, ◌⊎◌, inl, inr, Option, List, [], ◌∷◌, ◌==◌,
  eq_iff, All-mono, if◌then◌else◌,
}
use mathlib.Core.Path.{subst}
use vetka_backend_panel.Prelude.Effects.{Result, ok, err, ◌>>=◌, pure, continue}
use vetka_backend_panel.Prelude.Triples.{Post, Triple, Invariant, Invariant-of_after}
use vetka_backend_panel.Users.Models.{User}
use vetka_backend_panel.Users.Repository
use vetka_backend_panel.Users.Repository.{
  active_node_ids, has_api_url, insert_distinct, update_user,
}
use vetka_backend_panel.Users.Expiry
use vetka_backend_panel.Users.Expiry.{has_key, dedupe_strings}
use vetka_backend_panel.Users.Expiry.Contract.{Contract, Reached, all-has_key}
use vetka_backend_panel.Users.Expiry.Marking.{reconcile-keeps}
use vetka_backend_panel.Nodes.Models.{AgentResponse}
use vetka_backend_panel.Nodes.Sync
use vetka_backend_panel.Nodes.Manager.Closed.{sync_node-keeps}
use vetka_backend_panel.Nodes.Manager.Progress.{Progress, progress, closed_Progress, push-Progress}
use vetka_backend_panel.Nodes.Manager.Accepted.{
  Grown, Grown-later, Accepted, Accepted-later, sync_node-Accepted,
}
use vetka_backend_panel.Nodes.Manager.Steady.{
  Steady, steady, sync_node-Steady, active_node_ids-same,
}
use vetka_backend_panel.Handlers.UsersApi
use vetka_backend_panel.World.{World, statement, tick_with}
use vetka_backend_panel.World.Statements.{Faultless, tick-related, Within-statement, calm-Post}

module _ (w0 : World) where
  -- The nodes that a user's entry is pushed to.
  abbrev pub nodes_for : String → List String
  nodes_for id = active_node_ids id w0.nodes w0.access

  -- Each of those nodes has accepted a push since.
  abbrev pub Justified : String → World → Type 0
  Justified id v =
      (n : String) → has_key n (dedupe_strings (nodes_for id)) ≡ true → Accepted w0.events n v

  -- The same users in the same order, marked as before or with a reason.
  abbrev pub Marked : World → List User → List User → Type 0
  Marked v [] [] = Unit
  Marked v [] (x ∷ xs) = ⊥
  Marked v (u ∷ us) [] = ⊥
  Marked v (u ∷ us) (x ∷ xs) =
      (x.id ≡ u.id)
      × ((x.expiry_synced_at ≡ u.expiry_synced_at) ⊎ Justified x.id v)
      × Marked v us xs

  abbrev Kept : World → Type 0
  Kept v =
      Faultless v.schedule
      × (v.access ≡ w0.access)
      × ((id : String) → has_api_url id v.nodes ≡ has_api_url id w0.nodes)
      × Grown w0.events v
      × Marked v w0.users v.users

  Marked-later :
      (v w : World) (us xs : List User)
      → ((n : String) → Accepted w0.events n v → Accepted w0.events n w)
      → Marked v us xs
      → Marked w us xs
  Marked-later v w [] [] f h = tt
  Marked-later v w [] (x ∷ xs) f h = h
  Marked-later v w (u ∷ us) [] f h = h
  Marked-later v w (u ∷ us) (x ∷ xs) f (e, inl s, h) = (e, inl s, Marked-later v w us xs f h)
  Marked-later v w (u ∷ us) (x ∷ xs) f (e, inr j, h) =
      (e, inr (λ n k. f n (j n k)), Marked-later v w us xs f h)

  Kept-later : (v w : World) → Progress v w → Steady v w → Kept v → Kept w
  Kept-later v w p s h = (
    s.calm h.0,
    p.access ∙ h.1,
    (λ id. s.urls id ∙ h.2 id),
    Grown-later w0.events v w p h.3,
    subst (Marked w w0.users) (sym p.users)
        (Marked-later v w w0.users v.users (λ n. Accepted-later w0.events n v w p) h.4),
  )

  tick-Kept : (w : World) → Kept w → Kept (tick_with w.schedule w).1
  tick-Kept w h =
      Kept-later w _ (tick-related progress w.schedule w refl)
        (tick-related steady w.schedule w refl) h

  pending-Kept : Invariant Kept Repository.users_pending_expiry_reconcile
  unfolding Repository.users_pending_expiry_reconcile
  pending-Kept = Invariant-of_after _ λ w h.
      Kept-later w _ ((Within-statement progress _ progress.order.refl_at).at w)
        ((Within-statement steady _ steady.order.refl_at).at w) h

  abbrev Read : String → List String → Type 0
  Read u ids = ids ≡ nodes_for u

  lookup-Read :
      (u : String)
      → Triple Kept
          (Repository.active_node_ids_for_expired_user u)
          (λ ids s. Kept s × Read u ids)
          (λ _. ⊥)
  unfolding Repository.active_node_ids_for_expired_user statement
  lookup-Read u = record {
    at = λ w h.
        let k = tick-Kept w h in
        calm-Post (λ ids s. Kept s × Read u ids) (λ _. ⊥) _ w.schedule w h.0
          (k, active_node_ids-same u _ w0.nodes _ k.2 ∙ ap (active_node_ids u w0.nodes) k.1);
  }

  abbrev Pushed : List String → World → Type 0
  Pushed ns = Reached Kept (Accepted w0.events) ns

  Pushed-later :
      (ns : List String) (v w : World) → Progress v w → Steady v w → Pushed ns v → Pushed ns w
  Pushed-later ns v w p s h =
      (Kept-later v w p s h.0, All-mono ns (λ n. Accepted-later w0.events n v w p) h.1)

  sync_quietly-Pushed :
      (ns : List String) (n : String)
      → Triple (Pushed ns) (UsersApi.sync_quietly n) (λ _. Pushed (n ∷ ns)) (Pushed ns)
  unfolding UsersApi.sync_quietly ◌>>=◌
  sync_quietly-Pushed ns n = record {
    at = λ w h.
        let k =
          Pushed-later ns w (Sync.sync_node n w).1
            ((sync_node-keeps closed_Progress.steps push-Progress n).at w)
            ((sync_node-Steady n).at w) h in
        answered (Sync.sync_node n w) k ((sync_node-Accepted w0.events n).at w h.0.3);
  }
    where
      answered :
          (x : Result AgentResponse × World)
          → Pushed ns x.1
          → Post (λ _. Accepted w0.events n) (Grown w0.events) x
          → Post (λ _. Pushed (n ∷ ns)) (Pushed ns) (continue x.0 (λ r. pure tt) x.1)
      answered (ok r, v) k a = (k.0, (a, k.1))
      answered (err e, v) k g = k

  -- A user with a reason is marked.
  update_user-Marked :
      (id : String) (f : User → User) (v : World) (us xs : List User)
      → ((x : User) → (f x).id ≡ x.id)
      → Justified id v
      → Marked v us xs
      → Marked v us (update_user id f xs)
  unfolding update_user
  update_user-Marked id f v [] [] k j h = tt
  update_user-Marked id f v [] (x ∷ xs) k j h = h
  update_user-Marked id f v (u ∷ us) [] k j h = h
  update_user-Marked id f v (u ∷ us) (x ∷ xs) k j (e, s, h) =
      let later = update_user-Marked id f v us xs k j h in by_test (x.id == id) refl s later
    where
      by_test :
          (b : Bool)
          → (x.id == id) ≡ b
          → (x.expiry_synced_at ≡ u.expiry_synced_at) ⊎ Justified x.id v
          → Marked v us (update_user id f xs)
          → (let y : User = (if b then f x else x) in
              (y.id ≡ u.id)
              × ((y.expiry_synced_at ≡ u.expiry_synced_at) ⊎ Justified y.id v)
              × Marked v us (update_user id f xs))
      by_test true q s later =
          (k x ∙ e, inr (subst (λ i. Justified i v) (sym (k x ∙ (eq_iff x.id id).0 q)) j), later)
      by_test false q s later = (e, s, later)

  mark-Pushed :
      (u : String) (ids ns : List String)
      → Read u ids
      → ((n : String) → has_key n (dedupe_strings ids) ≡ true → has_key n ns ≡ true)
      → Invariant (Pushed ns) (Repository.mark_expiry_synced u)
  unfolding Repository.mark_expiry_synced statement
  mark-Pushed u ids ns r f = record {
    at = λ w h.
        let (k, a) =
          Pushed-later ns w _ (tick-related progress w.schedule w refl)
            (tick-related steady w.schedule w refl) h in
        calm-Post (λ _. Pushed ns) (Pushed ns) _ w.schedule w h.0.0
          (
            (
              k.0,
              k.1,
              k.2,
              k.3,
              update_user-Marked u _ (tick_with w.schedule w).1 w0.users _ (λ x. refl)
                  (λ n m.
                    all-has_key (λ m. Accepted w0.events m (tick_with w.schedule w).1) ns n a
                      (f n (ap (λ l. has_key n (dedupe_strings l)) r ∙ m)))
                  k.4,
            ),
            a,
          );
  }

  contract : Contract Kept (Accepted w0.events) Read UsersApi.user_repository UsersApi.sync_quietly
  unfolding UsersApi.user_repository
  contract = record {
    pending = pending-Kept;
    lookup = lookup-Read;
    push = sync_quietly-Pushed;
    mark = mark-Pushed;
  }

  Marked-same : (us : List User) → Marked w0 us us
  Marked-same [] = tt
  Marked-same (u ∷ us) = (refl, inl refl, Marked-same us)

-- While no statement fails, and whatever agents answer, a reconciliation keeps the users in their order and
-- marks only those of whom each node with an address, to which an enabled entry gives access, has taken a push
-- during it: it is in the log that the agent answered it with a 2xx code and a response with `ok`.
pub api_reconcile_expired_users-Marked :
    (w : World)
    → Faultless w.schedule
    → (let v = (UsersApi.api_reconcile_expired_users (false, w)).1.1 in Marked w v w.users v.users)
unfolding UsersApi.api_reconcile_expired_users Expiry.run_once
api_reconcile_expired_users-Marked w h =
    ended (Expiry.reconcile UsersApi.user_repository UsersApi.sync_quietly (λ v. v.now) w) (
      reconcile-keeps (Kept w) (Accepted w.events) (Read w) UsersApi.user_repository
        UsersApi.sync_quietly (λ v. v.now) (contract w) w
        (h, refl, (λ id. refl), ([], refl), Marked-same w w.users))
  where
    ended :
        (x : Result (Expiry.ExpiryReconcileResult × Option String) × World)
        → Post (λ _. Kept w) (λ _. ⊥) x
        → Marked w x.1 w.users x.1.users
    ended (ok r, v) k = k.4
    ended (err e, v) k = absurd k
