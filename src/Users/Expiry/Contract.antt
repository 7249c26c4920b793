-- ===== src/Users/Expiry/Contract.antt =====
-- What internal/users/expiry_reconciler.go relies on: a contract of the repository and of the
-- synchronisation, under which the reconciler only marks users whose nodes it has synchronised.
use vetka_backend_panel.Prelude.{
  String, Bool, true, false, ◌||◌, ◌≡◌, refl, sym, ap, ◌∙◌, List, [], ◌∷◌, ◌==◌, arith, eq_iff,
  eq_refl, All, All-mono, All-append, Bool-cases, inl, inr, insert_sorted, sort_stable,
}
use mathlib.Core.Path.{subst}
use vetka_backend_panel.Prelude.Effects.{ok, Action}
use vetka_backend_panel.Prelude.Triples.{Triple, Invariant}
use vetka_backend_panel.Users.Models.{User}
use vetka_backend_panel.Users.Expiry
use vetka_backend_panel.Users.Expiry.{Run, has_key, dedupe_strings, nodes_of}

-- Lists as sets.
has_key-add_keys :
    (n : String) (ids keys : List String)
    → has_key n (Expiry.add_keys ids keys) ≡ (has_key n ids || has_key n keys)
unfolding has_key Expiry.add_keys
has_key-add_keys n [] keys = refl
has_key-add_keys n (x ∷ xs) keys =
    ground (arith, eq_iff n x, has_key-add_keys n xs keys, has_key-add_keys n xs (x ∷ keys))

has_key-insert :
    (less : String → String → Bool) (n x : String) (ys : List String)
    → has_key n (insert_sorted less x ys) ≡ (n == x || has_key n ys)
unfolding has_key
has_key-insert less n x [] = refl
has_key-insert less n x (y ∷ ys) = ground (arith, has_key-insert less n x ys)

pub has_key-sort :
    (less : String → String → Bool) (n : String) (xs : List String)
    → has_key n (sort_stable less xs) ≡ has_key n xs
unfolding has_key
has_key-sort less n [] = refl
has_key-sort less n (x ∷ xs) =
    has_key-insert less n x (sort_stable less xs) ∙ ap (λ b. n == x || b) (has_key-sort less n xs)

pub all-has_key :
    (P : String → Type 0) (ns : List String) (n : String) → All P ns → has_key n ns ≡ true → P n
unfolding has_key
all-has_key P [] n h e = absurd (cc)
all-has_key P (m ∷ ns) n h e = elim (Bool-cases (n == m)) [
  | inl q ↦ subst P (sym ((eq_iff n m).0 q)) h.0
  | inr q ↦ all-has_key P ns n h.1 (ground (arith, e, q))
]

pub all_synced-none_failed :
    (n : String) (ids failed : List String)
    → Expiry.all_synced ids failed ≡ true
    → has_key n ids ≡ true
    → has_key n failed ≡ false
unfolding has_key Expiry.all_synced
all_synced-none_failed n [] failed h k = cc
all_synced-none_failed n (x ∷ xs) failed h k =
    ground (arith, eq_iff n x, h, k, all_synced-none_failed n xs failed)

module _ {S : Type 0} (I : S → Type 0) (Synced : String → S → Type 0) where
  -- `I`, and the nodes are synchronised.
  abbrev pub Reached : List String → S → Type 0
  Reached ns s = I s × All (λ n. Synced n s) ns

  -- The repository and the synchronisation keep `I` and what is synchronised; a user may be marked when
  -- all nodes that were read for the user are synchronised. The nodes of a user can always be read.
  pub record Contract (Read : String → List String → Type 0)
      (repo : Expiry.ExpiryReconcileRepository S) (sync_node : String → Action S (Unit {0}))
      : Type 0 where
    pub pending : Invariant I repo.users_pending_expiry_reconcile
    pub lookup :
        (u : String)
        → Triple I (repo.active_node_ids_for_expired_user u) (λ ids s. I s × Read u ids) (λ _. ⊥)
    pub push :
        (ns : List String) (n : String)
        → Triple (Reached ns) (sync_node n) (λ _. Reached (n ∷ ns)) (Reached ns)
    pub mark :
        (u : String) (ids ns : List String)
        → Read u ids
        → ((n : String) → has_key n (dedupe_strings ids) ≡ true → has_key n ns ≡ true)
        → Invariant (Reached ns) (repo.mark_expiry_synced u)

-- The nodes of a collected user are those that were read, and all are among `keys`.
pub record IsRead (Read : String → List String → Type 0) (keys : List String) (r : Run) (u : String)
    : Type 0 where
  pub ids : List String
  pub read : Read u ids
  pub recorded : nodes_of u r.users_to_nodes ≡ dedupe_strings ids
  pub covered : (n : String) → has_key n (dedupe_strings ids) ≡ true → has_key n keys ≡ true

module _ (Read : String → List String → Type 0) (u : User) (ids : List String)
    (read : Read u.id ids) (r : Run) where
  abbrev collected : Run
  collected = Expiry.record_nodes u (ok ids) (Expiry.count_user u r)

  pub collected-own :
      IsRead Read (Expiry.add_keys (dedupe_strings ids) r.unique_nodes) collected u.id
  unfolding Expiry.record_nodes nodes_of
  collected-own = record {
    ids = ids;
    read = read;
    recorded = ground (arith, eq_refl u.id);
    covered = λ n h. ground (arith, h, has_key-add_keys n (dedupe_strings ids) r.unique_nodes);
  }

  collected-other :
      (v : String)
      → (u.id == v) ≡ false
      → IsRead Read r.unique_nodes r v
      → IsRead Read (Expiry.add_keys (dedupe_strings ids) r.unique_nodes) collected v
  unfolding Expiry.record_nodes nodes_of
  collected-other v e h = record {
    ids = h.ids;
    read = h.read;
    recorded = rw e h.recorded;
    covered = λ n k.
        ground (arith, has_key-add_keys n (dedupe_strings ids) r.unique_nodes, h.covered n k);
  }

  pub collected-IsRead :
      (v : String)
      → IsRead Read r.unique_nodes r v
      → IsRead Read (Expiry.add_keys (dedupe_strings ids) r.unique_nodes) collected v
  collected-IsRead v h = elim (Bool-cases (u.id == v)) [
    | inl e ↦
        subst (λ x. IsRead Read (Expiry.add_keys (dedupe_strings ids) r.unique_nodes) collected x)
          ((eq_iff u.id v).0 e) collected-own
    | inr e ↦ collected-other v e h
  ]

-- Every collected user is read, and its nodes are among those to be synchronised.
abbrev pub AllRead : (String → List String → Type 0) → Run → Type 0
AllRead Read r = All (IsRead Read r.unique_nodes r) r.user_ids

pub record_nodes-AllRead :
    (Read : String → List String → Type 0) (u : User) (ids : List String) (r : Run)
    → Read u.id ids
    → AllRead Read r
    → AllRead Read (Expiry.record_nodes u (ok ids) (Expiry.count_user u r))
unfolding Expiry.record_nodes
record_nodes-AllRead Read u ids r read h =
    All-append _ r.user_ids (u.id ∷ []) (All-mono r.user_ids (collected-IsRead Read u ids read r) h)
      (collected-own Read u ids read r, tt)
