-- ===== src/Users/Expiry/Tally.antt =====
-- The counts and the errors of a run of internal/users/expiry_reconciler.go, whatever the repository and
-- the synchronisation of nodes do.
use mathlib.Core.List
use vetka_backend_panel.Prelude.{
  ℕ, ◌+◌, ◌≤◌, String, true, false, ◌≡◌, refl, ◌∙◌, ap, List, [], ◌∷◌, arith, length, length-append,
}
use vetka_backend_panel.Prelude.Effects.{Result, ok, err}
use vetka_backend_panel.Users.Models.{User}
use vetka_backend_panel.Users.Expiry
use vetka_backend_panel.Users.Expiry.{Run, ExpiryReconcileResult}

-- After `i` nodes and `j` users of the collected ones.
pub record Tally (ids : List String) (n i j : ℕ) (r : Run) : Type 0 where
  pub collected : r.user_ids ≡ ids
  pub found : r.result.users_found ≡ length ids
  pub affected : r.result.nodes_affected ≡ n
  pub pushed_le : r.result.sync_success_count ≤ i
  pub pushed_all : r.result.errors ≡ [] → (r.result.sync_success_count ≡ i) × (r.node_errors ≡ [])
  pub marked_le : r.result.users_synced ≤ j
  pub marked_all : r.result.errors ≡ [] → r.result.users_synced ≡ j

append-not_nil : (es : List String) (e : String) → ¬ (List.◌++◌ es (e ∷ []) ≡ [])
append-not_nil es e h = omega (arith, ap length h, length-append es (e ∷ []))

pub record_sync-Tally :
    (ids : List String) (n i j : ℕ) (id : String) (e : Result (Unit {0})) (r : Run)
    → Tally ids n i j r
    → Tally ids n (i + 1) j (Expiry.record_sync id e r)
unfolding Expiry.record_sync
record_sync-Tally ids n i j id (ok u) r h = record {
  collected = h.collected;
  found = h.found;
  affected = h.affected;
  pushed_le = omega (arith, h.pushed_le);
  pushed_all = λ k. (omega (arith, (h.pushed_all k).0), (h.pushed_all k).1);
  marked_le = h.marked_le;
  marked_all = h.marked_all;
}
record_sync-Tally ids n i j id (err e) r h = record {
  collected = h.collected;
  found = h.found;
  affected = h.affected;
  pushed_le = omega (arith, h.pushed_le);
  pushed_all = λ k. absurd (append-not_nil _ _ k);
  marked_le = h.marked_le;
  marked_all = λ k. absurd (append-not_nil _ _ k);
}

pub record_mark-Tally :
    (ids : List String) (n i j : ℕ) (id : String) (e : Result (Unit {0})) (r : Run)
    → Tally ids n i j r
    → Tally ids n i (j + 1) (Expiry.record_mark id e r)
unfolding Expiry.record_mark
record_mark-Tally ids n i j id (ok u) r h = record {
  collected = h.collected;
  found = h.found;
  affected = h.affected;
  pushed_le = h.pushed_le;
  pushed_all = h.pushed_all;
  marked_le = omega (arith, h.marked_le);
  marked_all = λ k. omega (arith, h.marked_all k);
}
record_mark-Tally ids n i j id (err e) r h = record {
  collected = h.collected;
  found = h.found;
  affected = h.affected;
  pushed_le = h.pushed_le;
  pushed_all = λ k. absurd (append-not_nil _ _ k);
  marked_le = omega (arith, h.marked_le);
  marked_all = λ k. absurd (append-not_nil _ _ k);
}

all_synced-none : (ids : List String) → Expiry.all_synced ids [] ≡ true
unfolding Expiry.all_synced Expiry.has_key
all_synced-none [] = refl
all_synced-none (id ∷ ids) = all_synced-none ids

-- A user is left out only beside an error.
pub skip-Tally :
    (ids : List String) (n i j : ℕ) (nodes : List String) (r : Run)
    → Expiry.all_synced nodes r.node_errors ≡ false
    → Tally ids n i j r
    → Tally ids n i (j + 1) r
skip-Tally ids n i j nodes r skipped h = record {
  collected = h.collected;
  found = h.found;
  affected = h.affected;
  pushed_le = h.pushed_le;
  pushed_all = h.pushed_all;
  marked_le = omega (arith, h.marked_le);
  marked_all = λ k.
      let all : Expiry.all_synced nodes r.node_errors ≡ true =
        ap (Expiry.all_synced nodes) (h.pushed_all k).1 ∙ all_synced-none nodes in
      absurd (cc);
}

pub record_nodes-Tally :
    (u : User) (e : Result (List String)) (r : Run)
    → Tally r.user_ids 0 0 0 r
    → Tally
        (Expiry.record_nodes u e (Expiry.count_user u r)).user_ids
        0
        0
        0
        (Expiry.record_nodes u e (Expiry.count_user u r))
unfolding Expiry.record_nodes
record_nodes-Tally u (ok ns) r h = record {
  collected = refl;
  found = omega (arith, h.found, length-append r.user_ids (u.id ∷ []));
  affected = h.affected;
  pushed_le = h.pushed_le;
  pushed_all = h.pushed_all;
  marked_le = h.marked_le;
  marked_all = h.marked_all;
}
record_nodes-Tally u (err e) r h = record {
  collected = refl;
  found = omega (arith, h.found, length-append r.user_ids (u.id ∷ []));
  affected = h.affected;
  pushed_le = h.pushed_le;
  pushed_all = λ k. absurd (append-not_nil _ _ k);
  marked_le = h.marked_le;
  marked_all = λ k. absurd (append-not_nil _ _ k);
}
