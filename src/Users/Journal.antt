-- ===== src/Users/Journal.antt =====
-- A repository and a node synchronisation for the reconciler that write a journal: each user has two
-- nodes, of which one cannot be reached.
use vetka_backend_panel.Prelude.{
  String, Bool, true, false, ◌||◌, ◌≡◌, refl, sym, ap, List, [], ◌∷◌, ◌==◌, arith, eq_iff, eq_refl,
  All, All-mono, Bool-cases, inl, inr,
}
use mathlib.Core.Path.{subst}
use vetka_backend_panel.Prelude.Effects.{ok, err, Action}
use vetka_backend_panel.Prelude.Triples.{Post}
use vetka_backend_panel.Users.Models.{User}
use vetka_backend_panel.Users.Expiry.{ExpiryReconcileRepository, has_key, dedupe_strings}
use vetka_backend_panel.Users.Expiry.Contract.{Contract, Reached}

pub data Event : Type 0 where
  synced marked : String → Event

abbrev pub Journal : Type 0
Journal = List Event

abbrev pub was_synced : String → Journal → Bool
was_synced n [] = false
was_synced n (synced m ∷ j) = m == n || was_synced n j
was_synced n (marked u ∷ j) = was_synced n j

-- Every marked user has both nodes synchronised before.
abbrev pub IsBacked : Journal → Type 0
IsBacked [] = Unit
IsBacked (synced n ∷ j) = IsBacked j
IsBacked (marked u ∷ j) = (was_synced "row-1" j ≡ true) × (was_synced "row-2" j ≡ true) × IsBacked j

abbrev pub WasSynced : String → Journal → Type 0
WasSynced n j = was_synced n j ≡ true

abbrev pub two_rows : List String
two_rows = "row-1" ∷ "row-2" ∷ []

abbrev pub ReadsTwo : String → List String → Type 0
ReadsTwo u ids = ids ≡ two_rows

abbrev pending_of : List User → Action Journal (List User)
pending_of us j = (ok us, j)

abbrev rows_of : String → Action Journal (List String)
rows_of u j = (ok two_rows, j)

abbrev mark : String → Action Journal (Unit {0})
mark u j = (ok tt, marked u ∷ j)

abbrev pub journal : List User → ExpiryReconcileRepository Journal
journal us = record {
  users_pending_expiry_reconcile = pending_of us;
  active_node_ids_for_expired_user = rows_of;
  mark_expiry_synced = mark;
}

abbrev outcome : Bool → String → Action Journal (Unit {0})
outcome true n j = (err "unreachable", j)
outcome false n j = (ok tt, synced n ∷ j)

abbrev pub reach : String → Action Journal (Unit {0})
reach n = outcome (n == "row-2") n

All-at :
    (P : String → Type 0) (n : String) (ns : List String) → All P ns → has_key n ns ≡ true → P n
unfolding has_key
All-at P n [] h k = absurd (let e : false ≡ true = k in absurd (cc))
All-at P n (m ∷ ns) h k = elim (Bool-cases (n == m)) [
  | inl e ↦ subst P (sym ((eq_iff n m).0 e)) h.0
  | inr e ↦ All-at P n ns h.1 (ground (arith, e, k))
]

outcome-Reached :
    (b : Bool) (n : String) (ns : List String) (j : Journal)
    → Reached IsBacked WasSynced ns j
    → Post
        (λ _. Reached IsBacked WasSynced (n ∷ ns))
        (Reached IsBacked WasSynced ns)
        (outcome b n j)
outcome-Reached true n ns j h = h
outcome-Reached false n ns j h =
    (h.0, (ground (arith, eq_refl n), All-mono ns (λ m k. ground (arith, k)) h.1))

pub journal-Contract : (us : List User) → Contract IsBacked WasSynced ReadsTwo (journal us) reach
unfolding dedupe_strings
journal-Contract us = record {
  pending = record { at = λ j h. h };
  lookup = λ u. record { at = λ j h. (h, refl) };
  push = λ ns n. record { at = λ j h. outcome-Reached (n == "row-2") n ns j h };
  mark = λ u ids ns read among. record {
    at = λ j h. (
      ((
        All-at (λ n. WasSynced n j) "row-1" ns h.1
            (among "row-1" (ap (λ x. has_key "row-1" (dedupe_strings x)) read)),
        All-at (λ n. WasSynced n j) "row-2" ns h.1
            (among "row-2" (ap (λ x. has_key "row-2" (dedupe_strings x)) read)),
        h.0,
      )),
      All-mono ns (λ n k. k) h.1,
    );
  };
}
