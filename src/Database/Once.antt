-- ===== src/Database/Once.antt =====
-- What the migration runner of internal/db/db.go keeps of the recorded versions and the scripts that ran.
use mathlib.Core.List
use mathlib.Core.Path.{subst}
use vetka_backend_panel.Prelude.{
  String, Bool, true, false, ◌≡◌, refl, ap, List, [], ◌∷◌, map, arith, eq_refl, All, Option,
  if◌then◌else◌,
}
use vetka_backend_panel.Prelude.Effects.{Result, ok, err}
use vetka_backend_panel.Prelude.Triples.{
  Post, Triple, Triple-bind, Triple-pure, Triple-imply, Post-any,
}
use vetka_backend_panel.Database
use vetka_backend_panel.Database.{Migration, Tables, Store}
use vetka_backend_panel.Database.Steps.{Triple-exec, added, Is, one_done, migrate_one-Is}

-- No version is recorded twice.
abbrev pub Distinct : List String → Type 0
Distinct [] = Unit
Distinct (v ∷ vs) = (Database.recorded v vs ≡ false) × Distinct vs

-- What is recorded is what ran, in the same order, and nothing ran twice.
abbrev pub IsSound : Tables → Type 0
IsSound t = (t.versions ≡ map (λ m. m.version) t.scripts) × Distinct t.versions

abbrev pub IsRecorded : Tables → Migration → Type 0
IsRecorded t m = Database.recorded m.version t.versions ≡ true

-- A fact about tables that one more migration keeps.
abbrev Lasts : (Tables → Type 0) → Type 0
Lasts K = (t : Tables) (m : Migration) → K t → K (added m t)

IsSound-one_done :
    (t : Tables) (m : Migration) → IsSound t → IsSound (one_done m t) × IsRecorded (one_done m t) m
unfolding Database.recorded
IsSound-one_done t m h = by_test (Database.recorded m.version t.versions) refl
  where
    by_test :
        (b : Bool)
        → Database.recorded m.version t.versions ≡ b
        → IsSound (if b then t else added m t) × IsRecorded (if b then t else added m t) m
    by_test true q = (h, q)
    by_test false q = ((ap (λ vs. m.version ∷ vs) h.0, (q, h.1)), ground (arith, eq_refl m.version))

Lasts-one_done :
    (K : Tables → Type 0) → Lasts K → (t : Tables) (m : Migration) → K t → K (one_done m t)
Lasts-one_done K l t m k = by_test (Database.recorded m.version t.versions)
  where
    by_test : (b : Bool) → K (if b then t else added m t)
    by_test true = k
    by_test false = l t m k

IsRecorded-Lasts : (m : Migration) → Lasts (λ t. IsRecorded t m)
unfolding Database.recorded
IsRecorded-Lasts m t n h = ground (arith, h)

module _ (K : Tables → Type 0) where
  abbrev Kept : Store → Type 0
  Kept s = IsSound s.tables × K s.tables

  migrate_one-Kept :
      (m : Migration)
      → Lasts K
      → Triple Kept (Database.migrate_one m) (λ _ s. Kept s × IsRecorded s.tables m) Kept
  migrate_one-Kept m l = record {
    at = λ s h.
        let r = (migrate_one-Is m s.tables).at s refl in
        outcome s.tables (Database.migrate_one m s) h r;
  }
    where
      outcome :
          (t : Tables) (x : Result (Unit {0}) × Store)
          → IsSound t × K t
          → Post (λ _. Is (one_done m t)) (Is t) x
          → Post (λ _ s. Kept s × IsRecorded s.tables m) Kept x
      outcome t (ok a, s) h e =
          let o = IsSound-one_done t m h.0 in rw (e) ((o.0, Lasts-one_done K l t m h.1), o.1)
      outcome t (err e, s) h q = rw (q) h

migrate_each-Kept :
    (K : Tables → Type 0) (ms : List Migration)
    → Lasts K
    → Triple
        (Kept K)
        (Database.migrate_each ms)
        (λ _ s. Kept K s × All (IsRecorded s.tables) ms)
        (Kept K)
unfolding Database.migrate_each
migrate_each-Kept K [] l = Triple-pure tt (λ s h. (h, tt))
migrate_each-Kept K (m ∷ ms) l =
    Triple-bind (λ _ s. Kept K s × IsRecorded s.tables m) _ _ (migrate_one-Kept K m l)
      λ _. record {
        at = λ s h. regroup (Database.migrate_each ms s) (
            (migrate_each-Kept (λ t. K t × IsRecorded t m) ms
                (λ t n k. (l t n k.0, IsRecorded-Lasts m t n k.1))).at
              s (h.0.0, (h.0.1, h.1)));
      }
  where
    regroup :
        (x : Result (Unit {0}) × Store)
        → Post
            (λ _ s. Kept (λ t. K t × IsRecorded t m) s × All (IsRecorded s.tables) ms)
            (Kept (λ t. K t × IsRecorded t m))
            x
        → Post (λ _ s. Kept K s × All (IsRecorded s.tables) (m ∷ ms)) (Kept K) x
    regroup (ok a, s) h = ((h.0.0, h.0.1.0), (h.0.1.1, h.1))
    regroup (err e, s) h = (h.0, h.1.0)

no_change-Kept : (K : Tables → Type 0) → Triple (Kept K) Database.no_change (λ _. Kept K) (Kept K)
no_change-Kept K =
    Triple-exec (λ t. IsSound t × K t) (λ _ t. IsSound t × K t) (λ t. IsSound t × K t) _ (λ u e. e)
      (λ u e. e)

migrate_each-again :
    (ms : List Migration) (t : Tables)
    → All (IsRecorded t) ms
    → Triple (Is t) (Database.migrate_each ms) (λ _. Is t) (Is t)
unfolding Database.migrate_each
migrate_each-again [] t h = Triple-pure tt (λ s e. e)
migrate_each-again (m ∷ ms) t h =
    Triple-bind (λ _. Is t) _ _ (known m t h.0 (migrate_one-Is m t))
      λ _. migrate_each-again ms t h.1
  where
    known :
        (m : Migration) (t : Tables)
        → IsRecorded t m
        → Triple (Is t) (Database.migrate_one m) (λ _. Is (one_done m t)) (Is t)
        → Triple (Is t) (Database.migrate_one m) (λ _. Is t) (Is t)
    known m t h k =
        subst
          (λ b.
            Triple (Is t) (Database.migrate_one m) (λ _. Is (if b then t else added m t)) (Is t))
          h k

migrate-again :
    (ms : List Migration) (s : Store)
    → All (IsRecorded s.tables) ms
    → (Database.migrate ms s).1.tables ≡ s.tables
unfolding Database.migrate
migrate-again ms s h = Post-any (Is s.tables) _ _ (
    (Triple-bind (λ _. Is s.tables) _ _
        (Triple-exec (λ u. u ≡ s.tables) (λ _ u. u ≡ s.tables) (λ u. u ≡ s.tables) _ (λ u e. e)
          (λ u e. e))
        (λ _. migrate_each-again ms s.tables h)).at
      s refl)

-- The scripts that ran before are still there.
abbrev pub Grown : Tables → Tables → Type 0
Grown t u = (new : List Migration) × (u.scripts ≡ List.◌++◌ new t.scripts)

Grown-Lasts : (t : Tables) → Lasts (Grown t)
Grown-Lasts t u m g = (m ∷ g.0, ap (λ ms. m ∷ ms) g.1)

-- Whatever statements fail, the migration runner keeps the recorded versions those of the scripts that ran,
-- each once, and undoes none that ran before; when it succeeds every given migration is recorded, and to
-- run it again, whatever fails then, changes nothing.
pub migrate-Once :
    (ms : List Migration) (s : Store)
    → IsSound s.tables
    → Post
        (λ _ u.
          (IsSound u.tables × Grown s.tables u.tables)
          × All (IsRecorded u.tables) ms
          × ((fs : List (Option String))
              → (Database.migrate ms (record u { faults = fs })).1.tables ≡ u.tables))
        (λ u. IsSound u.tables × Grown s.tables u.tables)
        (Database.migrate ms s)
unfolding Database.migrate
migrate-Once ms s h =
    (Triple-imply (Kept (Grown s.tables))
        (λ _ u k. (k.0, k.1, λ fs. migrate-again ms (record u { faults = fs }) k.1))
        (Database.migrate ms)
        (Triple-bind (λ _. Kept (Grown s.tables)) _ _ (no_change-Kept (Grown s.tables))
          (λ _. migrate_each-Kept (Grown s.tables) ms (Grown-Lasts s.tables)))).at
      s (h, ([], refl))
