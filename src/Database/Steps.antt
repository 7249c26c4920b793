-- ===== src/Database/Steps.antt =====
-- What each statement of the migration runner of internal/db/db.go leaves of the tables.
use vetka_backend_panel.Prelude.{
  String, Bool, true, false, ◌≡◌, refl, sym, ap, List, [], ◌∷◌, Option, none, some, if◌then◌else◌,
}
use vetka_backend_panel.Prelude.Effects.{Result, ok, err, pure}
use vetka_backend_panel.Prelude.Triples.{Post, Triple, Triple-bind, Triple-pure, Triple-given}
use vetka_backend_panel.Database
use vetka_backend_panel.Database.{Migration, Tables, Store}

-- What a statement does to tables, where faults do not matter.
pub Triple-exec :
    {A : Type 0} (P : Tables → Type 0) (Q : A → Tables → Type 0) (E : Tables → Type 0)
    (run : Tables → Result A × Tables)
    → ((t : Tables) → P t → E t)
    → ((t : Tables) → P t → Post Q E (run t))
    → Triple (λ (s : Store). P s.tables) (Database.exec run) (λ a s. Q a s.tables) (λ s. E s.tables)
unfolding Database.exec
Triple-exec {A} P Q E run f h = record { at = λ s p. by_faults s.faults s p }
  where
    on_tables :
        (s : Store) (r : Result A × Tables)
        → Post Q E r
        → Post (λ a (s : Store). Q a s.tables) (λ s. E s.tables) (Database.with_tables s r)
    on_tables s (ok a, t) k = k
    on_tables s (err e, t) k = k

    by_fault :
        (o : Option String) (s : Store)
        → P s.tables
        → Post (λ a (s : Store). Q a s.tables) (λ s. E s.tables) (Database.run_or_fail o run s)
    by_fault none s p = on_tables s (run s.tables) (h s.tables p)
    by_fault (some e) s p = f s.tables p

    by_faults :
        (fs : List (Option String)) (s : Store)
        → P s.tables
        → Post
            (λ a (s : Store). Q a s.tables)
            (λ s. E s.tables)
            (let (fault, s') = Database.next_fault fs s in Database.run_or_fail fault run s')
    by_faults [] s p = by_fault none s p
    by_faults (o ∷ fs) s p = by_fault o (record s { faults = fs }) p

-- The tables after a migration.
abbrev pub added : Migration → Tables → Tables
added m t = record { versions = m.version ∷ t.versions; scripts = m ∷ t.scripts }

abbrev pub Is : Tables → Store → Type 0
Is t s = s.tables ≡ t

abbrev Any : Store → Type 0
Any s = Unit

no_change-Is : (t : Tables) → Triple (Is t) Database.no_change (λ _. Is t) Any
no_change-Is t = Triple-exec (λ u. u ≡ t) (λ _ u. u ≡ t) (λ _. Unit) _ (λ u e. tt) (λ u e. e)

-- The script has run, and its version is not recorded yet.
abbrev half : Migration → Tables → Tables
half m t = record t { scripts = m ∷ t.scripts }

named-Post :
    (v : String) (Q : Store → Type 0) (x : Result (Unit {0}) × Store)
    → Post (λ _. Q) Any x
    → Post (λ _. Q) Any (Database.named v x)
named-Post v Q (ok a, s) h = h
named-Post v Q (err e, s) h = tt

run_script-Is :
    (m : Migration) (t : Tables) → Triple (Is t) (Database.run_script m) (λ _. Is (half m t)) Any
unfolding Database.run_script
run_script-Is m t = record {
  at = λ s e. named-Post m.version (Is (half m t)) _ (
      (Triple-exec (λ u. u ≡ t) (λ _ u. u ≡ half m t) (λ _. Unit) (λ u. (ok tt, half m u))
          (λ u e. tt) (λ u e. ap (half m) e)).at
        s e);
}

inserted :
    (m : Migration) (t u : Tables)
    → Database.recorded m.version t.versions ≡ false
    → u ≡ half m t
    → Post (λ _ v. v ≡ added m t) (λ _. Unit {0}) (Database.insert_version m.version u)
inserted m t u h e = rw (e, h) refl

record_version-Is :
    (m : Migration) (t : Tables)
    → Database.recorded m.version t.versions ≡ false
    → Triple (Is (half m t)) (Database.record_version m) (λ _. Is (added m t)) Any
unfolding Database.record_version
record_version-Is m t h =
    Triple-exec (λ u. u ≡ half m t) (λ _ u. u ≡ added m t) (λ _. Unit) _ (λ u e. tt)
      (λ u e. inserted m t u h e)

steps_of-Is :
    (m : Migration) (t : Tables)
    → Database.recorded m.version t.versions ≡ false
    → Triple (Is t) (Database.steps_of m) (λ _. Is (added m t)) Any
unfolding Database.steps_of
steps_of-Is m t h =
    Triple-bind (λ _. Is t) _ _ (no_change-Is t)
      λ _.
        Triple-bind (λ _. Is (half m t)) _ _ (run_script-Is m t)
          λ _.
            Triple-bind (λ _. Is (added m t)) _ _ (record_version-Is m t h)
              λ _. no_change-Is (added m t)

rolled_back-Post :
    (m : Migration) (t u : Tables) (x : Result (Unit {0}) × Store)
    → u ≡ t
    → Post (λ _. Is (added m t)) Any x
    → Post (λ _. Is (added m t)) (Is t) (Database.rolled_back_to u x)
rolled_back-Post m t u (ok a, s) q h = h
rolled_back-Post m t u (err e, s) q h = q

apply-Is :
    (m : Migration) (t : Tables)
    → Database.recorded m.version t.versions ≡ false
    → Triple (Is t) (Database.apply m) (λ _. Is (added m t)) (Is t)
unfolding Database.apply
apply-Is m t h = record {
  at = λ s e. rolled_back-Post m t s.tables (Database.steps_of m s) e ((steps_of-Is m t h).at s e);
}

-- The outcome of one migration from given tables.
abbrev pub one_done : Migration → Tables → Tables
one_done m t = if Database.recorded m.version t.versions then t else added m t

is_recorded-Is :
    (m : Migration) (t : Tables)
    → Triple
        (Is t)
        (Database.is_recorded m)
        (λ b s. (Database.recorded m.version t.versions ≡ b) × Is t s)
        (Is t)
is_recorded-Is m t =
    Triple-exec (λ u. u ≡ t) (λ b u. (Database.recorded m.version t.versions ≡ b) × (u ≡ t))
      (λ u. u ≡ t) _ (λ u e. e)
      (λ u e. (ap (λ x. Database.recorded m.version x.versions) (sym e), e))

pub migrate_one-Is :
    (m : Migration) (t : Tables)
    → Triple (Is t) (Database.migrate_one m) (λ _. Is (one_done m t)) (Is t)
unfolding Database.migrate_one
migrate_one-Is m t = Triple-bind _ _ _ (is_recorded-Is m t) λ b. Triple-given _ λ q. by_test b q
  where
    by_test :
        (b : Bool)
        → Database.recorded m.version t.versions ≡ b
        → Triple (Is t) (if b then pure tt else Database.apply m) (λ _. Is (one_done m t)) (Is t)
    by_test true q = Triple-pure tt (λ s e. rw (q) e)
    by_test false q = rw (q) (apply-Is m t q)
