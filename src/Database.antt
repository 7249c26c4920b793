-- ===== src/Database.antt =====
-- internal/db/db.go: the migration runner and NormalizeProtocol. The database is what the runner sees of it:
-- the recorded versions, and the migrations whose scripts have run, the last one first. What a script does
-- to the schema, and whether a statement fails, is decided outside: each statement takes the next fault.
pub mod Once
mod Steps
mod Tests
use Prim.Native.String.{◌++◌}
use vetka_backend_panel.Prelude.{
  String, Bool, true, false, not, ◌&&◌, ◌||◌, Option, none, some, List, [], ◌∷◌, ◌==◌,
  if◌then◌else◌,
}
use vetka_backend_panel.Prelude.Text.{to_lower, trim_space}
use vetka_backend_panel.Prelude.Effects.{Result, ok, err, Action, pure, ◌>>=◌, ◌>>◌}

pub record Migration : Type 0 where
  pub version : String
  pub sql : String

-- A table of versions that does not exist yet is an empty one.
pub record Tables : Type 0 where
  pub versions : List String
  pub scripts : List Migration

pub record Store : Type 0 where
  pub tables : Tables
  pub faults : List (Option String)

abbrev pub next_fault : List (Option String) → Store → Option String × Store
next_fault [] s = (none, s)
next_fault (f ∷ fs) s = (f, record s { faults = fs })

abbrev pub with_tables : {A : Type 0} → Store → Result A × Tables → Result A × Store
with_tables s (r, t) = (r, record s { tables = t })

abbrev pub run_or_fail :
    {A : Type 0} → Option String → (Tables → Result A × Tables) → Store → Result A × Store
run_or_fail none run s = with_tables s (run s.tables)
run_or_fail (some e) run s = (err e, s)

unfoldable pub exec : {A : Type 0} → (Tables → Result A × Tables) → Action Store A
exec run s = let (fault, s') = next_fault s.faults s in run_or_fail fault run s'

unfoldable pub recorded : String → List String → Bool
recorded v [] = false
recorded v (u ∷ us) = u == v || recorded v us

abbrev pub no_change : Action Store (Unit {0})
no_change = exec λ t. (ok tt, t)

abbrev pub is_recorded : Migration → Action Store Bool
is_recorded m = exec λ t. (ok (recorded m.version t.versions), t)

abbrev pub named : {A : Type 0} → String → Result A × Store → Result A × Store
named version (ok a, s) = (ok a, s)
named version (err e, s) = (err ("migration " ++ version ++ ": " ++ e), s)

-- The script, whose error names the migration.
unfoldable pub run_script : Migration → Action Store (Unit {0})
unfolding exec
run_script m s = named m.version (exec (λ t. (ok tt, record t { scripts = m ∷ t.scripts })) s)

abbrev pub insert_version : String → Tables → Result (Unit {0}) × Tables
insert_version v t =
    if recorded v t.versions
    then (err "duplicate key value violates unique constraint", t)
    else (ok tt, record t { versions = v ∷ t.versions })

unfoldable pub record_version : Migration → Action Store (Unit {0})
unfolding exec recorded
record_version m = exec (insert_version m.version)

-- A transaction that fails, at its commit too, leaves the tables as they were.
abbrev pub rolled_back_to : {A : Type 0} → Tables → Result A × Store → Result A × Store
rolled_back_to t (ok a, s) = (ok a, s)
rolled_back_to t (err e, s) = (err e, record s { tables = t })

-- `Begin`, the script, the record of its version, `Commit`.
unfoldable pub steps_of : Migration → Action Store (Unit {0})
unfolding exec run_script record_version
steps_of m = do no_change; run_script m; record_version m; no_change

unfoldable pub apply : Migration → Action Store (Unit {0})
unfolding steps_of
apply m s = rolled_back_to s.tables (steps_of m s)

unfoldable pub migrate_one : Migration → Action Store (Unit {0})
unfolding exec recorded apply
migrate_one m = do exists ← is_recorded m; if exists then pure tt else apply m

unfoldable pub migrate_each : List Migration → Action Store (Unit {0})
unfolding migrate_one
migrate_each [] = pure tt
migrate_each (m ∷ ms) = do migrate_one m; migrate_each ms

-- `create table if not exists`, then the migrations in their order.
unfoldable pub migrate : List Migration → Action Store (Unit {0})
unfolding exec migrate_each
migrate ms = do no_change; migrate_each ms

unfoldable pub normalize_protocol : String → Result String
unfolding to_lower trim_space
normalize_protocol protocol =
    if not (to_lower (trim_space protocol) == "naive")
      && not (to_lower (trim_space protocol) == "mieru")
    then err "protocol_type must be naive or mieru"
    else ok (to_lower (trim_space protocol))
