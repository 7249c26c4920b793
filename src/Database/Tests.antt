-- ===== src/Database/Tests.antt =====
-- Runs of internal/db/db.go.
use vetka_backend_panel.Prelude.{String, ◌≡◌, refl, List, [], ◌∷◌, Option, none, some, All}
use vetka_backend_panel.Prelude.Effects.{ok, err, ◌>>=◌}
use vetka_backend_panel.Prelude.Triples.{Post}
use vetka_backend_panel.Database.{Migration, Store, migrate, normalize_protocol}
use vetka_backend_panel.Database.Once.{IsSound, IsRecorded, Grown, migrate-Once}

abbrev initial : Migration
initial = record { version = "001_initial"; sql = "create table nodes" }

abbrev quota : Migration
quota = record { version = "004_user_quota_mb"; sql = "alter table users" }

abbrev both : List Migration
both = initial ∷ quota ∷ []

abbrev fresh : List (Option String) → Store
fresh faults = record { tables = record { versions = []; scripts = [] }; faults = faults }

-- The insert of the second version fails.
abbrev failing : List (Option String)
failing = none ∷ none ∷ none ∷ none ∷ none ∷ none ∷ none ∷ none ∷ none ∷ some "disk full" ∷ []

second_undone : migrate both (fresh failing) ≡ (
  err "disk full",
  record { tables = record { versions = "001_initial" ∷ []; scripts = initial ∷ [] }; faults = [] },
)
unfolding migrate ◌>>=◌
second_undone = refl

protocol_folded : normalize_protocol " Naive " ≡ ok "naive"
unfolding normalize_protocol
protocol_folded = refl

migrate-Once_example :
    Post
      (λ _ u.
        (IsSound u.tables × Grown (fresh failing).tables u.tables)
        × All (IsRecorded u.tables) both
        × ((fs : List (Option String))
            → (migrate both (record u { faults = fs })).1.tables ≡ u.tables))
      (λ u. IsSound u.tables × Grown (fresh failing).tables u.tables)
      (migrate both (fresh failing))
migrate-Once_example = migrate-Once both (fresh failing) (refl, tt)
