-- ===== src/World.antt =====
-- The shared state of the panel: the rows of the database (migrations of internal/db), its clock, the
-- requests sent to node agents, and what the outside decides: which statement fails and how much time
-- it takes, what the agents answer, which row identifiers and random bytes are drawn.
pub mod Calm
pub mod Statements
use vetka_backend_panel.Prelude.{
  ℕ, ◌+◌, String, Bool, true, false, Option, none, some, List, [], ◌∷◌,
}
use vetka_backend_panel.Prelude.Effects.{Result, ok, err, Action}
use vetka_backend_panel.Users.Models.{User, Access}
use vetka_backend_panel.Nodes.Models.{Node, SyncEvent, Request, Exchange, no_reply}

pub record Tick : Type 0 where
  pub fault : Option String
  pub elapsed : ℕ

pub record World : Type 0 where
  pub users : List User
  pub access : List Access
  pub nodes : List Node
  pub events : List SyncEvent
  pub now : ℕ
  pub sent : List Request
  pub schedule : List Tick
  pub network : List Exchange
  pub row_ids : List String
  pub entropy : List (List ℕ)

abbrev pub tick_with : List Tick → World → Option String × World
tick_with [] w = (none, w)
tick_with (t ∷ ts) w = (t.fault, record w { now = w.now + t.elapsed; schedule = ts })

abbrev pub run_unless :
    {A : Type 0} → Option String → (World → Result A × World) → World → Result A × World
run_unless none run w = run w
run_unless (some e) run w = (err e, w)

-- One SQL statement: the clock moves on, and the statement fails whole or runs whole.
unfoldable pub statement : {A : Type 0} → (World → Result A × World) → Action World A
statement run w = let (fault, w') = tick_with w.schedule w in run_unless fault run w'

-- A constraint or a trigger that refuses the statement.
unfoldable pub refuse_if :
    {A : Type 0} → Bool → String → (World → Result A × World) → World → Result A × World
refuse_if true e run w = (err e, w)
refuse_if false e run w = run w

abbrev pub next_exchange : List Exchange → Exchange
next_exchange [] = no_reply "connection refused"
next_exchange (x ∷ xs) = x

abbrev pub rest : {A : Type 0} → List A → List A
rest [] = []
rest (x ∷ xs) = xs

-- One request to an agent, and its answer.
unfoldable pub exchange : Request → Action World Exchange
exchange r w =
    (ok (next_exchange w.network), record w { sent = r ∷ w.sent; network = rest w.network })

abbrev pub take_row_id : List String → World → Result String × World
take_row_id [] w = (err "no row identifier", w)
take_row_id (i ∷ is) w = (ok i, record w { row_ids = is })
