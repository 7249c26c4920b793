-- ===== src/Telemetry/Pages/Ready.antt =====
-- What internal/telemetry/service.go reads for the page of a user before it asks the agents: none of it
-- fails while no statement does.
use vetka_backend_panel.Prelude.{
  ◌≡◌, refl, sym, String, Bool, true, false, Option, none, some, List, [], ◌∷◌, ◌==◌, map,
  if◌then◌else◌, All, sort_stable-All, ltb,
}
use mathlib.Core.Path.{subst}
use vetka_backend_panel.Prelude.Effects.{Result, ok, err, is_err}
use vetka_backend_panel.Prelude.Triples.{Post, Triple}
use vetka_backend_panel.Users.Models.{User}
use vetka_backend_panel.Users.Repository.{find_user}
use vetka_backend_panel.Users.Updates
use vetka_backend_panel.Users.Lookups.{
  listed, add_parsed, scan_ids, normalize_node_lookup_ids, lookup_typed, lookup_rows,
  session_lookup_for_user, session_lookup_for_nodes,
}
use vetka_backend_panel.Nodes.Models.{Node}
use vetka_backend_panel.Nodes.Repository
use vetka_backend_panel.Nodes.Repository.{scan_node, find_node}
use vetka_backend_panel.Telemetry.Models.{SessionLookup}
use vetka_backend_panel.Telemetry.Pages.{
  map_from, collect_node_ids, target_nodes, next_node, seen_after, target_before,
}
use vetka_backend_panel.World.{World, Tick, statement, tick_with}
use vetka_backend_panel.World.Statements.{Faultless, calm-Post}

-- What no run may end with.
abbrev pub Impossible : World → Type 0
Impossible w = ⊥

module _ (parse : String → Result String) where
  -- An identifier that the parser takes.
  abbrev pub IsKey : String → Type 0
  IsKey id = ((id == "") ≡ false) × (is_err (parse id) ≡ false)

  abbrev pub IsNamed : Node → Type 0
  IsNamed n = IsKey n.id

  module _ (user : String) (u : User) where
    -- No statement to come fails, the user is there, and the identifiers of the nodes are
    -- identifiers for the parser.
    abbrev pub Ready : World → Type 0
    Ready w =
        Faultless w.schedule × (find_user user w.users ≡ some u) × All (λ n. IsKey n.id) w.nodes

    tick-Ready :
        (ticks : List Tick) (w : World) → Ready w → Faultless ticks → Ready (tick_with ticks w).1
    tick-Ready [] w r f = r
    tick-Ready (t ∷ ts) w r f = (f.1, r.1, r.2)

    Triple-calm :
        {A : Type 0} (Q : A → World → Type 0) (run : World → Result A × World)
        → ((v : World) → Ready v → Post Q Impossible (run v))
        → Triple Ready (statement run) Q Impossible
    unfolding statement
    Triple-calm Q run h = record {
      at = λ w r. calm-Post Q Impossible run w.schedule w r.0 (h _ (tick-Ready w.schedule w r r.0));
    }

    pub get-Ready : Triple Ready (Updates.get user) (λ x. Ready) Impossible
    unfolding Updates.get
    get-Ready =
        Triple-calm (λ x. Ready) _
          λ v r. subst (λ o. Post (λ x. Ready) Impossible (Updates.collect_row o, v)) (sym r.1) r

    pub lookups-Ready : Triple Ready (session_lookup_for_user user) (λ ls. Ready) Impossible
    unfolding session_lookup_for_user
    lookups-Ready = Triple-calm (λ ls. Ready) _ λ v r. r

    scanned-IsNamed : (ns : List Node) → All IsNamed ns → All IsNamed (map scan_node ns)
    unfolding scan_node
    scanned-IsNamed [] h = tt
    scanned-IsNamed (n ∷ ns) h = (h.0, scanned-IsNamed ns h.1)

    pub list-Ready : Triple Ready Repository.list (λ ns w. All IsNamed ns × Ready w) Impossible
    unfolding Repository.list
    list-Ready =
        Triple-calm (λ ns w. All IsNamed ns × Ready w) _
          λ v r. (
            scanned-IsNamed _
                (sort_stable-All IsNamed (λ a b. ltb b.created_at a.created_at) v.nodes r.2),
            r,
          )

  added-parsed :
      (b : Bool) (id : String) (p : Result String) (later : Result (List String))
      → is_err p ≡ false
      → is_err later ≡ false
      → is_err (if b then later else add_parsed parse id p later) ≡ false
  added-parsed true id p later h k = k
  added-parsed false id (ok p) (ok ps) h k = refl
  added-parsed false id (ok p) (err e) h k = k
  added-parsed false id (err e) later h k = absurd (cc)

  scan_ids-parsed :
      (seen ids : List String) → All IsKey ids → is_err (scan_ids parse seen ids) ≡ false
  unfolding scan_ids
  scan_ids-parsed seen [] h = refl
  scan_ids-parsed seen (id ∷ ids) h = rw (h.0.0) (
      added-parsed (listed id seen) id (parse id) _ (h.0.1)
        (scan_ids-parsed (if listed id seen then seen else id ∷ seen) ids h.1))

  module _ (user : String) (u : User) where
    typed-Ready :
        (r : Result (List String))
        → is_err r ≡ false
        → Triple (Ready user u) (lookup_typed parse r) (λ ls. Ready user u) Impossible
    unfolding lookup_rows
    typed-Ready (err e) h = absurd (cc)
    typed-Ready (ok []) h = record { at = λ w r. r }
    typed-Ready (ok (i ∷ is)) h = Triple-calm user u (λ ls. Ready user u) _ λ v r. r

    pub for_nodes-Ready :
        (ids : List String)
        → All IsKey ids
        → Triple (Ready user u) (session_lookup_for_nodes parse ids) (λ ls. Ready user u) Impossible
    unfolding session_lookup_for_nodes normalize_node_lookup_ids
    for_nodes-Ready ids h = typed-Ready (scan_ids parse [] ids) (scan_ids-parsed [] ids h)

  pub mapped-IsNamed :
      (entries ns : List Node)
      → All IsNamed entries
      → All IsNamed ns
      → All IsNamed (map_from entries ns)
  unfolding map_from
  mapped-IsNamed entries [] h k = h
  mapped-IsNamed entries (n ∷ ns) h k = mapped-IsNamed (n ∷ entries) ns (k.0, h) k.1

  abbrev or_node : Node → Option Node → Node
  or_node m none = m
  or_node m (some n) = n

  chosen :
      (b : Bool) (m n : Node) (later : Option Node)
      → IsNamed m
      → (later ≡ some n → IsNamed n)
      → (if b then some m else later) ≡ some n
      → IsNamed n
  chosen true m n later h k e = subst (λ o. IsNamed (or_node m o)) e h
  chosen false m n later h k e = k e

  found-IsNamed :
      (id : String) (ns : List Node) (n : Node)
      → All IsNamed ns
      → find_node id ns ≡ some n
      → IsNamed n
  unfolding find_node
  found-IsNamed id [] n h e = absurd (cc)
  found-IsNamed id (m ∷ ns) n h e =
      chosen (m.id == id) m n (find_node id ns) h.0 (λ k. found-IsNamed id ns n h.1 k) e

  next_node-IsNamed :
      (b : Bool) (id : String) (ns : List Node) (n : Node)
      → All IsNamed ns
      → next_node b (find_node id ns) ≡ some n
      → IsNamed n
  next_node-IsNamed true id ns n h e = absurd (cc)
  next_node-IsNamed false id ns n h e = found-IsNamed id ns n h e

  target_before-named :
      (o : Option Node) (ns : List Node)
      → ((n : Node) → o ≡ some n → IsNamed n)
      → All IsKey (collect_node_ids ns)
      → All IsKey (collect_node_ids (target_before o ns))
  unfolding collect_node_ids
  target_before-named none ns h k = k
  target_before-named (some n) ns h k = (h n refl, k)

  pub target_nodes-named :
      (ns : List Node) (seen : List String) (ls : List SessionLookup)
      → All IsNamed ns
      → All IsKey (collect_node_ids (target_nodes ns seen ls))
  unfolding collect_node_ids target_nodes
  target_nodes-named ns seen [] h = tt
  target_nodes-named ns seen (l ∷ ls) h =
      target_before-named _ _ (λ n e. next_node-IsNamed _ l.node_id ns n h e)
        (target_nodes-named ns
          (seen_after (next_node (listed l.node_id seen) (find_node l.node_id ns)) l.node_id seen)
          ls h)
