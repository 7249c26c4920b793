-- ===== src/World/Statements.antt =====
-- How relations between states go through one statement.
use vetka_backend_panel.Prelude.{
  ℕ, ◌+◌, ◌≡◌, refl, String, Bool, true, false, Option, none, some, List, [], ◌∷◌, All,
}
use vetka_backend_panel.Prelude.Effects.{Result, Preorder, Within}
use vetka_backend_panel.Prelude.Triples.{Post, Triple}
use vetka_backend_panel.World.{World, Tick, refuse_if, statement, tick_with, run_unless}

-- A relation that composes and that the clock alone does not leave.
pub record Stable (R : World → World → Type 0) : Type 0 where
  pub order : Preorder R
  pub clock :
      (w : World) (t : Tick) (ticks : List Tick)
      → w.schedule ≡ t ∷ ticks
      → R w (record w { now = w.now + t.elapsed; schedule = ticks })

module _ {R : World → World → Type 0} (stable : Stable R) where
  pub tick-related :
      (ticks : List Tick) (w : World) → w.schedule ≡ ticks → R w (tick_with ticks w).1
  tick-related [] w e = stable.order.refl_at w
  tick-related (t ∷ ts) w e = stable.clock w t ts e

  run_unless-related :
      {A : Type 0} (fault : Option String) (run : World → Result A × World) (w : World)
      → ((v : World) → R v (run v).1)
      → R w (run_unless fault run w).1
  run_unless-related none run w h = h w
  run_unless-related (some e) run w h = stable.order.refl_at w

  -- A statement goes as far as its body does.
  pub Within-statement :
      {A : Type 0} (run : World → Result A × World)
      → ((v : World) → R v (run v).1)
      → Within R (statement run)
  unfolding statement
  Within-statement run h = record {
    at = λ w.
        let (fault, w') = tick_with w.schedule w in
        stable.order.trans_at w w' _ (tick-related w.schedule w refl)
          (run_unless-related fault run w' h);
  }

pub refuse_if-related :
    {A : Type 0} (R : World → World → Type 0) (v : World) (b : Bool) (e : String)
    (run : World → Result A × World) (w : World)
    → R v w
    → R v (run w).1
    → R v (refuse_if b e run w).1
unfolding refuse_if
refuse_if-related R v true e run w h k = h
refuse_if-related R v false e run w h k = k

pub refuse_if-Post :
    {A : Type 0} (Q : A → World → Type 0) (E : World → Type 0) (b : Bool) (e : String)
    (run : World → Result A × World) (w : World)
    → E w
    → Post Q E (run w)
    → Post Q E (refuse_if b e run w)
unfolding refuse_if
refuse_if-Post Q E true e run w h k = h
refuse_if-Post Q E false e run w h k = k

module _ {A : Type 0} {P : World → Type 0} (Q : A → World → Type 0)
    (clock : (w : World) (elapsed : ℕ) (ticks : List Tick)
      → P w
      → P (record w { now = w.now + elapsed; schedule = ticks }))
    (run : World → Result A × World) where
  tick-kept : (ticks : List Tick) (w : World) → P w → P (tick_with ticks w).1
  tick-kept [] w p = p
  tick-kept (t ∷ ts) w p = clock w t.elapsed ts p

  run_unless-Post :
      (fault : Option String) (w : World)
      → P w
      → ((v : World) → P v → Post Q P (run v))
      → Post Q P (run_unless fault run w)
  run_unless-Post none w p h = h w p
  run_unless-Post (some e) w p h = p

  -- A statement that fails leaves what held before it; one that runs does what its body does.
  pub Triple-statement : ((w : World) → P w → Post Q P (run w)) → Triple P (statement run) Q P
  unfolding statement
  Triple-statement h = record {
    at = λ w p.
        let (fault, w') = tick_with w.schedule w in
        run_unless-Post fault w' (tick-kept w.schedule w p) h;
  }

-- No statement to come fails.
abbrev pub Faultless : List Tick → Type 0
Faultless ticks = All (λ t. t.fault ≡ none) ticks

-- A statement while none fails.
pub calm-Post :
    {A : Type 0} (Q : A → World → Type 0) (E : World → Type 0) (run : World → Result A × World)
    (ticks : List Tick) (w : World)
    → Faultless ticks
    → Post Q E (run (tick_with ticks w).1)
    → Post Q E (run_unless (tick_with ticks w).0 run (tick_with ticks w).1)
calm-Post Q E run [] w f h = h
calm-Post Q E run (t ∷ ts) w f h = rw (f.0) h
