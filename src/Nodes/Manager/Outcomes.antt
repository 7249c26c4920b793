-- ===== src/Nodes/Manager/Outcomes.antt =====
-- What a synchronisation attempt leaves, while no statement fails: internal/nodes/manager.go.
use vetka_backend_panel.Prelude.{
  ℕ, ◌≤◌, arith, String, true, false, not, ◌≡◌, refl, ◌∙◌, ap, Option, none, some, is_some, List,
  [], ◌∷◌,
}
use vetka_backend_panel.Prelude.Int.{ℤ}
use vetka_backend_panel.Prelude.Effects.{ok, err, pure, ◌>>=◌}
use vetka_backend_panel.Users.Models.{AccessWithUser}
use vetka_backend_panel.Nodes.Models.{
  Node, AgentResponse, Body, SyncEvent, reply, no_reply, decode_response,
}
use vetka_backend_panel.Nodes.Client
use vetka_backend_panel.Nodes.Repository.{find_node}
use vetka_backend_panel.Nodes.Updates
use vetka_backend_panel.Nodes.Updates.{set_row, is_jsonb}
use vetka_backend_panel.Nodes.Sync
use vetka_backend_panel.Nodes.Sync.{Attempt, Retry}
use vetka_backend_panel.World.{World, exchange, next_exchange, rest}
use vetka_backend_panel.World.Calm.{
  bind-ok, ignore-ok, statement-calm, refuse_if-true, refuse_if-false,
}

-- The world with an event logged.
abbrev pub logged : SyncEvent → World → World
logged e w = record w { events = record e { created_at = w.now } ∷ w.events }

-- The world after the push of an attempt.
abbrev pub pushed : Node → List AccessWithUser → ℤ → World → World
pushed n us v w = record w {
  sent = Client.request n "POST" "/v1/sync" (some (Sync.sync_payload n us v)) ∷ w.sent;
  network = rest w.network;
}

abbrev pub attempt_at : Node → List AccessWithUser → ℤ → World → Attempt
attempt_at n us v w = record {
  node = n;
  assigned = us;
  version = v;
  answer = Client.outcome (next_exchange w.network);
}

pub attempt_with-pushed :
    (retry : Retry) (n : Node) (us : List AccessWithUser) (v : ℤ) (w : World)
    → Sync.attempt_with retry n us v w
      ≡ Sync.on_call retry
          (attempt_at n us v w)
          (Client.outcome (next_exchange w.network)).error
          (pushed n us v w)
unfolding Sync.attempt_with Client.sync Client.call exchange ◌>>=◌ pure
attempt_with-pushed retry n us v w = refl

module _ (w : World) (calm : w.schedule ≡ []) where
  pub insert_sync_event-calm :
      (e : SyncEvent)
      → is_some (find_node e.node_id w.nodes) ≡ true
      → is_jsonb e.response_json ≡ true
      → Updates.insert_sync_event e w ≡ (ok tt, logged e w)
  unfolding Updates.insert_sync_event Updates.insert_event Updates.write_event
  insert_sync_event-calm e known valid =
      statement-calm _ w calm
      ∙ refuse_if-false _ _ _ w (ap not valid)
      ∙ refuse_if-false _ _ _ w (ap not known)

  pub insert_sync_event-malformed :
      (e : SyncEvent)
      → is_jsonb e.response_json ≡ false
      → Updates.insert_sync_event e w ≡ (err "invalid input syntax for type json", w)
  unfolding Updates.insert_sync_event Updates.insert_event
  insert_sync_event-malformed e invalid =
      statement-calm _ w calm ∙ refuse_if-true _ _ _ w (ap not invalid)

  pub exec_row-calm :
      (id : String) (f : World → Node → Node)
      → Updates.exec_row id f w ≡ (ok tt, set_row id (f w) w)
  unfolding Updates.exec_row
  exec_row-calm id f = statement-calm _ w calm

module _ (w : World) (calm : w.schedule ≡ []) (a : Attempt)
    (known : is_some (find_node a.node.id w.nodes) ≡ true)
    (valid : is_jsonb a.answer.result.body ≡ true) where
  pub log_failure-calm :
      (status message : String) (error : Option String)
      → Sync.log_failure a status message error w ≡ (
        ok tt,
        set_row a.node.id
            (Updates.failed status message w.now)
            (logged (Sync.event_of a status error) w),
      )
  unfolding Sync.log_failure Sync.event_of Updates.mark_sync_failure
  log_failure-calm status message error =
      bind-ok _ _ w _ tt (insert_sync_event-calm w calm (Sync.event_of a status error) known valid)
      ∙ ignore-ok _ _ _ (ok tt) (
          exec_row-calm (logged (Sync.event_of a status error) w) calm a.node.id
            (λ v. Updates.failed status message v.now))

  pub on_success-calm :
      (r : AgentResponse)
      → Sync.on_success a r w ≡ (
        ok (Sync.accepted a.version r),
        set_row a.node.id
            (Updates.synced (Sync.accepted a.version r).applied_version w.now)
            (logged (Sync.event_of a "ok" none) w),
      )
  unfolding Sync.on_success Sync.event_of Updates.mark_sync_success pure
  on_success-calm r =
      bind-ok _ _ w _ tt (insert_sync_event-calm w calm (Sync.event_of a "ok" none) known valid)
      ∙ bind-ok _ _ (logged (Sync.event_of a "ok" none) w) _ tt (
          exec_row-calm (logged (Sync.event_of a "ok" none) w) calm a.node.id
            (λ v. Updates.synced (Sync.accepted a.version r).applied_version v.now))

-- An attempt with the answer of the agent, by what the answer is.
abbrev pub answered : Node → List AccessWithUser → ℤ → Option String → ℕ → Option Body → Attempt
answered n us v error code body = record {
  node = n;
  assigned = us;
  version = v;
  answer = record { result = record { status_code = code; body = body }; error = error };
}

outcome-success :
    (code : ℕ) (body : Body)
    → 200 ≤ code
    → code ≤ 299
    → Client.outcome (reply code body)
      ≡ record { result = record { status_code = code; body = some body }; error = none }
unfolding Client.outcome
outcome-success code body low high = ground arith

module _ (retry : Retry) (n : Node) (us : List AccessWithUser) (v : ℤ) (w : World) where
  pub attempt_with-answered :
      (code : ℕ) (body : Body)
      → next_exchange w.network ≡ reply code body
      → 200 ≤ code
      → code ≤ 299
      → Sync.attempt_with retry n us v w
        ≡ Sync.on_answer retry
            (answered n us v none code (some body))
            (decode_response body)
            (pushed n us v w)
  unfolding Sync.on_call Sync.decode_answer
  attempt_with-answered code body h low high =
      attempt_with-pushed retry n us v w ∙ rw (h, outcome-success code body low high) refl

  pub attempt_with-unanswered :
      (e : String)
      → next_exchange w.network ≡ no_reply e
      → Sync.attempt_with retry n us v w
        ≡ Sync.on_call_error retry
            (answered n us v (some e) 0 none)
            e
            (err "unexpected end of JSON input")
            (pushed n us v w)
  unfolding Sync.on_call Sync.decode_answer Client.outcome
  attempt_with-unanswered e h = attempt_with-pushed retry n us v w ∙ rw h refl
