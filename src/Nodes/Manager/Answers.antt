-- ===== src/Nodes/Manager/Answers.antt =====
-- What the steps of a synchronisation attempt do on each kind of answer, while no statement fails:
-- internal/nodes/manager.go.
use Prim.Native.String.{◌++◌}
use vetka_backend_panel.Prelude.{
  ℕ, String, Bool, true, false, ◌≡◌, refl, ◌∙◌, ap, Option, none, some, is_some, List, [], ◌&&◌,
  ◌==◌,
}
use vetka_backend_panel.Prelude.Int.{ℤ}
use vetka_backend_panel.Prelude.Effects.{Result, ok, err, raise}
use vetka_backend_panel.Users.Models.{AccessWithUser}
use vetka_backend_panel.Nodes.Models.{Node, AgentResponse, malformed, reply, decode_response}
use vetka_backend_panel.Nodes.Client
use vetka_backend_panel.Nodes.Repository.{find_node}
use vetka_backend_panel.Nodes.Updates
use vetka_backend_panel.Nodes.Updates.{set_row}
use vetka_backend_panel.Nodes.Status
use vetka_backend_panel.Nodes.Sync
use vetka_backend_panel.Nodes.Sync.{Attempt, Retry}
use vetka_backend_panel.Nodes.Manager.Outcomes.{
  logged, pushed, attempt_with-pushed, log_failure-calm, insert_sync_event-malformed,
}
use vetka_backend_panel.Nodes.Manager.Recorded.{is_stale}
use vetka_backend_panel.World.{World, next_exchange}
use vetka_backend_panel.World.Calm.{bind-ok, bind-err, if-false}

-- The retry that `sync_node_attempt` allows.
abbrev pub retry_for : Bool → Retry
retry_for false = none
retry_for true = some (Sync.attempt_with none)

pub sync_node_attempt-with :
    (b : Bool) (n : Node) (us : List AccessWithUser) (v : ℤ) (w : World)
    → Sync.sync_node_attempt b n us v w ≡ Sync.attempt_with (retry_for b) n us v w
unfolding Sync.sync_node_attempt
sync_node_attempt-with false n us v w = refl
sync_node_attempt-with true n us v w = refl

-- `MarkSyncFailure` after an event, on the state after the push.
abbrev pub failure_left : Attempt → String → String → Option String → World → World
failure_left a status message error w =
    set_row a.node.id (Updates.failed status message w.now)
      (logged (Sync.event_of a status error) w)

pub http_failed-calm :
    (a : Attempt) (m : String) (w : World)
    → w.schedule ≡ []
    → is_some (find_node a.node.id w.nodes) ≡ true
    → Updates.is_jsonb a.answer.result.body ≡ true
    → Sync.http_failed a m w ≡ (err m, failure_left a "http_error" m (Status.str_ptr m) w)
unfolding Sync.http_failed raise
http_failed-calm a m w calm known valid =
    bind-ok _ _ w _ tt (log_failure-calm w calm a known valid "http_error" m (Status.str_ptr m))

pub apply_failed-calm :
    (a : Attempt) (r : AgentResponse) (w : World)
    → w.schedule ≡ []
    → is_some (find_node a.node.id w.nodes) ≡ true
    → Updates.is_jsonb a.answer.result.body ≡ true
    → Sync.apply_failed a r w ≡ (
      err ("node agent sync failed: " ++ Status.agent_response_error r),
      failure_left a
          (Sync.refusal_status r)
          (Status.agent_response_error r)
          (Status.str_ptr (Status.agent_response_error r))
          w,
    )
unfolding Sync.apply_failed raise
apply_failed-calm a r w calm known valid =
    bind-ok _ _ w _ tt (log_failure-calm w calm a known valid _ _ _)

pub decode_failed-calm :
    (a : Attempt) (e : String) (w : World)
    → w.schedule ≡ []
    → is_some (find_node a.node.id w.nodes) ≡ true
    → Updates.is_jsonb a.answer.result.body ≡ true
    → Sync.decode_failed a e w ≡ (
      err ("decode node agent response: " ++ e),
      failure_left a "decode_error" e (Status.str_ptr e) w,
    )
unfolding Sync.decode_failed raise
decode_failed-calm a e w calm known valid =
    bind-ok _ _ w _ tt (log_failure-calm w calm a known valid "decode_error" e (Status.str_ptr e))

pub on_call_error-fresh :
    (retry : Retry) (a : Attempt) (m : String) (d : Result AgentResponse) (w : World)
    → (is_some retry && is_stale d) ≡ false
    → Sync.on_call_error retry a m d w ≡ Sync.http_failed a m w
unfolding Sync.on_call_error
on_call_error-fresh none a m d w h = refl
on_call_error-fresh (some again) a m (err e) w h = refl
on_call_error-fresh (some again) a m (ok r) w h = if-false (r.status == "stale_version") _ _ w h

pub on_refusal-fresh :
    (retry : Retry) (a : Attempt) (r : AgentResponse) (w : World)
    → (is_some retry && r.status == "stale_version") ≡ false
    → Sync.on_refusal retry a r w ≡ Sync.apply_failed a r w
unfolding Sync.on_refusal
on_refusal-fresh none a r w h = refl
on_refusal-fresh (some again) a r w h = if-false (r.status == "stale_version") _ _ w h

module _ (a : Attempt) (s e : String) (w : World)
    (body : a.answer.result.body ≡ some (malformed s e)) (calm : w.schedule ≡ []) where
  log_failure-malformed :
      (status message : String) (error : Option String)
      → Sync.log_failure a status message error w ≡ (err "invalid input syntax for type json", w)
  unfolding Sync.log_failure Sync.event_of
  log_failure-malformed status message error =
      bind-err _ _ w w _ (
        insert_sync_event-malformed w calm (Sync.event_of a status error)
          (ap Updates.is_jsonb body))

  http_failed-malformed :
      (m : String) → Sync.http_failed a m w ≡ (err "invalid input syntax for type json", w)
  unfolding Sync.http_failed
  http_failed-malformed m = bind-err _ _ w w _ (log_failure-malformed _ _ _)

  decode_failed-malformed :
      (m : String) → Sync.decode_failed a m w ≡ (err "invalid input syntax for type json", w)
  unfolding Sync.decode_failed
  decode_failed-malformed m = bind-err _ _ w w _ (log_failure-malformed _ _ _)

and_false : (b : Bool) → (b && false) ≡ false
and_false true = refl
and_false false = refl

on_call-malformed :
    (retry : Retry) (a : Attempt) (o : Option String) (s e : String) (w : World)
    → a.answer.result.body ≡ some (malformed s e)
    → w.schedule ≡ []
    → Sync.on_call retry a o w ≡ (err "invalid input syntax for type json", w)
unfolding Sync.on_call Sync.decode_answer decode_response Sync.on_answer
on_call-malformed retry a none s e w body calm =
    ap (λ d. Sync.on_answer retry a (Sync.decode_answer d) w) body
    ∙ decode_failed-malformed a s e w body calm e
on_call-malformed retry a (some m) s e w body calm =
    ap (λ d. Sync.on_call_error retry a m (Sync.decode_answer d) w) body
    ∙ on_call_error-fresh retry a m (err e) w (and_false (is_some retry))
    ∙ http_failed-malformed a s e w body calm m

module _ (b : Bool) (n : Node) (us : List AccessWithUser) (v : ℤ) (w : World)
    (calm : w.schedule ≡ []) where
  -- While no statement fails, an attempt that the agent answers with a body that is not JSON, whatever
  -- the code, fails with the error of the database for the body that it cannot store as `jsonb`: the row
  -- of the node and the log are as they were before the attempt.
  pub sync_node_attempt-malformed :
      (code : ℕ) (s e : String)
      → next_exchange w.network ≡ reply code (malformed s e)
      → Sync.sync_node_attempt b n us v w
        ≡ (err "invalid input syntax for type json", pushed n us v w)
  unfolding Client.outcome
  sync_node_attempt-malformed code s e answer =
      sync_node_attempt-with b n us v w
      ∙ attempt_with-pushed (retry_for b) n us v w
      ∙ rw answer (
          on_call-malformed (retry_for b)
            (record {
              node = n;
              assigned = us;
              version = v;
              answer = Client.outcome (reply code (malformed s e));
            })
            (Client.outcome (reply code (malformed s e))).error s e (pushed n us v w) refl calm)
