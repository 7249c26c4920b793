-- ===== src/Nodes/Manager/Settled.antt =====
-- That a synchronisation attempt of internal/nodes/manager.go comes to what Recorded says of its answer.
use Prim.Native.String.{◌++◌}
use vetka_backend_panel.Prelude.{
  ℕ, String, Bool, true, false, ◌&&◌, ◌||◌, ◌≡◌, refl, ◌∙◌, sym, ap, Option, none, some, is_some,
  List, [], ◌==◌, if◌then◌else◌, ltb, Bool-cases, inl, inr, arith,
}
use vetka_backend_panel.Prelude.Int.{ℤ}
use vetka_backend_panel.Prelude.Text.{trim_space, itoa}
use vetka_backend_panel.Prelude.Effects.{Result, ok, err}
use vetka_backend_panel.Users.Models.{AccessWithUser}
use vetka_backend_panel.Nodes.Models.{
  Node, AgentResponse, AgentStatusResponse, Body, json, malformed, Exchange, reply, no_reply,
  decode_response, text,
}
use vetka_backend_panel.Nodes.Client
use vetka_backend_panel.Nodes.Repository.{find_node}
use vetka_backend_panel.Nodes.Updates
use vetka_backend_panel.Nodes.Status
use vetka_backend_panel.Nodes.Sync
use vetka_backend_panel.Nodes.Sync.{Attempt, Retry}
use vetka_backend_panel.Nodes.Manager.Outcomes.{
  pushed, answered, attempt_with-pushed, attempt_with-answered, attempt_with-unanswered,
  on_success-calm,
}
use vetka_backend_panel.Nodes.Manager.Recorded.{
  Verdict, failure, reason, agent_response_error-reason, by_response, recorded, success, refusal,
  sent_only, settled, is_stale, says_stale,
}
use vetka_backend_panel.Nodes.Manager.Answers.{
  retry_for, sync_node_attempt-with, failure_left, http_failed-calm, apply_failed-calm,
  decode_failed-calm, on_call_error-fresh, on_refusal-fresh, sync_node_attempt-malformed,
}
use vetka_backend_panel.World.{World, next_exchange}
use vetka_backend_panel.World.Calm.{if-true, if-false}

outcome-failed :
    (code : ℕ) (body : Body)
    → (ltb code 200 || ltb 299 code) ≡ true
    → Client.outcome (reply code body) ≡ record {
      result = record { status_code = code; body = some body };
      error = some ("node agent returned " ++ itoa code ++ ": " ++ trim_space (text body));
    }
unfolding Client.outcome
outcome-failed code body h = rw h refl

and_false : (b : Bool) → (b && false) ≡ false
and_false true = refl
and_false false = refl

pick_true : (b : Bool) (x y : Verdict) → b ≡ true → (if b then x else y) ≡ x
pick_true b x y h = rw h refl

pick_false : (b : Bool) (x y : Verdict) → b ≡ false → (if b then x else y) ≡ y
pick_false b x y h = rw h refl

abbrev told : Node → List AccessWithUser → ℤ → World → Verdict → Result AgentResponse × World
told n us v w q = (q.result, recorded n us v q w)

only_sent :
    (n : Node) (us : List AccessWithUser) (v : ℤ) (w : World) → pushed n us v w ≡ sent_only n us v w
unfolding Sync.sync_payload Client.request
only_sent n us v w = refl

module _ (retry : Retry) (n : Node) (us : List AccessWithUser) (v : ℤ) (w : World)
    (calm : w.schedule ≡ []) (known : is_some (find_node n.id w.nodes) ≡ true) where
  failure-recorded :
      (error : Option String) (code : ℕ) (body : Option Body) (status message returned : String)
      → failure_left
          (answered n us v error code body)
          status
          message
          (Status.str_ptr message)
          (pushed n us v w)
        ≡ recorded n us v (failure code body status message returned) w
  unfolding Status.str_ptr Updates.set_row Updates.touch Updates.failed Sync.event_of
      Sync.sync_payload Client.request
  failure-recorded error code body status message returned = refl

  attempt-unanswered :
      (e : String)
      → next_exchange w.network ≡ no_reply e
      → Sync.attempt_with retry n us v w ≡ settled n us v w (no_reply e)
  attempt-unanswered e answer =
      attempt_with-unanswered retry n us v w e answer
      ∙ on_call_error-fresh retry (answered n us v (some e) 0 none) e _ (pushed n us v w)
          (and_false (is_some retry))
      ∙ http_failed-calm (answered n us v (some e) 0 none) e (pushed n us v w) calm known refl
      ∙ ap (λ x. (err e, x)) (failure-recorded (some e) 0 none "http_error" e e)

  module _ (code : ℕ) (s : String) (d : Result AgentResponse) (t : Result AgentStatusResponse)
      (answer : next_exchange w.network ≡ reply code (json s d t))
      (fresh : (is_some retry && is_stale d) ≡ false) where
    attempt-failed :
        (ltb code 200 || ltb 299 code) ≡ true
        → Sync.attempt_with retry n us v w ≡ settled n us v w (reply code (json s d t))
    unfolding Sync.on_call Sync.decode_answer decode_response text
    attempt-failed bad =
        let m = "node agent returned " ++ itoa code ++ ": " ++ trim_space s in
        let a = answered n us v (some m) code (some (json s d t)) in
        attempt_with-pushed retry n us v w
        ∙ rw (answer, outcome-failed code (json s d t) bad)
            (on_call_error-fresh retry a m d (pushed n us v w) fresh
              ∙ http_failed-calm a m (pushed n us v w) calm known refl
              ∙ ap (λ x. (err m, x))
                  (failure-recorded (some m) code (some (json s d t)) "http_error" m m))
        ∙ sym (ap (told n us v w) (pick_true (ltb code 200 || ltb 299 code) _ _ bad))

    taken :
        (r : AgentResponse)
        → Sync.on_success (answered n us v none code (some (json s d t))) r (pushed n us v w)
          ≡ told n us v w (success v code (json s d t) r)
    unfolding Sync.accepted Updates.synced Updates.set_row Updates.touch Sync.event_of
        Sync.sync_payload Client.request
    taken r =
        on_success-calm (pushed n us v w) calm (answered n us v none code (some (json s d t))) known
          refl r

    refused :
        (r : AgentResponse)
        → Sync.apply_failed (answered n us v none code (some (json s d t))) r (pushed n us v w)
          ≡ told n us v w (refusal code (json s d t) r)
    refused r =
        apply_failed-calm (answered n us v none code (some (json s d t))) r (pushed n us v w) calm
          known refl
        ∙ rw (agent_response_error-reason r) (
            ap (λ x. (err ("node agent sync failed: " ++ reason r), x))
              (failure-recorded none code (some (json s d t))
                (if r.status == "" then "apply_failed" else r.status) (reason r)
                ("node agent sync failed: " ++ reason r)))

    on_answer-settled :
        (e : Result AgentResponse)
        → (is_some retry && is_stale e) ≡ false
        → Sync.on_answer retry (answered n us v none code (some (json s d t))) e (pushed n us v w)
          ≡ (
            (by_response v code (json s d t) e).result,
            recorded n us v (by_response v code (json s d t) e) w,
          )
    unfolding Sync.on_answer
    on_answer-settled (err e) h =
        decode_failed-calm (answered n us v none code (some (json s d t))) e (pushed n us v w) calm
          known refl
        ∙ ap (λ x. (err ("decode node agent response: " ++ e), x))
            (failure-recorded none code (some (json s d t)) "decode_error" e
              ("decode node agent response: " ++ e))
    on_answer-settled (ok r) h = elim (Bool-cases r.ok) [
      | inl e ↦ if-true r.ok _ _ _ e ∙ taken r ∙ sym (ap (told n us v w) (pick_true r.ok _ _ e))
      | inr e ↦
          if-false r.ok _ _ _ e
          ∙ on_refusal-fresh retry (answered n us v none code (some (json s d t))) r
              (pushed n us v w) h
          ∙ refused r
          ∙ sym (ap (told n us v w) (pick_false r.ok _ _ e))
    ]

    attempt-answered :
        (ltb code 200 || ltb 299 code) ≡ false
        → Sync.attempt_with retry n us v w ≡ settled n us v w (reply code (json s d t))
    unfolding decode_response
    attempt-answered good =
        attempt_with-answered retry n us v w code (json s d t) answer (ground (arith, good))
          (ground (arith, good))
        ∙ on_answer-settled d fresh
        ∙ sym (ap (told n us v w) (pick_false (ltb code 200 || ltb 299 code) _ _ good))

    attempt-settled : Sync.attempt_with retry n us v w ≡ settled n us v w (reply code (json s d t))
    attempt-settled = elim (Bool-cases (ltb code 200 || ltb 299 code)) [
      | inl e ↦ attempt-failed e
      | inr e ↦ attempt-answered e
    ]

retry_for-some : (b : Bool) → is_some (retry_for b) ≡ b
retry_for-some true = refl
retry_for-some false = refl

attempt_for :
    (b : Bool) (n : Node) (us : List AccessWithUser) (v : ℤ) (w : World) (x : Exchange)
    → w.schedule ≡ []
    → is_some (find_node n.id w.nodes) ≡ true
    → next_exchange w.network ≡ x
    → (b && says_stale x) ≡ false
    → Sync.sync_node_attempt b n us v w ≡ settled n us v w x
attempt_for b n us v w (no_reply e) calm known answer fresh =
    sync_node_attempt-with b n us v w
    ∙ attempt-unanswered (retry_for b) n us v w calm known e answer
attempt_for b n us v w (reply code (malformed s e)) calm known answer fresh =
    sync_node_attempt-malformed b n us v w calm code s e answer
    ∙ ap (λ x. (err "invalid input syntax for type json", x)) (only_sent n us v w)
attempt_for b n us v w (reply code (json s d t)) calm known answer fresh =
    sync_node_attempt-with b n us v w
    ∙ attempt-settled (retry_for b) n us v w calm known code s d t answer
        (ap (λ c. c && is_stale d) (retry_for-some b) ∙ fresh)

-- While no statement fails and the row of the node is there, an attempt that does not retry (because it may
-- not, or the answer is not JSON with status "stale_version") returns, sends and leaves what `settled` says
-- for the answer of the agent. Without an answer, with a code that is not 2xx, with an answer of another
-- shape and with a refusal it fails with the text of that, and an event and the row of the node get the
-- status and the text ("http_error" makes the node unreachable); with `ok` it returns the response, and
-- the row gets the applied version (the one sent, where the agent names none that is positive), no error,
-- status "ok" and is connected. An answer that is not JSON leaves no event and the row as it was.
pub sync_node_attempt-settled :
    (b : Bool) (n : Node) (us : List AccessWithUser) (v : ℤ) (w : World)
    → w.schedule ≡ []
    → is_some (find_node n.id w.nodes) ≡ true
    → (b && says_stale (next_exchange w.network)) ≡ false
    → Sync.sync_node_attempt b n us v w ≡ settled n us v w (next_exchange w.network)
sync_node_attempt-settled b n us v w calm known fresh =
    attempt_for b n us v w (next_exchange w.network) calm known refl fresh
