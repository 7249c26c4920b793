-- ===== src/Nodes/Manager/Accepted.antt =====
-- A synchronisation of internal/nodes/manager.go that returns has logged an accepted push.
use mathlib.Core.List.{append_assoc}
use vetka_backend_panel.Prelude.{
  ℕ, ◌+◌, String, true, ◌≡◌, refl, sym, ap, ◌∙◌, Option, none, some, List, ◌∷◌, ◌++◌, ◌==◌, arith,
  eq_refl,
}
use vetka_backend_panel.Prelude.Int.{ℤ}
use vetka_backend_panel.Prelude.Effects.{Result, ok, err, Action, Within, raise, pure, ◌>>=◌}
use vetka_backend_panel.Prelude.Triples.{
  Post, Triple, Triple-bind, Triple-given, Triple-pure, Triple-if, Triple-weaken, Triple-imply,
  Invariant, Invariant-of_after,
}
use vetka_backend_panel.Users.Models.{AccessWithUser}
use vetka_backend_panel.Users.Repository.{active_access_for_node}
use vetka_backend_panel.Nodes.Models.{Node, SyncEvent, SyncPayload, AgentResponse}
use vetka_backend_panel.Nodes.Client
use vetka_backend_panel.Nodes.Client.{Call}
use vetka_backend_panel.Nodes.Repository
use vetka_backend_panel.Nodes.Repository.{find_node}
use vetka_backend_panel.Nodes.Rows.{find_node-id}
use vetka_backend_panel.Nodes.Status
use vetka_backend_panel.Nodes.Sync
use vetka_backend_panel.Nodes.Sync.{Attempt, Retry}
use vetka_backend_panel.Nodes.Updates
use vetka_backend_panel.Nodes.Manager.Closed.{Closed, log_failure-keeps, fetch-keeps}
use vetka_backend_panel.Nodes.Manager.Progress.{Progress, closed_Progress, push-Progress}
use vetka_backend_panel.World.{World, Tick, exchange, next_exchange}
use vetka_backend_panel.World.Statements.{Triple-statement, refuse_if-Post}
use vetka_backend_panel.Nodes.Manager.Taken.{
  is_2xx, accepts, has_accepted, has_accepted-append, decoded-accepts, Fine, outcome-Fine,
}

module _ (old : List SyncEvent) where
  -- The log has been added to, and an accepted push to the node is among what was added.
  abbrev pub Grown : World → Type 0
  Grown v = (added : List SyncEvent) × (v.events ≡ added ++ old)

  abbrev pub Accepted : String → World → Type 0
  Accepted id v =
      (added : List SyncEvent) × (v.events ≡ added ++ old) × (has_accepted id added ≡ true)

  pub Grown-later : (v w : World) → Progress v w → Grown v → Grown w
  Grown-later v w p h =
      (p.log.0 ++ h.0, p.log.1 ∙ ap (λ l. p.log.0 ++ l) h.1 ∙ sym (append_assoc p.log.0 h.0 old))

  pub Accepted-later : (id : String) (v w : World) → Progress v w → Accepted id v → Accepted id w
  Accepted-later id v w p h = (
    p.log.0 ++ h.0,
    p.log.1 ∙ ap (λ l. p.log.0 ++ l) h.1 ∙ sym (append_assoc p.log.0 h.0 old),
    has_accepted-append id p.log.0 h.0 h.2,
  )

  Grown-calm : {A : Type 0} (m : Action World A) → Within Progress m → Invariant Grown m
  Grown-calm m h = Invariant-of_after m λ w k. Grown-later w (m w).1 (h.at w) k

  calm :
      {A : Type 0} (m : Action World A)
      → ((R : World → World → Type 0) → Closed R → Within R m)
      → Invariant Grown m
  calm m keeps = Grown-calm m (keeps Progress closed_Progress)

  Grown-clock :
      (w : World) (elapsed : ℕ) (ticks : List Tick)
      → Grown w
      → Grown (record w { now = w.now + elapsed; schedule = ticks })
  Grown-clock w elapsed ticks h = h

  insert_event-Accepted :
      (a : Attempt)
      → is_2xx (some a.answer.result.status_code) ≡ true
      → accepts a.answer.result.body ≡ true
      → Triple Grown
          (Updates.insert_sync_event (Sync.event_of a "ok" none))
          (λ _. Accepted a.node.id)
          Grown
  unfolding Updates.insert_sync_event Updates.insert_event Updates.write_event Sync.event_of
  insert_event-Accepted a fine taken =
      Triple-statement (λ _. Accepted a.node.id) Grown-clock _
        λ w h.
          refuse_if-Post (λ _. Accepted a.node.id) Grown _ _ _ w h
            (refuse_if-Post (λ _. Accepted a.node.id) Grown _ _ _ w h
              (
                record (Sync.event_of a "ok" none) { created_at = w.now } ∷ h.0,
                ap (λ l. record (Sync.event_of a "ok" none) { created_at = w.now } ∷ l) h.1,
                ground (arith, eq_refl a.node.id, fine, taken),
              ))

  Accepted-calm :
      {A : Type 0} (id : String) (m : Action World A)
      → Within Progress m
      → Triple (Accepted id) m (λ _. Accepted id) Grown
  Accepted-calm id m h =
      Triple-weaken (λ _. Accepted id) (λ w k. (k.0, k.1)) m
        (Invariant-of_after m λ w k. Accepted-later id w (m w).1 (h.at w) k)

  on_success-Accepted :
      (a : Attempt) (r : AgentResponse)
      → is_2xx (some a.answer.result.status_code) ≡ true
      → accepts a.answer.result.body ≡ true
      → Triple Grown (Sync.on_success a r) (λ _. Accepted a.node.id) Grown
  unfolding Sync.on_success
  on_success-Accepted a r fine taken =
      Triple-bind (λ _. Accepted a.node.id) _ _ (insert_event-Accepted a fine taken)
        λ u.
          Triple-bind (λ _. Accepted a.node.id) _ _
            (Accepted-calm a.node.id _ (
              closed_Progress.mark_sync_success_lem a.node.id
                (Sync.accepted a.version r).applied_version))
            λ u. Triple-pure _ λ w h. h

  -- An action that fails, whatever it does.
  abbrev Fails : {A : Type 0} → Action World A → Type 0
  Fails m = Triple Grown m (λ _ _. ⊥) Grown

  failing :
      {A : Type 0} (Q : A → World → Type 0) (m : Action World A) → Fails m → Triple Grown m Q Grown
  failing Q m h = Triple-imply {Q = λ _ _. ⊥} {R = Q} Grown (λ a w k. absurd k) m h

  http_failed-Fails : (a : Attempt) (m : String) → Fails (Sync.http_failed a m)
  unfolding Sync.http_failed raise
  http_failed-Fails a m =
      Triple-bind _ _ _ (calm _ λ R c. log_failure-keeps c.steps a _ _ _)
        λ u. record { at = λ w h. h }

  apply_failed-Fails : (a : Attempt) (r : AgentResponse) → Fails (Sync.apply_failed a r)
  unfolding Sync.apply_failed raise
  apply_failed-Fails a r =
      Triple-bind _ _ _ (calm _ λ R c. log_failure-keeps c.steps a _ _ _)
        λ u. record { at = λ w h. h }

  decode_failed-Fails : (a : Attempt) (e : String) → Fails (Sync.decode_failed a e)
  unfolding Sync.decode_failed raise
  decode_failed-Fails a e =
      Triple-bind _ _ _ (calm _ λ R c. log_failure-keeps c.steps a _ _ _)
        λ u. record { at = λ w h. h }

  one_row-id :
      (id : String) (w : World) (o : Option Node)
      → find_node id w.nodes ≡ o
      → Grown w
      → Post (λ n v. (n.id ≡ id) × Grown v) Grown (Repository.one_row o, w)
  unfolding Repository.scan_node
  one_row-id id w none e h = h
  one_row-id id w (some n) e h = (find_node-id id w.nodes n e, h)

  get-id : (id : String) → Triple Grown (Repository.get id) (λ n w. (n.id ≡ id) × Grown w) Grown
  unfolding Repository.get
  get-id id =
      Triple-statement (λ n w. (n.id ≡ id) × Grown w) Grown-clock _
        λ w h. one_row-id id w (find_node id w.nodes) refl h

  abbrev Logs : (Node → List AccessWithUser → ℤ → Action World AgentResponse) → Type 0
  Logs m =
      (n : Node) (us : List AccessWithUser) (v : ℤ)
      → Triple Grown (m n us v) (λ _. Accepted n.id) Grown

  abbrev RetryLogs : Retry → Type 0
  RetryLogs none = Unit
  RetryLogs (some again) = Logs again

  bump_and_log :
      (again : Node → List AccessWithUser → ℤ → Action World AgentResponse)
      → Logs again
      → (id : String) (us : List AccessWithUser) (n : Node) → n.id ≡ id
      → Triple Grown (Updates.bump_version id >>= again n us) (λ _. Accepted id) Grown
  bump_and_log again h id us n e =
      Triple-bind (λ _. Grown) _ _ (calm _ λ R c. c.bump_version_lem id) (rw (← e) (h n us))

  retry-Accepted :
      (again : Node → List AccessWithUser → ℤ → Action World AgentResponse)
      → Logs again
      → (a : Attempt) (r : AgentResponse)
      → Triple Grown (Sync.retry_from_agent_response again a r) (λ _. Accepted a.node.id) Grown
  unfolding Sync.retry_from_agent_response
  retry-Accepted again h a r =
      Triple-bind (λ _. Grown) _ _ (calm _ λ R c. log_failure-keeps c.steps a _ _ _)
        λ u.
          Triple-bind (λ _. Grown) _ _
            (calm _ λ R c.
              c.sync_remote_state_lem a.node.id r.current_version
                (Status.remote_applied_version_from_response r) none)
            λ u.
              Triple-bind _ _ _ (get-id a.node.id)
                λ n. Triple-given _ (bump_and_log again h a.node.id a.assigned n)

  on_call_error-Accepted :
      (retry : Retry) (a : Attempt) (m : String) (e : Result AgentResponse)
      → RetryLogs retry
      → Triple Grown (Sync.on_call_error retry a m e) (λ _. Accepted a.node.id) Grown
  unfolding Sync.on_call_error
  on_call_error-Accepted none a m e h = failing _ _ (http_failed-Fails a m)
  on_call_error-Accepted (some again) a m (err e) h = failing _ _ (http_failed-Fails a m)
  on_call_error-Accepted (some again) a m (ok r) h =
      Triple-if (r.status == "stale_version") _ _ (λ _. retry-Accepted again h a r)
        (λ _. failing _ _ (http_failed-Fails a m))

  on_refusal-Accepted :
      (retry : Retry) (a : Attempt) (r : AgentResponse)
      → RetryLogs retry
      → Triple Grown (Sync.on_refusal retry a r) (λ _. Accepted a.node.id) Grown
  unfolding Sync.on_refusal
  on_refusal-Accepted none a r h = failing _ _ (apply_failed-Fails a r)
  on_refusal-Accepted (some again) a r h =
      Triple-if (r.status == "stale_version") _ _ (λ _. retry-Accepted again h a r)
        (λ _. failing _ _ (apply_failed-Fails a r))

  on_answer-Accepted :
      (retry : Retry) (a : Attempt) (e : Result AgentResponse)
      → is_2xx (some a.answer.result.status_code) ≡ true
      → Sync.decode_answer a.answer.result.body ≡ e
      → RetryLogs retry
      → Triple Grown (Sync.on_answer retry a e) (λ _. Accepted a.node.id) Grown
  unfolding Sync.on_answer
  on_answer-Accepted retry a (err e) fine d h = failing _ _ (decode_failed-Fails a e)
  on_answer-Accepted retry a (ok r) fine d h =
      Triple-if r.ok _ _
        (λ e. on_success-Accepted a r fine (decoded-accepts a.answer.result.body r d e))
        (λ _. on_refusal-Accepted retry a r h)

  on_call-Accepted :
      (retry : Retry) (a : Attempt) (e : Option String)
      → (e ≡ none → is_2xx (some a.answer.result.status_code) ≡ true)
      → RetryLogs retry
      → Triple Grown (Sync.on_call retry a e) (λ _. Accepted a.node.id) Grown
  unfolding Sync.on_call
  on_call-Accepted retry a none fine h = on_answer-Accepted retry a _ (fine refl) refl h
  on_call-Accepted retry a (some m) fine h = on_call_error-Accepted retry a m _ h

  push-Fine :
      (n : Node) (p : SyncPayload) → Triple Grown (Client.sync n p) (λ c w. Fine c × Grown w) Grown
  unfolding Client.sync Client.call exchange ◌>>=◌ pure
  push-Fine n p = record {
    at = λ w h. (
      outcome-Fine (next_exchange w.network),
      Grown-later w (Client.sync n p w).1 ((push-Progress n p).at w) h,
    );
  }

  attempt_with-Logs : (retry : Retry) → RetryLogs retry → Logs (Sync.attempt_with retry)
  unfolding Sync.attempt_with
  attempt_with-Logs retry h n us v =
      Triple-bind (λ c w. Fine c × Grown w) _ _ (push-Fine n (Sync.sync_payload n us v))
        λ c. Triple-given _ λ fine.
          on_call-Accepted retry (record { node = n; assigned = us; version = v; answer = c })
            c.error fine h

  sync_node_attempt-Logs : Logs (Sync.sync_node_attempt true)
  unfolding Sync.sync_node_attempt
  sync_node_attempt-Logs =
      attempt_with-Logs (some (Sync.attempt_with none)) (attempt_with-Logs none tt)

  push_node :
      (id : String) (n : Node)
      → n.id ≡ id
      → Triple Grown
          (do
            v ← Updates.bump_version id
            us ← active_access_for_node id
            Sync.sync_node_attempt true n us v)
          (λ _. Accepted id)
          Grown
  push_node id n e =
      Triple-bind (λ _. Grown) _ _ (calm _ λ R c. c.bump_version_lem id)
        λ v.
          Triple-bind (λ _. Grown) _ _ (calm _ λ R c. c.active_access_lem id)
            λ us. rw (← e) (sync_node_attempt-Logs n us v)

  pub sync_node-Accepted : (id : String) → Triple Grown (Sync.sync_node id) (λ _. Accepted id) Grown
  unfolding Sync.sync_node
  sync_node-Accepted id =
      Triple-bind (λ _. Grown) _ _ (calm _ λ R c. c.get_lem id)
        λ before.
          Triple-bind (λ _. Grown) _ _ (calm _ λ R c. fetch-keeps c.steps before)
            λ u. Triple-bind _ _ _ (get-id id) λ n. Triple-given _ (push_node id n)
