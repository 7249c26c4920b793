-- ===== src/Nodes/Manager/Closed.antt =====
-- A relation between states that every statement and every request of the node manager keeps is kept by
-- the operations built from them, whatever fails on their way.
use vetka_backend_panel.Prelude.{
  ℕ, String, Bool, true, false, not, Option, none, some, List, [], ◌∷◌, ◌==◌,
}
use vetka_backend_panel.Prelude.Int.{ℤ}
use vetka_backend_panel.Prelude.Effects.{
  Result, ok, err, Action, Within, Within-bind, Within-if, Within-attempt, Within-pure,
  within_rules,
}
use vetka_backend_panel.Users.Models.{AccessWithUser}
use vetka_backend_panel.Users.Repository.{active_access_for_node}
use vetka_backend_panel.Nodes.Models.{
  Node, CreateNodeInput, SyncPayload, SyncEvent, AgentResponse, AgentStatusResponse,
}
use vetka_backend_panel.Security.{read_random, token}
use vetka_backend_panel.Nodes.Repository
use vetka_backend_panel.Nodes.Updates
use vetka_backend_panel.Nodes.Client
use vetka_backend_panel.Nodes.Status
use vetka_backend_panel.Nodes.Sync
use vetka_backend_panel.Nodes.Sync.{Attempt, Retry}
use vetka_backend_panel.Nodes.Manager
use vetka_backend_panel.World.{World, exchange}
use vetka_backend_panel.World.Statements.{Stable}

-- What each statement and each request of a synchronisation but a push leaves related.
pub record Steps (R : World → World → Type 0) : Type 0 where
  pub stable : Stable R
  pub open stable use *
  pub get_lem : (id : String) → Within R (Repository.get id)
  pub list_lem : Within R Repository.list
  pub active_access_lem : (id : String) → Within R (active_access_for_node id)
  pub mark_status_lem :
      (id status : String) (e : Option String) → Within R (Updates.mark_status id status e)
  pub mark_sync_failure_lem :
      (id status e : String) → Within R (Updates.mark_sync_failure id status e)
  pub mark_sync_success_lem : (id : String) (v : ℤ) → Within R (Updates.mark_sync_success id v)
  pub sync_remote_state_lem :
      (id : String) (c a : ℤ) (e : Option String) → Within R (Updates.sync_remote_state id c a e)
  pub bump_version_lem : (id : String) → Within R (Updates.bump_version id)
  pub insert_sync_event_lem : (e : SyncEvent) → Within R (Updates.insert_sync_event e)
  pub ask_lem : (n : Node) (m p : String) → Within R (exchange (Client.request n m p none))
  pub read_random_lem : (n : ℕ) → Within R (read_random n)

-- And the two statements that write what the administrator gives.
pub record Closed (R : World → World → Type 0) : Type 0 where
  pub steps : Steps R
  pub open steps use *
  pub update_lem : (id : String) (i : CreateNodeInput) → Within R (Updates.update id i)
  pub create_lem : (i : CreateNodeInput) → Within R (Repository.create i)

module _ {R : World → World → Type 0} (steps : Steps R) where
  open steps use {
    order, get_lem, list_lem, active_access_lem, mark_status_lem, mark_sync_failure_lem,
    mark_sync_success_lem, sync_remote_state_lem, bump_version_lem, insert_sync_event_lem, ask_lem,
    read_random_lem,
  }

  token-keeps : (p : String) (n : ℕ) → Within R (token p n)
  unfolding token
  token-keeps p n = search (within_rules, order, read_random_lem)

  call-keeps : (n : Node) (m p : String) → Within R (Client.call n m p none)
  unfolding Client.call
  call-keeps n m p = Within-bind order _ _ (ask_lem n m p) λ e. Within-pure order _

  health-keeps : (n : Node) → Within R (Client.health n)
  unfolding Client.health
  health-keeps n = call-keeps n _ _

  status_info-keeps : (n : Node) → Within R (Client.status_info n)
  unfolding Client.status_info Client.status
  status_info-keeps n = search (within_rules, order, call-keeps)

  validate-keeps : (n : Node) → Within R (Status.validate_node_agent_config n)
  unfolding Status.validate_node_agent_config
  validate-keeps n = search (within_rules, order, status_info-keeps)

  adopt_status-keeps : (id : String) (s : AgentStatusResponse) → Within R (Status.adopt_status id s)
  unfolding Status.adopt_status
  adopt_status-keeps id s = search (within_rules, sync_remote_state_lem)

  record_status-keeps :
      {A : Type 0} (id : String) (r : Result A) → Within R (Status.record_status id r)
  unfolding Status.record_status
  record_status-keeps id (ok a) = search (within_rules, order, mark_status_lem)
  record_status-keeps id (err e) = search (within_rules, order, mark_status_lem)

  reconcile_status-keeps :
      (id : String) (s : AgentStatusResponse) → Within R (Status.reconcile_status id s)
  unfolding Status.reconcile_status
  reconcile_status-keeps id s = search (within_rules, order, mark_status_lem, sync_remote_state_lem)

  pub fetch-keeps : (n : Node) → Within R (Status.fetch_and_reconcile_status n)
  unfolding Status.fetch_and_reconcile_status
  fetch-keeps n =
      search (within_rules, order, status_info-keeps, record_status-keeps, reconcile_status-keeps)

  pub validate_node_status-keeps : (id : String) → Within R (Status.validate_node_status id)
  unfolding Status.validate_node_status
  validate_node_status-keeps id =
      search (within_rules, order, get_lem, sync_remote_state_lem, validate-keeps)

  pub check_node_health-keeps : (id : String) → Within R (Status.check_node_health id)
  unfolding Status.check_node_health
  check_node_health-keeps id =
      search (within_rules, order, get_lem, health-keeps, record_status-keeps, fetch-keeps)

  pub fetch_node_status-keeps : (id : String) → Within R (Status.fetch_node_status id)
  unfolding Status.fetch_node_status
  fetch_node_status-keeps id = search (within_rules, order, get_lem, fetch-keeps)

  pub log_failure-keeps :
      (a : Attempt) (s m : String) (e : Option String) → Within R (Sync.log_failure a s m e)
  unfolding Sync.log_failure
  log_failure-keeps a s m e =
      search (within_rules, order, insert_sync_event_lem, mark_sync_failure_lem)

  pub http_failed-keeps : (a : Attempt) (m : String) → Within R (Sync.http_failed a m)
  unfolding Sync.http_failed
  http_failed-keeps a m = search (within_rules, order, log_failure-keeps)

  pub apply_failed-keeps : (a : Attempt) (r : AgentResponse) → Within R (Sync.apply_failed a r)
  unfolding Sync.apply_failed
  apply_failed-keeps a r = search (within_rules, order, log_failure-keeps)

  pub decode_failed-keeps : (a : Attempt) (e : String) → Within R (Sync.decode_failed a e)
  unfolding Sync.decode_failed
  decode_failed-keeps a e = search (within_rules, order, log_failure-keeps)

  pub on_success-keeps : (a : Attempt) (r : AgentResponse) → Within R (Sync.on_success a r)
  unfolding Sync.on_success
  on_success-keeps a r = search (within_rules, order, insert_sync_event_lem, mark_sync_success_lem)

  -- With a push to an agent kept too, so is a synchronisation.
  module _ (push_lem : (n : Node) (p : SyncPayload) → Within R (Client.sync n p)) where
    module _ (again : Node → List AccessWithUser → ℤ → Action World AgentResponse)
        (again_keeps : (n : Node) (us : List AccessWithUser) (v : ℤ)
          → Within R (again n us v)) where
      retry-keeps :
          (a : Attempt) (r : AgentResponse) → Within R (Sync.retry_from_agent_response again a r)
      unfolding Sync.retry_from_agent_response
      retry-keeps a r =
          search (
            within_rules, order, sync_remote_state_lem, get_lem, bump_version_lem,
            log_failure-keeps,
          )

    -- The retry, if there is one, makes progress.
    abbrev RetryKeeps : Retry → Type 0
    RetryKeeps none = Unit
    RetryKeeps (some again) =
        (n : Node) (us : List AccessWithUser) (v : ℤ) → Within R (again n us v)

    on_call_error-keeps :
        (retry : Retry) (a : Attempt) (m : String) (d : Result AgentResponse)
        → RetryKeeps retry
        → Within R (Sync.on_call_error retry a m d)
    unfolding Sync.on_call_error
    on_call_error-keeps none a m d h = http_failed-keeps a m
    on_call_error-keeps (some again) a m (err e) h = http_failed-keeps a m
    on_call_error-keeps (some again) a m (ok r) h =
        Within-if (r.status == "stale_version") _ _ (retry-keeps again h a r)
          (http_failed-keeps a m)

    on_refusal-keeps :
        (retry : Retry) (a : Attempt) (r : AgentResponse)
        → RetryKeeps retry
        → Within R (Sync.on_refusal retry a r)
    unfolding Sync.on_refusal
    on_refusal-keeps none a r h = apply_failed-keeps a r
    on_refusal-keeps (some again) a r h =
        Within-if (r.status == "stale_version") _ _ (retry-keeps again h a r)
          (apply_failed-keeps a r)

    on_answer-keeps :
        (retry : Retry) (a : Attempt) (d : Result AgentResponse)
        → RetryKeeps retry
        → Within R (Sync.on_answer retry a d)
    unfolding Sync.on_answer
    on_answer-keeps retry a (err e) h = decode_failed-keeps a e
    on_answer-keeps retry a (ok r) h =
        Within-if r.ok _ _ (on_success-keeps a r) (on_refusal-keeps retry a r h)

    on_call-keeps :
        (retry : Retry) (a : Attempt) (e : Option String)
        → RetryKeeps retry
        → Within R (Sync.on_call retry a e)
    unfolding Sync.on_call
    on_call-keeps retry a none h = on_answer-keeps retry a _ h
    on_call-keeps retry a (some m) h = on_call_error-keeps retry a m _ h

    attempt_with-keeps :
        (retry : Retry)
        → RetryKeeps retry
        → (n : Node) (us : List AccessWithUser) (v : ℤ) → Within R (Sync.attempt_with retry n us v)
    unfolding Sync.attempt_with
    attempt_with-keeps retry h n us v = Within-bind order _ _ (push_lem n _) λ c.
        on_call-keeps retry (record { node = n; assigned = us; version = v; answer = c }) c.error h

    sync_node_attempt-keeps :
        (b : Bool) (n : Node) (us : List AccessWithUser) (v : ℤ)
        → Within R (Sync.sync_node_attempt b n us v)
    unfolding Sync.sync_node_attempt
    sync_node_attempt-keeps false = attempt_with-keeps none tt
    sync_node_attempt-keeps true =
        attempt_with-keeps (some (Sync.attempt_with none)) (attempt_with-keeps none tt)

    pub sync_node-keeps : (id : String) → Within R (Sync.sync_node id)
    unfolding Sync.sync_node
    sync_node-keeps id =
        search
          (
            within_rules, order, get_lem, bump_version_lem, active_access_lem, fetch-keeps,
            sync_node_attempt-keeps,
          )
          depth 9

    sync_one-keeps :
        (n : Node) (others : Action World (List String))
        → Within R others
        → Within R (Sync.sync_one n others)
    unfolding Sync.sync_one
    sync_one-keeps n others h =
        Within-bind order _ _ (Within-attempt _ (sync_node-keeps n.id))
          λ result. Within-bind order _ _ h λ errors. Within-pure order _

    sync_each-keeps : (ns : List Node) → Within R (Sync.sync_each ns)
    unfolding Sync.sync_each
    sync_each-keeps [] = search (within_rules, order)
    sync_each-keeps (n ∷ ns) =
        Within-if (not n.enabled) _ _ (sync_each-keeps ns) (sync_one-keeps n _ (sync_each-keeps ns))

    report-keeps : (es : List String) → Within R (Sync.report es)
    report-keeps [] = search (within_rules, order)
    report-keeps (e ∷ es) = search (within_rules, order)

    pub sync_all_nodes-keeps : Within R Sync.sync_all_nodes
    unfolding Sync.sync_all_nodes
    sync_all_nodes-keeps =
        Within-bind order _ _ list_lem λ ns. Within-bind order _ _ (sync_each-keeps ns) report-keeps

module _ {R : World → World → Type 0} (closed : Closed R) where
  open closed use {steps, order, get_lem, sync_remote_state_lem, update_lem, create_lem}

  adopt-keeps : (i : CreateNodeInput) → Within R (Manager.adopt i)
  unfolding Manager.adopt
  adopt-keeps i =
      search (within_rules, order, create_lem, sync_remote_state_lem, get_lem, validate-keeps steps)

  pub create_node-keeps : (i : CreateNodeInput) → Within R (Manager.create_node i)
  unfolding Manager.create_node Manager.create_normalized Manager.or_token
  create_node-keeps i =
      search (within_rules, order, create_lem, token-keeps steps, adopt-keeps) depth 9

  pub update_node-keeps : (id : String) (i : CreateNodeInput) → Within R (Manager.update_node id i)
  unfolding Manager.update_node
  update_node-keeps id i =
      search (within_rules, order, get_lem, update_lem, sync_remote_state_lem, validate-keeps steps)
        depth 9
