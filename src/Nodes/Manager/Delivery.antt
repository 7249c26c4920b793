-- ===== src/Nodes/Manager/Delivery.antt =====
-- What a synchronisation keeps when every list of users that it may push to a node is a good one.
use vetka_backend_panel.Prelude.{List, String, true, none, some, ◌==◌, Option}
use vetka_backend_panel.Prelude.Int.{ℤ}
use vetka_backend_panel.Prelude.Effects.{Result, ok, err, Action, Within}
use vetka_backend_panel.Prelude.Triples.{Triple, Triple-bind, Triple-given, Invariant, Invariant-if}
use vetka_backend_panel.Users.Models.{AccessWithUser}
use vetka_backend_panel.Users.Repository.{active_access_for_node}
use vetka_backend_panel.Nodes.Models.{Node, AgentResponse}
use vetka_backend_panel.Nodes.Client
use vetka_backend_panel.Nodes.Status
use vetka_backend_panel.Nodes.Sync
use vetka_backend_panel.Nodes.Sync.{Attempt, Retry}
use vetka_backend_panel.Nodes.Manager.Closed.{
  Closed, log_failure-keeps, decode_failed-keeps, http_failed-keeps, apply_failed-keeps,
  on_success-keeps, fetch-keeps,
}
use vetka_backend_panel.World.{World}

-- An assertion that all but pushes keep, that pushes of good lists keep, and under which the lists that
-- are read are good.
pub record Delivers (I : World → Type 0) (IsGood : List AccessWithUser → Type 0) (id : String)
    : Type 1 where
  pub calm :
      {A : Type 0} (m : Action World A)
      → ((R : World → World → Type 0) → Closed R → Within R m)
      → Invariant I m
  pub push :
      (n : Node) (us : List AccessWithUser) (v : ℤ)
      → IsGood us
      → Invariant I (Client.sync n (Sync.sync_payload n us v))
  pub read : Triple I (active_access_for_node id) (λ us w. IsGood us × I w) I

module _ {I : World → Type 0} {IsGood : List AccessWithUser → Type 0} {id : String}
    (d : Delivers I IsGood id) where
  abbrev Sends : (Node → List AccessWithUser → ℤ → Action World AgentResponse) → Type 0
  Sends m = (n : Node) (us : List AccessWithUser) (v : ℤ) → IsGood us → Invariant I (m n us v)

  abbrev RetrySends : Retry → Type 0
  RetrySends none = Unit
  RetrySends (some again) = Sends again

  retry-kept :
      (again : Node → List AccessWithUser → ℤ → Action World AgentResponse) (a : Attempt)
      (r : AgentResponse)
      → Sends again
      → IsGood a.assigned
      → Invariant I (Sync.retry_from_agent_response again a r)
  unfolding Sync.retry_from_agent_response
  retry-kept again a r h g =
      Triple-bind _ _ _ (d.calm _ λ R c. log_failure-keeps c.steps a _ _ _) λ _.
        Triple-bind _ _ _
          (d.calm _ λ R c.
            c.sync_remote_state_lem a.node.id r.current_version
              (Status.remote_applied_version_from_response r) none)
          λ _. Triple-bind _ _ _ (d.calm _ λ R c. c.get_lem a.node.id) λ n.
            Triple-bind _ _ _ (d.calm _ λ R c. c.bump_version_lem a.node.id) λ v. h n a.assigned v g

  on_call_error-kept :
      (retry : Retry) (a : Attempt) (m : String) (e : Result AgentResponse)
      → RetrySends retry
      → IsGood a.assigned
      → Invariant I (Sync.on_call_error retry a m e)
  unfolding Sync.on_call_error
  on_call_error-kept none a m e h g = d.calm _ λ R c. http_failed-keeps c.steps a m
  on_call_error-kept (some again) a m (err e) h g = d.calm _ λ R c. http_failed-keeps c.steps a m
  on_call_error-kept (some again) a m (ok r) h g =
      Invariant-if (r.status == "stale_version") _ _ (retry-kept again a r h g)
        (d.calm _ λ R c. http_failed-keeps c.steps a m)

  on_refusal-kept :
      (retry : Retry) (a : Attempt) (r : AgentResponse)
      → RetrySends retry
      → IsGood a.assigned
      → Invariant I (Sync.on_refusal retry a r)
  unfolding Sync.on_refusal
  on_refusal-kept none a r h g = d.calm _ λ R c. apply_failed-keeps c.steps a r
  on_refusal-kept (some again) a r h g =
      Invariant-if (r.status == "stale_version") _ _ (retry-kept again a r h g)
        (d.calm _ λ R c. apply_failed-keeps c.steps a r)

  on_answer-kept :
      (retry : Retry) (a : Attempt) (e : Result AgentResponse)
      → RetrySends retry
      → IsGood a.assigned
      → Invariant I (Sync.on_answer retry a e)
  unfolding Sync.on_answer
  on_answer-kept retry a (err e) h g = d.calm _ λ R c. decode_failed-keeps c.steps a e
  on_answer-kept retry a (ok r) h g =
      Invariant-if r.ok _ _ (d.calm _ λ R c. on_success-keeps c.steps a r)
        (on_refusal-kept retry a r h g)

  on_call-kept :
      (retry : Retry) (a : Attempt) (e : Option String)
      → RetrySends retry
      → IsGood a.assigned
      → Invariant I (Sync.on_call retry a e)
  unfolding Sync.on_call
  on_call-kept retry a none h g = on_answer-kept retry a _ h g
  on_call-kept retry a (some m) h g = on_call_error-kept retry a m _ h g

  attempt_with-kept : (retry : Retry) → RetrySends retry → Sends (Sync.attempt_with retry)
  unfolding Sync.attempt_with
  attempt_with-kept retry h n us v g = Triple-bind _ _ _ (d.push n us v g) λ c.
      on_call-kept retry (record { node = n; assigned = us; version = v; answer = c }) c.error h g

  attempt-kept : Sends (Sync.sync_node_attempt true)
  unfolding Sync.sync_node_attempt
  attempt-kept = attempt_with-kept (some (Sync.attempt_with none)) (attempt_with-kept none tt)

  pub sync_node-kept : Invariant I (Sync.sync_node id)
  unfolding Sync.sync_node
  sync_node-kept = Triple-bind _ _ _ (d.calm _ λ R c. c.get_lem id) λ before.
      Triple-bind _ _ _ (d.calm _ λ R c. fetch-keeps c.steps before) λ _.
        Triple-bind _ _ _ (d.calm _ λ R c. c.get_lem id) λ n.
          Triple-bind _ _ _ (d.calm _ λ R c. c.bump_version_lem id)
            λ v. Triple-bind _ _ _ d.read λ us. Triple-given _ (attempt-kept n us v)
