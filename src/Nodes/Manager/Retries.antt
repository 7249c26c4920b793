-- ===== src/Nodes/Manager/Retries.antt =====
-- What a synchronisation attempt does after the answer "stale_version": internal/nodes/manager.go.
use vetka_backend_panel.Prelude.{
  ℕ, ◌≤◌, String, true, false, ◌≡◌, refl, ◌∙◌, ap, none, some, is_some, List, [], ◌==◌,
}
use vetka_backend_panel.Prelude.Int.{ℤ, greatest, add_one, eq_ℤ}
use vetka_backend_panel.Prelude.Effects.{Result, ok, Action}
use vetka_backend_panel.Users.Models.{AccessWithUser}
use vetka_backend_panel.Nodes.Models.{
  Node, AgentResponse, AgentStatusResponse, json, reply, decode_response,
}
use vetka_backend_panel.Nodes.Repository
use vetka_backend_panel.Nodes.Repository.{find_node, scan_node}
use vetka_backend_panel.Nodes.Rows.{find_node-update}
use vetka_backend_panel.Nodes.Updates
use vetka_backend_panel.Nodes.Updates.{set_row, touch}
use vetka_backend_panel.Nodes.Status
use vetka_backend_panel.Nodes.Sync
use vetka_backend_panel.Nodes.Sync.{Attempt}
use vetka_backend_panel.Nodes.Manager.Outcomes.{
  logged, pushed, answered, attempt_with-answered, log_failure-calm, exec_row-calm,
}
use vetka_backend_panel.World.{World, next_exchange}
use vetka_backend_panel.World.Calm.{bind-ok, statement-calm, refuse_if-false, if-true, if-false}

-- Reading and counting up a row that is there.
module _ (w : World) (calm : w.schedule ≡ []) (id : String) (row : Node)
    (found : find_node id w.nodes ≡ some row) where
  get-calm : Repository.get id w ≡ (ok (scan_node row), w)
  unfolding Repository.get
  get-calm = statement-calm _ w calm ∙ ap (λ o. (Repository.one_row o, w)) found

  bump_version-calm :
      eq_ℤ row.desired_config_version Updates.max_int64 ≡ false
      → Updates.bump_version id w
        ≡ (ok (add_one row.desired_config_version), set_row id Updates.bumped w)
  unfolding Updates.bump_version Updates.bump_row Updates.write_bump
  bump_version-calm below =
      statement-calm _ w calm ∙ ap (Updates.bump_row id w) found ∙ refuse_if-false _ _ _ w below

  set_row-found :
      (f : Node → Node)
      → ((m : Node) → (f m).id ≡ m.id)
      → find_node id (set_row id f w).nodes ≡ some (touch w.now (f row))
  unfolding set_row touch
  set_row-found f k = find_node-update id (λ m. touch w.now (f m)) w.nodes row k found

-- The change of the row that the answer "stale_version" makes: the failure, then the agent's versions.
abbrev pub told_stale : AgentResponse → ℕ → Node → Node
told_stale r now m =
    Updates.remote_state r.current_version (Status.remote_applied_version_from_response r) none now
      (touch now (Updates.failed "stale_version" (Status.agent_response_error r) now m))

-- The state after both writes, and the event.
abbrev pub stale_left : Attempt → AgentResponse → World → World
stale_left a r w =
    set_row a.node.id
      (Updates.remote_state r.current_version (Status.remote_applied_version_from_response r) none
        w.now)
      (set_row a.node.id (Updates.failed "stale_version" (Status.agent_response_error r) w.now) (
        logged (Sync.event_of a "stale_version" (Status.str_ptr (Status.agent_response_error r)))
          w))

module _ (w : World) (calm : w.schedule ≡ []) (a : Attempt) (row : Node)
    (found : find_node a.node.id w.nodes ≡ some row)
    (valid : Updates.is_jsonb a.answer.result.body ≡ true) (r : AgentResponse) where
  stale_left-found :
      find_node a.node.id (stale_left a r w).nodes ≡ some (touch w.now (told_stale r w.now row))
  unfolding Updates.remote_state Updates.failed set_row touch
  stale_left-found =
      set_row-found
        (set_row a.node.id (Updates.failed "stale_version" (Status.agent_response_error r) w.now) (
          logged (Sync.event_of a "stale_version" (Status.str_ptr (Status.agent_response_error r)))
            w))
        calm a.node.id _
        (set_row-found
          (logged (Sync.event_of a "stale_version" (Status.str_ptr (Status.agent_response_error r)))
            w)
          calm a.node.id row found
          (Updates.failed "stale_version" (Status.agent_response_error r) w.now) (λ m. refl))
        (Updates.remote_state r.current_version (Status.remote_applied_version_from_response r) none
          w.now)
        (λ m. refl)

  retry-calm :
      (again : Node → List AccessWithUser → ℤ → Action World AgentResponse)
      → eq_ℤ (greatest row.desired_config_version r.current_version) Updates.max_int64 ≡ false
      → Sync.retry_from_agent_response again a r w
        ≡ again
            (scan_node (touch w.now (told_stale r w.now row)))
            a.assigned
            (add_one (greatest row.desired_config_version r.current_version))
            (set_row a.node.id Updates.bumped (stale_left a r w))
  unfolding Sync.retry_from_agent_response Updates.sync_remote_state Updates.remote_state touch
      set_row
  retry-calm again below =
      bind-ok _ _ w _ tt (
        log_failure-calm w calm a (ap is_some found) valid "stale_version"
          (Status.agent_response_error r) (Status.str_ptr (Status.agent_response_error r)))
      ∙ bind-ok _ _ _ _ tt (
          exec_row-calm
            (set_row a.node.id
              (Updates.failed "stale_version" (Status.agent_response_error r) w.now)
              (logged
                (Sync.event_of a "stale_version" (Status.str_ptr (Status.agent_response_error r)))
                w))
            calm a.node.id
            (λ v.
              Updates.remote_state r.current_version (Status.remote_applied_version_from_response r)
                none v.now))
      ∙ bind-ok _ _ _ _ _ (
          get-calm (stale_left a r w) calm a.node.id (touch w.now (told_stale r w.now row))
            stale_left-found)
      ∙ bind-ok _ _ _ _ _ (
          bump_version-calm (stale_left a r w) calm a.node.id (touch w.now (told_stale r w.now row))
            stale_left-found below)

-- While no statement fails and the row of the node is there, if the agent answers an attempt that may
-- retry with a 2xx code and a refusal with status "stale_version", and the greater of the desired version
-- of the row and the current version of the agent is not the greatest 64-bit integer, then the attempt is
-- the attempt without retry of the row, for the same users, with a version one above that greater
-- version, from the state in which the event and both versions of the agent are recorded.
pub sync_node_attempt-stale :
    (n : Node) (us : List AccessWithUser) (v : ℤ) (w : World) (row : Node) (code : ℕ) (s : String)
    (r : AgentResponse) (t : Result AgentStatusResponse)
    → w.schedule ≡ []
    → find_node n.id w.nodes ≡ some row
    → next_exchange w.network ≡ reply code (json s (ok r) t)
    → 200 ≤ code
    → code ≤ 299
    → r.ok ≡ false
    → (r.status == "stale_version") ≡ true
    → eq_ℤ (greatest row.desired_config_version r.current_version) Updates.max_int64 ≡ false
    → Sync.sync_node_attempt true n us v w
      ≡ Sync.sync_node_attempt false
          (scan_node (touch w.now (told_stale r w.now row)))
          us
          (add_one (greatest row.desired_config_version r.current_version))
          (set_row n.id Updates.bumped
            (stale_left (answered n us v none code (some (json s (ok r) t))) r (pushed n us v w)))
unfolding Sync.sync_node_attempt Sync.on_answer Sync.on_refusal decode_response
sync_node_attempt-stale n us v w row code s r t calm found answer low high refuses stale below =
    attempt_with-answered (some (Sync.attempt_with none)) n us v w code (json s (ok r) t) answer low
      high
    ∙ if-false r.ok _ _ _ refuses
    ∙ if-true (r.status == "stale_version") _ _ _ stale
    ∙ retry-calm (pushed n us v w) calm (answered n us v none code (some (json s (ok r) t))) row
        found refl r (Sync.attempt_with none) below
