-- ===== src/Nodes/Manager/Order.antt =====
-- Each push to a node carries a higher version than every push to it before.
use vetka_backend_panel.Prelude.{
  ℕ, ◌+◌, String, ◌≡◌, refl, Bool, true, false, not, Option, none, some, List, [], ◌∷◌, arith, ◌==◌,
  All,
}
use vetka_backend_panel.Prelude.Int.{ℤ, add_one, lt-add_one}
use vetka_backend_panel.Prelude.Effects.{Result, ok, err, Action, Within, ◌>>=◌}
use vetka_backend_panel.Prelude.Triples.{
  Post, Triple, Triple-bind, Triple-given, Triple-weaken, Invariant, Invariant-of_after,
  Invariant-if, Invariant-attempt, Invariant-pure, Invariant-raise,
}
use vetka_backend_panel.Users.Models.{AccessWithUser}
use vetka_backend_panel.Users.Repository.{active_access_for_node}
use vetka_backend_panel.Nodes.Models.{Node, SyncPayload, AgentResponse}
use vetka_backend_panel.Nodes.Client
use vetka_backend_panel.Nodes.Repository
use vetka_backend_panel.Nodes.Repository.{find_node}
use vetka_backend_panel.Nodes.Rows.{find_node-id, find_node-update}
use vetka_backend_panel.Nodes.Updates
use vetka_backend_panel.Nodes.Status
use vetka_backend_panel.Nodes.Sync
use vetka_backend_panel.Nodes.Sync.{Attempt, Retry}
use vetka_backend_panel.Nodes.Manager.Closed.{
  Closed, log_failure-keeps, decode_failed-keeps, http_failed-keeps, apply_failed-keeps,
  on_success-keeps, fetch-keeps,
}
use vetka_backend_panel.Nodes.Updates.{touch, bumped}
use vetka_backend_panel.Nodes.Manager.Progress.{
  Progress, Progress-clock, closed_Progress, write_bump-Progress,
}
use vetka_backend_panel.Nodes.Manager.Silence.{closed_Silent}
use vetka_backend_panel.Nodes.Manager.Pushes.{
  Push, pushes, Precedes, AtMostRow, Covered, InOrder, IsReady, Silent, InOrder-mono, IsReady-mono,
}
use vetka_backend_panel.World.{World, Tick}
use vetka_backend_panel.World.Statements.{refuse_if-Post, Triple-statement}

-- What is built from statements and from requests other than a push keeps the order.
pub calmly :
    {A : Type 0} (m : Action World A)
    → ((R : World → World → Type 0) → Closed R → Within R m)
    → Invariant InOrder m
calmly m keeps = Invariant-of_after m λ w h.
    InOrder-mono w (m w).1 ((keeps Progress closed_Progress).at w)
      ((keeps Silent closed_Silent).at w) h

-- The pushes so far to a row are below the successor of its desired version.
fresh_above :
    (nodes : List Node) (id : String) (n : Node) (ps : List Push)
    → find_node id nodes ≡ some n
    → All (Covered nodes) ps
    → All (Precedes id (add_one n.desired_config_version)) ps
fresh_above nodes id n [] e h = tt
fresh_above nodes id n ((key, v) ∷ ps) e h = (below, fresh_above nodes id n ps e h.1)
  where
    below : Precedes id (add_one n.desired_config_version) (key, v)
    below same =
        let row : AtMostRow v (some n) = rw (same, e) at (h.0) in
        omega (arith, lt-add_one n.desired_config_version, row)

InOrder-clock :
    (w : World) (elapsed : ℕ) (ticks : List Tick)
    → InOrder w
    → InOrder (record w { now = w.now + elapsed; schedule = ticks })
InOrder-clock w elapsed ticks = InOrder-mono w _ (Progress-clock w elapsed ticks) refl

write_bump-IsReady :
    (id : String) (n : Node) (w : World)
    → find_node id w.nodes ≡ some n
    → InOrder w
    → IsReady id (add_one n.desired_config_version) (Updates.write_bump id n w).1
unfolding Updates.write_bump
write_bump-IsReady id n w e h = record {
  order = InOrder-mono w _ (write_bump-Progress id n w) refl h;
  row =
      rw (find_node-update id (λ m. touch w.now (bumped m)) w.nodes n (λ m. refl) e) (omega arith);
  fresh = fresh_above w.nodes id n (pushes w.sent) e h.covered;
}

bump_row-IsReady :
    (id : String) (w : World) (o : Option Node)
    → find_node id w.nodes ≡ o
    → InOrder w
    → Post (IsReady id) InOrder (Updates.bump_row id w o)
unfolding Updates.bump_row
bump_row-IsReady id w none e h = h
bump_row-IsReady id w (some n) e h =
    refuse_if-Post (IsReady id) InOrder _ _ _ w h (write_bump-IsReady id n w e h)

-- A new version is above every version pushed before.
bump_version-IsReady : (id : String) → Triple InOrder (Updates.bump_version id) (IsReady id) InOrder
unfolding Updates.bump_version
bump_version-IsReady id =
    Triple-statement (IsReady id) InOrder-clock _
      λ w h. bump_row-IsReady id w (find_node id w.nodes) refl h

-- After the push the order holds again.
sync-InOrder :
    (n : Node) (p : SyncPayload)
    → Triple (IsReady n.id p.config_version) (Client.sync n p) (λ _. InOrder) InOrder
unfolding Client.sync Client.call ◌>>=◌
sync-InOrder n p = record {
  at = λ w h. record { ascends = (h.fresh, h.order.ascends); covered = (h.row, h.order.covered) };
}

one_row-id :
    (id : String) (w : World) (o : Option Node)
    → find_node id w.nodes ≡ o
    → InOrder w
    → Post (λ n v. (n.id ≡ id) × InOrder v) InOrder (Repository.one_row o, w)
unfolding Repository.scan_node
one_row-id id w none e h = h
one_row-id id w (some n) e h = (find_node-id id w.nodes n e, h)

-- The row that is read has the key that was asked for.
get-id : (id : String) → Triple InOrder (Repository.get id) (λ n w. (n.id ≡ id) × InOrder w) InOrder
unfolding Repository.get
get-id id =
    Triple-statement (λ n w. (n.id ≡ id) × InOrder w) InOrder-clock _
      λ w h. one_row-id id w (find_node id w.nodes) refl h

-- An attempt, from a version that may be pushed on.
abbrev Pushes : (Node → List AccessWithUser → ℤ → Action World AgentResponse) → Type 0
Pushes m =
    (n : Node) (us : List AccessWithUser) (v : ℤ)
    → Triple (IsReady n.id v) (m n us v) (λ _. InOrder) InOrder

module _ (again : Node → List AccessWithUser → ℤ → Action World AgentResponse)
    (again_pushes : Pushes again) where
  bump_and_push :
      (id : String) (us : List AccessWithUser) (n : Node)
      → n.id ≡ id
      → Invariant InOrder (Updates.bump_version id >>= again n us)
  bump_and_push id us n e =
      Triple-bind (IsReady id) _ _ (bump_version-IsReady id) (rw (← e) (again_pushes n us))

  retry-InOrder :
      (a : Attempt) (r : AgentResponse)
      → Invariant InOrder (Sync.retry_from_agent_response again a r)
  unfolding Sync.retry_from_agent_response
  retry-InOrder a r = Triple-bind _ _ _ (calmly _ λ R c. log_failure-keeps c.steps a _ _ _) λ _.
      Triple-bind _ _ _
        (calmly _ λ R c.
          c.sync_remote_state_lem a.node.id r.current_version
            (Status.remote_applied_version_from_response r) none)
        λ _.
          Triple-bind _ _ _ (get-id a.node.id)
            λ n. Triple-given _ (bump_and_push a.node.id a.assigned n)

-- The retry, if there is one, pushes in order.
abbrev RetryPushes : Retry → Type 0
RetryPushes none = Unit
RetryPushes (some again) = Pushes again

http_failed-InOrder : (a : Attempt) (m : String) → Invariant InOrder (Sync.http_failed a m)
http_failed-InOrder a m = calmly _ λ R c. http_failed-keeps c.steps a m

apply_failed-InOrder : (a : Attempt) (r : AgentResponse) → Invariant InOrder (Sync.apply_failed a r)
apply_failed-InOrder a r = calmly _ λ R c. apply_failed-keeps c.steps a r

on_call_error-InOrder :
    (retry : Retry) (a : Attempt) (m : String) (d : Result AgentResponse)
    → RetryPushes retry
    → Invariant InOrder (Sync.on_call_error retry a m d)
unfolding Sync.on_call_error
on_call_error-InOrder none a m d h = http_failed-InOrder a m
on_call_error-InOrder (some again) a m (err e) h = http_failed-InOrder a m
on_call_error-InOrder (some again) a m (ok r) h =
    Invariant-if (r.status == "stale_version") _ _ (retry-InOrder again h a r)
      (http_failed-InOrder a m)

on_refusal-InOrder :
    (retry : Retry) (a : Attempt) (r : AgentResponse)
    → RetryPushes retry
    → Invariant InOrder (Sync.on_refusal retry a r)
unfolding Sync.on_refusal
on_refusal-InOrder none a r h = apply_failed-InOrder a r
on_refusal-InOrder (some again) a r h =
    Invariant-if (r.status == "stale_version") _ _ (retry-InOrder again h a r)
      (apply_failed-InOrder a r)

on_answer-InOrder :
    (retry : Retry) (a : Attempt) (d : Result AgentResponse)
    → RetryPushes retry
    → Invariant InOrder (Sync.on_answer retry a d)
unfolding Sync.on_answer
on_answer-InOrder retry a (err e) h = calmly _ λ R c. decode_failed-keeps c.steps a e
on_answer-InOrder retry a (ok r) h =
    Invariant-if r.ok _ _ (calmly _ λ R c. on_success-keeps c.steps a r)
      (on_refusal-InOrder retry a r h)

on_call-InOrder :
    (retry : Retry) (a : Attempt) (e : Option String)
    → RetryPushes retry
    → Invariant InOrder (Sync.on_call retry a e)
unfolding Sync.on_call
on_call-InOrder retry a none h = on_answer-InOrder retry a _ h
on_call-InOrder retry a (some m) h = on_call_error-InOrder retry a m _ h

attempt_with-InOrder : (retry : Retry) → RetryPushes retry → Pushes (Sync.attempt_with retry)
unfolding Sync.attempt_with
attempt_with-InOrder retry h n us v =
    Triple-bind _ _ _ (sync-InOrder n (Sync.sync_payload n us v)) λ c.
      on_call-InOrder retry (record { node = n; assigned = us; version = v; answer = c }) c.error h

sync_node_attempt-InOrder : (b : Bool) → Pushes (Sync.sync_node_attempt b)
unfolding Sync.sync_node_attempt
sync_node_attempt-InOrder false = attempt_with-InOrder none tt
sync_node_attempt-InOrder true =
    attempt_with-InOrder (some (Sync.attempt_with none)) (attempt_with-InOrder none tt)

active_access-IsReady :
    (id : String) (v : ℤ)
    → Triple (IsReady id v) (active_access_for_node id) (λ _. IsReady id v) InOrder
active_access-IsReady id v =
    Triple-weaken (λ _. IsReady id v) (λ w h. h.order) _
      (Invariant-of_after _ λ w h.
        IsReady-mono id v w _ ((closed_Progress.active_access_lem id).at w)
          ((closed_Silent.active_access_lem id).at w) h)

push_node :
    (id : String) (n : Node)
    → n.id ≡ id
    → Invariant InOrder (do
      v ← Updates.bump_version id
      us ← active_access_for_node id
      Sync.sync_node_attempt true n us v)
push_node id n e = Triple-bind (IsReady id) _ _ (bump_version-IsReady id) λ v.
    Triple-bind (λ _. IsReady id v) _ _ (active_access-IsReady id v)
      λ us. rw (← e) (sync_node_attempt-InOrder true n us v)

pub sync_node-InOrder : (id : String) → Invariant InOrder (Sync.sync_node id)
unfolding Sync.sync_node
sync_node-InOrder id = Triple-bind _ _ _ (calmly _ λ R c. c.get_lem id) λ before.
    Triple-bind _ _ _ (calmly _ λ R c. fetch-keeps c.steps before)
      λ _. Triple-bind _ _ _ (get-id id) λ n. Triple-given _ (push_node id n)

sync_one-InOrder :
    (n : Node) (others : Action World (List String))
    → Invariant InOrder others
    → Invariant InOrder (Sync.sync_one n others)
unfolding Sync.sync_one
sync_one-InOrder n others h =
    Triple-bind _ _ _ (Invariant-attempt _ (sync_node-InOrder n.id))
      λ r. Triple-bind _ _ _ h λ es. Invariant-pure _

sync_each-InOrder : (ns : List Node) → Invariant InOrder (Sync.sync_each ns)
unfolding Sync.sync_each
sync_each-InOrder [] = Invariant-pure _
sync_each-InOrder (n ∷ ns) =
    Invariant-if (not n.enabled) _ _ (sync_each-InOrder ns)
      (sync_one-InOrder n _ (sync_each-InOrder ns))

report-InOrder : (es : List String) → Invariant InOrder (Sync.report es)
report-InOrder [] = Invariant-pure _
report-InOrder (e ∷ es) = Invariant-raise _

pub sync_all_nodes-InOrder : Invariant InOrder Sync.sync_all_nodes
unfolding Sync.sync_all_nodes
sync_all_nodes-InOrder =
    Triple-bind _ _ _ (calmly _ λ R c. c.list_lem)
      λ ns. Triple-bind _ _ _ (sync_each-InOrder ns) report-InOrder
