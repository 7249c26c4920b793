-- ===== src/Handlers/Completion.antt =====
-- What the answer to a request for synchronisation (internal/http/handlers/handlers.go) says of the nodes.
use mathlib.Core.List
use vetka_backend_panel.Prelude.{
  String, true, ◌≡◌, refl, ◌∙◌, List, [], ◌∷◌, ◌==◌, All, All-of_keep_if, All-of_sort_stable,
}
use vetka_backend_panel.Prelude.Effects.{
  Result, ok, err, Within, Within-bind, Within-pure, Within-attempt,
}
use vetka_backend_panel.Prelude.Triples.{
  Post, Triple, Triple-bind, Triple-pure, Triple-imply, Triple-given, Triple-weaken, Triple-attempt,
  Triple-frame,
}
use vetka_backend_panel.Users.Models.{Access}
use vetka_backend_panel.Users.Updates
use vetka_backend_panel.Nodes.Models.{SyncEvent, AgentResponse}
use vetka_backend_panel.Nodes.Sync
use vetka_backend_panel.Nodes.Manager.Closed.{sync_node-keeps}
use vetka_backend_panel.Nodes.Manager.Progress.{Progress, progress, closed_Progress, push-Progress}
use vetka_backend_panel.Nodes.Manager.Accepted.{
  Grown, Grown-later, Accepted, Accepted-later, sync_node-Accepted,
}
use vetka_backend_panel.Handlers.{Response, ok_body, json, write_json_or_error}
use vetka_backend_panel.Handlers.AfterChange
use vetka_backend_panel.Handlers.UsersApi
use vetka_backend_panel.Handlers.Rules.{Triple-or_else}
use vetka_backend_panel.World.{World}
use vetka_backend_panel.World.Statements.{Triple-statement}

both_empty : (xs ys : List String) → List.◌++◌ xs ys ≡ [] → (xs ≡ []) × (ys ≡ [])
both_empty [] ys h = (refl, h)
both_empty (x ∷ xs) ys h = cc

module _ (old : List SyncEvent) (access : List Access) where
  -- The log has been added to, and the access rows are as they were.
  abbrev Since : World → Type 0
  Since v = Grown old v × (v.access ≡ access)

  Since-later : (v w : World) → Progress v w → Since v → Since w
  Since-later v w p h = (Grown-later old v w p h.0, p.access ∙ h.1)

  sync_node-Progress : (id : String) → Within Progress (Sync.sync_node id)
  sync_node-Progress id = sync_node-keeps closed_Progress.steps push-Progress id

  sync_listed-Progress : (id : String) → Within Progress (AfterChange.sync_listed id)
  unfolding AfterChange.sync_listed
  sync_listed-Progress id =
      Within-bind progress.order _ _ (Within-attempt _ (sync_node-Progress id))
        λ r. Within-pure progress.order _

  -- An empty list of errors stands for an accepted push.
  abbrev Told : String → List String → World → Type 0
  Told id es v = es ≡ [] → Accepted old id v

  sync_error-Told :
      (id : String) (r : Result AgentResponse) (v : World)
      → Post (λ _. Accepted old id) (Grown old) (r, v)
      → Told id (AfterChange.sync_error id r) v
  sync_error-Told id (ok a) v h e = h
  sync_error-Told id (err m) v h e = cc

  sync_listed-Told :
      (id : String)
      → Triple Since (AfterChange.sync_listed id) (λ es v. Since v × Told id es v) (λ _. ⊥)
  unfolding AfterChange.sync_listed
  sync_listed-Told id =
      Triple-bind (λ r v. Since v × Post (λ _. Accepted old id) (Grown old) (r, v)) _ _
        (record {
          at = λ w h.
              (Triple-frame Since _ (Within-attempt _ (sync_node-Progress id)) Since-later
                  (Triple-attempt _ (sync_node-Accepted old id))).at
                w (h, h.0);
        })
        λ r. Triple-pure _ λ v h. (h.0, sync_error-Told id r v h.1)

  abbrev AllTold : List Access → List String → World → Type 0
  AllTold rows es v = es ≡ [] → All (λ a. Accepted old a.node_id v) rows

  Told-later :
      (id : String) (es : List String) (v w : World) → Progress v w → Told id es v → Told id es w
  Told-later id es v w p h e = Accepted-later old id v w p (h e)

  sync_assigned-Progress : (rows : List Access) → Within Progress (AfterChange.sync_assigned rows)
  unfolding AfterChange.sync_assigned
  sync_assigned-Progress [] = Within-pure progress.order _
  sync_assigned-Progress (a ∷ rows) =
      Within-bind progress.order _ _ (sync_listed-Progress a.node_id) λ es.
        Within-bind progress.order _ _ (sync_assigned-Progress rows)
          λ later. Within-pure progress.order _

  sync_assigned-AllTold :
      (rows : List Access)
      → Triple Since (AfterChange.sync_assigned rows) (λ es v. Since v × AllTold rows es v) (λ _. ⊥)
  unfolding AfterChange.sync_assigned
  sync_assigned-AllTold [] = Triple-pure _ λ v h. (h, λ e. tt)
  sync_assigned-AllTold (a ∷ rows) = Triple-bind _ _ _ (sync_listed-Told a.node_id) λ es.
      Triple-bind (λ later v. Told a.node_id es v × (Since v × AllTold rows later v)) _ _
        (record {
          at = λ w h.
              (Triple-frame (Told a.node_id es) _ (sync_assigned-Progress rows)
                  (Told-later a.node_id es) (sync_assigned-AllTold rows)).at
                w (h.1, h.0);
        })
        λ later.
          Triple-pure _ λ v h. (h.1.0, λ e. let (p, q) = both_empty es later e in (h.0 p, h.1.1 q))

module _ (w : World) (id : String) where
  abbrev Start : World → Type 0
  Start v = Since w.events w.access v

  -- Every node of the user has accepted a push since.
  abbrev pub AllSynced : World → Type 0
  AllSynced v = All (λ a. (a.user_id == id) ≡ true → Accepted w.events a.node_id v) w.access

  -- The rows that are read are those of the user.
  abbrev Reads : List Access → Type 0
  Reads rows = (v : World) → All (λ a. Accepted w.events a.node_id v) rows → AllSynced v

  access_for_user-Reads :
      Triple Start (Updates.access_for_user id) (λ rows v. Reads rows × Start v) Start
  unfolding Updates.access_for_user
  access_for_user-Reads =
      Triple-statement _ (λ v e ts h. h) _
        λ v h. (
          (λ u k. rw (← h.1) (
              All-of_keep_if (λ a. Accepted w.events a.node_id u) _ v.access
                (All-of_sort_stable (λ a. Accepted w.events a.node_id u) _ _ k))),
          h,
        )

  abbrev Answers : List String → World → Type 0
  Answers es v = es ≡ [] → AllSynced v

  assigned-Answers :
      (rows : List Access)
      → Reads rows
      → Triple Start (AfterChange.sync_assigned rows) Answers (λ _. ⊥)
  assigned-Answers rows reads =
      Triple-imply (λ _. ⊥) (λ es v h e. reads v (h.1 e)) _
        (sync_assigned-AllTold w.events w.access rows)

  user_assignments-Answers : Triple Start (AfterChange.sync_user_assignments id) Answers Start
  unfolding AfterChange.sync_user_assignments
  user_assignments-Answers =
      Triple-bind (λ rows v. Reads rows × Start v) _ _ access_for_user-Reads
        λ rows.
          Triple-given _
            λ reads. Triple-weaken Answers (λ v k. absurd k) _ (assigned-Answers rows reads)

  -- What the answer of a request for synchronisation stands for.
  abbrev pub Synced : Response → World → Type 0
  Synced r v = r ≡ json 200 ok_body → AllSynced v

  answer-Synced : (es : List String) (v : World) → Answers es v → Synced (UsersApi.answer_sync es) v
  answer-Synced [] v h e = h refl
  answer-Synced (m ∷ es) v h e = cc

-- Whatever statements fail and whatever agents answer: the API always answers a request to synchronise
-- a user, and where it answers that it succeeded, the log of sync events has since got, for each node that
-- the user had access to, a push that the agent answered with a 2xx code and a response with `ok`.
pub api_sync_user-Synced :
    (id : String) (w : World) → Post (Synced w id) (λ _. ⊥) (UsersApi.api_sync_user id w)
unfolding UsersApi.api_sync_user write_json_or_error
api_sync_user-Synced id w =
    (Triple-or_else (Answers w id) (Start w id) _ _ _ (user_assignments-Answers w id)
        (λ e. Triple-pure _ λ v h q. cc) λ es. Triple-pure _ (answer-Synced w id es)).at
      w (([], refl), refl)
