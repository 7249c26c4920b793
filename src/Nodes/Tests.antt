-- ===== src/Nodes/Tests.antt =====
-- Runs of internal/nodes on the sample data.
use vetka_backend_panel.Prelude.{
  arith, true, false, ◌≡◌, refl, Option, String, none, some, List, [], ◌∷◌, map,
}
use vetka_backend_panel.Prelude.Int.{pos, greatest, add_one}
use vetka_backend_panel.Prelude.Effects.{err, ◌>>=◌}
use vetka_backend_panel.Prelude.{All, inl, inr}
use vetka_backend_panel.Prelude.Triples.{Post}
use vetka_backend_panel.Nodes.Dashboard.{dashboard_stats}
use vetka_backend_panel.Nodes.Dashboard.Shares.{AddsUp, Checked, dashboard_stats-AddsUp}
use vetka_backend_panel.Nodes.Models.{malformed, reply, no_reply}
use vetka_backend_panel.Nodes.Repository.{scan_node, find_node}
use vetka_backend_panel.Nodes.Updates.{synced, set_row, touch, bumped}
use vetka_backend_panel.Nodes.Sync.{sync_node_attempt}
use vetka_backend_panel.Nodes.Manager.Progress.{Progress}
use vetka_backend_panel.Nodes.Manager.Pushes.{InOrder}
use vetka_backend_panel.Nodes.Manager.Operations.{
  Operation, creates, syncs, syncs_all, fetches, after_all, after_all-Progress, after_all-InOrder,
}
use vetka_backend_panel.Nodes.Manager.Outcomes.{pushed, answered}
use vetka_backend_panel.Nodes.Manager.Answers.{sync_node_attempt-malformed}
use vetka_backend_panel.Nodes.Manager.Recorded.{settled}
use vetka_backend_panel.Nodes.Manager.Settled.{sync_node_attempt-settled}
use vetka_backend_panel.Nodes.Manager.Retries.{told_stale, stale_left, sync_node_attempt-stale}
use vetka_backend_panel.Nodes.Samples.{
  berlin, world, applied, refused, stale, response_body, status_body, new_node,
}
use vetka_backend_panel.World.{World, refuse_if}

-- A synchronisation that is refused as stale and retried, with a failing statement in a later one.
abbrev start : World
start =
    world
      (reply 200 status_body
        ∷ reply 409 (response_body stale)
        ∷ reply 200 (response_body applied)
        ∷ reply 200 status_body
        ∷ no_reply "timeout"
        ∷ [])
      (record { fault = none; elapsed = 3 } ∷ record { fault = none; elapsed = 1 } ∷ [])

abbrev operations : List Operation
operations = creates new_node ∷ syncs "row-1" ∷ fetches "row-1" ∷ syncs_all ∷ []

after_all-Progress_example : Progress start (after_all operations start)
after_all-Progress_example = after_all-Progress operations start

after_all-InOrder_example : InOrder (after_all operations start)
after_all-InOrder_example =
    after_all-InOrder operations start (record { ascends = tt; covered = tt })

abbrev accepting : World
accepting = world (reply 200 (response_body applied) ∷ []) []

abbrev silent : World
silent = world (no_reply "timeout" ∷ []) []

abbrev refusing : World
refusing = world (reply 200 (response_body refused) ∷ []) []

sync_node_attempt-settled_example :
    sync_node_attempt true berlin [] (pos 5) refusing
    ≡ settled berlin [] (pos 5) refusing (reply 200 (response_body refused))
unfolding find_node
sync_node_attempt-settled_example =
    sync_node_attempt-settled true berlin [] (pos 5) refusing refl refl refl

-- What is left of a push that is taken, and of one without an answer.
row_after_taken :
    (let w = (sync_node_attempt true berlin [] (pos 5) accepting).1 in
      map {B = Option String × Option String × String}
        (λ n. (n.last_status, n.last_error, n.setup_state))
        w.nodes)
    ≡ (some "ok", none, "connected") ∷ []
unfolding sync_node_attempt find_node set_row touch synced ◌>>=◌ refuse_if
row_after_taken = refl

row_after_silence :
    (let w = (sync_node_attempt true berlin [] (pos 5) silent).1 in
      map {B = Option String × Option String × String}
        (λ n. (n.last_status, n.last_error, n.setup_state))
        w.nodes)
    ≡ (some "http_error", some "timeout", "unreachable") ∷ []
unfolding sync_node_attempt find_node set_row touch ◌>>=◌ refuse_if
row_after_silence = refl

abbrev garbled : World
garbled = world (reply 502 (malformed "Bad Gateway" "invalid character 'B'") ∷ []) []

sync_node_attempt-malformed_example :
    sync_node_attempt true berlin [] (pos 5) garbled
    ≡ (err "invalid input syntax for type json", pushed berlin [] (pos 5) garbled)
sync_node_attempt-malformed_example =
    sync_node_attempt-malformed true berlin [] (pos 5) garbled refl 502 "Bad Gateway"
      "invalid character 'B'" refl

abbrev outdated : World
outdated = world (reply 200 (response_body stale) ∷ reply 200 (response_body applied) ∷ []) []

sync_node_attempt-stale_example :
    sync_node_attempt true berlin [] (pos 5) outdated
    ≡ sync_node_attempt false (scan_node (touch 100 (told_stale stale 100 berlin))) [] (pos 10) (
        set_row "row-1" bumped (
          stale_left
            (answered berlin [] (pos 5) none 200 (some (response_body stale)))
            stale
            (pushed berlin [] (pos 5) outdated)))
unfolding find_node greatest add_one
sync_node_attempt-stale_example =
    sync_node_attempt-stale berlin [] (pos 5) outdated berlin 200 "{}" stale (err "not a status")
      refl refl refl (omega arith) (omega arith) refl refl refl

dashboard_stats-AddsUp_example :
    Post AddsUp (λ v. All Checked v.nodes) (dashboard_stats 0 (world [] []))
dashboard_stats-AddsUp_example =
    dashboard_stats-AddsUp 0 (world [] []) ((inr (inl refl), inr refl), tt)
