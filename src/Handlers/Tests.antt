-- ===== src/Handlers/Tests.antt =====
-- Runs of the handlers on small data.
use vetka_backend_panel.Prelude.{[], ◌∷◌, false}
use vetka_backend_panel.Prelude.Effects.{ok}
use vetka_backend_panel.Prelude.Triples.{Post}
use vetka_backend_panel.Nodes.Models.{reply}
use vetka_backend_panel.Nodes.Samples.{world, status_body, response_body, applied}
use vetka_backend_panel.Nodes.Manager.Pushes.{deliveries}
use vetka_backend_panel.Handlers.UsersApi.{
  AssignInput, api_disable_user, api_unassign_node, api_sync_user, api_reconcile_expired_users,
}
use vetka_backend_panel.Handlers.Withheld.{Withheld}
use vetka_backend_panel.Handlers.Withdrawal.{withdrawals-Withheld}
use vetka_backend_panel.Handlers.Completion.{Synced, api_sync_user-Synced}
use vetka_backend_panel.Handlers.Reconciled.{Marked, api_reconcile_expired_users-Marked}
use vetka_backend_panel.World.{World}

-- The agent of the node answers two requests.
abbrev reachable : World
reachable = world (reply 200 status_body ∷ reply 200 (response_body applied) ∷ []) []

abbrev from_berlin : AssignInput
from_berlin = record { node_id = "row-1"; protocol_username = ""; protocol_password = "" }

withdrawals-Withheld_example :
    Withheld "user-1" (deliveries reachable.sent) (api_disable_user "user-1" reachable).1
    × Withheld "user-1"
        (deliveries reachable.sent)
        (api_unassign_node "user-1" (ok from_berlin) reachable).1
withdrawals-Withheld_example = withdrawals-Withheld "user-1" (ok from_berlin) reachable

api_sync_user-Synced_example :
    Post (Synced reachable "user-1") (λ _. ⊥) (api_sync_user "user-1" reachable)
api_sync_user-Synced_example = api_sync_user-Synced "user-1" reachable

-- The user has expired, and its node is reachable.
abbrev expired : World
expired = record reachable { now = 600 }

api_reconcile_expired_users-Marked_example :
    (let v = (api_reconcile_expired_users (false, expired)).1.1 in
      Marked expired v expired.users v.users)
api_reconcile_expired_users-Marked_example = api_reconcile_expired_users-Marked expired tt
