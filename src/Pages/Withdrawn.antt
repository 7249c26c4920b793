-- ===== src/Pages/Withdrawn.antt =====
-- While a page withdraws a user (internal/http/handlers/handlers.go), no agent is sent the user.
use vetka_backend_panel.Prelude.{String, refl, List, [], ◌∷◌, arith, All, keep_if-passed}
use vetka_backend_panel.Prelude.Triples.{
  Post-any, Triple, Triple-bind, Triple-pure, Triple-weaken, Invariant-pure,
}
use vetka_backend_panel.Users.Models.{User, Access}
use vetka_backend_panel.Users.Updates
use vetka_backend_panel.Users.Updates.Revocation.{IsOff, by_user, by_access}
use vetka_backend_panel.Nodes.Models.{Node, SyncPayload}
use vetka_backend_panel.Nodes.Manager.Pushes.{deliveries}
use vetka_backend_panel.Handlers.AfterChange
use vetka_backend_panel.Handlers.Rules.{Triple-or_else}
use vetka_backend_panel.Handlers.Withheld.{Withheld, Off, Covers, user_node_ids-Off, sync_nodes-Off}
use vetka_backend_panel.Handlers.Withdrawal.{
  Fresh, UsersOff, NodeOff, All-anywhere, set_enabled-Off, unassign_node-Off,
}
use vetka_backend_panel.Pages
use vetka_backend_panel.Pages.{Library, PageReply, PageAction}
use vetka_backend_panel.Pages.UserPages
use vetka_backend_panel.World.{World}
use vetka_backend_panel.World.Statements.{Triple-statement}

module _ (library : Library) (locale id : String) (old : List (Node × SyncPayload)) where
  abbrev Ends : (World → Type 0) → PageAction → Type 0
  Ends P m = Triple P m (λ _. Withheld id old) (Withheld id old)

  Fresh-Ends : (e : String) → Ends (Fresh old) (Pages.handle_err locale e)
  unfolding Pages.handle_err
  Fresh-Ends e = Triple-pure _ λ w h. ([], h, tt)

  Off-Ends :
      (P : List User → List Access → Type 0) (e : String)
      → Ends (Off id old P) (Pages.handle_err locale e)
  unfolding Pages.handle_err
  Off-Ends P e = Triple-pure _ λ w h. h.1

  module _ (P : List User → List Access → Type 0) where
    sync_flash-Ends :
        (path failed done : String) (errors : List String)
        → Ends (Off id old P) (UserPages.sync_flash library locale path failed done errors)
    unfolding Pages.redirect_with_flash
    sync_flash-Ends path failed done [] = Triple-pure _ λ w h. h.1
    sync_flash-Ends path failed done (e ∷ errors) = Triple-pure _ λ w h. h.1

    sync_and_flash-Ends :
        (path failed done : String) (ids : List String)
        → All (Covers id old P) ids
        → Ends (Off id old P) (UserPages.sync_and_flash library locale path failed done ids)
    unfolding UserPages.sync_and_flash
    sync_and_flash-Ends path failed done ids h =
        Triple-bind _ _ _
          (Triple-weaken (λ _. Off id old P) (λ w k. k.1) _ (sync_nodes-Off id old P ids h))
          (sync_flash-Ends path failed done)

  users-Cover : (ids : List String) → All (Covers id old (UsersOff id old)) ids
  users-Cover ids = All-anywhere ids λ n v h. by_user id n v h

  disable-Ends : Ends (Fresh old) (UserPages.disable_user_page library locale id)
  unfolding UserPages.disable_user_page UserPages.set_user_enabled_page
  disable-Ends =
      Triple-or_else (λ _. Off id old (UsersOff id old)) (Fresh old) _ _ _ (set_enabled-Off id old)
        Fresh-Ends
        λ u.
          Triple-or_else (λ _. Off id old (UsersOff id old)) (Off id old (UsersOff id old)) _ _ _
            (user_node_ids-Off id old (UsersOff id old) id) (Off-Ends (UsersOff id old))
            λ ids.
              sync_and_flash-Ends (UsersOff id old) _ "user_disabled_sync_failed"
                "user_disabled_synced" ids (users-Cover ids)

  read-Fresh : Triple (Fresh old) (AfterChange.user_node_ids id) (λ _. Fresh old) (Fresh old)
  unfolding AfterChange.user_node_ids Updates.access_for_user
  read-Fresh =
      Triple-bind (λ _. Fresh old) _ _ (Triple-statement _ (λ w e ts h. h) _ λ w h. h)
        λ rows. Invariant-pure _

  delete-Off :
      Triple (Fresh old) (Updates.delete id) (λ _. Off id old (UsersOff id old)) (Fresh old)
  unfolding Updates.delete
  delete-Off =
      Triple-statement _ (λ w e ts h. h) _
        λ w h. (keep_if-passed (IsOff id) _ w.users (λ u e. ground (arith, e)), ([], h, tt))

  delete-Ends : Ends (Fresh old) (UserPages.delete_user_page library locale id)
  unfolding UserPages.delete_user_page
  delete-Ends =
      Triple-or_else (λ _. Fresh old) (Fresh old) _ _ _ read-Fresh Fresh-Ends
        λ ids.
          Triple-or_else (λ _. Off id old (UsersOff id old)) (Fresh old) _ _ _ delete-Off Fresh-Ends
            λ u.
              sync_and_flash-Ends (UsersOff id old) _ "user_deleted_sync_failed"
                "user_deleted_synced" ids (users-Cover ids)

  unassign-Ends :
      (node : String) → Ends (Fresh old) (UserPages.unassign_node_page library locale id node)
  unfolding UserPages.unassign_node_page
  unassign-Ends node =
      Triple-or_else (λ _. Off id old (NodeOff id old node)) (Fresh old) _ _ _
        (unassign_node-Off id old node) Fresh-Ends
        λ u.
          sync_and_flash-Ends (NodeOff id old node) _ "unassigned_sync_failed"
            "node_unassigned_synced" (node ∷ []) ((λ v h. by_access id node v h), tt)

-- Whatever statements fail and whatever agents answer: while a page disables a user, deletes it, or takes a
-- node from it, no push that is sent to any agent lists the user.
pub pages-Withheld :
    (library : Library) (locale id node : String) (w : World)
    → Withheld id (deliveries w.sent) (UserPages.disable_user_page library locale id w).1
      × Withheld id (deliveries w.sent) (UserPages.delete_user_page library locale id w).1
      × Withheld id (deliveries w.sent) (UserPages.unassign_node_page library locale id node w).1
pages-Withheld library locale id node w =
    let old = deliveries w.sent in
    (
      Post-any (Withheld id old) _ _ ((disable-Ends library locale id old).at w refl),
      Post-any (Withheld id old) _ _ ((delete-Ends library locale id old).at w refl),
      Post-any (Withheld id old) _ _ ((unassign-Ends library locale id old node).at w refl),
    )
