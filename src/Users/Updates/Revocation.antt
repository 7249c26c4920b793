-- ===== src/Users/Updates/Revocation.antt =====
-- What internal/users/repository.go withdraws is no longer among the users sent to a node.
use vetka_backend_panel.Prelude.{
  ℕ, String, Bool, true, false, ◌&&◌, ◌≡◌, refl, sym, ap, ◌∙◌, Option, none, some, List, [], ◌∷◌,
  ◌==◌, arith, eq_iff, All, All-append, if◌then◌else◌, sort_stable-All, keep_if-All, keep_if-passed,
}
use vetka_backend_panel.Prelude.Triples.{Post}
use vetka_backend_panel.Users.Models.{User, Access, AccessWithUser}
use vetka_backend_panel.Users.Repository
use vetka_backend_panel.Users.Repository.{find_user, update_user, join_users, join_user}
use vetka_backend_panel.Users.Updates
use vetka_backend_panel.World.{World}
use vetka_backend_panel.World.Statements.{Triple-statement}

-- No row is of the user and enabled with it.
abbrev Off : String → List AccessWithUser → Type 0
Off id rows = All (λ r. (r.access.user_id == id && r.user_enabled) ≡ false) rows

module _ (id : String) where
  abbrev pub IsOff : User → Type 0
  IsOff u = (u.id == id && u.enabled) ≡ false

  join_user-Off :
      (b : Bool) (u : User) (a : Access) (o : Option User)
      → (u.id == a.user_id) ≡ b
      → IsOff u
      → Off id (join_user a o)
      → Off id (join_user a (if b then some u else o))
  join_user-Off true u a o e h k =
      (ap (λ x. x == id && u.enabled) (sym ((eq_iff u.id a.user_id).0 e)) ∙ h, tt)
  join_user-Off false u a o e h k = k

  find_user-Off :
      (a : Access) (us : List User) → All IsOff us → Off id (join_user a (find_user a.user_id us))
  unfolding find_user
  find_user-Off a [] h = tt
  find_user-Off a (u ∷ us) h =
      join_user-Off (u.id == a.user_id) u a (find_user a.user_id us) refl h.0
        (find_user-Off a us h.1)

  join_users-Off :
      (us : List User) (rows : List Access) → All IsOff us → Off id (join_users us rows)
  unfolding join_users
  join_users-Off us [] h = tt
  join_users-Off us (a ∷ rows) h =
      All-append _ (join_user a (find_user a.user_id us)) (join_users us rows)
        (find_user-Off a us h) (join_users-Off us rows h)

module _ (P : Access → Type 0) where
  join_user-All : (a : Access) (o : Option User) → P a → All (λ r. P r.access) (join_user a o)
  join_user-All a none p = tt
  join_user-All a (some u) p = (p, tt)

  join_users-All :
      (us : List User) (rows : List Access)
      → All P rows
      → All (λ r. P r.access) (join_users us rows)
  unfolding join_users
  join_users-All us [] h = tt
  join_users-All us (a ∷ rows) h =
      All-append _ (join_user a (find_user a.user_id us)) (join_users us rows)
        (join_user-All a (find_user a.user_id us) h.0) (join_users-All us rows h.1)

-- No user that is sent to the node is the user.
abbrev pub NotSent : String → String → World → Type 0
NotSent id node_id v =
    All (λ r. (r.access.user_id == id) ≡ false) (Repository.active_rows node_id v)

module _ (id node_id : String) (v : World) where
  pub by_user : All (IsOff id) v.users → NotSent id node_id v
  unfolding Repository.active_rows Repository.is_active_for
  by_user h = sort_stable-All _ _ _ (
      keep_if-All _ _ (join_users v.users v.access) (λ r e p. ground (arith, e, p))
        (join_users-Off id v.users v.access h))

  pub by_access :
      All (λ a. (a.user_id == id && a.node_id == node_id) ≡ false) v.access → NotSent id node_id v
  unfolding Repository.active_rows Repository.is_active_for
  by_access h = sort_stable-All _ _ _ (
      keep_if-All _ _ (join_users v.users v.access) (λ r e p. ground (arith, e, p))
        (join_users-All (λ a. (a.user_id == id && a.node_id == node_id) ≡ false) v.users v.access
          h))

pub switched-IsOff :
    (id : String) (now : ℕ) (us : List User)
    → All (IsOff id) (update_user id (Updates.switched false now) us)
unfolding update_user
switched-IsOff id now [] = tt
switched-IsOff id now (u ∷ us) = (choose (u.id == id) refl, switched-IsOff id now us)
  where
    choose :
        (b : Bool) → (u.id == id) ≡ b → IsOff id (if b then Updates.switched false now u else u)
    choose true e = ground (arith, e)
    choose false e = ground (arith, e)

module _ (id node_id : String) (w : World) where
  abbrev Same : World → Type 0
  Same v = (v.users ≡ w.users) × (v.access ≡ w.access)

  -- When disabling a user, deleting it or taking the node from it succeeds, the user is no longer among
  -- those sent to the node; when it fails, the users and the access rows are as they were.
  pub withdrawals-NotSent :
      Post (λ _. NotSent id node_id) Same (Updates.set_enabled id false w)
      × Post (λ _. NotSent id node_id) Same (Updates.delete id w)
      × Post (λ _. NotSent id node_id) Same (Updates.unassign_node id node_id w)
  unfolding Updates.set_enabled Updates.delete Updates.unassign_node
  withdrawals-NotSent = (
    (Triple-statement (λ _. NotSent id node_id) (λ v e ts h. h) _
          λ v h. by_user id node_id _ (switched-IsOff id v.now v.users)).at
        w (refl, refl),
    (Triple-statement (λ _. NotSent id node_id) (λ v e ts h. h) _
          λ v h.
            by_user id node_id _ (keep_if-passed (IsOff id) _ v.users λ u e. ground (arith, e))).at
        w (refl, refl),
    (Triple-statement (λ _. NotSent id node_id) (λ v e ts h. h) _
          λ v h. by_access id node_id _ (keep_if-passed _ _ v.access λ a e. ground (arith, e))).at
        w (refl, refl),
  )
