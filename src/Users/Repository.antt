-- ===== src/Users/Repository.antt =====
-- internal/users/repository.go: what the node manager, the subscriptions and the expiry reconciler read
-- and write, each as one SQL statement. Texts are ordered by code points.
use vetka_backend_panel.Prelude.Order.{less_text}
use vetka_backend_panel.Prelude.{
  ℕ, String, Bool, true, false, not, ◌&&◌, ◌||◌, Option, none, some, List, [], ◌∷◌, ◌++◌, ◌==◌,
  if◌then◌else◌, ltb, leb, keep_if, sort_stable,
}
use vetka_backend_panel.Prelude.Effects.{ok, Action}
use vetka_backend_panel.Users.Models.{User, Access, AccessWithUser}
use vetka_backend_panel.Nodes.Models.{Node}
use vetka_backend_panel.World.{World, statement}

-- `expires_at is null or expires_at > now()`
abbrev pub is_current : ℕ → Option ℕ → Bool
is_current now none = true
is_current now (some t) = ltb now t

-- `IsExpired` of repository.go: `expiresAt != nil && !expiresAt.After(now)`.
unfoldable pub is_expired : ℕ → Option ℕ → Bool
is_expired now none = false
is_expired now (some t) = not (ltb now t)

unfoldable pub find_user : String → List User → Option User
find_user id [] = none
find_user id (u ∷ us) = if u.id == id then some u else find_user id us

abbrev pub join_user : Access → Option User → List AccessWithUser
join_user a none = []
join_user a (some u) =
    record {
      access = a;
      username = u.username;
      user_enabled = u.enabled;
      user_expires_at = u.expires_at;
      user_quota_mb = u.quota_mb;
    }
    ∷ []

-- `user_node_access a join users u on u.id = a.user_id`
unfoldable pub join_users : List User → List Access → List AccessWithUser
unfolding find_user
join_users users [] = []
join_users users (a ∷ rows) = join_user a (find_user a.user_id users) ++ join_users users rows

unfoldable pub is_active_for : String → ℕ → AccessWithUser → Bool
is_active_for node_id now a =
    a.access.node_id == node_id
    && a.access.enabled
    && a.user_enabled
    && is_current now a.user_expires_at

unfoldable pub active_rows : String → World → List AccessWithUser
unfolding join_users is_active_for
active_rows node_id w =
    sort_stable (λ a b. less_text a.username b.username)
      (keep_if (is_active_for node_id w.now) (join_users w.users w.access))

unfoldable pub active_access_for_node : String → Action World (List AccessWithUser)
unfolding statement active_rows
active_access_for_node node_id = statement λ w. (ok (active_rows node_id w), w)

-- The condition of the query of `UsersPendingExpiryReconcile`.
abbrev pub synced_before : Option ℕ → ℕ → Bool
synced_before none expires_at = true
synced_before (some t) expires_at = ltb t expires_at

abbrev pub expired_unsynced : ℕ → Option ℕ → Option ℕ → Bool
expired_unsynced now none synced_at = false
expired_unsynced now (some t) synced_at = leb t now && synced_before synced_at t

unfoldable pub is_pending : ℕ → User → Bool
is_pending now u = u.enabled && expired_unsynced now u.expires_at u.expiry_synced_at

abbrev pub expiry_of : User → ℕ
expiry_of u = elim u.expires_at [ none ↦ 0 | some t ↦ t ]

unfoldable pub users_pending_expiry_reconcile : Action World (List User)
unfolding statement is_pending
users_pending_expiry_reconcile = statement λ w. (
  ok (sort_stable (λ a b. ltb (expiry_of a) (expiry_of b)) (keep_if (is_pending w.now) w.users)),
  w,
)

unfoldable pub has_api_url : String → List Node → Bool
has_api_url id [] = false
has_api_url id (n ∷ ns) = (n.id == id && not (n.api_url == "")) || has_api_url id ns

-- `select distinct n.id … order by n.id`: an identifier is inserted once, in its place.
unfoldable pub insert_distinct : String → List String → List String
insert_distinct x [] = x ∷ []
insert_distinct x (y ∷ ys) =
    let later = insert_distinct x ys in
    if x == y then y ∷ ys else if less_text y x then y ∷ later else x ∷ y ∷ ys

unfoldable pub active_node_ids : String → List Node → List Access → List String
unfolding has_api_url insert_distinct
active_node_ids user_id nodes [] = []
active_node_ids user_id nodes (a ∷ rows) =
    let later = active_node_ids user_id nodes rows in
    if a.user_id == user_id && a.enabled && has_api_url a.node_id nodes
    then insert_distinct a.node_id later
    else later

unfoldable pub active_node_ids_for_expired_user : String → Action World (List String)
unfolding statement active_node_ids
active_node_ids_for_expired_user user_id =
    statement λ w. (ok (active_node_ids user_id w.nodes w.access), w)

unfoldable pub update_user : String → (User → User) → List User → List User
update_user id f [] = []
update_user id f (u ∷ us) = (if u.id == id then f u else u) ∷ update_user id f us

unfoldable pub mark_expiry_synced : String → Action World (Unit {0})
unfolding statement update_user
mark_expiry_synced id = statement λ w. (
  ok tt,
  record w {
    users =
        update_user id (λ u. record u { expiry_synced_at = some w.now; updated_at = w.now })
          w.users;
  },
)
