-- ===== src/Users/Dashboard.antt =====
-- internal/users/ui_queries.go: the counts of users, the coming expirations and the joined access rows.
-- Postgres reads `now()` once in a statement.
use vetka_backend_panel.Prelude.{
  ℕ, String, Bool, true, false, not, ◌&&◌, Option, none, some, List, [], ◌∷◌, ◌==◌, if◌then◌else◌,
  leb, ltb, keep_if, length, sort_stable, take,
}
use vetka_backend_panel.Prelude.Int.{ℤ}
use vetka_backend_panel.Prelude.Order.{less_text}
use vetka_backend_panel.Prelude.Effects.{ok, Action}
use vetka_backend_panel.Users.Models.{User, Access}
use vetka_backend_panel.Users.Repository.{expiry_of, find_user}
use vetka_backend_panel.Nodes.Models.{Node}
use vetka_backend_panel.Nodes.Repository.{find_node}
use vetka_backend_panel.World.{World, statement}

pub record UserStats : Type 0 where
  pub total : ℕ
  pub active : ℕ
  pub expired : ℕ
  pub disabled : ℕ
  pub expires_soon : ℕ

-- `count(*) filter (where …)`
abbrev pub count_users : (User → Bool) → List User → ℕ
count_users p us = length (keep_if p us)

-- `expires_at > now()`, and `expires_at <= now()`; both are false of a null.
abbrev pub is_later : ℕ → Option ℕ → Bool
is_later now none = false
is_later now (some t) = ltb now t

abbrev pub is_by : ℕ → Option ℕ → Bool
is_by limit none = false
is_by limit (some t) = leb t limit

abbrev pub is_unlimited : Option ℕ → Bool
is_unlimited none = true
is_unlimited (some t) = false

abbrev pub counts_active : ℕ → User → Bool
counts_active now u =
    u.enabled && (if is_unlimited u.expires_at then true else is_later now u.expires_at)

abbrev pub counts_expired : ℕ → User → Bool
counts_expired now u = u.enabled && is_by now u.expires_at

abbrev pub counts_disabled : User → Bool
counts_disabled u = not u.enabled

abbrev pub counts_soon : ℕ → ℕ → User → Bool
counts_soon now soon_before u =
    u.enabled && is_later now u.expires_at && is_by soon_before u.expires_at

abbrev pub user_stats_of : ℕ → ℕ → List User → UserStats
user_stats_of now soon_before us = record {
  total = length us;
  active = count_users (counts_active now) us;
  expired = count_users (counts_expired now) us;
  disabled = count_users counts_disabled us;
  expires_soon = count_users (counts_soon now soon_before) us;
}

unfoldable pub user_dashboard_stats : ℕ → Action World UserStats
unfolding statement
user_dashboard_stats soon_before = statement λ w. (ok (user_stats_of w.now soon_before w.users), w)

unfoldable pub upcoming_expirations : ℕ → Action World (List User)
unfolding statement
upcoming_expirations limit = statement λ w. (
  ok (
      take limit (
        sort_stable (λ a b. ltb (expiry_of a) (expiry_of b))
          (keep_if (λ u. u.enabled && is_later w.now u.expires_at) w.users))),
  w,
)

-- The rows of `UserNodeAccessDetail` and of `NodeUserAccessDetail`.
pub record UserNodeAccessDetail : Type 0 where
  pub access : Access
  pub node_name : String
  pub node_enabled : Bool
  pub node_setup_state : String
  pub node_protocol_type : String

pub record NodeUserAccessDetail : Type 0 where
  pub access : Access
  pub username : String
  pub display_name : Option String
  pub user_enabled : Bool
  pub user_expires_at : Option ℕ
  pub user_quota_mb : ℤ

abbrev pub with_node : Access → Option Node → List UserNodeAccessDetail → List UserNodeAccessDetail
with_node a none rest = rest
with_node a (some n) rest =
    record {
      access = a;
      node_name = n.name;
      node_enabled = n.enabled;
      node_setup_state = n.setup_state;
      node_protocol_type = n.protocol_type;
    }
    ∷ rest

unfoldable pub joined_nodes : List Node → List Access → List UserNodeAccessDetail
unfolding find_node
joined_nodes ns [] = []
joined_nodes ns (a ∷ rows) = with_node a (find_node a.node_id ns) (joined_nodes ns rows)

unfoldable pub access_detail_for_user : String → Action World (List UserNodeAccessDetail)
unfolding statement joined_nodes
access_detail_for_user user_id = statement λ w. (
  ok (
      sort_stable (λ a b. less_text a.node_name b.node_name)
        (joined_nodes w.nodes (keep_if (λ a. a.user_id == user_id) w.access))),
  w,
)

abbrev pub with_owner : Access → Option User → List NodeUserAccessDetail → List NodeUserAccessDetail
with_owner a none rest = rest
with_owner a (some u) rest =
    record {
      access = a;
      username = u.username;
      display_name = u.display_name;
      user_enabled = u.enabled;
      user_expires_at = u.expires_at;
      user_quota_mb = u.quota_mb;
    }
    ∷ rest

unfoldable pub joined_users : List User → List Access → List NodeUserAccessDetail
unfolding find_user
joined_users us [] = []
joined_users us (a ∷ rows) = with_owner a (find_user a.user_id us) (joined_users us rows)

unfoldable pub access_detail_for_node : String → Action World (List NodeUserAccessDetail)
unfolding statement joined_users
access_detail_for_node node_id = statement λ w. (
  ok (
      sort_stable (λ a b. less_text a.username b.username)
        (joined_users w.users (keep_if (λ a. a.node_id == node_id) w.access))),
  w,
)
