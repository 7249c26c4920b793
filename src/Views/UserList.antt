-- ===== src/Views/UserList.antt =====
-- internal/http/handlers/view_helpers.go and handlers.go: the list of users, its filter and its orders.
pub mod Listed
use vetka_backend_panel.Prelude.{
  ℕ, String, Bool, true, false, not, ◌&&◌, ◌||◌, Option, none, some, List, [], ◌∷◌, map, ◌==◌,
  if◌then◌else◌, ltb, keep_if, sort_stable,
}
use vetka_backend_panel.Prelude.Text.{to_lower, trim_space, contains}
use vetka_backend_panel.Prelude.Order.{less_text}
use vetka_backend_panel.Users.Models.{User}
use vetka_backend_panel.Users.Lookups.{count_of}
use vetka_backend_panel.Views.Tones.{user_status}

pub record UserListItem : Type 0 where
  pub user : User
  pub status_tone : String
  pub status_label : String
  pub assigned_node_count : ℕ

abbrev pub passes_filter : String → String → Bool
passes_filter filter tone =
    if filter == "" || filter == "all"
    then true
    else if filter == "active"
    then tone == "success"
    else if filter == "expired"
    then tone == "expired"
    else if filter == "disabled"
    then tone == "disabled"
    else if filter == "expires-soon"
    then tone == "warning"
    else true

unfoldable pub display_of : Option String → String
unfolding to_lower
display_of none = ""
display_of (some name) = to_lower name

abbrev pub is_found : String → User → Bool
is_found search u =
    contains (to_lower u.username) search || contains (display_of u.display_name) search

unfoldable pub matches_user_filter : UserListItem → String → String → Bool
unfolding to_lower trim_space contains display_of
matches_user_filter item filter search =
    if not (trim_space (to_lower search) == "")
      && not (is_found (trim_space (to_lower search)) item.user)
    then false
    else passes_filter (trim_space (to_lower filter)) item.status_tone

abbrev pub earlier_expiry : Option ℕ → Option ℕ → Bool → Bool
earlier_expiry none none names = names
earlier_expiry none (some t) names = false
earlier_expiry (some s) none names = true
earlier_expiry (some s) (some t) names = ltb s t

-- The `less` of `sortUserViews`.
unfoldable pub view_less : String → UserListItem → UserListItem → Bool
unfolding to_lower
view_less mode a b =
    if mode == "expires_at"
    then earlier_expiry a.user.expires_at b.user.expires_at
        (less_text a.user.username b.user.username)
    else if mode == "created_at"
    then ltb b.user.created_at a.user.created_at
    else less_text (to_lower a.user.username) (to_lower b.user.username)

unfoldable pub sort_user_views : List UserListItem → String → List UserListItem
unfolding view_less
sort_user_views items mode = sort_stable (view_less mode) items

unfoldable pub item_of : String → ℕ → List (String × ℕ) → User → UserListItem
unfolding user_status count_of
item_of locale now counts user = record {
  user = user;
  status_tone = (user_status locale now user).0;
  status_label = (user_status locale now user).1;
  assigned_node_count = count_of user.id counts;
}

abbrev pub mode_or_created : String → String
mode_or_created mode = if mode == "" then "created_at" else mode

-- The loop of the page of users and its order, for rows that were read.
unfoldable pub user_items :
    String → ℕ → List (String × ℕ) → String → String → String → List User → List UserListItem
unfolding item_of matches_user_filter sort_user_views trim_space
user_items locale now counts status q sort users =
    sort_user_views
      (keep_if (λ i. matches_user_filter i (trim_space status) (trim_space q))
        (map (item_of locale now counts) users))
      (mode_or_created (trim_space sort))
