-- ===== src/Views/UserList/Listed.antt =====
-- The counts of the page of users in internal/http/handlers/handlers.go and the rows that its filters list.
use vetka_backend_panel.Prelude.{
  ℕ, suc, ◌+◌, String, Bool, true, false, not, ◌&&◌, ◌≡◌, refl, ◌∙◌, ap, sym, Option, none, some,
  List, [], ◌∷◌, map, ◌==◌, arith, if◌then◌else◌, ltb, nat_eq, length, keep_if, sort_stable-keep_if,
}
use vetka_backend_panel.Prelude.Text.{to_lower, trim_space}
use vetka_backend_panel.Users.Models.{User}
use vetka_backend_panel.Users.Repository.{is_expired}
use vetka_backend_panel.Users.Dashboard.{
  UserStats, user_stats_of, count_users, is_later, is_by, is_unlimited,
}
use vetka_backend_panel.Views.Tones
use vetka_backend_panel.Views.Tones.{soon}
use vetka_backend_panel.Views.UserList
use vetka_backend_panel.Views.UserList.{UserListItem, passes_filter, item_of}

-- An enabled user expires at this very time.
abbrev pub expires_at : ℕ → User → Bool
expires_at t u = u.enabled && elim u.expires_at [ none ↦ false | some s ↦ nat_eq s t ]

abbrev one : Bool → ℕ
one b = if b then 1 else 0

abbrev chosen : Bool → Bool → Bool → String
chosen e x s =
    if not e then "disabled" else if x then "expired" else if s then "warning" else "success"

chosen_lem :
    (e x s : Bool)
    → ((chosen e x s == "disabled") ≡ not e)
      × ((chosen e x s == "expired") ≡ (e && x))
      × ((chosen e x s == "warning") ≡ (e && not x && s))
      × ((chosen e x s == "success") ≡ (e && not x && not s))
chosen_lem false x s = (refl, refl, refl, refl)
chosen_lem true true s = (refl, refl, refl, refl)
chosen_lem true false true = (refl, refl, refl, refl)
chosen_lem true false false = (refl, refl, refl, refl)

-- What the filters list of a user, and what the statement counts.
abbrev Shares : ℕ → Bool → Option ℕ → String → Type 0
Shares now e o tone =
    ((tone == "disabled") ≡ not e)
    × ((tone == "expired") ≡ (e && is_by now o))
    × (one (e && (if is_unlimited o then true else is_later now o))
        ≡ one (tone == "success") + one (tone == "warning"))
    × (one (e && is_later now o && is_by (now + soon) o)
        ≡ one (tone == "warning")
          + one (e && elim o [ none ↦ false | some s ↦ nat_eq s (now + soon) ]))

time-Shares :
    (now t : ℕ) (e : Bool)
    → Shares now e (some t) (chosen e (not (ltb now t)) (ltb now t && ltb t (now + soon)))
time-Shares now t e =
    let c = chosen_lem e (not (ltb now t)) (ltb now t && ltb t (now + soon)) in
    rw (c.0, c.1, c.2, c.3) (refl, ground arith, ground arith, ground arith)

tone-Shares : (now : ℕ) (u : User) → Shares now u.enabled u.expires_at (Tones.user_tone now u)
unfolding Tones.user_tone is_expired Tones.is_user_expiring_soon
tone-Shares now u = by_time u.enabled u.expires_at
  where
    by_time :
        (e : Bool) (o : Option ℕ)
        → Shares now e o (chosen e (is_expired now o) (Tones.is_user_expiring_soon now o))
    by_time false o = (refl, refl, refl, refl)
    by_time true none = (refl, refl, refl, refl)
    by_time true (some t) = time-Shares now t true

-- The number of rows that a filter lists, without a search.
abbrev pub rows_listed : String → ℕ → List (String × ℕ) → String → List User → String → ℕ
rows_listed locale now counts sort us filter =
    length (UserList.user_items locale now counts filter "" sort us)

abbrev pub Agree : (String → ℕ) → UserStats → ℕ → Type 0
Agree rows stats at_limit =
    (rows "all" ≡ stats.total)
    × (rows "disabled" ≡ stats.disabled)
    × (rows "expired" ≡ stats.expired)
    × (stats.active ≡ rows "active" + rows "expires-soon")
    × (stats.expires_soon ≡ rows "expires-soon" + at_limit)

-- The rows of a list before they are sorted.
abbrev unsorted : String → ℕ → List (String × ℕ) → List User → String → ℕ
unsorted locale now counts us filter =
    length (keep_if (λ i. passes_filter filter i.status_tone) (map (item_of locale now counts) us))

unsorted-Agree :
    (locale : String) (now : ℕ) (counts : List (String × ℕ)) (us : List User)
    → Agree
        (unsorted locale now counts us)
        (user_stats_of now (now + soon) us)
        (count_users (expires_at (now + soon)) us)
unfolding item_of Tones.user_status
unsorted-Agree locale now counts [] = (refl, refl, refl, refl, refl)
unsorted-Agree locale now counts (u ∷ us) =
    let ih = unsorted-Agree locale now counts us in
    let s = tone-Shares now u in
    (
      ground (arith, ih.0),
      ground (arith, ih.1, s.0),
      ground (arith, ih.2, s.1),
      ground (arith, ih.3, s.2),
      ground (arith, ih.4, s.3),
    )

length-sort :
    (mode : String) (xs : List UserListItem) → length (UserList.sort_user_views xs mode) ≡ length xs
unfolding UserList.sort_user_views
length-sort mode xs =
    sym (keep_all (UserList.sort_user_views xs mode))
    ∙ sort_stable-keep_if (UserList.view_less mode) (λ i. true) xs
    ∙ keep_all xs
  where
    keep_all : (ys : List UserListItem) → length (keep_if (λ i. true) ys) ≡ length ys
    keep_all [] = refl
    keep_all (y ∷ ys) = ap suc (keep_all ys)

-- The page of users lists under its filters what the dashboard counts at the same time: all users, the
-- disabled, the expired; those it counts as active are rows_listed as active or as expiring soon, and those it
-- counts as expiring soon are rows_listed so, but for the ones that expire at the very end of the three days.
pub user_items-Agree :
    (locale sort : String) (now : ℕ) (counts : List (String × ℕ)) (us : List User)
    → Agree
        (rows_listed locale now counts sort us)
        (user_stats_of now (now + soon) us)
        (count_users (expires_at (now + soon)) us)
unfolding UserList.user_items UserList.matches_user_filter trim_space to_lower
user_items-Agree locale sort now counts us =
    let a = unsorted-Agree locale now counts us in
    let l = rows_listed locale now counts sort us in
    let n = unsorted locale now counts us in
    let m = UserList.mode_or_created (trim_space sort) in
    let active : l "active" ≡ n "active" = length-sort m _ in
    let soon_rows : l "expires-soon" ≡ n "expires-soon" = length-sort m _ in
    (
      length-sort m _ ∙ a.0,
      length-sort m _ ∙ a.1,
      length-sort m _ ∙ a.2,
      omega (arith, a.3, active, soon_rows),
      omega (arith, a.4, soon_rows),
    )
