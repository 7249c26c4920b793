-- ===== src/Subscriptions/Service.antt =====
-- internal/subscriptions/subscriptions.go: the formats, and a subscription by its token. The repository
-- of the service and the clock are parameters, on a state of any type.
use vetka_backend_panel.Prelude.{ℕ, String, not, ◌||◌, Option, List, ◌==◌, if◌then◌else◌, keep_if}
use vetka_backend_panel.Prelude.Int.{ℤ, pos, leb_ℤ}
use vetka_backend_panel.Prelude.Text.{to_lower, trim_space}
use vetka_backend_panel.Prelude.Effects.{Result, ok, err, Action, raise, gets, lift, ◌>>=◌}
use vetka_backend_panel.Users.Models.{User}
use vetka_backend_panel.Users.Repository.{is_expired}
use vetka_backend_panel.Subscriptions.Models.{AccessWithNode, Body, lines, singbox, hiddify}
use vetka_backend_panel.Subscriptions.Bodies.{build_singbox_json, build_hiddify_json}
use vetka_backend_panel.Subscriptions.Texts.{
  build_raw_all, build_hiddify_all, build_raw_mieru, build_raw_naive,
}

unfoldable pub format_of : String → String
format_of f =
    if f == "hiddify"
    then "hiddify"
    else if f == "hiddify-json"
    then "hiddify-json"
    else if f == "raw"
    then "raw"
    else if f == "mierus"
    then "mierus"
    else if f == "naive"
    then "naive"
    else "json"

unfoldable pub normalize_format : String → String
unfolding format_of to_lower trim_space
normalize_format format = format_of (to_lower (trim_space format))

unfoldable pub content_disposition_filename : String → String
unfolding normalize_format
content_disposition_filename format =
    if normalize_format format == "json" || normalize_format format == "hiddify-json"
    then "vetka-vpn.json"
    else "vetka-vpn.txt"

unfoldable pub active_assignments : List AccessWithNode → List AccessWithNode
active_assignments rows = keep_if (λ a. a.access.enabled) rows

abbrev pub json_type : String
json_type = "application/json; charset=utf-8"

abbrev pub text_type : String
text_type = "text/plain; charset=utf-8"

-- The body and its content type; the content type of a failed text is not used.
abbrev pub text_body : Result String → Result (Body × String)
text_body (ok s) = ok (lines s, text_type)
text_body (err e) = err e

-- The fields of the service that are numbers and texts.
pub record Settings : Type 0 where
  pub profile_title : String
  pub update_interval_hours : ℤ

unfoldable pub new_settings : String → ℤ → Settings
unfolding trim_space
new_settings title hours = record {
  profile_title = if trim_space title == "" then "Ветка VPN" else title;
  update_interval_hours = if leb_ℤ hours (pos 0) then pos 12 else hours;
}

pub record SubscriptionUserRepository (S : Type 0) : Type 0 where
  pub get_by_token : String → Action S User
  pub active_access_for_subscription : String → Action S (List AccessWithNode)

abbrev pub subscription_disabled : String
subscription_disabled = "subscription disabled or expired"

module _ (parse : String → Option (String × String)) where
  -- The `switch` on the normalised format, over the assignments that are enabled.
  unfoldable pub build_as : String → List AccessWithNode → Settings → Result (Body × String)
  unfolding build_singbox_json build_hiddify_all build_hiddify_json build_raw_mieru build_raw_naive
      build_raw_all
  build_as f rows settings =
      if f == "hiddify"
      then text_body (build_hiddify_all parse rows settings.profile_title)
      else if f == "hiddify-json"
      then ok (hiddify (build_hiddify_json parse rows), json_type)
      else if f == "mierus"
      then text_body (build_raw_mieru parse rows)
      else if f == "naive"
      then text_body (build_raw_naive parse rows)
      else if f == "raw"
      then ok (
        lines (build_raw_all parse rows settings.profile_title settings.update_interval_hours),
        text_type,
      )
      else ok (singbox (build_singbox_json parse rows), json_type)

  unfoldable pub build_subscription :
      List AccessWithNode → String → Settings → Result (Body × String)
  unfolding active_assignments normalize_format build_as
  build_subscription rows format settings =
      build_as (normalize_format format) (active_assignments rows) settings

  module _ {S : Type 0} (repo : SubscriptionUserRepository S) (clock : S → ℕ)
      (settings : Settings) where
    unfoldable pub build_for : User → String → ℕ → Action S (Body × String)
    unfolding is_expired build_subscription
    build_for user format now =
        if not user.enabled || is_expired now user.expires_at
        then raise subscription_disabled
        else (do
          rows ← repo.active_access_for_subscription user.id
          lift (build_subscription rows format settings))

    unfoldable pub build_by_token : String → String → Action S (Body × String)
    unfolding build_for
    build_by_token token format = do
      user ← repo.get_by_token token
      now ← gets clock
      build_for user format now
