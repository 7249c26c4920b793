-- ===== src/Views/Times.antt =====
-- internal/http/handlers/view_helpers.go: the time that a user has left, in nanoseconds and as a text.
pub mod Rounded
use Prim.Native.String.{◌++◌}
use vetka_backend_panel.Prelude.{
  ℕ, ◌+◌, ◌-◌, ◌*◌, ◌/◌, ◌%◌, String, Bool, true, false, not, ◌&&◌, Option, none, some, ◌==◌,
  if◌then◌else◌, ltb, leb,
}
use vetka_backend_panel.Prelude.Text.{itoa}
use vetka_backend_panel.I18n.{translate, normalize_locale}

abbrev pub minute : ℕ
minute = 60000000000

-- The greatest duration, 2 ^ 63 - 1.
abbrev pub max_duration : ℕ
max_duration = 9223372036854775807

abbrev pub saturated : ℕ → ℕ
saturated d = if leb d max_duration then d else max_duration

-- `Round(time.Minute)` of a duration that is not negative.
unfoldable pub round_minute : ℕ → ℕ
round_minute d =
    if ltb (d % minute + d % minute) minute
    then d - d % minute
    else saturated (d + (minute - d % minute))

-- The rounded duration until `t`, which is at least a minute.
unfoldable pub remaining : ℕ → ℕ → ℕ
unfolding round_minute
remaining t now =
    if ltb (round_minute (saturated (t - now))) minute
    then minute
    else round_minute (saturated (t - now))

unfoldable pub minutes_text : Bool → ℕ → String
unfolding itoa
minutes_text russian total =
    if russian
    then (if ltb 0 (total / 60) && ltb 0 (total % 60)
        then "Осталось " ++ itoa (total / 60) ++ " ч " ++ itoa (total % 60) ++ " мин"
        else if ltb 0 (total / 60)
        then "Осталось " ++ itoa (total / 60) ++ " ч"
        else "Осталось " ++ itoa (total % 60) ++ " мин")
    else if ltb 0 (total / 60) && ltb 0 (total % 60)
    then itoa (total / 60) ++ "h " ++ itoa (total % 60) ++ "m remaining"
    else if ltb 0 (total / 60)
    then itoa (total / 60) ++ "h remaining"
    else itoa (total % 60) ++ "m remaining"

unfoldable pub days_text : Bool → ℕ → String
unfolding itoa
days_text russian hours =
    if russian
    then "Осталось " ++ itoa (hours / 24) ++ " д " ++ itoa (hours % 24) ++ " ч"
    else itoa (hours / 24) ++ "d " ++ itoa (hours % 24) ++ "h remaining"

unfoldable pub time_remaining_at : String → Option ℕ → ℕ → String
unfolding translate normalize_locale remaining minutes_text days_text
time_remaining_at locale none now = translate locale "status.unlimited"
time_remaining_at locale (some t) now =
    if not (ltb now t)
    then translate locale "status.expired"
    else if ltb (remaining t now) (1440 * minute)
    then minutes_text (normalize_locale locale == "ru") (remaining t now / minute)
    else days_text (normalize_locale locale == "ru") (remaining t now / (60 * minute))
