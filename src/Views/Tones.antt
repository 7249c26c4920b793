-- ===== src/Views/Tones.antt =====
-- internal/http/handlers/view_helpers.go: the tone and the label of a status. A call reads the clock once.
use vetka_backend_panel.Prelude.{
  ℕ, ◌+◌, ◌*◌, String, Bool, false, not, ◌&&◌, ◌||◌, Option, none, some, List, [], ◌∷◌, ◌==◌,
  if◌then◌else◌, ltb, nat_eq, map,
}
use Prim.Native.Char.{Char, code}
use Prim.Native.String.{◌++◌}
use vetka_backend_panel.Prelude.Text.{to_lower, trim_space, replace_char, runes, of_runes, join}
use vetka_backend_panel.I18n.{translate}
use vetka_backend_panel.Users.Models.{User}
use vetka_backend_panel.Users.Repository.{is_expired}
use vetka_backend_panel.Users.Dashboard.{UserNodeAccessDetail}
use vetka_backend_panel.Nodes.Models.{Node}

-- `72*time.Hour` in nanoseconds.
abbrev pub soon : ℕ
soon = 72 * 3600 * 1000000000

unfoldable pub is_user_expiring_soon : ℕ → Option ℕ → Bool
is_user_expiring_soon now none = false
is_user_expiring_soon now (some t) = ltb now t && ltb t (now + soon)

unfoldable pub user_tone : ℕ → User → String
unfolding is_expired is_user_expiring_soon
user_tone now user =
    if not user.enabled
    then "disabled"
    else if is_expired now user.expires_at
    then "expired"
    else if is_user_expiring_soon now user.expires_at
    then "warning"
    else "success"

-- The key of the label that goes with a tone of a user.
abbrev pub user_label_key : String → String
user_label_key tone =
    if tone == "disabled"
    then "status.disabled"
    else if tone == "expired"
    then "status.expired"
    else if tone == "warning"
    then "status.expires_soon"
    else "status.active"

unfoldable pub user_status : String → ℕ → User → String × String
unfolding user_tone translate
user_status locale now user =
    (user_tone now user, translate locale (user_label_key (user_tone now user)))

unfoldable pub protocol_tone : String → String
unfolding to_lower
protocol_tone protocol =
    if to_lower protocol == "mieru"
    then "protocol-mieru"
    else if to_lower protocol == "naive"
    then "protocol-naive"
    else "muted"

unfoldable pub collector_status_tone : String → String
unfolding to_lower trim_space
collector_status_tone status =
    if to_lower (trim_space status) == "ok"
    then "success"
    else if to_lower (trim_space status) == "partial"
    then "warning"
    else if to_lower (trim_space status) == "disabled"
    then "disabled"
    else "danger"

unfoldable pub collector_status_label : String → String → String
unfolding to_lower trim_space translate
collector_status_label locale status =
    if to_lower (trim_space status) == "ok"
    then translate locale "sessions.collector_ok"
    else if to_lower (trim_space status) == "partial"
    then translate locale "sessions.collector_partial"
    else if to_lower (trim_space status) == "disabled"
    then translate locale "sessions.collector_disabled"
    else translate locale "sessions.collector_unavailable"

-- The states of a node that have a tone of their own; `upper` is `unicode.ToUpper`, a parameter.
module _ (upper : Char → Char) where
  -- `strings.Split` at every underscore: the part at the front, and the parts behind it.
  unfoldable pub parts : List Char → List Char × List (List Char)
  parts [] = ([], [])
  parts (c ∷ s) =
      let later = parts s in
      if nat_eq (code c) b'_' then ([], later.0 ∷ later.1) else (c ∷ later.0, later.1)

  abbrev pub capital : List Char → List Char
  capital [] = []
  capital (c ∷ s) = upper c ∷ s

  unfoldable pub part_label : List Char → String
  unfolding runes of_runes to_lower
  part_label s = of_runes (capital (runes (to_lower (of_runes s))))

  unfoldable pub format_status_label : String → String
  unfolding replace_char runes parts part_label join
  format_status_label status =
      if status == ""
      then ""
      else let (first, later) = parts (runes (replace_char b'-' "_" status)) in
        join (map part_label (first ∷ later)) " "

  unfoldable pub status_key : String → String
  unfolding to_lower replace_char
  status_key status = "status." ++ to_lower (replace_char b' ' "_" (replace_char b'-' "_" status))

  unfoldable pub localized_status_label : String → String → String
  unfolding translate status_key format_status_label
  localized_status_label locale status =
      if not (translate locale (status_key status) == status_key status)
      then translate locale (status_key status)
      else format_status_label status

  unfoldable pub node_status_tone : String → Node → String × String
  unfolding translate format_status_label
  node_status_tone locale node =
      if not node.enabled || node.setup_state == "disabled"
      then ("disabled", translate locale "status.disabled")
      else if node.setup_state == "connected"
      then ("success", translate locale "status.connected")
      else if node.setup_state == "unreachable"
      then ("danger", translate locale "status.unreachable")
      else if node.setup_state == "planned"
      then ("warning", translate locale "status.planned")
      else ("muted", format_status_label node.setup_state)

-- `includesText`
unfoldable pub includes_text : List String → String
unfolding trim_space
includes_text [] = ""
includes_text (v ∷ vs) = if not (trim_space v == "") then v else includes_text vs

unfoldable pub has_detailed_protocol_access : List UserNodeAccessDetail → String → Bool
has_detailed_protocol_access [] protocol = false
has_detailed_protocol_access (a ∷ rows) protocol =
    (a.node_protocol_type == protocol && a.access.enabled && a.node_enabled)
    || has_detailed_protocol_access rows protocol
