-- ===== src/Pages/Forms.antt =====
-- internal/http/handlers/handlers.go: what is read of a form. A form gives the values of a name in their
-- order; a name that is missing has none.
use Prim.Native.Char.{Char, code}
use vetka_backend_panel.Prelude.{
  ℕ, String, Bool, true, false, ◌||◌, Option, none, some, List, [], ◌∷◌, ◌==◌, if◌then◌else◌,
  nat_eq, map,
}
use vetka_backend_panel.Prelude.Int.{ℤ, pos}
use vetka_backend_panel.Prelude.Effects.{Result, ok, err}
use vetka_backend_panel.Prelude.Text.{to_lower, trim_space, runes, of_runes}
use vetka_backend_panel.Users.Models.{CreateUserInput}
use vetka_backend_panel.Nodes.Models.{CreateNodeInput}
use vetka_backend_panel.Subscriptions.Fields.{atoi}

abbrev pub Form : Type 0
Form = String → List String

-- `FormValue`: the first value, or the empty text.
abbrev pub first_value : List String → String
first_value [] = ""
first_value (v ∷ vs) = v

unfoldable pub is_yes : String → Bool
unfolding to_lower trim_space
is_yes value =
    to_lower (trim_space value) == "true"
    || to_lower (trim_space value) == "on"
    || to_lower (trim_space value) == "1"

unfoldable pub any_yes : List String → Bool
unfolding is_yes
any_yes [] = false
any_yes (v ∷ vs) = is_yes v || any_yes vs

unfoldable pub bool_from_form : List String → Bool → Bool
unfolding any_yes
bool_from_form [] fallback = fallback
bool_from_form (v ∷ vs) fallback = any_yes (v ∷ vs)

unfoldable pub parse_optional_date_time : (String → Result ℕ) → String → Result (Option ℕ)
parse_optional_date_time parse value =
    if value == "" then ok none else elim (parse value) [ ok t ↦ ok (some t) | err e ↦ err e ]

unfoldable pub int_from_form : String → ℤ
unfolding atoi
int_from_form value = elim (atoi value) [ none ↦ pos 0 | some n ↦ n ]

-- `strings.Split` at commas: the part at the front, and the parts behind it.
unfoldable pub comma_parts : List Char → List Char × List (List Char)
comma_parts [] = ([], [])
comma_parts (c ∷ s) =
    let later = comma_parts s in
    if nat_eq (code c) b',' then ([], later.0 ∷ later.1) else (c ∷ later.0, later.1)

unfoldable pub trimmed_parts : List String → List String
unfolding trim_space
trimmed_parts [] = []
trimmed_parts (p ∷ ps) =
    let later = trimmed_parts ps in if trim_space p == "" then later else trim_space p ∷ later

unfoldable pub split_csv : String → List String
unfolding runes of_runes comma_parts trimmed_parts
split_csv value =
    if value == ""
    then []
    else let (first, later) = comma_parts (runes value) in
      trimmed_parts (map of_runes (first ∷ later))

abbrev pub string_ptr : String → Option String
string_ptr value = if value == "" then none else some value

-- `post` is the body of the request, `form` has the query too.
unfoldable pub node_input_from_form : Form → Form → CreateNodeInput
unfolding bool_from_form int_from_form split_csv
node_input_from_form form post = record {
  mode = first_value (form "mode");
  node_id = first_value (form "node_id");
  name = first_value (form "name");
  domain = first_value (form "domain");
  api_url = first_value (form "api_url");
  protocol_type = first_value (form "protocol_type");
  node_secret = first_value (form "node_secret");
  enabled = bool_from_form (post "enabled") true;
  protocol_settings = record {
    mieru = record {
      ports = split_csv (first_value (form "mieru_ports"));
      protocol = first_value (form "mieru_protocol");
      mtu = int_from_form (first_value (form "mieru_mtu"));
      multiplexing = first_value (form "mieru_multiplexing");
      handshake_mode = first_value (form "mieru_handshake_mode");
      traffic_pattern = first_value (form "mieru_traffic_pattern");
      profile = first_value (form "mieru_profile");
    };
    naive_port = int_from_form (first_value (form "naive_port"));
  };
}

abbrev pub user_input : Form → Form → Option ℕ → CreateUserInput
user_input form post expires_at = record {
  username = first_value (form "username");
  display_name = string_ptr (first_value (form "display_name"));
  enabled = bool_from_form (post "enabled") true;
  expires_at = expires_at;
  quota_mb = int_from_form (first_value (form "quota_mb"));
  notes = string_ptr (first_value (form "notes"));
  node_ids = form "node_ids";
}

unfoldable pub user_input_from_form : (String → Result ℕ) → Form → Form → Result CreateUserInput
unfolding parse_optional_date_time bool_from_form int_from_form
user_input_from_form parse form post =
    elim (parse_optional_date_time parse (first_value (form "expires_at"))) [
      | ok t ↦ ok (user_input form post t)
      | err e ↦ err e
    ]
