-- ===== src/Views/Json.antt =====
-- internal/http/handlers/view_helpers.go: secrets in decoded JSON. A value is what `json.Unmarshal` makes
-- of a text; a number is its text, and an object is its entries.
pub mod Redacted
use vetka_backend_panel.Prelude.{String, Bool, ◌||◌, ◌==◌, if◌then◌else◌}
use vetka_backend_panel.Prelude.Text.{to_lower, trim_space}

mutual
  pub data Value : Type 0 where
    null : Value
    boolean : Bool → Value
    number text : String → Value
    array : Items → Value
    object : Entries → Value

  pub data Items : Type 0 where
    no_items : Items
    item : Value → Items → Items

  pub data Entries : Type 0 where
    no_entries : Entries
    entry : String → Value → Entries → Entries

unfoldable pub is_sensitive : String → Bool
is_sensitive k =
    k == "password"
    || k == "protocol_password"
    || k == "protocol_username"
    || k == "node_secret"
    || k == "nodesecret"
    || k == "secret"
    || k == "token"
    || k == "subscription_token"
    || k == "admin_api_token"
    || k == "authorization"

unfoldable pub is_sensitive_json_key : String → Bool
unfolding is_sensitive to_lower trim_space
is_sensitive_json_key key = is_sensitive (to_lower (trim_space key))

unfoldable mutual
  pub redact_secrets : Value → Value
  redact_secrets null = null
  redact_secrets (boolean b) = boolean b
  redact_secrets (number n) = number n
  redact_secrets (text s) = text s
  redact_secrets (array xs) = array (redact_items xs)
  redact_secrets (object es) = object (redact_entries es)

  pub redact_items : Items → Items
  redact_items no_items = no_items
  redact_items (item v xs) = item (redact_secrets v) (redact_items xs)

  pub redact_entries : Entries → Entries
  redact_entries no_entries = no_entries
  redact_entries (entry k v es) =
      entry k (if is_sensitive_json_key k then text "***" else redact_secrets v) (redact_entries es)
