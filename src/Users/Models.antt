-- ===== src/Users/Models.antt =====
-- The rows of internal/users/models.go. A time is a number of nanoseconds; a pointer is an option.
use vetka_backend_panel.Prelude.{ℕ, String, Bool, Option, List}
use vetka_backend_panel.Prelude.Int.{ℤ}

pub record User : Type 0 where
  pub id : String
  pub username : String
  pub display_name : Option String
  pub enabled : Bool
  pub expires_at : Option ℕ
  pub expiry_synced_at : Option ℕ
  pub quota_mb : ℤ
  pub subscription_token : String
  pub notes : Option String
  pub created_at : ℕ
  pub updated_at : ℕ

pub record Access : Type 0 where
  pub id : String
  pub user_id : String
  pub node_id : String
  pub protocol_type : String
  pub protocol_username : String
  pub protocol_password : String
  pub enabled : Bool
  pub created_at : ℕ
  pub updated_at : ℕ

pub record CreateUserInput : Type 0 where
  pub username : String
  pub display_name : Option String
  pub enabled : Bool
  pub expires_at : Option ℕ
  pub quota_mb : ℤ
  pub notes : Option String
  pub node_ids : List String

pub record AccessWithUser : Type 0 where
  pub access : Access
  pub username : String
  pub user_enabled : Bool
  pub user_expires_at : Option ℕ
  pub user_quota_mb : ℤ
