-- ===== src/Users/Expiry/Candidates.antt =====
-- The candidates of internal/users/expiry_reconciler.go and the query of internal/users/repository.go.
use vetka_backend_panel.Prelude.{
  ℕ, Bool, true, false, ◌≡◌, refl, Option, none, some, arith, not, ◌&&◌, ◌||◌, is_some,
  if◌then◌else◌,
}
use vetka_backend_panel.Users.Models.{User}
use vetka_backend_panel.Users.Repository.{is_pending, expired_unsynced}
use vetka_backend_panel.Users.Expiry.{needs_expiry_sync, due}

due-expired_unsynced :
    (now : ℕ) (expires synced : Option ℕ)
    → due now expires synced ≡ expired_unsynced now expires synced
due-expired_unsynced now none synced = refl
due-expired_unsynced now (some t) none = ground arith
due-expired_unsynced now (some t) (some s) = ground arith

needs-due :
    (enabled : Bool) (now : ℕ) (expires synced : Option ℕ)
    → (if not enabled || not (is_some expires) then false else due now expires synced)
      ≡ (enabled && expired_unsynced now expires synced)
needs-due false now expires synced = refl
needs-due true now none synced = refl
needs-due true now (some t) synced = due-expired_unsynced now (some t) synced

-- The reconciler's own test on a candidate is the condition of the query, at the same time.
pub needs_expiry_sync-is_pending : (u : User) (now : ℕ) → needs_expiry_sync u now ≡ is_pending now u
unfolding needs_expiry_sync is_pending
needs_expiry_sync-is_pending u now = needs-due u.enabled now u.expires_at u.expiry_synced_at
