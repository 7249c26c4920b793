-- ===== src/Views/Times/Rounded.antt =====
-- How far the time that a page shows as left is from the time that is left.
use vetka_backend_panel.Prelude.{ℕ, ◌+◌, ◌-◌, ◌%◌, ◌≤◌, ◌<◌, ◌≡◌, ◌⊎◌, arith}
use vetka_backend_panel.Views.Times
use vetka_backend_panel.Views.Times.{minute, max_duration}

-- Until a time that is later than now by at most the greatest duration less a minute, a page shows a whole
-- number of minutes, at least one; it is off by at most half a minute, or it is one minute for less.
pub remaining-close :
    (t now : ℕ)
    → now < t
    → t - now + minute ≤ max_duration
    → (Times.remaining t now % minute ≡ 0)
      × (minute ≤ Times.remaining t now)
      × (now + Times.remaining t now ≤ t + 30000000000 ⊎ Times.remaining t now ≡ minute)
      × (t ≤ now + Times.remaining t now + 30000000000)
unfolding Times.remaining Times.round_minute
remaining-close t now h k = ground (arith, h, k)
