-- ===== src/Seal/Window.antt =====
-- The issue-time window of `open_envelope`.
use strava_auth_proxy.Prelude.{ℕ, ◌+◌, ◌*◌, ◌/◌, ◌^◌, ◌≤◌, ◌<◌, ◌≡◌, ◌↔◌, ok, arith}
use strava_auth_proxy.Prelude.Int.{pos, ◌-ℤ◌, scale}
use strava_auth_proxy.Go.Time.{second, max_int64, unix, sub, to_unix}
use strava_auth_proxy.Seal.{check_window}

-- Away from the end of int64 the seconds are not wrapped.
unix_pos : (i : ℕ) → i ≤ 2 ^ 62 → unix (pos i) ≡ pos (i * second)
unfolding unix scale
unix_pos i h = ground arith

-- With a positive TTL below the largest duration, an issue time from 0 to 2^62 seconds is accepted
-- exactly from a minute ahead of now back to the TTL before now, both ends included.
pub check_window_iff :
    (i n t : ℕ)
    → i ≤ 2 ^ 62
    → 0 < t
    → t < max_int64
    → (check_window (pos i) (pos t) (pos n) ≡ ok tt)
      ↔ ((i * second ≤ n + 60 * second) × (n ≤ i * second + t))
unfolding check_window sub ◌-ℤ◌
check_window_iff i n t hi ht hm = rw (unix_pos i hi, check_window) (ground arith)

-- An envelope issued at the present second is in every window of a second or more.
pub check_window_now :
    (n t : ℕ)
    → n ≤ 2 ^ 62
    → second ≤ t
    → t < max_int64
    → check_window (to_unix (pos n)) (pos t) (pos n) ≡ ok tt
unfolding to_unix
check_window_now n t hn ht hm =
    (check_window_iff (n / second) n t (omega arith) (omega arith) hm).1 (omega arith, omega arith)
