-- ===== src/Go/Time.antt =====
-- What the source uses of package time: instants and durations in nanoseconds.
use strava_auth_proxy.Prelude.{ℕ, ◌-◌, ◌/◌, ◌^◌, if◌then◌else◌}
use strava_auth_proxy.Prelude.Int.{ℤ, pos, negsuc, ◌-ℤ◌, scale, ltb_ℤ}

-- Nanoseconds since the Unix epoch.
abbrev pub Instant : Type 0
Instant = ℤ

abbrev pub Duration : Type 0
Duration = ℤ

abbrev pub second : ℕ
second = 1_000_000_000

abbrev pub max_int64 : ℕ
max_int64 = 2 ^ 63 - 1

-- Durations are int64, and Time.Sub saturates at both ends.
unfoldable pub saturate : ℤ → Duration
saturate d =
    if ltb_ℤ (pos max_int64) d
    then pos max_int64
    else if ltb_ℤ d (negsuc max_int64)
    then negsuc max_int64
    else d

unfoldable pub sub : Instant → Instant → Duration
unfolding saturate
sub t u = saturate (t -ℤ u)

-- The seconds from year 1, from which package time counts, to the Unix epoch.
abbrev pub unix_to_internal : ℕ
unix_to_internal = 62_135_596_800

-- time.Unix(s, 0): the count from year 1 is an int64 and wraps around.
unfoldable pub unix : ℤ → Instant
unix s =
    scale second (if ltb_ℤ (pos (max_int64 - unix_to_internal)) s then s -ℤ pos (2 ^ 64) else s)

-- Time.Unix(): whole seconds, rounded down.
unfoldable pub to_unix : Instant → ℤ
to_unix (pos n) = pos (n / second)
to_unix (negsuc n) = negsuc (n / second)
