-- ===== src/Metrics.antt =====
-- internal/metrics/metrics.go: three published maps of counters.
use strava_auth_proxy.Prelude.{ℕ, ◌+◌, ◌≡◌, List, [], ◌∷◌, is_empty, if◌then◌else◌, arith}
use strava_auth_proxy.Go.Text.{Str, ◌==◌, eq_iff}

abbrev pub Counters : Type 0
Counters = List (Str × ℕ)

-- The value of a counter; one that was never counted is at zero.
unfoldable pub count : Counters → Str → ℕ
count [] key = 0
count ((k, n) ∷ m) key = if k == key then n else count m key

-- expvar's Map.Add(key, 1).
add_one : Counters → Str → Counters
add_one [] key = (key, 1) ∷ []
add_one ((k, n) ∷ m) key = if k == key then (k, n + 1) ∷ m else (k, n) ∷ add_one m key

-- `Inc`, on a map that is there.
unfoldable pub inc : Counters → Str → Counters
unfolding add_one
inc m key = if is_empty key then m else add_one m key

pub record Metrics : Type 0 where
  pub oauth_callbacks : Counters
  pub token_exchanges : Counters
  pub upstream_errors : Counters

count-add_one :
    (m : Counters) (key j : Str)
    → count (add_one m key) j ≡ (if key == j then count m j + 1 else count m j)
unfolding count add_one
count-add_one [] key j = ground arith
count-add_one ((k, n) ∷ m) key j =
    ground (arith, count-add_one m key j, eq_iff k key, eq_iff k j, eq_iff key j)

-- Counting under a key that is not empty adds one to that counter and to no other; under the empty
-- key it changes nothing.
pub count-inc :
    (m : Counters) (key j : Str)
    → count (inc m key) j
      ≡ (if is_empty key then count m j else if key == j then count m j + 1 else count m j)
unfolding inc
count-inc m key j = ground (arith, count-add_one m key j)
