-- ===== src/Go/Values.antt =====
-- url.Values and http.Header: maps from a name to a list of values.
use strava_auth_proxy.Prelude.{
  true, false, Bool, Option, none, some, List, [], ◌∷◌, if◌then◌else◌, ◌≡◌, refl, arith,
}
use strava_auth_proxy.Go.Text.{Str, ◌==◌, eq_iff, eq_refl}

abbrev pub Values : Type 0
Values = List (Str × List Str)

unfoldable pub lookup : Values → Str → Option (List Str)
lookup [] k = none
lookup ((j, vs) ∷ m) k = if j == k then some vs else lookup m k

abbrev pub first : Option (List Str) → Str
first (some (v ∷ vs)) = v
first _ = []

-- The first value, or the empty string.
unfoldable pub get : Values → Str → Str
unfolding lookup
get m k = first (lookup m k)

-- Whether the map has the name.
unfoldable pub has : Values → Str → Bool
unfolding lookup
has m k = elim (lookup m k) [ none ↦ false | some _ ↦ true ]

unfoldable pub set : Values → Str → Str → Values
set [] k v = (k, v ∷ []) ∷ []
set ((j, vs) ∷ m) k v = if j == k then (k, v ∷ []) ∷ m else (j, vs) ∷ set m k v

-- The entries whose names pass a test.
unfoldable pub keep : (Str → Bool) → Values → Values
keep test [] = []
keep test ((j, vs) ∷ m) = let rest = keep test m in if test j then (j, vs) ∷ rest else rest

pub lookup-set :
    (m : Values) (k v j : Str)
    → lookup (set m k v) j ≡ (if k == j then some (v ∷ []) else lookup m j)
unfolding lookup set
lookup-set [] k v j = refl
lookup-set ((i, vs) ∷ m) k v j =
    ground (arith, lookup-set m k v j, eq_iff i k, eq_iff i j, eq_iff k j)

pub lookup-set_self : (m : Values) (k v : Str) → lookup (set m k v) k ≡ some (v ∷ [])
lookup-set_self m k v = rw (lookup-set, eq_refl k)

pub lookup-set_ne :
    (m : Values) (k v j : Str) → (k == j) ≡ false → lookup (set m k v) j ≡ lookup m j
lookup-set_ne m k v j h = rw (lookup-set, h)

pub lookup-keep :
    (test : Str → Bool) (m : Values) (k : Str)
    → lookup (keep test m) k ≡ (if test k then lookup m k else none)
unfolding lookup keep
lookup-keep test [] k = ground arith
lookup-keep test ((j, vs) ∷ m) k = ground (arith, lookup-keep test m k, eq_iff j k)

pub get-set_self : (m : Values) (k v : Str) → get (set m k v) k ≡ v
unfolding get
get-set_self m k v = rw (lookup-set_self m k v)

pub get-set_ne : (m : Values) (k v j : Str) → (k == j) ≡ false → get (set m k v) j ≡ get m j
unfolding get
get-set_ne m k v j h = rw (lookup-set_ne m k v j h)
