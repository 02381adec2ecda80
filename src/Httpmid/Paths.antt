-- ===== src/Httpmid/Paths.antt =====
-- What `safe_path` lets through.
use native.Mathlib.Nat.{le_trans, le-add_right}
use strava_auth_proxy.Prelude.{
  Bool-cases, inl, inr, ltb-false, ltb-false→le, ℕ, ◌+◌, ◌≤◌, ◌≡◌, ◌≢◌, refl, arith, [], ◌∷◌, ◌++◌,
  length, take, map, All, length-take, length-append, ltb,
}
use strava_auth_proxy.Go.Text.{Str}
use strava_auth_proxy.Go.Http.{Request}
use strava_auth_proxy.Httpmid.{clean_byte, shortened, safe_path, ellipsis, max_logged_path_len}

-- No control byte, and not DEL.
abbrev pub IsPlain : ℕ → Type 0
IsPlain c = (0x20 ≤ c) × (c ≢ 0x7f)

clean_byte-IsPlain : (c : ℕ) → IsPlain (clean_byte c)
unfolding clean_byte
clean_byte-IsPlain c = ground arith

map-clean_byte-IsPlain : (p : Str) → All IsPlain (map clean_byte p)
map-clean_byte-IsPlain [] = tt
map-clean_byte-IsPlain (c ∷ p) = (clean_byte-IsPlain c, map-clean_byte-IsPlain p)

map-clean_byte_plain : (p : Str) → All IsPlain p → map clean_byte p ≡ p
unfolding clean_byte
map-clean_byte_plain [] h = refl
map-clean_byte_plain (c ∷ p) h = ground (arith, map-clean_byte_plain p h.1)

length-map : (f : ℕ → ℕ) (p : Str) → length (map f p) ≡ length p
length-map f [] = refl
length-map f (c ∷ p) = ground (arith, length-map f p)

length-marked : (n : ℕ) (p : Str) → length (take n p ++ ellipsis) ≤ n + 3
length-marked n p = omega (arith, length-append (take n p) ellipsis, length-take n p)

length-shortened : (p : Str) → length (shortened p) ≤ max_logged_path_len + 3
unfolding shortened
length-shortened p = elim (Bool-cases (ltb max_logged_path_len (length p))) [
  | inl long ↦ rw long (length-marked max_logged_path_len p)
  | inr short ↦ rw short (le_trans (ltb-false→le _ _ short) (le-add_right max_logged_path_len 3))
]

shortened_short : (p : Str) → length p ≤ max_logged_path_len → shortened p ≡ p
unfolding shortened
shortened_short p h = rw (ltb-false max_logged_path_len (length p) h) refl

-- The path that is logged has no control byte, whatever the caller sent, and at most 259 bytes; a
-- path of at most 256 bytes without control bytes is logged as it is.
pub safe_path-IsPlain :
    (r : Request)
    → All IsPlain (safe_path r)
      × (length (safe_path r) ≤ max_logged_path_len + 3)
      × (All IsPlain r.path → length r.path ≤ max_logged_path_len → safe_path r ≡ r.path)
unfolding safe_path
safe_path-IsPlain r = (
  map-clean_byte-IsPlain (shortened r.path),
  omega (arith, length-map clean_byte (shortened r.path), length-shortened r.path),
  λ plain short. rw (shortened_short r.path short) (map-clean_byte_plain r.path plain),
)
