-- ===== src/Fakestrava/Names.antt =====
-- The names that the simulated Strava mints: those of different numbers differ.
use strava_auth_proxy.Prelude.{
  ◌∙◌, sym, ◌≤◌, ℕ, ◌+◌, ◌≡◌, ◌≢◌, ap, refl, Option, some, [], ◌∷◌, ◌++◌, arith, length,
  length-append,
}
use strava_auth_proxy.Go.Text.{Str, itoa}
use strava_auth_proxy.Go.Text.Digits.{itoa_injective}
use strava_auth_proxy.Go.Base64.{url}
use strava_auth_proxy.Go.Base64.Laws.{length-encode_raw}
use strava_auth_proxy.Fakestrava.Grants.{Moment, random_suffix}

-- Texts that end in equally long suffixes agree before them when they agree.
append_left : (a b : Str) (x y : Str) → length x ≡ length y → a ++ x ≡ b ++ y → a ≡ b
append_left [] [] x y h e = refl
append_left [] (d ∷ b) x y h e = absurd (omega (arith, h, ap (λ s. length s) e, length-append b y))
append_left (c ∷ a) [] x y h e = absurd (omega (arith, h, ap (λ s. length s) e, length-append a x))
append_left (c ∷ a) (d ∷ b) x y h e = ground (arith, append_left a b x y h)

append_right : (p a b : Str) → p ++ a ≡ p ++ b → a ≡ b
append_right [] a b e = e
append_right (c ∷ p) a b e = ground (arith, append_right p a b)

abbrev pub suffix_length : ℕ
suffix_length = 12

-- A name that stands for one of the numbers up to `seq`.
abbrev pub IsNamed : Str → ℕ → Str → Type 0
IsNamed word seq name =
    (n : ℕ) × (suffix : Str) × (n ≤ seq)
    × (length suffix ≡ suffix_length)
    × (name ≡ word ++ itoa n ++ suffix)

-- The random source gives its nine bytes.
abbrev pub IsDrawn : Moment → Type 0
IsDrawn m =
    (b : Str) × (b' : Str) × (m.random ≡ some b)
    × (m.random' ≡ some b')
    × (length b ≡ 9)
    × (length b' ≡ 9)

pub length-random_suffix :
    (o : Option Str) (b : Str)
    → o ≡ some b
    → length b ≡ 9
    → length (random_suffix o) ≡ suffix_length
unfolding random_suffix
length-random_suffix o b e h = rw (e, length-encode_raw url b, h)

pub fresh_name :
    (word name : Str) (seq : ℕ) (suffix : Str)
    → IsNamed word seq name
    → length suffix ≡ suffix_length
    → name ≢ (word ++ itoa (seq + 1) ++ suffix)
fresh_name word name seq suffix (n, s, h, l, e) k d =
    let words =
      append_left (word ++ itoa n) (word ++ itoa (seq + 1)) s suffix (omega (arith, l, k))
        (sym e ∙ d) in
    let same = itoa_injective n (seq + 1) (append_right word (itoa n) (itoa (seq + 1)) words) in
    omega (arith, same, h)

pub IsNamed-weaken : (word name : Str) (m n : ℕ) → m ≤ n → IsNamed word m name → IsNamed word n name
IsNamed-weaken word name m n h (k, s, l, sized, e) = (k, s, omega (arith, h, l), sized, e)
