-- ===== src/Go/Text.antt =====
-- Go strings: sequences of bytes, and the operations of package strings that the source calls.
pub mod Digits
use strava_auth_proxy.Prelude.{
  ◌/◌, ◌%◌, ◌+◌, ◌/◌, ◌%◌, is_empty, ◌+◌, ℕ, suc, zero, ◌≡◌, ◌≢◌, ◌↔◌, refl, Bool, true, false,
  ◌&&◌, ◌||◌, Option, none, some, List, [], ◌∷◌, ◌++◌, arith, eqb, if◌then◌else◌, length, map,
}
use Prim.Native.Char.{code}
use Prim.Native.String.{String}
use mathlib.Core.List.{reverse}

abbrev pub Str : Type 0
Str = List ℕ

-- A literal: the code points of an ASCII text are its bytes.
abbrev pub str : String → Str
str String.[] = []
str (String.◌∷◌ c s) = code c ∷ str s

infix 50 ◌==◌
unfoldable pub ◌==◌ : Str → Str → Bool
[] == [] = true
[] == (y ∷ ys) = false
(x ∷ xs) == [] = false
(x ∷ xs) == (y ∷ ys) = eqb x y && xs == ys

==_sound : (s t : Str) → (s == t) ≡ true → s ≡ t
unfolding ◌==◌
==_sound [] [] h = refl
==_sound [] (y ∷ ys) h = ground arith
==_sound (x ∷ xs) [] h = ground arith
==_sound (x ∷ xs) (y ∷ ys) h = ground (arith, ==_sound xs ys)

pub eq_refl : (s : Str) → (s == s) ≡ true
unfolding ◌==◌
eq_refl [] = refl
eq_refl (x ∷ xs) = ground (arith, eq_refl xs)

pub eq_iff : (s t : Str) → ((s == t) ≡ true) ↔ (s ≡ t)
eq_iff s t = (==_sound s t, λ e. ground (arith, eq_refl s))

-- Distinct literals: the premise is `refl` where `◌==◌` is unfolded.
pub ne_of_test : (s t : Str) → (s == t) ≡ false → s ≢ t
ne_of_test s t h e = ground (arith, eq_iff s t)

-- strings.Contains(s, sep) and bytes of one-byte separators.
unfoldable pub contains : Str → ℕ → Bool
contains [] c = false
contains (x ∷ xs) c = eqb x c || contains xs c

unfoldable pub has_prefix : Str → Str → Bool
has_prefix s [] = true
has_prefix [] (p ∷ ps) = false
has_prefix (x ∷ xs) (p ∷ ps) = eqb x p && has_prefix xs ps

-- strings.Split at a one-byte separator.
abbrev push : ℕ → List Str → List Str
push c [] = (c ∷ []) ∷ []
push c (p ∷ ps) = (c ∷ p) ∷ ps

unfoldable pub split : Str → ℕ → List Str
split [] sep = [] ∷ []
split (c ∷ s) sep = let rest = split s sep in if eqb c sep then [] ∷ rest else push c rest

pub split-join :
    (a s : Str) (sep : ℕ) → contains a sep ≡ false → split (a ++ sep ∷ s) sep ≡ a ∷ split s sep
unfolding split contains
split-join [] s sep h = ground arith
split-join (c ∷ a) s sep h = ground (arith, split-join a s sep)

pub split_single : (a : Str) (sep : ℕ) → contains a sep ≡ false → split a sep ≡ a ∷ []
unfolding split contains
split_single [] sep h = refl
split_single (c ∷ a) sep h = ground (arith, split_single a sep)

pub contains-append : (a b : Str) (c : ℕ) → contains (a ++ b) c ≡ (contains a c || contains b c)
unfolding contains
contains-append [] b c = refl
contains-append (x ∷ a) b c = ground (arith, contains-append a b c)

-- strings.Cut at a one-byte separator: none when the separator is absent.
unfoldable pub cut : Str → ℕ → Option (Str × Str)
cut [] sep = none
cut (c ∷ s) sep =
    let rest = cut s sep in
    if eqb c sep then some ([], s) else elim rest [ none ↦ none | some (a, b) ↦ some (c ∷ a, b) ]

pub cut-append :
    (a s : Str) (sep : ℕ) → contains a sep ≡ false → cut (a ++ sep ∷ s) sep ≡ some (a, s)
unfolding cut contains
cut-append [] s sep h = ground arith
cut-append (c ∷ a) s sep h = ground (arith, cut-append a s sep)

-- strings.TrimRight(s, cutset) for a cutset of one byte.
abbrev drop_while_eq : Str → ℕ → Str
drop_while_eq [] c = []
drop_while_eq (x ∷ xs) c = if eqb x c then drop_while_eq xs c else x ∷ xs

unfoldable pub trim_right : Str → ℕ → Str
trim_right s c = reverse (drop_while_eq (reverse s) c)

-- unicode.IsSpace, as the UTF-8 sequences of its code points.
abbrev space_runes : List Str
space_runes =
    (9 ∷ [])
    ∷ (10 ∷ [])
    ∷ (11 ∷ [])
    ∷ (12 ∷ [])
    ∷ (13 ∷ [])
    ∷ (32 ∷ [])
    ∷ (0xc2 ∷ 0x85 ∷ [])
    ∷ (0xc2 ∷ 0xa0 ∷ [])
    ∷ (0xe1 ∷ 0x9a ∷ 0x80 ∷ [])
    ∷ (0xe2 ∷ 0x80 ∷ 0x80 ∷ [])
    ∷ (0xe2 ∷ 0x80 ∷ 0x81 ∷ [])
    ∷ (0xe2 ∷ 0x80 ∷ 0x82 ∷ [])
    ∷ (0xe2 ∷ 0x80 ∷ 0x83 ∷ [])
    ∷ (0xe2 ∷ 0x80 ∷ 0x84 ∷ [])
    ∷ (0xe2 ∷ 0x80 ∷ 0x85 ∷ [])
    ∷ (0xe2 ∷ 0x80 ∷ 0x86 ∷ [])
    ∷ (0xe2 ∷ 0x80 ∷ 0x87 ∷ [])
    ∷ (0xe2 ∷ 0x80 ∷ 0x88 ∷ [])
    ∷ (0xe2 ∷ 0x80 ∷ 0x89 ∷ [])
    ∷ (0xe2 ∷ 0x80 ∷ 0x8a ∷ [])
    ∷ (0xe2 ∷ 0x80 ∷ 0xa8 ∷ [])
    ∷ (0xe2 ∷ 0x80 ∷ 0xa9 ∷ [])
    ∷ (0xe2 ∷ 0x80 ∷ 0xaf ∷ [])
    ∷ (0xe2 ∷ 0x81 ∷ 0x9f ∷ [])
    ∷ (0xe3 ∷ 0x80 ∷ 0x80 ∷ [])
    ∷ []

strip_prefix : Str → Str → Option Str
strip_prefix [] s = some s
strip_prefix (p ∷ ps) [] = none
strip_prefix (p ∷ ps) (x ∷ xs) = if eqb p x then strip_prefix ps xs else none

strip_first : List Str → Str → Option Str
strip_first [] s = none
strip_first (p ∷ ps) s = elim (strip_prefix p s) [ some rest ↦ some rest | none ↦ strip_first ps s ]

-- Every round drops a byte at least, so as many rounds as there are bytes are enough.
trim_prefixes : ℕ → List Str → Str → Str
trim_prefixes zero ps s = s
trim_prefixes (suc n) ps s = elim (strip_first ps s) [
  | some rest ↦ trim_prefixes n ps rest
  | none ↦ s
]

-- strings.TrimSpace.
unfoldable pub trim_space : Str → Str
unfolding strip_prefix strip_first trim_prefixes
trim_space s =
    let left = trim_prefixes (length s) space_runes s in
    reverse (trim_prefixes (length left) (map reverse space_runes) (reverse left))

trim_space_test : trim_space ((9 ∷ str " k1=ab  ") ++ 0xc2 ∷ 0xa0 ∷ []) ≡ str "k1=ab"
unfolding trim_space
trim_space_test = refl

split_test : split (str "a,,b") b',' ≡ str "a" ∷ str "" ∷ str "b" ∷ []
unfolding split
split_test = refl

-- strings.Contains.
unfoldable pub contains_str : Str → Str → Bool
contains_str [] t = is_empty t
contains_str (c ∷ s) t = has_prefix (c ∷ s) t || contains_str s t

-- Decimal digits in front of `acc`; a number has no more digits than its size plus one.
decimal : ℕ → ℕ → Str → Str
decimal zero n acc = acc
decimal (suc fuel) n acc =
    let digit = (48 + n % 10) ∷ acc in
    let more = decimal fuel (n / 10) digit in if eqb (n / 10) 0 then digit else more

-- strconv.Itoa of a number.
unfoldable pub itoa : ℕ → Str
unfolding decimal
itoa n = decimal (n + 1) n []

itoa_test : itoa 294 ≡ str "294"
unfolding itoa
itoa_test = refl
