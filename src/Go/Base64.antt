-- ===== src/Go/Base64.antt =====
-- encoding/base64: the URL-safe unpadded alphabet and the standard padded one.
pub mod Laws
use strava_auth_proxy.Prelude.{
  ℕ, ◌+◌, ◌-◌, ◌*◌, ◌/◌, ◌%◌, Bool, ◌||◌, Option, none, some, List, [], ◌∷◌, ◌++◌, map, eqb, leb,
  ltb, ◌&&◌, if◌then◌else◌, is_empty,
}
use strava_auth_proxy.Go.Text.{Str}

pub data Alphabet : Type 0 where
  url standard : Alphabet

abbrev char_62 : Alphabet → ℕ
char_62 url = b'-'
char_62 standard = b'+'

abbrev char_63 : Alphabet → ℕ
char_63 url = b'_'
char_63 standard = b'/'

digit : Alphabet → ℕ → ℕ
digit a v =
    if ltb v 26
    then v + 65
    else if ltb v 52
    then v + 71
    else if ltb v 62
    then v - 4
    else if eqb v 62
    then char_62 a
    else char_63 a

value : Alphabet → ℕ → Option ℕ
value a c =
    if leb b'A' c && leb c b'Z'
    then some (c - 65)
    else if leb b'a' c && leb c b'z'
    then some (c - 71)
    else if leb b'0' c && leb c b'9'
    then some (c + 4)
    else if eqb c (char_62 a)
    then some 62
    else if eqb c (char_63 a)
    then some 63
    else none

-- Three bytes are four groups of six bits; a rest of one or two bytes is two or three groups.
sextets : Str → List ℕ
sextets (x ∷ y ∷ z ∷ r) = x / 4 ∷ (x % 4 * 16 + y / 16) ∷ (y % 16 * 4 + z / 64) ∷ z % 64 ∷ sextets r
sextets (x ∷ y ∷ []) = x / 4 ∷ (x % 4 * 16 + y / 16) ∷ y % 16 * 4 ∷ []
sextets (x ∷ []) = x / 4 ∷ x % 4 * 16 ∷ []
sextets [] = []

prepend : Str → Option Str → Option Str
prepend bs none = none
prepend bs (some r) = some (bs ++ r)

-- A rest of one group is an error; the bits left over in the last group are not looked at.
regroup : List ℕ → Option Str
unfolding prepend
regroup (a ∷ b ∷ c ∷ d ∷ r) =
    prepend ((a * 4 + b / 16) ∷ (b % 16 * 16 + c / 4) ∷ (c % 4 * 64 + d) ∷ []) (regroup r)
regroup (a ∷ b ∷ c ∷ []) = some ((a * 4 + b / 16) ∷ (b % 16 * 16 + c / 4) ∷ [])
regroup (a ∷ b ∷ []) = some ((a * 4 + b / 16) ∷ [])
regroup (a ∷ []) = none
regroup [] = some []

values : Alphabet → Str → Option (List ℕ)
values a [] = some []
values a (c ∷ s) = elim (value a c) [
  | none ↦ none
  | some v ↦ elim (values a s) [ none ↦ none | some vs ↦ some (v ∷ vs) ]
]

-- Decoding skips line breaks.
strip_newlines : Str → Str
strip_newlines [] = []
strip_newlines (c ∷ s) =
    let rest = strip_newlines s in if eqb c 10 || eqb c 13 then rest else c ∷ rest

-- RawURLEncoding (and the digits of StdEncoding, before its padding).
unfoldable pub encode_raw : Alphabet → Str → Str
unfolding digit sextets
encode_raw a bs = map (digit a) (sextets bs)

unfoldable pub decode_raw : Alphabet → Str → Option Str
unfolding value regroup values strip_newlines
decode_raw a s = elim (values a (strip_newlines s)) [ none ↦ none | some vs ↦ regroup vs ]

padding : List ℕ → Str
padding (a ∷ b ∷ c ∷ d ∷ r) = padding r
padding (a ∷ b ∷ c ∷ []) = b'=' ∷ []
padding (a ∷ b ∷ []) = b'=' ∷ b'=' ∷ []
padding _ = []

-- StdEncoding.EncodeToString.
unfoldable pub encode_std : Str → Str
unfolding padding digit sextets
encode_std bs = let s = sextets bs in map (digit standard) s ++ padding s

-- Groups of four, the last of which may end in one or two `=`.
unpad : Str → Option Str
unpad [] = some []
unpad (a ∷ b ∷ c ∷ d ∷ r) =
    if eqb d b'=' && is_empty r
    then some (a ∷ b ∷ (if eqb c b'=' then [] else c ∷ []))
    else elim (unpad r) [ none ↦ none | some t ↦ some (a ∷ b ∷ c ∷ d ∷ t) ]
unpad _ = none

-- StdEncoding.DecodeString; `=` is no digit, so padding elsewhere is refused by `values`.
unfoldable pub decode_std : Str → Option Str
unfolding unpad value regroup values strip_newlines
decode_std s = elim (unpad (strip_newlines s)) [
  | none ↦ none
  | some digits ↦ elim (values standard digits) [ none ↦ none | some vs ↦ regroup vs ]
]
