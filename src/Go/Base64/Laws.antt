-- ===== src/Go/Base64/Laws.antt =====
-- Decoding what was encoded.
use strava_auth_proxy.Prelude.{
  ◌∙◌, suc, ◌/◌, ap, ◌+◌, length, ℕ, ◌<◌, ◌≡◌, ◌≢◌, refl, false, some, List, [], ◌∷◌, map, arith,
  All,
}
use strava_auth_proxy.Go.Text.{Str, str, contains}
use strava_auth_proxy.Go.Base64.{
  Alphabet, url, standard, digit, value, sextets, prepend, regroup, values, strip_newlines,
  encode_raw, decode_raw,
}

abbrev pub IsByte : ℕ → Type 0
IsByte b = b < 256

abbrev pub IsBytes : Str → Type 0
IsBytes = All IsByte

value-digit : (a : Alphabet) (v : ℕ) → v < 64 → value a (digit a v) ≡ some v
unfolding value digit
value-digit url v h = ground arith
value-digit standard v h = ground arith

digit_plain :
    (a : Alphabet) (v : ℕ)
    → (digit a v ≢ 10) × (digit a v ≢ 13) × (digit a v ≢ b'.') × (digit a v ≢ b'=')
unfolding digit
digit_plain url v = (ground arith, ground arith, ground arith, ground arith)
digit_plain standard v = (ground arith, ground arith, ground arith, ground arith)

sextets-All : (bs : Str) → IsBytes bs → All (λ v. v < 64) (sextets bs)
unfolding sextets
sextets-All (x ∷ y ∷ z ∷ r) h =
    (omega arith, (omega arith, (omega arith, (omega arith, sextets-All r h.1.1.1))))
sextets-All (x ∷ y ∷ []) h = omega arith
sextets-All (x ∷ []) h = omega arith
sextets-All [] h = tt

regroup-sextets : (bs : Str) → IsBytes bs → regroup (sextets bs) ≡ some bs
unfolding sextets regroup prepend
regroup-sextets (x ∷ y ∷ z ∷ r) h = ground (arith, regroup-sextets r h.1.1.1)
regroup-sextets (x ∷ y ∷ []) h = ground arith
regroup-sextets (x ∷ []) (hx, h) = ground arith
regroup-sextets [] h = refl

values-digits :
    (a : Alphabet) (vs : List ℕ) → All (λ v. v < 64) vs → values a (map (digit a) vs) ≡ some vs
unfolding values
values-digits a [] h = refl
values-digits a (v ∷ vs) (hv, h) = ground (arith, value-digit a v hv, values-digits a vs h)

strip-digits : (a : Alphabet) (vs : List ℕ) → strip_newlines (map (digit a) vs) ≡ map (digit a) vs
unfolding strip_newlines
strip-digits a [] = refl
strip-digits a (v ∷ vs) = ground (arith, strip-digits a vs, digit_plain a v)

-- Decoding an encoding of bytes gives the bytes back.
pub decode_raw-encode_raw :
    (a : Alphabet) (bs : Str) → IsBytes bs → decode_raw a (encode_raw a bs) ≡ some bs
unfolding decode_raw encode_raw
decode_raw-encode_raw a bs h = ground (
  arith,
  strip-digits a (sextets bs),
  values-digits a (sextets bs) (sextets-All bs h),
  regroup-sextets bs h,
)

digits-contains : (a : Alphabet) (vs : List ℕ) → contains (map (digit a) vs) b'.' ≡ false
unfolding contains
digits-contains a [] = refl
digits-contains a (v ∷ vs) = ground (arith, digits-contains a vs, digit_plain a v)

-- An encoding has no dot.
pub contains-encode_raw : (a : Alphabet) (bs : Str) → contains (encode_raw a bs) b'.' ≡ false
unfolding encode_raw
contains-encode_raw a bs = digits-contains a (sextets bs)

length-sextets : (bs : Str) → length (sextets bs) ≡ length bs + (length bs + 2) / 3
unfolding sextets
length-sextets (x ∷ y ∷ z ∷ r) = omega (arith, length-sextets r)
length-sextets (x ∷ y ∷ []) = refl
length-sextets (x ∷ []) = refl
length-sextets [] = refl

length-map : {A B : Type 0} (f : A → B) (xs : List A) → length (map f xs) ≡ length xs
length-map f [] = refl
length-map f (x ∷ xs) = ap (λ n. suc n) (length-map f xs)

-- Four digits stand for three bytes, and one more than the bytes that are left for the rest.
pub length-encode_raw :
    (a : Alphabet) (bs : Str) → length (encode_raw a bs) ≡ length bs + (length bs + 2) / 3
unfolding encode_raw
length-encode_raw a bs = length-map (digit a) (sextets bs) ∙ length-sextets bs

encode_test : encode_raw url (str "Ma?") ≡ str "TWE_"
unfolding encode_raw
encode_test = refl
