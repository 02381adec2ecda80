-- ===== src/Tests/Form.antt =====
-- A concrete form encoding, for the examples: each name and each first value, with its codes raised
-- by one and a zero at its end.
use strava_auth_proxy.Prelude.{
  inr, inl, Bool-cases, some, sym, zero, suc, List, [], ◌∷◌, ◌++◌, ◌≡◌, ◌∙◌, refl, ap, append_assoc,
  append-nil,
}
use strava_auth_proxy.Go.Text.{Str, ◌==◌}
use strava_auth_proxy.Go.Values.{Values, get, lookup, first}

put_text : Str → Str → Str
put_text [] rest = 0 ∷ rest
put_text (c ∷ s) rest = suc c ∷ put_text s rest

unfoldable pub encode : Values → Str
unfolding put_text
encode [] = []
encode ((k, vs) ∷ m) = put_text k (put_text (first (some vs)) (encode m))

texts : Str → Str → List Str
texts current [] = []
texts current (zero ∷ s) = current ∷ texts [] s
texts current (suc c ∷ s) = texts (current ++ c ∷ []) s

pairs : List Str → Values
pairs [] = []
pairs (k ∷ []) = []
pairs (k ∷ v ∷ rest) = (k, v ∷ []) ∷ pairs rest

unfoldable pub decode : Str → Values
unfolding texts pairs
decode s = pairs (texts [] s)

texts-put_text :
    (current s rest : Str) → texts current (put_text s rest) ≡ (current ++ s) ∷ texts [] rest
unfolding texts put_text
texts-put_text current [] rest = ap (λ t. t ∷ texts [] rest) (sym (append-nil current))
texts-put_text current (c ∷ s) rest =
    texts-put_text (current ++ c ∷ []) s rest
    ∙ ap (λ t. t ∷ texts [] rest) (append_assoc current (c ∷ []) s)

first_of_first : (vs : List Str) → first (some (first (some vs) ∷ [])) ≡ first (some vs)
first_of_first [] = refl
first_of_first (v ∷ vs) = refl

-- What is read of an encoded form is its first values.
pub get-decode-encode : (m : Values) (k : Str) → get (decode (encode m)) k ≡ get m k
unfolding get lookup decode encode pairs texts
get-decode-encode [] k = refl
get-decode-encode ((j, vs) ∷ m) k =
    let v = first (some vs) in
    rw (texts-put_text [] j (put_text v (encode m)), texts-put_text [] v (encode m))
      (elim (Bool-cases (j == k)) [
        | inl e ↦ rw e (first_of_first vs)
        | inr e ↦ rw e (get-decode-encode m k)
      ])
