-- ===== src/Go/Hex.antt =====
-- encoding/hex.
use strava_auth_proxy.Prelude.{
  ℕ, ◌+◌, ◌-◌, ◌*◌, ◌&&◌, Option, none, some, [], ◌∷◌, leb, if◌then◌else◌, ◌≡◌, refl,
}
use strava_auth_proxy.Go.Text.{Str, str}

hex_value : ℕ → Option ℕ
hex_value c =
    if leb b'0' c && leb c b'9'
    then some (c - 48)
    else if leb b'a' c && leb c b'f'
    then some (c - 87)
    else if leb b'A' c && leb c b'F'
    then some (c - 55)
    else none

abbrev hex_byte : Option ℕ → Option ℕ → Option Str → Option Str
hex_byte (some h) (some l) (some r) = some ((h * 16 + l) ∷ r)
hex_byte _ _ _ = none

-- hex.DecodeString: an odd length or another character is an error.
unfoldable pub decode : Str → Option Str
unfolding hex_value
decode [] = some []
decode (h ∷ l ∷ s) = hex_byte (hex_value h) (hex_value l) (decode s)
decode (h ∷ []) = none

decode_test : decode (str "00fFa1") ≡ some (0 ∷ 255 ∷ 161 ∷ [])
unfolding decode
decode_test = refl
