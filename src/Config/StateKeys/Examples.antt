-- ===== src/Config/StateKeys/Examples.antt =====
-- A key ring of one key.
use strava_auth_proxy.Go.Hex
use strava_auth_proxy.Config.{valid_kid, mem, StateKey}
use strava_auth_proxy.Go.Text.{split, trim_space, cut, Str, str}
use strava_auth_proxy.Config.StateKeys.{
  parse_entries, parse_entry, parse_pair, decode_key, parse_state_keys,
}
use strava_auth_proxy.Prelude.{◌≡◌, ◌≢◌, refl, List, [], ◌∷◌, ok, replicate}
use strava_auth_proxy.Config.StateKeys.Sound.{parse_state_keys-validate_keys}
use strava_auth_proxy.Config.Validate.{validate_keys}

abbrev spec : Str
spec = str " k1 = 0b0b0b0b0b0b0b0b0b0b0b0b0b0b0b0b0b0b0b0b0b0b0b0b0b0b0b0b0b0b0b0b,, "

abbrev keys : List StateKey
keys = record { kid = str "k1"; key = replicate 32 11 } ∷ []

parses : parse_state_keys spec ≡ ok keys
unfolding parse_state_keys parse_entries split trim_space parse_entry cut parse_pair valid_kid mem
    decode_key Hex.decode
parses = refl

parse_state_keys-validate_keys_example : (keys ≢ []) × (validate_keys keys [] ≡ ok tt)
parse_state_keys-validate_keys_example = parse_state_keys-validate_keys spec keys parses
