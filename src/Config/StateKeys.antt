-- ===== src/Config/StateKeys.antt =====
-- `parseStateKeys`: the key ring of "kid=key,kid=key".
pub mod Sound
mod Examples
use strava_auth_proxy.Prelude.{
  not, ◌||◌, Option, none, some, List, [], ◌∷◌, ◌++◌, Result, ok, err, ◌>>=◌, ltb, length, is_empty,
  if◌then◌else◌,
}
use strava_auth_proxy.Go.Text.{Str, split, cut, trim_space}
use strava_auth_proxy.Go.Base64.{url, decode_raw, decode_std}
use strava_auth_proxy.Go.Hex
use strava_auth_proxy.Config.{
  Error, empty_key_ring, malformed_state_key, duplicate_kid, short_state_key, StateKey,
  min_state_key_len, mem, valid_kid,
}

-- Hex, else unpadded URL-safe base64, else standard base64.
decode_key : Str → Option Str
decode_key s = elim (Hex.decode s) [
  | some b ↦ some b
  | none ↦ elim (decode_raw url s) [ some b ↦ some b | none ↦ decode_std s ]
]

-- The checks on an entry that has its "=".
parse_pair : Str → Str → Str → List Str → Result Error StateKey
parse_pair entry kid encoded seen =
    if is_empty kid || is_empty encoded
    then err (malformed_state_key entry)
    else if not (valid_kid kid)
    then err (malformed_state_key kid)
    else if mem kid seen
    then err (duplicate_kid kid)
    else elim (decode_key encoded) [
      | none ↦ err (malformed_state_key kid)
      | some key ↦
          if ltb (length key) min_state_key_len
          then err (short_state_key kid (length key))
          else ok (record { kid = kid; key = key })
    ]

parse_entry : Str → List Str → Result Error StateKey
parse_entry entry seen = elim (cut entry b'=') [
  | none ↦ err (malformed_state_key entry)
  | some (kid, encoded) ↦ parse_pair entry (trim_space kid) (trim_space encoded) seen
]

-- The loop, with the kids seen and the keys so far.
parse_entries : List Str → List Str → List StateKey → Result Error (List StateKey)
parse_entries [] seen keys = ok keys
parse_entries (raw ∷ entries) seen keys =
    let entry = trim_space raw in
    let skipped = parse_entries entries seen keys in
    let added = (do
      k ← parse_entry entry seen
      parse_entries entries (k.kid ∷ seen) (keys ++ k ∷ [])) in
    if is_empty entry then skipped else added

not_empty : List StateKey → Result Error (List StateKey)
not_empty [] = err empty_key_ring
not_empty (k ∷ keys) = ok (k ∷ keys)

pub parse_state_keys : Str → Result Error (List StateKey)
unfolding not_empty
parse_state_keys spec = do keys ← parse_entries (split spec b',') [] []; not_empty keys
