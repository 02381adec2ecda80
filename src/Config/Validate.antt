-- ===== src/Config/Validate.antt =====
-- `validate`: the gate that every configuration passes before it is published.
use strava_auth_proxy.Prelude.{
  Bool, true, false, not, ◌&&◌, ◌||◌, List, [], ◌∷◌, Result, ok, err, ◌>>◌, ltb, length, is_empty,
}
use strava_auth_proxy.Prelude.Int.{pos, ltb_ℤ}
use strava_auth_proxy.Go.Text.{Str, str, ◌==◌}
use strava_auth_proxy.Config.{
  Error, missing_strava_client_id, missing_strava_client_secret, invalid_public_url,
  invalid_upstream_base_url, invalid_state_ttl, empty_key_ring, malformed_state_key, duplicate_kid,
  short_state_key, no_clients, invalid_client_id, no_redirect_uris, tls_required, StateKey, Client,
  Config, Libraries, is_zero, min_state_key_len, mem, valid_kid, is_all_digits, validate_abs_url,
  validate_redirect_uris,
}

unfoldable pub require : Bool → Error → Result Error (Unit {0})
require true e = ok tt
require false e = err e

-- The loop over the state keys, with the kids seen.
unfoldable pub validate_keys : List StateKey → List Str → Result Error (Unit {0})
validate_keys [] seen = ok tt
validate_keys (k ∷ keys) seen = do
  require (valid_kid k.kid) (malformed_state_key k.kid)
  require (not (mem k.kid seen)) (duplicate_kid k.kid)
  require (not (ltb (length k.key) min_state_key_len)) (short_state_key k.kid (length k.key))
  validate_keys keys (k.kid ∷ seen)

-- The loop over the registry; a nil client is no value of the model.
unfoldable pub validate_clients : Libraries → List (Str × Client) → Result Error (Unit {0})
validate_clients lib [] = ok tt
validate_clients lib ((id, c) ∷ rest) = do
  require (is_all_digits id) (invalid_client_id id)
  require (c.id == id) (invalid_client_id id)
  require (not (is_empty c.redirect_uris)) (no_redirect_uris id)
  validate_redirect_uris lib id c.redirect_uris
  validate_clients lib rest

unfoldable pub validate : Libraries → Config → Result Error (Unit {0})
validate lib c = do
  require (not (is_empty c.strava_client_id)) missing_strava_client_id
  require (not (is_zero c.strava_client_secret)) missing_strava_client_secret
  validate_abs_url lib c.public_url invalid_public_url
  validate_abs_url lib c.upstream_base_url invalid_upstream_base_url
  require (ltb_ℤ (pos 0) c.state_ttl) (invalid_state_ttl (str "must be positive"))
  require (not (is_empty c.state_keys)) empty_key_ring
  validate_keys c.state_keys []
  require (not (is_empty c.clients)) no_clients
  validate_clients lib c.clients
  require (c.dev_allow_http || not (is_empty c.tls_cert_file) && not (is_empty c.tls_key_file))
      tls_required
