-- ===== src/Config/Clients/Examples.antt =====
-- A registry of one client, with its secret in plain text.
use strava_auth_proxy.Config.{
  is_all_digits, find, validate_redirect_uris, validate_redirect_uri, check_redirect_url, Client,
}
use strava_auth_proxy.Go.Text.{contains, trim_space, ◌==◌, Str, str}
use strava_auth_proxy.Config.Clients.{
  parse_client_entries, parse_client, client_digest, parse_clients,
}
use strava_auth_proxy.Prelude.{◌≡◌, ◌≢◌, refl, List, [], ◌∷◌, ok, All, length}
use strava_auth_proxy.Config.Clients.Sound.{Listed, Distinct, parse_clients_sound}
use strava_auth_proxy.Config.Validate.{validate_clients}
use strava_auth_proxy.Tests.Setup.{lib, client}

abbrev clients : List (Str × Client)
clients = (str "42", client) ∷ []

reads : parse_clients lib (str "[]") ≡ ok clients
unfolding parse_clients parse_client_entries parse_client is_all_digits trim_space find
    validate_redirect_uris validate_redirect_uri check_redirect_url contains ◌==◌ client_digest
reads = refl

parse_clients_sound_example :
    (clients ≢ [])
    × (validate_clients lib clients ≡ ok tt)
    × Listed clients
    × Distinct clients
    × All (λ (e : Str × Client). length e.1.secret_sha256 ≡ 32) clients
parse_clients_sound_example = parse_clients_sound lib (λ s. refl) (str "[]") clients reads
