-- ===== src/Config.antt =====
-- internal/config/config.go and secret.go: the types, the client's methods and the rules on single
-- values. Package crypto/sha256, the parsers of URLs, durations and JSON, and the process
-- environment are parameters: `Libraries` and `System`.
pub mod StateKeys
pub mod Clients
pub mod Validate
pub mod Load
pub mod Rules
pub mod Valid
pub mod Reload
pub mod Renderings
use strava_auth_proxy.Prelude.{
  ℕ, Bool, true, false, not, ◌&&◌, ◌||◌, Option, none, some, List, [], ◌∷◌, ◌++◌, Result, ok, err,
  ◌>>=◌, ◌>>◌, leb, ltb, eqb, all, any, is_empty, if◌then◌else◌,
}
use strava_auth_proxy.Prelude.Int.{ℤ, pos}
use strava_auth_proxy.Go.Text.{Str, str, ◌==◌, contains, trim_space}
use strava_auth_proxy.Go.Time.{Duration, second}
use strava_auth_proxy.Go.Url.{Url, is_abs}

-- A secret, whose only accessor is `reveal`; every rendering of it is `redacted`.
pub record Secret : Type 0 where
  pub v : Str

abbrev pub redacted : Str
redacted = str "[REDACTED]"

abbrev pub new_secret : Str → Secret
new_secret s = record { v = s }

abbrev pub reveal : Secret → Str
reveal s = s.v

abbrev pub is_zero : Secret → Bool
is_zero s = is_empty s.v

-- Why a URL was refused.
pub data Fault : Type 0 where
  empty : Fault
  unparsable not_absolute has_fragment unsupported_scheme has_query : Str → Fault

-- The sentinel errors, with the values that their messages show. `client` names the client that an
-- error is about, and `reading` the variable whose file could not be read.
pub data Error : Type 0 where
  missing_strava_client_id missing_strava_client_secret : Error
  invalid_public_url invalid_upstream_base_url : Fault → Error
  invalid_bool invalid_state_ttl : Str → Error
  empty_key_ring : Error
  malformed_state_key duplicate_kid : Str → Error
  short_state_key : Str → ℕ → Error
  no_client_registry malformed_clients no_clients : Error
  invalid_client_id duplicate_client_id no_redirect_uris : Str → Error
  invalid_redirect_uri : Fault → Error
  insecure_redirect_uri : Str → Error
  client_secret tls_required : Error
  reading : Str → Error
  client : Str → Error → Error

abbrev pub min_state_key_len : ℕ
min_state_key_len = 32

pub record StateKey : Type 0 where
  pub kid : Str
  pub key : Str

pub record Client : Type 0 where
  pub id : Str
  pub secret_sha256 : Str
  pub redirect_uris : List Str
  pub require_nonce_cookie : Bool

pub record Config : Type 0 where
  pub strava_client_id : Str
  pub strava_client_secret : Secret
  pub public_url : Str
  pub upstream_base_url : Str
  pub listen_addr : Str
  pub admin_addr : Str
  pub tls_cert_file : Str
  pub tls_key_file : Str
  pub dev_allow_http : Bool
  pub state_keys : List StateKey
  pub state_ttl : Duration
  pub clients : List (Str × Client)

-- One entry of the client registry's JSON.
pub record ClientJson : Type 0 where
  pub client_id : Str
  pub client_secret_sha256 : Str
  pub client_secret : Secret
  pub redirect_uris : List Str
  pub require_nonce_cookie : Bool

pub record Libraries : Type 0 where
  pub sha256 : Str → Str
  pub parse_url : Str → Option Url
  pub hostname : Url → Str
  pub parse_duration : Str → Option Duration
  pub registry_json : Str → Option (List ClientJson)

-- os.Getenv, which is empty for an unset variable, and os.ReadFile.
pub record System : Type 0 where
  pub getenv : Str → Str
  pub read_file : Str → Option Str

-- Whether a list holds a string, as the loops over `RedirectURIs` and the lookups in a set do.
unfoldable pub mem : Str → List Str → Bool
mem x [] = false
mem x (y ∷ ys) = y == x || mem x ys

-- The methods of a possibly nil *Client.
unfoldable pub allows_redirect_uri : Option Client → Str → Bool
unfolding mem
allows_redirect_uri none uri = false
allows_redirect_uri (some c) uri = mem uri c.redirect_uris

unfoldable pub verify_secret : Libraries → Option Client → Str → Bool
verify_secret lib none presented = false
verify_secret lib (some c) presented = lib.sha256 presented == c.secret_sha256

-- A lookup in the registry, a map from ids to clients.
unfoldable pub find : List (Str × Client) → Str → Option Client
find [] id = none
find ((k, c) ∷ rest) id = if k == id then some c else find rest id

-- The method `Client` of a possibly nil *Config.
unfoldable pub client_of : Option Config → Str → Option Client
unfolding find
client_of none id = none
client_of (some c) id = find c.clients id

unfoldable pub callback_url : Config → Str
callback_url c = c.public_url ++ str "/oauth/callback"

kid_char : ℕ → Bool
kid_char r =
    leb b'a' r && leb r b'z'
    || leb b'A' r && leb r b'Z'
    || leb b'0' r && leb r b'9'
    || eqb r b'_'
    || eqb r b'-'

-- Bytes of other runes than these are none of these.
pub valid_kid : Str → Bool
unfolding kid_char
valid_kid kid = all kid_char kid && not (is_empty kid)

abbrev is_digit : ℕ → Bool
is_digit r = leb b'0' r && leb r b'9'

pub is_all_digits : Str → Bool
is_all_digits s = not (is_empty s) && all is_digit s

abbrev loopback_hosts : List Str
loopback_hosts = str "localhost" ∷ str "127.0.0.1" ∷ str "::1" ∷ []

check_redirect_url : Libraries → Str → Url → Result Error (Unit {0})
unfolding mem
check_redirect_url lib raw u =
    if is_empty u.host || not (is_abs u)
    then err (invalid_redirect_uri (not_absolute raw))
    else if not (is_empty u.fragment) || contains raw b'#'
    then err (invalid_redirect_uri (has_fragment raw))
    else if u.scheme == str "https"
    then ok tt
    else if u.scheme == str "http" && mem (lib.hostname u) loopback_hosts
    then ok tt
    else err (insecure_redirect_uri raw)

pub validate_redirect_uri : Libraries → Str → Result Error (Unit {0})
validate_redirect_uri lib raw =
    if is_empty (trim_space raw)
    then err (invalid_redirect_uri empty)
    else elim (lib.parse_url raw) [
      | none ↦ err (invalid_redirect_uri (unparsable raw))
      | some u ↦ check_redirect_url lib raw u
    ]

check_abs_url : Str → Url → (Fault → Error) → Result Error (Unit {0})
check_abs_url raw u sentinel =
    if not (is_abs u) || is_empty u.host
    then err (sentinel (not_absolute raw))
    else if not (u.scheme == str "http") && not (u.scheme == str "https")
    then err (sentinel (unsupported_scheme raw))
    else if not (is_empty u.raw_query) || not (is_empty u.fragment)
    then err (sentinel (has_query raw))
    else ok tt

pub validate_abs_url : Libraries → Str → (Fault → Error) → Result Error (Unit {0})
validate_abs_url lib raw sentinel =
    if is_empty raw then err (sentinel empty) else elim (lib.parse_url raw) [
      | none ↦ err (sentinel (unparsable raw))
      | some u ↦ check_abs_url raw u sentinel
    ]

-- `validateRedirectURI` over a client's list, with the client's name on its error.
pub validate_redirect_uris : Libraries → Str → List Str → Result Error (Unit {0})
validate_redirect_uris lib id [] = ok tt
validate_redirect_uris lib id (uri ∷ uris) = elim (validate_redirect_uri lib uri) [
  | err e ↦ err (client id e)
  | ok _ ↦ validate_redirect_uris lib id uris
]
