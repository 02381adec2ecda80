-- ===== src/Oauth/Revoke.antt =====
-- internal/oauth/revoke.go.
pub mod Keeps
pub mod Outcome
pub mod Headers
pub mod Forwards
use strava_auth_proxy.Fault
use strava_auth_proxy.Prelude.{
  drop, ◌+◌, take, ◌&&◌, leb, map, ℕ, Bool, not, Option, none, some, List, [], ◌∷◌, ◌++◌, is_empty,
  if◌then◌else◌,
}
use strava_auth_proxy.Go.Text.{◌==◌, Str, str, cut}
use strava_auth_proxy.Go.Base64.{encode_std, decode_std}
use strava_auth_proxy.Go.Url.{Url}
use strava_auth_proxy.Go.Values.{Values, get, set}
use strava_auth_proxy.Go.Http.{Request, Outbound}
use strava_auth_proxy.Config.{Client, Config, client_of, reveal, verify_secret}
use strava_auth_proxy.Exchange.{Exchange, Level, respond, log_entry, set_client_id}
use strava_auth_proxy.Oauth.{Env, path_deauthorize, path_revoke, relay, upstream_url}

abbrev pub passthrough_headers : List Str
passthrough_headers =
    str "Content-Type" ∷ str "Accept" ∷ str "Accept-Language" ∷ str "User-Agent" ∷ []

-- The loop over the allowlisted headers.
copy_headers : List Str → Values → Values → Values
copy_headers [] src dst = dst
copy_headers (name ∷ names) src dst =
    let v = get src name in copy_headers names src (if is_empty v then dst else set dst name v)

unfoldable pub copy_request_headers : Values → Values → Values
unfolding copy_headers
copy_request_headers src dst = copy_headers passthrough_headers src dst

unfoldable pub basic_auth_header : Str → Str → Str
basic_auth_header user pass = str "Basic " ++ encode_std (user ++ b':' ∷ pass)

lower : ℕ → ℕ
lower c = if leb b'A' c && leb c b'Z' then c + 32 else c

-- Request.BasicAuth: the scheme in any case, then the base64 of user and password and a colon.
unfoldable pub basic_auth : Values → Option (Str × Str)
unfolding lower
basic_auth header =
    let auth = get header (str "Authorization") in
    if map lower (take 6 auth) == str "basic "
    then elim (decode_std (drop 6 auth)) [ none ↦ none | some cs ↦ cut cs b':' ]
    else none

revoke_internal : Str → Exchange → Exchange
revoke_internal message w =
    respond Fault.write_upstream_unavailable (log_entry Level.error message [] w)

-- The request that carries the caller's body and query on.
unfoldable pub passthrough_request : Env → Url → Request → Values → Outbound
passthrough_request env target r header = record {
  method = str "POST";
  url = env.url_string (record target { raw_query = r.raw_query });
  header = header;
  body = r.body;
  content_length = r.content_length;
}

unfoldable pub deauthorize_header : Request → Values
deauthorize_header r =
    let copied = copy_request_headers r.header [] in
    let v = get r.header (str "Authorization") in
    if is_empty v then copied else set copied (str "Authorization") v

pub deauthorize : Env → Config → Request → Exchange → Exchange
unfolding revoke_internal
deauthorize env cfg r w = elim (upstream_url env cfg path_deauthorize) [
  | none ↦ revoke_internal (str "building upstream deauthorize URL failed") w
  | some target ↦
      let req = passthrough_request env target r (deauthorize_header r) in
      if env.accepts_url req.url
      then (relay env req (str "deauthorize") w).1
      else revoke_internal (str "building upstream deauthorize request failed") w
]

unfoldable pub revoke_header : Config → Request → Values
revoke_header cfg r =
    set (copy_request_headers r.header []) (str "Authorization")
      (basic_auth_header cfg.strava_client_id (reveal cfg.strava_client_secret))

-- With the client authenticated.
revoke_send : Env → Config → Request → Exchange → Exchange
unfolding revoke_internal
revoke_send env cfg r w = elim (upstream_url env cfg path_revoke) [
  | none ↦ revoke_internal (str "building upstream revoke URL failed") w
  | some target ↦
      let req = passthrough_request env target r (revoke_header cfg r) in
      if env.accepts_url req.url
      then (relay env req (str "revoke") w).1
      else revoke_internal (str "building upstream revoke request failed") w
]

-- The comparison against a zero digest for an unknown client has no effect, and is left out.
revoke_client : Env → Config → Request → Str → Str → Exchange → Exchange
revoke_client env cfg r client_id secret w = elim (client_of (some cfg) client_id) [
  | none ↦ respond Fault.write_unauthorized w
  | some client ↦
      let known = set_client_id client.id w in
      if not (verify_secret env.lib (some client) secret)
      then respond Fault.write_unauthorized known
      else revoke_send env cfg r known
]

pub revoke : Env → Config → Request → Exchange → Exchange
revoke env cfg r w = elim (basic_auth r.header) [
  | none ↦ respond Fault.write_unauthorized w
  | some (client_id, secret) ↦ revoke_client env cfg r client_id secret w
]
