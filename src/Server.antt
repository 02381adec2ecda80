-- ===== src/Server.antt =====
-- cmd/strava-auth-proxy/main.go: the two handlers of the server. Startup has newApp, Loop the serving
-- of both listeners, and Healthcheck the probe of healthcheck.go. The multiplexer redirects a request
-- whose escaped path is not clean before it looks for a pattern; only a request with a clean one is
-- modelled.
pub mod Startup
pub mod Loop
pub mod Healthcheck
pub mod Routes
pub mod Surface
pub mod Calls
pub mod Running
pub mod Starting
pub mod Probe
use strava_auth_proxy.Prelude.{
  ℕ, Bool, true, false, not, ◌&&◌, ◌||◌, Option, none, some, List, [], ◌∷◌, ◌++◌, is_empty, map,
  if◌then◌else◌,
}
use strava_auth_proxy.Go.Text.{Str, str, ◌==◌, has_prefix, trim_space, trim_right}
use strava_auth_proxy.Go.Http.{Request, Response, set_header, write_header, write_body}
use strava_auth_proxy.Seal.{Ring, Key}
use strava_auth_proxy.Config.{Config}
use strava_auth_proxy.Exchange.{Exchange, Level, info, warn, text, respond, log_entry}
use strava_auth_proxy.Httpmid.{security_headers}
use strava_auth_proxy.Oauth.{
  Env, path_authorize, path_mobile_authorize, path_token, path_deauthorize, path_revoke,
}
use strava_auth_proxy.Oauth.Authorize
use strava_auth_proxy.Oauth.Callback
use strava_auth_proxy.Oauth.Token
use strava_auth_proxy.Oauth.Revoke

-- The level that newLogger chooses; package slog parses the name in capitals.
unfoldable pub logger_level : (Str → Option Level) → (Str → Str) → Str → Level
logger_level parse_level to_upper level =
    let s = trim_space level in
    if is_empty s then info else elim (parse_level (to_upper s)) [ none ↦ info | some l ↦ l ]

unfoldable pub ring_from : Option Config → Ring
ring_from none = []
ring_from (some cfg) = map (λ k. record { kid = k.kid; key = k.key }) cfg.state_keys

unfoldable pub kids : Ring → List Str
kids [] = []
kids (k ∷ r) = k.kid ∷ kids r

-- The routes of the public multiplexer: those that Register installs, the proxy, and what the
-- multiplexer itself answers.
pub data Route : Type 0 where
  authorize mobile_authorize callback token deauthorize revoke : Route
  proxy add_slash method_not_allowed not_found : Route

abbrev pub is_get : Str → Bool
is_get method = method == str "GET" || method == str "HEAD"

-- The patterns' paths, as their segments.
abbrev pub at_authorize : List Str
at_authorize = str "oauth" ∷ str "authorize" ∷ []

abbrev pub at_mobile_authorize : List Str
at_mobile_authorize = str "oauth" ∷ str "mobile" ∷ str "authorize" ∷ []

abbrev pub at_callback : List Str
at_callback = str "oauth" ∷ str "callback" ∷ []

abbrev pub at_plain_token : List Str
at_plain_token = str "oauth" ∷ str "token" ∷ []

abbrev pub at_deauthorize : List Str
at_deauthorize = str "oauth" ∷ str "deauthorize" ∷ []

abbrev pub at_revoke : List Str
at_revoke = str "oauth" ∷ str "revoke" ∷ []

abbrev pub at_token : List Str
at_token = str "api" ∷ str "v3" ∷ str "oauth" ∷ str "token" ∷ []

abbrev pub at_api : List Str
at_api = str "api" ∷ str "v3" ∷ []

-- The segments of a path match those of a pattern.
unfoldable pub same : List Str → List Str → Bool
same [] [] = true
same [] (p ∷ ps) = false
same (s ∷ ss) [] = false
same (s ∷ ss) (p ∷ ps) = s == p && same ss ps

-- The pattern /api/v3/ takes what has at least one more segment, which may be empty.
unfoldable pub below : List Str → List Str → Bool
below [] ps = false
below (s ∷ ss) [] = true
below (s ∷ ss) (p ∷ ps) = s == p && below ss ps

-- A pattern with a method, on its own path: another method is refused.
abbrev pub only : Bool → Route → Route
only allowed route = if allowed then route else Route.method_not_allowed

-- The most specific pattern that takes the method and the path, whose segments are given decoded.
-- GET takes HEAD too, and the pattern of the proxy takes the methods that the exact pattern below
-- its prefix does not.
unfoldable pub route : Str → List Str → Route
unfolding same below
route method segments =
    if same segments at_authorize
    then only (is_get method) Route.authorize
    else if same segments at_mobile_authorize
    then only (is_get method) Route.mobile_authorize
    else if same segments at_callback
    then only (is_get method) Route.callback
    else if same segments at_plain_token
    then only (method == str "POST") Route.token
    else if same segments at_deauthorize
    then only (method == str "POST") Route.deauthorize
    else if same segments at_revoke
    then only (method == str "POST") Route.revoke
    else if same segments at_token && method == str "POST"
    then Route.token
    else if below segments at_api
    then Route.proxy
    else if same segments at_api
    then Route.add_slash
    else Route.not_found

unfoldable pub is_oauth_surface : Str → Bool
is_oauth_surface path = has_prefix path (str "/oauth/") || path == str "/api/v3/oauth/token"

unfoldable pub oauth_surface_headers :
    (Request → Exchange → Exchange) → Request → Exchange → Exchange
oauth_surface_headers next r w =
    if is_oauth_surface r.path then next r (respond security_headers w) else next r w

-- The segments by which the multiplexer matches a request, which are those between the slashes of the
-- escaped path, each decoded then, so that an escaped slash separates nothing; and what it answers by
-- itself: a redirect, and http.Error with a fixed text.
pub record Multiplexer : Type 0 where
  pub segments : Request → List Str
  pub redirect_slash : Request → Response → Response
  pub refuse_method : Request → Response → Response
  pub refuse_path : Request → Response → Response

-- The handlers behind the middleware; the reverse proxy and the multiplexer are given.
module _ (env : Env) (proxy : Request → Exchange → Exchange) (mux : Multiplexer) where
  unfoldable pub dispatch : Route → Config → Request → Exchange → Exchange
  dispatch Route.authorize cfg r w = Authorize.authorize env cfg r path_authorize w
  dispatch Route.mobile_authorize cfg r w = Authorize.authorize env cfg r path_mobile_authorize w
  dispatch Route.callback cfg r w = Callback.callback env cfg r w
  dispatch Route.token cfg r w = Token.token env cfg r w
  dispatch Route.deauthorize cfg r w = Revoke.deauthorize env cfg r w
  dispatch Route.revoke cfg r w = Revoke.revoke env cfg r w
  dispatch Route.proxy cfg r w = proxy r w
  dispatch Route.add_slash cfg r w = respond (mux.redirect_slash r) w
  dispatch Route.method_not_allowed cfg r w = respond (mux.refuse_method r) w
  dispatch Route.not_found cfg r w = respond (mux.refuse_path r) w

  unfoldable pub public_handler : Config → Request → Exchange → Exchange
  unfolding oauth_surface_headers dispatch route
  public_handler cfg r w =
      oauth_surface_headers (λ s. dispatch (route s.method (mux.segments s)) cfg s) r w

unfoldable pub write_plain : Str → Response → Response
write_plain body w = write_body body (
    write_header 200 (
      set_header (str "Cache-Control") (str "no-store")
        (set_header (str "Content-Type") (str "text/plain; charset=utf-8") w)))

-- The admin listener; expvar's handler and what the multiplexer refuses are given.
unfoldable pub admin_handler : (Response → Response) → Multiplexer → Request → Response → Response
unfolding write_plain
admin_handler metrics mux r w =
    let allowed = is_get r.method in
    if r.path == str "/healthz"
    then (if allowed then write_plain (str "ok" ++ 10 ∷ []) w else mux.refuse_method r w)
    else if r.path == str "/readyz"
    then (if allowed then write_plain (str "ready" ++ 10 ∷ []) w else mux.refuse_method r w)
    else if r.path == str "/metrics"
    then (if allowed then metrics w else mux.refuse_method r w)
    else mux.refuse_path r w

-- slogWriter.Write.
unfoldable pub slog_write : Str → Exchange → Exchange
slog_write p w = log_entry warn (str "http server") (text (str "msg") (trim_right p 10) ∷ []) w
