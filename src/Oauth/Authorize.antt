-- ===== src/Oauth/Authorize.antt =====
-- internal/oauth/authorize.go.
pub mod Keeps
pub mod Silent
pub mod Outcome
pub mod Answers
pub mod Complete
pub mod Params
use strava_auth_proxy.Prelude.{
  ◌+◌, ℕ, ◌/◌, Bool, not, Option, none, some, List, [], ◌∷◌, Result, ok, err, ltb, length,
  if◌then◌else◌,
}
use strava_auth_proxy.Prelude.Int.{sub_ℕ, ℤ, pos, negsuc}
use strava_auth_proxy.Go.Text.{Str, str, ◌==◌}
use strava_auth_proxy.Go.Base64.{url, encode_raw}
use strava_auth_proxy.Go.Time.{Duration, second, to_unix}
use strava_auth_proxy.Go.Url.{Url}
use strava_auth_proxy.Go.Values.{Values, set, keep}
use strava_auth_proxy.Go.Http.{Request, Cookie, set_cookie, redirect_found}
use strava_auth_proxy.Seal.{StatePayload, domain_state, seal}
use strava_auth_proxy.Config.{Client, Config, allows_redirect_uri, callback_url, client_of, mem}
use strava_auth_proxy.Exchange.{Exchange, Level, seal_error, respond, set_client_id}
use strava_auth_proxy.Oauth.{
  Env, bad_request, first_param, internal, path_authorize, path_mobile_authorize, ring_of,
  upstream_url,
}

abbrev pub max_caller_state_len : ℕ
max_caller_state_len = 1024

abbrev pub nonce_cookie_name : Str
nonce_cookie_name = str "__Host-sap_nonce"

abbrev pub authorize_owned_params : List Str
authorize_owned_params = str "client_id" ∷ str "redirect_uri" ∷ str "state" ∷ []

-- Whole seconds of a duration, rounded towards zero.
seconds : Duration → ℤ
seconds (pos n) = pos (n / second)
seconds (negsuc n) = sub_ℕ 0 ((n + 1) / second)

unfoldable pub nonce_cookie : Str → Config → Cookie
unfolding seconds
nonce_cookie value cfg = record {
  name = nonce_cookie_name;
  value = value;
  path = str "/";
  max_age = seconds cfg.state_ttl;
  secure = Bool.true;
  http_only = Bool.true;
  same_site_lax = Bool.true;
}

abbrev pub cleared_nonce_cookie : Cookie
cleared_nonce_cookie = record {
  name = nonce_cookie_name;
  value = [];
  path = str "/";
  max_age = negsuc 0;
  secure = Bool.true;
  http_only = Bool.true;
  same_site_lax = Bool.true;
}

-- The random bytes of a nonce, encoded; none if the random source fails.
new_nonce : Env → Option Str
new_nonce env = elim env.random [ none ↦ none | some b ↦ some (encode_raw url b) ]

-- The caller's parameters without those that the proxy owns, which it sets itself.
unfoldable pub authorize_params : Values → Config → Str → Values
unfolding mem
authorize_params q cfg sealed =
    set
      (set
        (set (keep (λ k. not (mem k authorize_owned_params)) q) (str "client_id")
          cfg.strava_client_id)
        (str "redirect_uri") (callback_url cfg))
      (str "state") sealed

module _ (env : Env) (cfg : Config) (r : Request) (upstream_path : Str) (q : Values) where
  -- From the sealing of the state on.
  authorize_seal : StatePayload → Exchange → Exchange
  authorize_seal payload w =
      elim (seal env.prim env.state_codec (ring_of env (some cfg)) domain_state payload) [
        | err e ↦ internal (str "sealing state failed") (seal_error e ∷ []) w
        | ok sealed ↦ elim (upstream_url env cfg upstream_path) [
          | none ↦ internal (str "building upstream authorize URL failed") [] w
          | some target ↦
              respond
                (redirect_found r.method (
                  env.url_string
                    (record target { raw_query = env.encode (authorize_params q cfg sealed) })))
                w
        ]
      ]

  authorize_nonce : Client → StatePayload → Exchange → Exchange
  authorize_nonce client payload w =
      if client.require_nonce_cookie
      then elim (new_nonce env) [
        | none ↦ internal (str "generating nonce failed") [] w
        | some nonce ↦
            authorize_seal (record payload { nonce = nonce })
              (respond (set_cookie (nonce_cookie nonce cfg)) w)
      ]
      else authorize_seal payload w

  -- With the client resolved.
  authorize_client : Client → Exchange → Exchange
  authorize_client client w =
      let redirect_uri = (first_param q (str "redirect_uri")).0 in
      let (caller_state, has_state) = first_param q (str "state") in
      if not (allows_redirect_uri (some client) redirect_uri)
      then bad_request (str "The redirect_uri is not registered for this client.") w
      else if ltb max_caller_state_len (length caller_state)
      then bad_request (str "The state parameter is too long.") w
      else authorize_nonce client
          (record {
            cid = client.id;
            ru = redirect_uri;
            st = caller_state;
            has_st = has_state;
            iat = to_unix env.now;
            nonce = [];
          })
          w

-- The method `authorize`, for the configuration that is published when it starts.
pub authorize : Env → Config → Request → Str → Exchange → Exchange
authorize env cfg r upstream_path w =
    let q = env.parse_query r.raw_query in
    elim (client_of (some cfg) (first_param q (str "client_id")).0) [
      | none ↦ bad_request (str "Unknown client_id.") w
      | some client ↦ authorize_client env cfg r upstream_path q client (set_client_id client.id w)
    ]

pub authorize_web : Env → Config → Request → Exchange → Exchange
authorize_web env cfg r w = authorize env cfg r path_authorize w

pub authorize_mobile : Env → Config → Request → Exchange → Exchange
authorize_mobile env cfg r w = authorize env cfg r path_mobile_authorize w
