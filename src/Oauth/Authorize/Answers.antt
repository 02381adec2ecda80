-- ===== src/Oauth/Authorize/Answers.antt =====
-- The ways in which `authorize` answers: what it knows when it redirects, and why it does not.
use strava_auth_proxy.Oauth.Authorize.{nonce_cookie, max_caller_state_len, authorize_params}
use strava_auth_proxy.Go.Base64.{url, encode_raw}
use strava_auth_proxy.Prelude.{
  false, true, ◌++◌, ◌∷◌, [], some, ◌<◌, ◌≡◌, ◌≤◌, none, ok, err, length,
}
use strava_auth_proxy.Go.Text.{Str, str}
use strava_auth_proxy.Go.Time.{to_unix}
use strava_auth_proxy.Go.Url.{Url}
use strava_auth_proxy.Go.Values.{Values, get}
use strava_auth_proxy.Go.Http.{Request}
use strava_auth_proxy.Seal.{StatePayload, domain_state, seal}
use strava_auth_proxy.Config.{Client, Config, allows_redirect_uri, client_of}
use strava_auth_proxy.Exchange.{Exchange}
use strava_auth_proxy.Oauth.{Env, first_param, ring_of, upstream_url}

-- The payload that is sealed for a request.
abbrev pub payload_of : Env → Values → Client → Str → StatePayload
payload_of env q client nonce = record {
  cid = client.id;
  ru = (first_param q (str "redirect_uri")).0;
  st = (first_param q (str "state")).0;
  has_st = (first_param q (str "state")).1;
  iat = to_unix env.now;
  nonce = nonce;
}

-- The nonce of a payload and the cookies of its response: empty and the same, or random and with the
-- nonce's cookie after the others.
pub data NonceRule (env : Env) (cfg : Config) (client : Client) (nonce : Str) (before w : Exchange)
    : Type 0 where
  unasked :
      client.require_nonce_cookie ≡ false
      → nonce ≡ []
      → w.response.cookies ≡ before.response.cookies
      → NonceRule env cfg client nonce before w
  given :
      (bytes : Str)
      → client.require_nonce_cookie ≡ true
      → env.random ≡ some bytes
      → nonce ≡ encode_raw url bytes
      → w.response.cookies ≡ before.response.cookies ++ nonce_cookie nonce cfg ∷ []
      → NonceRule env cfg client nonce before w

-- Why a redirect was allowed: the client is registered, the redirect URI is one of its own, and the
-- caller's state is short; and where it goes: Strava's URL from the configuration, with the sealed
-- payload of this request among the parameters.
pub record IsRedirect (env : Env) (cfg : Config) (r : Request) (upstream_path : Str)
    (before w : Exchange) : Type 0 where
  pub client : Client
  pub nonce : Str
  pub sealed : Str
  pub target : Url
  pub registered :
      client_of (some cfg) (first_param (env.parse_query r.raw_query) (str "client_id")).0
      ≡ some client
  pub allowed :
      allows_redirect_uri
        (some client)
        (first_param (env.parse_query r.raw_query) (str "redirect_uri")).0
      ≡ true
  pub short :
      length (first_param (env.parse_query r.raw_query) (str "state")).0 ≤ max_caller_state_len
  pub is_sealed :
      seal env.prim env.state_codec
        (ring_of env (some cfg))
        domain_state
        (payload_of env (env.parse_query r.raw_query) client nonce)
      ≡ ok sealed
  pub nonce_rule : NonceRule env cfg client nonce before w
  pub is_upstream : upstream_url env cfg upstream_path ≡ some target
  pub location :
      get w.response.header (str "Location")
      ≡ env.url_string (record target {
        raw_query = env.encode (authorize_params (env.parse_query r.raw_query) cfg sealed);
      })

-- Why a request was refused: the client is unknown, or its redirect URI is not allowed, or the
-- caller's state is too long.
pub data Refused (cfg : Config) (q : Values) : Type 0 where
  unknown : client_of (some cfg) (first_param q (str "client_id")).0 ≡ none → Refused cfg q
  not_allowed :
      (client : Client)
      → client_of (some cfg) (first_param q (str "client_id")).0 ≡ some client
      → allows_redirect_uri (some client) (first_param q (str "redirect_uri")).0 ≡ false
      → Refused cfg q
  too_long : max_caller_state_len < length (first_param q (str "state")).0 → Refused cfg q

-- Why a request failed: no random bytes, no signature on its payload, or no upstream URL.
pub data Broken (env : Env) (cfg : Config) (upstream_path : Str) (q : Values) : Type 0 where
  no_random :
      (client : Client)
      → client_of (some cfg) (first_param q (str "client_id")).0 ≡ some client
      → client.require_nonce_cookie ≡ true
      → env.random ≡ none
      → Broken env cfg upstream_path q
  not_sealed :
      (client : Client) (nonce : Str) (e : strava_auth_proxy.Seal.Error)
      → client_of (some cfg) (first_param q (str "client_id")).0 ≡ some client
      → seal env.prim env.state_codec
          (ring_of env (some cfg))
          domain_state
          (payload_of env q client nonce)
        ≡ err e
      → Broken env cfg upstream_path q
  no_upstream : upstream_url env cfg upstream_path ≡ none → Broken env cfg upstream_path q
