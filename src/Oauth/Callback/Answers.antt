-- ===== src/Oauth/Callback/Answers.antt =====
-- The ways in which `callback` answers: what it knows when it redirects, and why it does not.
use strava_auth_proxy.Seal
use strava_auth_proxy.Prelude.{true, false, none, some, [], ◌≡◌, ◌≢◌, ok, err}
use strava_auth_proxy.Go.Text.{Str, str}
use strava_auth_proxy.Go.Time.{to_unix}
use strava_auth_proxy.Go.Url.{Url}
use strava_auth_proxy.Go.Values.{Values, get}
use strava_auth_proxy.Go.Http.{Request, find_cookie}
use strava_auth_proxy.Seal.{
  StatePayload, domain_state, domain_code, seal, open_envelope, err_expired, is,
}
use strava_auth_proxy.Config.{Client, Config, allows_redirect_uri, client_of}
use strava_auth_proxy.Exchange.{Exchange}
use strava_auth_proxy.Oauth.{Env, first_param, ring_of}
use strava_auth_proxy.Oauth.Authorize.{nonce_cookie_name}
use strava_auth_proxy.Oauth.Callback.{echo_state, error_params, success_params}

-- Strava's answer to the callback, and the parameters that the caller receives for it.
pub data Leg (env : Env) (cfg : Config) (st : StatePayload) (q base : Values)
    : Values → Type 0 where
  denied :
      (value : Str)
      → first_param q (str "error") ≡ (value, true)
      → Leg env cfg st q base (error_params value q base)
  granted :
      (wrapped : Str)
      → (first_param q (str "error")).1 ≡ false
      → (first_param q (str "code")).0 ≢ []
      → seal env.prim env.code_codec
          (ring_of env (some cfg))
          domain_code
          (record { cid = st.cid; sc = (first_param q (str "code")).0; iat = to_unix env.now })
        ≡ ok wrapped
      → Leg env cfg st q base (success_params wrapped q base)

-- Strava sent neither an error nor a code.
pub record IsMute (q : Values) : Type 0 where
  pub fine : (first_param q (str "error")).1 ≡ false
  pub no_code : (first_param q (str "code")).0 ≡ []

-- The nonce that the browser presents.
abbrev pub presented : Request → Str
presented r = elim (find_cookie r.cookies nonce_cookie_name) [ none ↦ [] | some v ↦ v ]

-- The cookie rule of a client.
pub record IsBound (client : Client) (r : Request) (st : StatePayload) : Type 0 where
  pub present : st.nonce ≢ []
  pub equal : presented r ≡ st.nonce

-- The state of the request opens, for the ring and the configuration of the moment.
abbrev pub IsOpened : Env → Config → Request → StatePayload → Type 0
IsOpened env cfg r st =
    open_envelope env.prim env.state_codec (ring_of env (some cfg)) domain_state
      (first_param (env.parse_query r.raw_query) (str "state")).0 cfg.state_ttl env.now
    ≡ ok st

-- Why a callback redirected, and where to: the state opens, the client that it names is registered
-- now, the redirect URI is one of its own now, the cookie matches where the client wants one, and
-- the target is that URI with the parameters of Strava's answer and the caller's own state.
pub record IsReturn (env : Env) (cfg : Config) (r : Request) (w : Exchange) : Type 0 where
  pub st : StatePayload
  pub client : Client
  pub dst : Url
  pub out : Values
  pub opened : IsOpened env cfg r st
  pub registered : client_of (some cfg) st.cid ≡ some client
  pub allowed : allows_redirect_uri (some client) st.ru ≡ true
  pub nonce_rule : (client.require_nonce_cookie ≡ true) → IsBound client r st
  pub is_target : env.lib.parse_url st.ru ≡ some dst
  pub leg : Leg env cfg st (env.parse_query r.raw_query) (env.parse_query dst.raw_query) out
  pub location :
      get w.response.header (str "Location")
      ≡ env.url_string (record dst { raw_query = env.encode (echo_state st out) })

-- Why a callback was refused.
pub data Denied (env : Env) (cfg : Config) (r : Request) : Type 0 where
  bad_state :
      (e : Seal.Error)
      → open_envelope env.prim env.state_codec
          (ring_of env (some cfg))
          domain_state
          (first_param (env.parse_query r.raw_query) (str "state")).0
          cfg.state_ttl
          env.now
        ≡ err e
      → Denied env cfg r
  unknown :
      (st : StatePayload)
      → IsOpened env cfg r st
      → client_of (some cfg) st.cid ≡ none
      → Denied env cfg r
  revoked :
      (st : StatePayload) (client : Client)
      → IsOpened env cfg r st
      → client_of (some cfg) st.cid ≡ some client
      → allows_redirect_uri (some client) st.ru ≡ false
      → Denied env cfg r
  unbound :
      (st : StatePayload) (client : Client)
      → IsOpened env cfg r st
      → client_of (some cfg) st.cid ≡ some client
      → client.require_nonce_cookie ≡ true
      → ¬ IsBound client r st
      → Denied env cfg r
  mute :
      (st : StatePayload)
      → IsOpened env cfg r st
      → IsMute (env.parse_query r.raw_query)
      → Denied env cfg r

-- Why a callback failed after its state opened: the redirect URI does not parse, or the code could
-- not be sealed.
pub data Failed (env : Env) (cfg : Config) (q : Values) (st : StatePayload) : Type 0 where
  no_target : env.lib.parse_url st.ru ≡ none → Failed env cfg q st
  not_sealed :
      (e : Seal.Error)
      → (first_param q (str "error")).1 ≡ false
      → (first_param q (str "code")).0 ≢ []
      → seal env.prim env.code_codec
          (ring_of env (some cfg))
          domain_code
          (record { cid = st.cid; sc = (first_param q (str "code")).0; iat = to_unix env.now })
        ≡ err e
      → Failed env cfg q st

pub record IsFailure (env : Env) (cfg : Config) (r : Request) : Type 0 where
  pub st : StatePayload
  pub opened : IsOpened env cfg r st
  pub why : Failed env cfg (env.parse_query r.raw_query) st
