-- ===== src/Oauth/Authorize/Complete.antt =====
-- What is enough for `authorize` to redirect to Strava.
use strava_auth_proxy.Prelude.{◌≡◌, ◌≢◌, ◌≤◌, arith, true, none, some, ok, inl, inr, length}
use strava_auth_proxy.Go.Text.{Str, str}
use strava_auth_proxy.Go.Url.{Url}
use strava_auth_proxy.Go.Values.{Values}
use strava_auth_proxy.Go.Http.{Request}
use strava_auth_proxy.Seal.{domain_state, seal}
use strava_auth_proxy.Config.{Client, Config, allows_redirect_uri, client_of}
use strava_auth_proxy.Exchange.{Exchange}
use strava_auth_proxy.Oauth.{Env, first_param, ring_of, upstream_url}
use strava_auth_proxy.Oauth.Responses.{IsUnsent}
use strava_auth_proxy.Oauth.Authorize.{authorize, max_caller_state_len}
use strava_auth_proxy.Oauth.Authorize.Answers.{
  payload_of, IsRedirect, Refused, unknown, not_allowed, too_long, Broken, no_random, not_sealed,
  no_upstream,
}
use strava_auth_proxy.Oauth.Authorize.Outcome.{authorize_outcome}

-- The client and the redirect URI are registered, the state is short, the random source works where
-- the client wants a cookie, the payload can be sealed, and the upstream URL is one.
pub record IsReady (env : Env) (cfg : Config) (upstream_path : Str) (q : Values) : Type 0 where
  pub client : Client
  pub target : Url
  pub registered : client_of (some cfg) (first_param q (str "client_id")).0 ≡ some client
  pub allowed : allows_redirect_uri (some client) (first_param q (str "redirect_uri")).0 ≡ true
  pub short : length (first_param q (str "state")).0 ≤ max_caller_state_len
  pub draws : client.require_nonce_cookie ≡ true → env.random ≢ none
  pub signs :
      (nonce : Str)
      → (sealed : Str) × (seal env.prim env.state_codec
            (ring_of env (some cfg))
            domain_state
            (payload_of env q client nonce)
          ≡ ok sealed)
  pub is_upstream : upstream_url env cfg upstream_path ≡ some target

module _ (env : Env) (cfg : Config) (upstream_path : Str) (q : Values)
    (ready : IsReady env cfg upstream_path q) where
  client_same :
      (c : Client)
      → client_of (some cfg) (first_param q (str "client_id")).0 ≡ some c
      → c ≡ ready.client
  client_same c found = ground (arith, found, ready.registered)

  not_Refused : ¬ Refused cfg q
  not_Refused (unknown h) = ground (arith, h, ready.registered)
  not_Refused (not_allowed c found h) = ground (arith, rw (client_same c found) at h, ready.allowed)
  not_Refused (too_long h) = omega (arith, h, ready.short)

  not_Broken : ¬ Broken env cfg upstream_path q
  not_Broken (no_random c found asked h) = ready.draws (rw (client_same c found) at asked) h
  not_Broken (not_sealed c nonce e found h) =
      let (sealed, good) = ready.signs nonce in ground (arith, rw (client_same c found) at h, good)
  not_Broken (no_upstream h) = ground (arith, h, ready.is_upstream)

-- A request that is ready is redirected with 302, if the response was not sent: its client and
-- redirect URI are registered, the state is short, the random source works where the client wants a
-- cookie, the payload can be sealed, and the configured upstream URL is one.
pub authorize_complete :
    (env : Env) (cfg : Config) (r : Request) (upstream_path : Str) (w : Exchange)
    → IsUnsent w
    → IsReady env cfg upstream_path (env.parse_query r.raw_query)
    → ((authorize env cfg r upstream_path w).response.status ≡ some 302)
      × IsRedirect env cfg r upstream_path w (authorize env cfg r upstream_path w)
authorize_complete env cfg r upstream_path w u ready =
    let q = env.parse_query r.raw_query in
    elim (authorize_outcome env cfg r upstream_path w u) [
      | inl done ↦ done
      | inr (inl (page, why)) ↦ absurd (not_Refused env cfg upstream_path q ready why)
      | inr (inr (page, why)) ↦ absurd (not_Broken env cfg upstream_path q ready why)
    ]
