-- ===== src/Server/Calls.antt =====
-- Where the server's own requests go: no caller has a say in it but for the query.
use strava_auth_proxy.Prelude.{
  ◌≡◌, ◌≢◌, ◌⊎◌, ◌∙◌, refl, arith, true, some, [], ◌∷◌, ◌++◌, inl, inr, Option-cases, branch, ap,
}
use strava_auth_proxy.Go.Text.{Str, str}
use strava_auth_proxy.Go.Url.{Url, is_abs}
use strava_auth_proxy.Go.Http.{Request, Outbound}
use strava_auth_proxy.Config.{Config}
use strava_auth_proxy.Exchange.{Exchange, respond}
use strava_auth_proxy.Httpmid.{security_headers}
use strava_auth_proxy.Oauth.{Env, upstream_url, path_authorize, path_mobile_authorize, path_token}
use strava_auth_proxy.Oauth.Token.{token, token_request}
use strava_auth_proxy.Oauth.Token.Answers.{Answer}
use strava_auth_proxy.Oauth.Token.Outcome.{token_outcome}
use strava_auth_proxy.Oauth.Authorize.Silent.{sent-authorize}
use strava_auth_proxy.Oauth.Callback.Silent.{sent-callback}
use strava_auth_proxy.Oauth.Revoke.{deauthorize, revoke}
use strava_auth_proxy.Oauth.Revoke.Forwards.{
  IsForwarded, deauthorize-IsForwarded, revoke-IsForwarded,
}
use strava_auth_proxy.Server.{
  Route, route, Multiplexer, dispatch, public_handler, oauth_surface_headers, is_oauth_surface,
}
use strava_auth_proxy.Server.Routes.{is_handler}

-- A request is a POST to one of three paths below the configured base URL, which is absolute and has
-- a host; at most its query is the caller's.
pub record IsConfined (env : Env) (cfg : Config) (r : Request) (req : Outbound) : Type 0 where
  pub base : Url
  pub path : Str
  pub configured : env.lib.parse_url cfg.upstream_base_url ≡ some base
  pub absolute : is_abs base ≡ true
  pub hosted : base.host ≢ []
  pub known :
      (path ≡ str "/api/v3/oauth/token")
      ⊎ (path ≡ str "/oauth/deauthorize")
      ⊎ (path ≡ str "/oauth/revoke")
  pub method : req.method ≡ str "POST"
  pub url :
      (req.url ≡ env.url_string (env.join_path base path))
      ⊎ (req.url ≡ env.url_string (record (env.join_path base path) { raw_query = r.raw_query }))

-- Nothing was sent, or one request that is confined.
abbrev pub Calls : (env : Env) (cfg : Config) (r : Request) (w w' : Exchange) → Type 0
Calls env cfg r w w' =
    (w'.sent ≡ w.sent)
    ⊎ ((req : Outbound) × (w'.sent ≡ w.sent ++ req ∷ []) × IsConfined env cfg r req)

module _ (env : Env) (cfg : Config) (r : Request) where
  upstream_url-base :
      (path : Str) (target : Url)
      → upstream_url env cfg path ≡ some target
      → (base : Url) × (env.lib.parse_url cfg.upstream_base_url ≡ some base)
        × (is_abs base ≡ true)
        × (base.host ≢ [])
        × (target ≡ env.join_path base path)
  unfolding upstream_url
  upstream_url-base path target h = elim (Option-cases (env.lib.parse_url cfg.upstream_base_url)) [
    | inl e ↦ absurd (cc (rw (upstream_url, e) at h))
    | inr (base, e) ↦ (base, e, ground arith, ground arith, ground arith)
  ]

  token-Calls : (w : Exchange) → Calls env cfg r w (token env cfg r w)
  unfolding token_request
  token-Calls w = elim (token_outcome env cfg r w) [
    | inl (bad, fault) ↦ inl fault.unsent
    | inr (form, good, answer) ↦ elim answer [
      | Answer.bad_client _ fault ↦ inl fault.unsent
      | Answer.bad_secret _ _ _ fault ↦ inl fault.unsent
      | Answer.bad_code _ _ _ _ fault ↦ inl fault.unsent
      | Answer.unbuilt _ fault ↦ inl fault.unsent
      | Answer.exchanged x ↦
          let (base, configured, absolute, hosted, same) =
            upstream_url-base path_token x.target x.is_upstream in
          inr (
            _,
            x.relayed.sent,
            record {
              base = base;
              path = path_token;
              configured = configured;
              absolute = absolute;
              hosted = hosted;
              known = inl refl;
              method = refl;
              url = inl (ap env.url_string same);
            },
          )
    ]
  ]

  IsForwarded-Calls :
      (path : Str) (expected : Str → Str) (w w' : Exchange)
      → (path ≡ str "/oauth/deauthorize") ⊎ (path ≡ str "/oauth/revoke")
      → IsForwarded env cfg r path expected w w'
      → Calls env cfg r w w'
  IsForwarded-Calls path expected w w' known f =
      let (base, configured, absolute, hosted, same) =
        upstream_url-base path f.target f.is_upstream in
      inr (
        f.request,
        f.relayed.sent,
        record {
          base = base;
          path = path;
          configured = configured;
          absolute = absolute;
          hosted = hosted;
          known = inr known;
          method = f.method;
          url = inr (
              f.url ∙ ap (λ (u : Url). env.url_string (record u { raw_query = r.raw_query })) same);
        },
      )

  deauthorize-Calls : (w : Exchange) → Calls env cfg r w (deauthorize env cfg r w)
  deauthorize-Calls w = elim (deauthorize-IsForwarded env cfg r w) [
    | inl f ↦ IsForwarded-Calls _ _ w _ (inl refl) f
    | inr (why, fault) ↦ inl fault.unsent
  ]

  revoke-Calls : (w : Exchange) → Calls env cfg r w (revoke env cfg r w)
  revoke-Calls w = elim (revoke-IsForwarded env cfg r w) [
    | inl nothing ↦ inl nothing
    | inr (known, f) ↦ IsForwarded-Calls _ _ w _ (inr refl) f
  ]

module _ (env : Env) (proxy : Request → Exchange → Exchange) (mux : Multiplexer) (cfg : Config)
    (r : Request) where
  dispatch-Calls :
      (to : Route) (w : Exchange)
      → is_handler to ≡ true
      → Calls env cfg r w (dispatch env proxy mux to cfg r w)
  unfolding dispatch is_handler
  dispatch-Calls Route.authorize w h = inl (sent-authorize env cfg r path_authorize w)
  dispatch-Calls Route.mobile_authorize w h = inl (sent-authorize env cfg r path_mobile_authorize w)
  dispatch-Calls Route.callback w h = inl (sent-callback env cfg r w)
  dispatch-Calls Route.token w h = token-Calls env cfg r w
  dispatch-Calls Route.deauthorize w h = deauthorize-Calls env cfg r w
  dispatch-Calls Route.revoke w h = revoke-Calls env cfg r w
  dispatch-Calls Route.proxy w h = absurd (cc h)
  dispatch-Calls Route.add_slash w h = absurd (cc h)
  dispatch-Calls Route.method_not_allowed w h = absurd (cc h)
  dispatch-Calls Route.not_found w h = absurd (cc h)

  -- Whatever a request that one of the OAuth handlers answers has in it, at most one request is sent
  -- on: a POST to the token, the deauthorization or the revocation path below the configured base
  -- URL, which is absolute and has a host; at most the query of its URL is the caller's.
  pub public_handler-Calls :
      (w : Exchange)
      → is_handler (route r.method (mux.segments r)) ≡ true
      → Calls env cfg r w (public_handler env proxy mux cfg r w)
  unfolding public_handler oauth_surface_headers
  public_handler-Calls w h =
      let to = route r.method (mux.segments r) in
      branch (Calls env cfg r w) (is_oauth_surface r.path)
        (λ _. dispatch-Calls to (respond security_headers w) h) (λ _. dispatch-Calls to w h)
