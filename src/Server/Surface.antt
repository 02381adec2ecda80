-- ===== src/Server/Surface.antt =====
-- Every answer of the OAuth surface carries the hardening headers.
use strava_auth_proxy.Prelude.{◌≡◌, ◌∙◌, ap, refl, true, some, none, [], ◌∷◌}
use strava_auth_proxy.Go.Text.{Str, str, ◌==◌}
use strava_auth_proxy.Go.Values.{lookup, set, lookup-set_self, lookup-set_ne}
use strava_auth_proxy.Go.Http.{Request, Response}
use strava_auth_proxy.Config.{Config}
use strava_auth_proxy.Exchange.{Exchange, respond}
use strava_auth_proxy.Httpmid.{security_headers}
use strava_auth_proxy.Oauth.{Env, path_authorize, path_mobile_authorize}
use strava_auth_proxy.Oauth.Headers.{Keeps}
use strava_auth_proxy.Oauth.Authorize.Keeps.{authorize-Keeps}
use strava_auth_proxy.Oauth.Callback.Keeps.{callback-Keeps}
use strava_auth_proxy.Oauth.Token.Keeps.{token-Keeps}
use strava_auth_proxy.Oauth.Revoke.Keeps.{deauthorize-Keeps, revoke-Keeps}
use strava_auth_proxy.Fault.Headers.{IsOther}
use strava_auth_proxy.Server.{
  Route, route, Multiplexer, dispatch, public_handler, oauth_surface_headers, is_oauth_surface,
}
use strava_auth_proxy.Server.Routes.{is_handler, route-IsSurface, joined}

-- No caching of the answer, and no referrer from it.
abbrev pub IsHardened : Response → Type 0
IsHardened w =
    (lookup w.header (str "Cache-Control") ≡ some (str "no-store" ∷ []))
    × (lookup w.header (str "Referrer-Policy") ≡ some (str "no-referrer" ∷ []))

security_headers-IsHardened : (w : Response) → w.status ≡ none → IsHardened (security_headers w)
unfolding security_headers ◌==◌
security_headers-IsHardened w unsent =
    let referred = set w.header (str "Referrer-Policy") (str "no-referrer") in
    rw unsent (
      lookup-set_self referred (str "Cache-Control") (str "no-store"),
      lookup-set_ne referred (str "Cache-Control") (str "no-store") (str "Referrer-Policy") refl
          ∙ lookup-set_self w.header (str "Referrer-Policy") (str "no-referrer"),
    )

cache-IsOther : IsOther (str "Cache-Control")
unfolding ◌==◌
cache-IsOther = (refl, refl, refl)

referrer-IsOther : IsOther (str "Referrer-Policy")
unfolding ◌==◌
referrer-IsOther = (refl, refl, refl)

module _ (env : Env) (proxy : Request → Exchange → Exchange) (mux : Multiplexer) where
  dispatch-Keeps :
      (name : Str)
      → IsOther name
      → (to : Route) (cfg : Config) (r : Request) (w : Exchange) → is_handler to ≡ true
      → Keeps name w (dispatch env proxy mux to cfg r w)
  unfolding dispatch is_handler
  dispatch-Keeps name other Route.authorize cfg r w h =
      authorize-Keeps name other env cfg r path_authorize w
  dispatch-Keeps name other Route.mobile_authorize cfg r w h =
      authorize-Keeps name other env cfg r path_mobile_authorize w
  dispatch-Keeps name other Route.callback cfg r w h = callback-Keeps name other env cfg r w
  dispatch-Keeps name other Route.token cfg r w h = token-Keeps name other env cfg r w
  dispatch-Keeps name other Route.deauthorize cfg r w h = deauthorize-Keeps name other env cfg r w
  dispatch-Keeps name other Route.revoke cfg r w h = revoke-Keeps name other env cfg r w
  dispatch-Keeps name other Route.proxy cfg r w h = absurd (cc h)
  dispatch-Keeps name other Route.add_slash cfg r w h = absurd (cc h)
  dispatch-Keeps name other Route.method_not_allowed cfg r w h = absurd (cc h)
  dispatch-Keeps name other Route.not_found cfg r w h = absurd (cc h)

  -- Whatever one of the OAuth handlers answers to a request, on every branch and whatever Strava
  -- sent, where the response was not sent before and the decoded path of the request is that of the
  -- segments that the multiplexer matches: the response that goes out says that it must not be stored
  -- and that no referrer may be sent.
  pub public_handler-IsHardened :
      (cfg : Config) (r : Request) (w : Exchange)
      → w.response.status ≡ none
      → r.path ≡ joined (mux.segments r)
      → is_handler (route r.method (mux.segments r)) ≡ true
      → IsHardened (public_handler env proxy mux cfg r w).response
  unfolding public_handler oauth_surface_headers
  public_handler-IsHardened cfg r w unsent decoded h =
      let hard = respond security_headers w in
      let (cache, referrer) = security_headers-IsHardened w.response unsent in
      let to = route r.method (mux.segments r) in
      let inside : is_oauth_surface r.path ≡ true =
        ap is_oauth_surface decoded ∙ route-IsSurface r.method (mux.segments r) h in
      rw (public_handler, oauth_surface_headers, inside)
        (
          dispatch-Keeps (str "Cache-Control") cache-IsOther to cfg r hard h ∙ cache,
          dispatch-Keeps (str "Referrer-Policy") referrer-IsOther to cfg r hard h ∙ referrer,
        )
