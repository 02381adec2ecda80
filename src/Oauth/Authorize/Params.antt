-- ===== src/Oauth/Authorize/Params.antt =====
-- What Strava receives of an authorization request.
use strava_auth_proxy.Prelude.{◌≡◌, some, [], ◌∷◌, arith, if◌then◌else◌}
use strava_auth_proxy.Go.Text.{Str, str, ◌==◌, eq_iff}
use strava_auth_proxy.Go.Values.{Values, lookup, lookup-set, lookup-keep}
use strava_auth_proxy.Config.{Config, callback_url, mem}
use strava_auth_proxy.Oauth.Authorize.{authorize_params}

-- What Strava receives: the real client id, the proxy's callback and the sealed state in place of
-- the caller's, and every other parameter with all its values as the caller sent it.
pub lookup-authorize_params :
    (q : Values) (cfg : Config) (sealed k : Str)
    → lookup (authorize_params q cfg sealed) k ≡ (
        if str "state" == k
        then some (sealed ∷ [])
        else if str "redirect_uri" == k
        then some (callback_url cfg ∷ [])
        else if str "client_id" == k
        then some (cfg.strava_client_id ∷ [])
        else lookup q k)
unfolding authorize_params mem
lookup-authorize_params q cfg sealed k =
    simp (lookup-set, lookup-keep)
      (ground
        (arith, eq_iff (str "state") k, eq_iff (str "redirect_uri") k, eq_iff (str "client_id") k))
