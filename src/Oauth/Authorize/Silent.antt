-- ===== src/Oauth/Authorize/Silent.antt =====
-- internal/oauth/authorize.go: it sends no request to Strava.
use strava_auth_proxy.Prelude.{◌≡◌, arith}
use strava_auth_proxy.Go.Text.{Str}
use strava_auth_proxy.Go.Values.{Values}
use strava_auth_proxy.Go.Http.{Request}
use strava_auth_proxy.Seal.{StatePayload}
use strava_auth_proxy.Config.{Config, Client}
use strava_auth_proxy.Exchange.{Exchange}
use strava_auth_proxy.Oauth.{Env, bad_request, internal}
use strava_auth_proxy.Oauth.Responses.{sent-set_client_id}
use strava_auth_proxy.Oauth.Authorize.{authorize, authorize_client, authorize_nonce, authorize_seal}

module _ (env : Env) (cfg : Config) (r : Request) (path : Str) (q : Values) where
  sent-authorize_seal :
      (p : StatePayload) (w : Exchange) → (authorize_seal env cfg r path q p w).sent ≡ w.sent
  unfolding authorize_seal internal
  sent-authorize_seal p w = ground arith

  sent-authorize_nonce :
      (client : Client) (p : StatePayload) (w : Exchange)
      → (authorize_nonce env cfg r path q client p w).sent ≡ w.sent
  unfolding authorize_nonce internal
  sent-authorize_nonce client p w = grind (arith, sent-authorize_seal)

  sent-authorize_client :
      (client : Client) (w : Exchange) → (authorize_client env cfg r path q client w).sent ≡ w.sent
  unfolding authorize_client bad_request
  sent-authorize_client client w = grind (arith, sent-authorize_nonce)

pub sent-authorize :
    (env : Env) (cfg : Config) (r : Request) (path : Str) (w : Exchange)
    → (authorize env cfg r path w).sent ≡ w.sent
unfolding authorize bad_request
sent-authorize env cfg r path w = grind (arith, sent-authorize_client, sent-set_client_id)
