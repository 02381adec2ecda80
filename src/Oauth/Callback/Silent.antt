-- ===== src/Oauth/Callback/Silent.antt =====
-- internal/oauth/callback.go: it sends no request to Strava.
use strava_auth_proxy.Prelude.{◌≡◌, arith}
use strava_auth_proxy.Go.Text.{Str}
use strava_auth_proxy.Go.Values.{Values}
use strava_auth_proxy.Go.Url.{Url}
use strava_auth_proxy.Go.Http.{Request}
use strava_auth_proxy.Seal.{StatePayload}
use strava_auth_proxy.Config.{Config, Client}
use strava_auth_proxy.Exchange.{Exchange}
use strava_auth_proxy.Oauth.{Env, bad_request, internal}
use strava_auth_proxy.Oauth.Responses.{sent-set_client_id}
use strava_auth_proxy.Oauth.Callback.{
  callback, callback_state, callback_nonce, callback_legs, callback_code, finish_redirect,
  reject_state,
}

module _ (env : Env) (cfg : Config) (r : Request) (q : Values) (st : StatePayload) where
  sent-callback_code :
      (dst : Url) (out : Values) (code : Str) (w : Exchange)
      → (callback_code env cfg r q st dst out code w).sent ≡ w.sent
  unfolding callback_code finish_redirect internal
  sent-callback_code dst out code w = ground arith

  sent-callback_legs : (w : Exchange) → (callback_legs env cfg r q st w).sent ≡ w.sent
  unfolding callback_legs finish_redirect internal bad_request
  sent-callback_legs w = grind (arith, sent-callback_code)

  sent-callback_nonce :
      (client : Client) (w : Exchange) → (callback_nonce env cfg r q st client w).sent ≡ w.sent
  unfolding callback_nonce bad_request
  sent-callback_nonce client w = grind (arith, sent-callback_legs)

  sent-callback_state : (w : Exchange) → (callback_state env cfg r q st w).sent ≡ w.sent
  unfolding callback_state bad_request
  sent-callback_state w = grind (arith, sent-callback_nonce)

pub sent-callback :
    (env : Env) (cfg : Config) (r : Request) (w : Exchange) → (callback env cfg r w).sent ≡ w.sent
unfolding callback reject_state bad_request
sent-callback env cfg r w = grind (arith, sent-callback_state, sent-set_client_id)
