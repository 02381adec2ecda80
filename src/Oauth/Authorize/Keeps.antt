-- ===== src/Oauth/Authorize/Keeps.antt =====
-- internal/oauth/authorize.go: the headers that it leaves alone.
use strava_auth_proxy.Prelude.{
  ◌∙◌, not, some, inl, inr, Option-cases, Result-cases, branch, ltb, length,
}
use strava_auth_proxy.Go.Text.{Str, str}
use strava_auth_proxy.Go.Values.{Values}
use strava_auth_proxy.Go.Http.{Request, set_cookie}
use strava_auth_proxy.Seal.{StatePayload, seal, domain_state}
use strava_auth_proxy.Config.{Config, Client, client_of, allows_redirect_uri}
use strava_auth_proxy.Fault.Headers.{IsOther}
use strava_auth_proxy.Exchange.{Exchange, respond, set_client_id}
use strava_auth_proxy.Oauth.{Env, upstream_url, ring_of, first_param}
use strava_auth_proxy.Oauth.Headers.{
  Keeps, redirect_found-Kept, bad_request-Keeps, internal-Keeps, set_client_id-Keeps,
}
use strava_auth_proxy.Oauth.Authorize.{
  authorize, authorize_client, authorize_nonce, authorize_seal, new_nonce, nonce_cookie,
  max_caller_state_len,
}

module _ (name : Str) (other : IsOther name) (env : Env) (cfg : Config) (r : Request) (path : Str)
    (q : Values) where
  authorize_seal-Keeps :
      (payload : StatePayload) (w : Exchange)
      → Keeps name w (authorize_seal env cfg r path q payload w)
  unfolding authorize_seal
  authorize_seal-Keeps payload w =
      elim (Result-cases
        (seal env.prim env.state_codec (ring_of env (some cfg)) domain_state payload)) [
          | inl (e, bad) ↦ rw (authorize_seal, bad) (internal-Keeps name other _ _ w)
          | inr (sealed, good) ↦ elim (Option-cases (upstream_url env cfg path)) [
            | inl none_such ↦ rw (authorize_seal, good, none_such) (internal-Keeps name other _ _ w)
            | inr (target, found) ↦
                rw (authorize_seal, good, found)
                  (redirect_found-Kept name other r.method _ w.response)
          ]
        ]

  authorize_nonce-Keeps :
      (client : Client) (payload : StatePayload) (w : Exchange)
      → Keeps name w (authorize_nonce env cfg r path q client payload w)
  unfolding authorize_nonce
  authorize_nonce-Keeps client payload w =
      branch (Keeps name w) client.require_nonce_cookie
        (λ _. elim (Option-cases (new_nonce env)) [
          | inl failed ↦ rw (authorize_nonce, failed) (internal-Keeps name other _ _ w)
          | inr (nonce, drawn) ↦
              rw (authorize_nonce, drawn)
                (authorize_seal-Keeps (record payload { nonce = nonce })
                  (respond (set_cookie (nonce_cookie nonce cfg)) w))
        ])
        (λ _. authorize_seal-Keeps payload w)

  authorize_client-Keeps :
      (client : Client) (w : Exchange) → Keeps name w (authorize_client env cfg r path q client w)
  unfolding authorize_client
  authorize_client-Keeps client w =
      branch (Keeps name w)
        (not (allows_redirect_uri (some client) (first_param q (str "redirect_uri")).0))
        (λ _. bad_request-Keeps name other _ w)
        (λ _.
          branch (Keeps name w) (ltb max_caller_state_len (length (first_param q (str "state")).0))
            (λ _. bad_request-Keeps name other _ w) (λ _. authorize_nonce-Keeps client _ w))

pub authorize-Keeps :
    (name : Str)
    → IsOther name
    → (env : Env) (cfg : Config) (r : Request) (path : Str) (w : Exchange)
    → Keeps name w (authorize env cfg r path w)
unfolding authorize
authorize-Keeps name other env cfg r path w =
    let q = env.parse_query r.raw_query in
    elim (Option-cases (client_of (some cfg) (first_param q (str "client_id")).0)) [
      | inl unknown ↦ rw (authorize, unknown) (bad_request-Keeps name other _ w)
      | inr (client, known) ↦
          rw (authorize, known)
            (authorize_client-Keeps name other env cfg r path q client (set_client_id client.id w)
              ∙ set_client_id-Keeps name other client.id w)
    ]
