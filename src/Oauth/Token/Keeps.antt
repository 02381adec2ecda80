-- ===== src/Oauth/Token/Keeps.antt =====
-- internal/oauth/token.go: the headers that it leaves alone.
use strava_auth_proxy.Prelude.{◌∙◌, not, some, inl, inr, Option-cases, Result-cases, branch}
use strava_auth_proxy.Go.Text.{Str, str, ◌==◌}
use strava_auth_proxy.Go.Values.{Values, get, set}
use strava_auth_proxy.Go.Http.{Request}
use strava_auth_proxy.Seal.{CodePayload, open_envelope, domain_code}
use strava_auth_proxy.Config.{Config, Client, client_of, verify_secret}
use strava_auth_proxy.Fault.Headers.{
  IsOther, lookup-write_invalid_client_id, lookup-write_invalid_client_secret,
  lookup-write_invalid_code, lookup-write_upstream_unavailable,
}
use strava_auth_proxy.Exchange.{Exchange, set_client_id}
use strava_auth_proxy.Oauth.{Env, upstream_url, ring_of, path_token}
use strava_auth_proxy.Oauth.Headers.{Keeps, relay-Keeps, set_client_id-Keeps}
use strava_auth_proxy.Oauth.Token.{
  token, token_form, token_client, token_grant, token_code, token_send, token_internal, reject_code,
  count_status, token_request, with_real_credentials, forwarded, grant_authorization_code,
}

module _ (name : Str) (other : IsOther name) (env : Env) (cfg : Config) (grant : Str) where
  token_internal-Keeps :
      (message : Str) (w : Exchange) → Keeps name w (token_internal message grant w)
  unfolding token_internal
  token_internal-Keeps message w = lookup-write_upstream_unavailable name other w.response

  token_send-Keeps : (out : Values) (w : Exchange) → Keeps name w (token_send env cfg grant out w)
  unfolding token_send count_status
  token_send-Keeps out w = elim (Option-cases (upstream_url env cfg path_token)) [
    | inl none_such ↦
        rw (token_send, none_such)
          (token_internal-Keeps (str "building upstream token URL failed") w)
    | inr (target, found) ↦
        let req = token_request env target (with_real_credentials cfg out) in
        rw (token_send, found)
          (branch (Keeps name w) (env.accepts_url req.url)
            (λ _. relay-Keeps name other env req (str "token") w)
            (λ _. token_internal-Keeps (str "building upstream token request failed") w))
  ]

  token_code-Keeps :
      (client : Client) (out : Values) (cp : CodePayload) (w : Exchange)
      → Keeps name w (token_code env cfg grant client out cp w)
  unfolding token_code reject_code
  token_code-Keeps client out cp w =
      branch (Keeps name w) (not (cp.cid == client.id))
        (λ _. lookup-write_invalid_code name other w.response)
        (λ _. token_send-Keeps (set out (str "code") cp.sc) w)

  token_grant-Keeps :
      (client : Client) (form : Values) (w : Exchange)
      → Keeps name w (token_grant env cfg grant client form w)
  unfolding token_grant reject_code
  token_grant-Keeps client form w =
      branch (Keeps name w) (grant == grant_authorization_code)
        (λ _.
          elim (Result-cases (
            open_envelope env.prim env.code_codec (ring_of env (some cfg)) domain_code
              (get form (str "code")) cfg.state_ttl env.now)) [
                | inl (e, bad) ↦
                    rw (token_grant, bad) (lookup-write_invalid_code name other w.response)
                | inr (cp, good) ↦
                    rw (token_grant, good) (token_code-Keeps client (forwarded form) cp w)
              ])
        (λ _. token_send-Keeps (forwarded form) w)

  token_client-Keeps :
      (client : Client) (form : Values) (w : Exchange)
      → Keeps name w (token_client env cfg grant client form w)
  unfolding token_client
  token_client-Keeps client form w =
      branch (Keeps name w)
        (not (verify_secret env.lib (some client) (get form (str "client_secret"))))
        (λ _. lookup-write_invalid_client_secret name other w.response)
        (λ _. token_grant-Keeps client form w)

module _ (name : Str) (other : IsOther name) (env : Env) (cfg : Config) where
  token_form-Keeps : (form : Values) (w : Exchange) → Keeps name w (token_form env cfg form w)
  unfolding token_form
  token_form-Keeps form w =
      elim (Option-cases (client_of (some cfg) (get form (str "client_id")))) [
        | inl unknown ↦
            rw (token_form, unknown) (lookup-write_invalid_client_id name other w.response)
        | inr (client, known) ↦
            rw (token_form, known)
              (token_client-Keeps name other env cfg (get form (str "grant_type")) client form
                  (set_client_id client.id w)
                ∙ set_client_id-Keeps name other client.id w)
      ]

  pub token-Keeps : (r : Request) (w : Exchange) → Keeps name w (token env cfg r w)
  unfolding token
  token-Keeps r w = elim (Option-cases (env.parse_form r)) [
    | inl malformed ↦ rw (token, malformed) (lookup-write_invalid_client_id name other w.response)
    | inr (form, parsed) ↦ rw (token, parsed) (token_form-Keeps form w)
  ]
