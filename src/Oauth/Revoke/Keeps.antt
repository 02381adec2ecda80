-- ===== src/Oauth/Revoke/Keeps.antt =====
-- internal/oauth/revoke.go: the headers that it leaves alone.
use strava_auth_proxy.Prelude.{◌∙◌, not, some, inl, inr, Option-cases, branch}
use strava_auth_proxy.Go.Text.{Str, str}
use strava_auth_proxy.Go.Http.{Request}
use strava_auth_proxy.Config.{Config, client_of, verify_secret}
use strava_auth_proxy.Fault.Headers.{
  IsOther, lookup-write_unauthorized, lookup-write_upstream_unavailable,
}
use strava_auth_proxy.Exchange.{Exchange, set_client_id}
use strava_auth_proxy.Oauth.{Env, upstream_url, path_deauthorize, path_revoke}
use strava_auth_proxy.Oauth.Headers.{Keeps, relay-Keeps, set_client_id-Keeps}
use strava_auth_proxy.Oauth.Revoke.{
  revoke, revoke_client, revoke_send, deauthorize, revoke_internal, passthrough_request,
  deauthorize_header, revoke_header, basic_auth,
}

module _ (name : Str) (other : IsOther name) where
  revoke_internal-Keeps : (message : Str) (w : Exchange) → Keeps name w (revoke_internal message w)
  unfolding revoke_internal
  revoke_internal-Keeps message w = lookup-write_upstream_unavailable name other w.response

  module _ (env : Env) (cfg : Config) (r : Request) where
    pub deauthorize-Keeps : (w : Exchange) → Keeps name w (deauthorize env cfg r w)
    unfolding deauthorize
    deauthorize-Keeps w = elim (Option-cases (upstream_url env cfg path_deauthorize)) [
      | inl none_such ↦
          rw (deauthorize, none_such)
            (revoke_internal-Keeps (str "building upstream deauthorize URL failed") w)
      | inr (target, found) ↦
          let req = passthrough_request env target r (deauthorize_header r) in
          rw (deauthorize, found)
            (branch (Keeps name w) (env.accepts_url req.url)
              (λ _. relay-Keeps name other env req (str "deauthorize") w)
              (λ _. revoke_internal-Keeps (str "building upstream deauthorize request failed") w))
    ]

    revoke_send-Keeps : (w : Exchange) → Keeps name w (revoke_send env cfg r w)
    unfolding revoke_send
    revoke_send-Keeps w = elim (Option-cases (upstream_url env cfg path_revoke)) [
      | inl none_such ↦
          rw (revoke_send, none_such)
            (revoke_internal-Keeps (str "building upstream revoke URL failed") w)
      | inr (target, found) ↦
          let req = passthrough_request env target r (revoke_header cfg r) in
          rw (revoke_send, found)
            (branch (Keeps name w) (env.accepts_url req.url)
              (λ _. relay-Keeps name other env req (str "revoke") w)
              (λ _. revoke_internal-Keeps (str "building upstream revoke request failed") w))
    ]

    revoke_client-Keeps :
        (id secret : Str) (w : Exchange) → Keeps name w (revoke_client env cfg r id secret w)
    unfolding revoke_client
    revoke_client-Keeps id secret w = elim (Option-cases (client_of (some cfg) id)) [
      | inl unknown ↦ rw (revoke_client, unknown) (lookup-write_unauthorized name other w.response)
      | inr (client, known) ↦
          let noted = set_client_id client.id w in
          rw (revoke_client, known)
            (branch (Keeps name noted) (not (verify_secret env.lib (some client) secret))
                (λ _. lookup-write_unauthorized name other noted.response)
                (λ _. revoke_send-Keeps noted)
              ∙ set_client_id-Keeps name other client.id w)
    ]

    pub revoke-Keeps : (w : Exchange) → Keeps name w (revoke env cfg r w)
    unfolding revoke
    revoke-Keeps w = elim (Option-cases (basic_auth r.header)) [
      | inl anonymous ↦ rw (revoke, anonymous) (lookup-write_unauthorized name other w.response)
      | inr ((id, secret), given) ↦ rw (revoke, given) (revoke_client-Keeps id secret w)
    ]
