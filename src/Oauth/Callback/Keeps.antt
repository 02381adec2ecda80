-- ===== src/Oauth/Callback/Keeps.antt =====
-- internal/oauth/callback.go: the headers that it leaves alone.
use strava_auth_proxy.Prelude.{
  ◌∙◌, ◌||◌, not, some, [], ◌∷◌, inl, inr, Option-cases, Result-cases, branch, is_empty,
}
use strava_auth_proxy.Go.Text.{Str, str, ◌==◌}
use strava_auth_proxy.Go.Values.{Values}
use strava_auth_proxy.Go.Url.{Url}
use strava_auth_proxy.Go.Http.{Request, set_cookie}
use strava_auth_proxy.Seal.{
  StatePayload, Error, seal, open_envelope, domain_state, domain_code, is, err_expired,
}
use strava_auth_proxy.Config.{Config, Client, client_of, allows_redirect_uri}
use strava_auth_proxy.Fault.Headers.{IsOther}
use strava_auth_proxy.Exchange.{
  Exchange, respond, set_client_id, count_callback, log_entry, text, seal_error, Level,
}
use strava_auth_proxy.Oauth.{Env, ring_of, first_param}
use strava_auth_proxy.Oauth.Headers.{
  Keeps, redirect_found-Kept, bad_request-Keeps, internal-Keeps, set_client_id-Keeps,
}
use strava_auth_proxy.Oauth.Authorize.{cleared_nonce_cookie}
use strava_auth_proxy.Oauth.Callback.{
  callback, callback_state, callback_nonce, callback_legs, callback_code, finish_redirect,
  presented_nonce, reject_state, outcome_internal, outcome_success, outcome_upstream_error,
  success_params,
}
use strava_auth_proxy.Go.Time.{to_unix}

module _ (name : Str) (other : IsOther name) (env : Env) (cfg : Config) (r : Request) (q : Values)
    (st : StatePayload) where
  finish_redirect-Keeps :
      (dst : Url) (out : Values) (outcome : Str) (w : Exchange)
      → Keeps name w (finish_redirect env cfg r q st dst out outcome w)
  unfolding finish_redirect
  finish_redirect-Keeps dst out outcome w = redirect_found-Kept name other r.method _ w.response

  callback_code-Keeps :
      (dst : Url) (out : Values) (code : Str) (w : Exchange)
      → Keeps name w (callback_code env cfg r q st dst out code w)
  unfolding callback_code
  callback_code-Keeps dst out code w =
      elim (Result-cases (
        seal env.prim env.code_codec (ring_of env (some cfg)) domain_code
          (record { cid = st.cid; sc = code; iat = to_unix env.now }))) [
            | inl (e, bad) ↦
                rw (callback_code, bad)
                  (internal-Keeps name other _ _ (count_callback outcome_internal w))
            | inr (wrapped, good) ↦
                rw (callback_code, good)
                  (finish_redirect-Keeps dst (success_params wrapped q out) outcome_success w)
          ]

  callback_legs-Keeps : (w : Exchange) → Keeps name w (callback_legs env cfg r q st w)
  unfolding callback_legs
  callback_legs-Keeps w = elim (Option-cases (env.lib.parse_url st.ru)) [
    | inl unparsed ↦
        rw (callback_legs, unparsed)
          (internal-Keeps name other _ _ (count_callback outcome_internal w))
    | inr (dst, parsed) ↦
        let out = env.parse_query dst.raw_query in
        rw (callback_legs, parsed)
          (branch (Keeps name w) (first_param q (str "error")).1
            (λ _. finish_redirect-Keeps dst _ outcome_upstream_error w)
            (λ _.
              branch (Keeps name w) (is_empty (first_param q (str "code")).0)
                (λ _. bad_request-Keeps name other _ (count_callback (str "missing_code") w))
                (λ _. callback_code-Keeps dst out (first_param q (str "code")).0 w)))
  ]

  callback_nonce-Keeps :
      (client : Client) (w : Exchange) → Keeps name w (callback_nonce env cfg r q st client w)
  unfolding callback_nonce
  callback_nonce-Keeps client w =
      let cleared = respond (set_cookie cleared_nonce_cookie) w in
      branch (Keeps name w) client.require_nonce_cookie
        (λ _.
          branch (Keeps name w)
            (is_empty st.nonce || not (presented_nonce env cfg r q st == st.nonce))
            (λ _. bad_request-Keeps name other _ (count_callback (str "nonce_mismatch") cleared))
            (λ _. callback_legs-Keeps cleared))
        (λ _. callback_legs-Keeps w)

  callback_state-Keeps : (w : Exchange) → Keeps name w (callback_state env cfg r q st w)
  unfolding callback_state
  callback_state-Keeps w = elim (Option-cases (client_of (some cfg) st.cid)) [
    | inl unknown ↦
        rw (callback_state, unknown)
          (bad_request-Keeps name other _ (count_callback (str "unknown_client") w))
    | inr (client, known) ↦
        rw (callback_state, known)
          (branch (Keeps name w) (not (allows_redirect_uri (some client) st.ru))
            (λ _. bad_request-Keeps name other _ (count_callback (str "redirect_uri_revoked") w))
            (λ _. callback_nonce-Keeps client w))
  ]

reject_state-Keeps :
    (name : Str)
    → IsOther name
    → (outcome detail : Str) (e : Error) (w : Exchange)
    → Keeps name w (reject_state outcome detail e w)
unfolding reject_state
reject_state-Keeps name other outcome detail e w = bad_request-Keeps name other detail (
    log_entry Level.warn (str "rejecting callback state")
      (text (str "outcome") outcome ∷ seal_error e ∷ []) (count_callback outcome w))

pub callback-Keeps :
    (name : Str)
    → IsOther name
    → (env : Env) (cfg : Config) (r : Request) (w : Exchange) → Keeps name w (callback env cfg r w)
unfolding callback
callback-Keeps name other env cfg r w =
    let q = env.parse_query r.raw_query in
    elim (Result-cases (
      open_envelope env.prim env.state_codec (ring_of env (some cfg)) domain_state
        (first_param q (str "state")).0 cfg.state_ttl env.now)) [
          | inl (e, bad) ↦
              rw (callback, bad)
                (branch (Keeps name w) (is e err_expired)
                  (λ _. reject_state-Keeps name other _ _ e w)
                  (λ _. reject_state-Keeps name other _ _ e w))
          | inr (st, good) ↦
              rw (callback, good)
                (callback_state-Keeps name other env cfg r q st (set_client_id st.cid w)
                  ∙ set_client_id-Keeps name other st.cid w)
        ]
