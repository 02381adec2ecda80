-- ===== src/Oauth/Callback.antt =====
-- internal/oauth/callback.go.
pub mod Keeps
pub mod Silent
pub mod Outcome
pub mod Params
pub mod Answers
pub mod Complete
use strava_auth_proxy.Prelude.{
  Bool, not, ◌||◌, Option, none, some, List, [], ◌∷◌, Result, ok, err, is_empty, if◌then◌else◌,
}
use strava_auth_proxy.Go.Text.{Str, str, ◌==◌}
use strava_auth_proxy.Go.Time.{to_unix}
use strava_auth_proxy.Go.Url.{Url}
use strava_auth_proxy.Go.Values.{Values, set}
use strava_auth_proxy.Go.Http.{Request, find_cookie, set_cookie, redirect_found}
use strava_auth_proxy.Seal
use strava_auth_proxy.Seal.{
  StatePayload, domain_state, domain_code, seal, open_envelope, err_expired, is,
}
use strava_auth_proxy.Config.{Client, Config, allows_redirect_uri, client_of}
use strava_auth_proxy.Exchange.{
  Exchange, Level, text, seal_error, respond, count_callback, log_entry, set_client_id,
}
use strava_auth_proxy.Oauth.{Env, bad_request, first_param, internal, ring_of}
use strava_auth_proxy.Oauth.Authorize.{nonce_cookie_name, cleared_nonce_cookie}

abbrev pub outcome_success : Str
outcome_success = str "success"

abbrev pub outcome_upstream_error : Str
outcome_upstream_error = str "upstream_error"

abbrev pub outcome_internal : Str
outcome_internal = str "internal_error"

-- A parameter of the query, copied if it is present.
unfoldable pub copy_param : Str → Values → Values → Values
copy_param name q out =
    let (v, present) = first_param q name in if present then set out name v else out

-- The loop over `errorPassthroughParams`.
unfoldable pub error_params : Str → Values → Values → Values
unfolding copy_param
error_params value q out =
    copy_param (str "error_uri") q
      (copy_param (str "error_description") q (set out (str "error") value))

unfoldable pub success_params : Str → Values → Values → Values
unfolding copy_param
success_params wrapped q out = copy_param (str "scope") q (set out (str "code") wrapped)

unfoldable pub echo_state : StatePayload → Values → Values
echo_state st out = if st.has_st then set out (str "state") st.st else out

module _ (env : Env) (cfg : Config) (r : Request) (q : Values) (st : StatePayload) where
  finish_redirect : Url → Values → Str → Exchange → Exchange
  finish_redirect dst out outcome w =
      respond
        (redirect_found r.method
          (env.url_string (record dst { raw_query = env.encode (echo_state st out) })))
        (count_callback outcome w)

  -- The success leg, with Strava's code.
  callback_code : Url → Values → Str → Exchange → Exchange
  callback_code dst out code w =
      elim (seal env.prim env.code_codec (ring_of env (some cfg)) domain_code
        (record { cid = st.cid; sc = code; iat = to_unix env.now })) [
          | err e ↦
              internal (str "sealing code failed") (seal_error e ∷ [])
                (count_callback outcome_internal w)
          | ok wrapped ↦ finish_redirect dst (success_params wrapped q out) outcome_success w
        ]

  -- From the parsing of the redirect URI on.
  callback_legs : Exchange → Exchange
  callback_legs w = elim (env.lib.parse_url st.ru) [
    | none ↦
        internal (str "sealed redirect_uri does not parse") (text (str "client_id") st.cid ∷ [])
          (count_callback outcome_internal w)
    | some dst ↦
        let out = env.parse_query dst.raw_query in
        let (error_value, failed) = first_param q (str "error") in
        let code = (first_param q (str "code")).0 in
        if failed
        then finish_redirect dst (error_params error_value q out) outcome_upstream_error w
        else if is_empty code
        then bad_request (str "Strava returned neither an authorization code nor an error.")
            (count_callback (str "missing_code") w)
        else callback_code dst out code w
  ]

  abbrev presented_nonce : Str
  presented_nonce = elim (find_cookie r.cookies nonce_cookie_name) [ none ↦ [] | some v ↦ v ]

  callback_nonce : Client → Exchange → Exchange
  callback_nonce client w =
      let cleared = respond (set_cookie cleared_nonce_cookie) w in
      if client.require_nonce_cookie
      then (if is_empty st.nonce || not (presented_nonce == st.nonce)
          then bad_request (str "The authorization could not be verified. Please start again.")
              (count_callback (str "nonce_mismatch") cleared)
          else callback_legs cleared)
      else callback_legs w

  -- With the state authenticated.
  callback_state : Exchange → Exchange
  callback_state w = elim (client_of (some cfg) st.cid) [
    | none ↦
        bad_request (str "The client that started this authorization is no longer registered.")
          (count_callback (str "unknown_client") w)
    | some client ↦
        if not (allows_redirect_uri (some client) st.ru)
        then bad_request (str "The redirect_uri is no longer registered for this client.")
            (count_callback (str "redirect_uri_revoked") w)
        else callback_nonce client w
  ]

reject_state : Str → Str → Seal.Error → Exchange → Exchange
reject_state outcome detail e w = bad_request detail (
    log_entry Level.warn (str "rejecting callback state")
      (text (str "outcome") outcome ∷ seal_error e ∷ []) (count_callback outcome w))

pub callback : Env → Config → Request → Exchange → Exchange
unfolding reject_state
callback env cfg r w =
    let q = env.parse_query r.raw_query in
    elim (open_envelope env.prim env.state_codec (ring_of env (some cfg)) domain_state
      (first_param q (str "state")).0 cfg.state_ttl env.now) [
        | err e ↦
            if is e err_expired
            then reject_state (str "expired_state")
                (str "The authorization request has expired. Please start again.") e w
            else reject_state (str "bad_state")
                (str "The authorization state is missing, malformed or has been tampered with.") e w
        | ok st ↦ callback_state env cfg r q st (set_client_id st.cid w)
      ]
