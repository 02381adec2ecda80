-- ===== src/Tests/Handlers.antt =====
-- The handlers on requests of one client.
use strava_auth_proxy.Fault
use strava_auth_proxy.Prelude.{◌≡◌, ◌⊎◌, none, some, [], ◌∷◌, if◌then◌else◌, ◌&&◌, ◌||◌, true}
use strava_auth_proxy.Prelude.Int.{pos}
use strava_auth_proxy.Go.Text.{str, ◌==◌}
use strava_auth_proxy.Go.Values.{Values, lookup, get, has}
use strava_auth_proxy.Go.Http.{Request}
use strava_auth_proxy.Config.{callback_url, mem}
use strava_auth_proxy.Oauth.{first_param, path_authorize, path_revoke}
use strava_auth_proxy.Oauth.Responses.{IsPage}
use strava_auth_proxy.Oauth.Relay.{IsFault, Unbuilt}
use strava_auth_proxy.Oauth.Authorize.{authorize_params, authorize}
use strava_auth_proxy.Oauth.Authorize.Params.{lookup-authorize_params}
use strava_auth_proxy.Oauth.Authorize.Answers.{IsRedirect, Refused, Broken}
use strava_auth_proxy.Oauth.Authorize.Outcome.{authorize_outcome}
use strava_auth_proxy.Oauth.Callback.{callback, echo_state, success_params, error_params}
use strava_auth_proxy.Oauth.Callback.Params.{lookup-success_params, lookup-error_params}
use strava_auth_proxy.Oauth.Callback.Answers.{IsReturn, Denied, IsFailure}
use strava_auth_proxy.Oauth.Callback.Outcome.{callback_outcome}
use strava_auth_proxy.Oauth.Token.{token}
use strava_auth_proxy.Oauth.Token.Sent.{IsSent, token-IsSent}
use strava_auth_proxy.Oauth.Revoke.Forwards.{
  IsForwarded, deauthorize_path, as_it_came, revoke_path, under_own_name, revoke-IsForwarded,
  deauthorize-IsForwarded,
}
use strava_auth_proxy.Oauth.Token.Answers.{Answer}
use strava_auth_proxy.Oauth.Token.Outcome.{token_outcome}
use strava_auth_proxy.Oauth.Revoke.{
  passthrough_headers, revoke, deauthorize, revoke_header, deauthorize_header, basic_auth_header,
}
use strava_auth_proxy.Oauth.Revoke.Headers.{get-deauthorize_header}
use strava_auth_proxy.Oauth.Revoke.Outcome.{
  IsPassed, IsAuthorized, Unauthorized, revoke_outcome, target_url,
}
use strava_auth_proxy.Seal.{StatePayload}
use strava_auth_proxy.Tests.Setup.{cfg, env, request, start, start-IsUnsent}

abbrev query : Values
query =
    (str "client_id", str "42" ∷ [])
    ∷ (str "redirect_uri", str "https://app.example/return" ∷ [])
    ∷ (str "state", str "s" ∷ [])
    ∷ (str "scope", str "read" ∷ [])
    ∷ []

abbrev answer : Values
answer =
    (str "state", str "forged" ∷ [])
    ∷ (str "code", str "c0de" ∷ [])
    ∷ (str "scope", str "read" ∷ [])
    ∷ []

abbrev form : Values
form =
    (str "client_id", str "42" ∷ [])
    ∷ (str "client_secret", str "hush" ∷ [])
    ∷ (str "grant_type", str "refresh_token" ∷ [])
    ∷ (str "refresh_token", str "r1" ∷ [])
    ∷ []

abbrev state : StatePayload
state = record {
  cid = str "42";
  ru = str "https://app.example/return";
  st = str "s";
  has_st = true;
  iat = pos 1000;
  nonce = [];
}

abbrev authorized : Request
authorized = record request {
  header =
      (str "Authorization", basic_auth_header (str "42") (str "hush") ∷ [])
      ∷ (str "Accept", str "*/*" ∷ [])
      ∷ [];
}

authorize_outcome_example :
    ((authorize (env query []) cfg request path_authorize start).response.status ≡ some 302)
      × IsRedirect
          (env query [])
          cfg
          request
          path_authorize
          start
          (authorize (env query []) cfg request path_authorize start)
    ⊎ IsPage 400 (authorize (env query []) cfg request path_authorize start) × Refused cfg query
    ⊎ IsPage 500 (authorize (env query []) cfg request path_authorize start)
      × Broken (env query []) cfg path_authorize query
authorize_outcome_example =
    authorize_outcome (env query []) cfg request path_authorize start start-IsUnsent

lookup-authorize_params_example :
    lookup (authorize_params query cfg (str "sealed")) (str "scope") ≡ (
      if str "state" == str "scope"
      then some (str "sealed" ∷ [])
      else if str "redirect_uri" == str "scope"
      then some (callback_url cfg ∷ [])
      else if str "client_id" == str "scope"
      then some (str "1001" ∷ [])
      else lookup query (str "scope"))
lookup-authorize_params_example = lookup-authorize_params query cfg (str "sealed") (str "scope")

callback_outcome_example :
    ((callback (env answer []) cfg request start).response.status ≡ some 302)
      × IsReturn (env answer []) cfg request (callback (env answer []) cfg request start)
    ⊎ IsPage 400 (callback (env answer []) cfg request start) × Denied (env answer []) cfg request
    ⊎ IsPage 500 (callback (env answer []) cfg request start)
      × IsFailure (env answer []) cfg request
callback_outcome_example = callback_outcome (env answer []) cfg request start start-IsUnsent

lookup-success_params_example :
    lookup (echo_state state (success_params (str "wrapped") answer [])) (str "state") ≡ (
      if str "state" == str "state" && true
      then some (str "s" ∷ [])
      else if str "scope" == str "state" && has answer (str "scope")
      then some ((first_param answer (str "scope")).0 ∷ [])
      else if str "code" == str "state"
      then some (str "wrapped" ∷ [])
      else lookup [] (str "state"))
lookup-success_params_example = lookup-success_params state (str "wrapped") answer [] (str "state")

lookup-error_params_example :
    lookup (echo_state state (error_params (str "access_denied") answer [])) (str "error") ≡ (
      if str "state" == str "error" && true
      then some (str "s" ∷ [])
      else if str "error_uri" == str "error" && has answer (str "error_uri")
      then some ((first_param answer (str "error_uri")).0 ∷ [])
      else if str "error_description" == str "error" && has answer (str "error_description")
      then some ((first_param answer (str "error_description")).0 ∷ [])
      else if str "error" == str "error"
      then some (str "access_denied" ∷ [])
      else lookup [] (str "error"))
lookup-error_params_example =
    lookup-error_params state (str "access_denied") answer [] (str "error")

token_outcome_example :
    (some form ≡ none)
      × IsFault Fault.write_invalid_client_id start (token (env [] form) cfg request start)
    ⊎ (sent : Values) × (some form ≡ some sent)
      × Answer (env [] form) cfg sent start (token (env [] form) cfg request start)
token_outcome_example = token_outcome (env [] form) cfg request start

token-IsSent_example :
    let w' = token (env [] form) cfg request start in
    (w'.sent ≡ start.sent) ⊎ IsSent (env [] form) cfg request start w'
token-IsSent_example = token-IsSent (env [] form) cfg request start

revoke_outcome_example :
    Unauthorized (env [] []) cfg authorized
      × IsFault Fault.write_unauthorized start (revoke (env [] []) cfg authorized start)
    ⊎ IsAuthorized (env [] []) cfg authorized
      × (IsPassed
            (env [] [])
            cfg
            authorized
            path_revoke
            (revoke_header cfg authorized)
            start
            (revoke (env [] []) cfg authorized start)
          ⊎ Unbuilt (env [] []) cfg path_revoke (target_url (env [] []) authorized)
            × IsFault Fault.write_upstream_unavailable start
                (revoke (env [] []) cfg authorized start))
revoke_outcome_example = revoke_outcome (env [] []) cfg authorized start

deauthorize-IsForwarded_example :
    IsForwarded
      (env [] [])
      cfg
      authorized
      deauthorize_path
      (as_it_came authorized)
      start
      (deauthorize (env [] []) cfg authorized start)
    ⊎ Unbuilt (env [] []) cfg deauthorize_path (target_url (env [] []) authorized)
      × IsFault Fault.write_upstream_unavailable start
          (deauthorize (env [] []) cfg authorized start)
deauthorize-IsForwarded_example = deauthorize-IsForwarded (env [] []) cfg authorized start

revoke-IsForwarded_example :
    ((revoke (env [] []) cfg authorized start).sent ≡ start.sent)
    ⊎ (IsAuthorized (env [] []) cfg authorized
        × IsForwarded
            (env [] [])
            cfg
            authorized
            revoke_path
            (under_own_name cfg authorized)
            start
            (revoke (env [] []) cfg authorized start))
revoke-IsForwarded_example = revoke-IsForwarded (env [] []) cfg authorized start

get-deauthorize_header_test : get (deauthorize_header authorized) (str "Cookie") ≡ (
    if str "Authorization" == str "Cookie" || mem (str "Cookie") passthrough_headers
    then get authorized.header (str "Cookie")
    else [])
get-deauthorize_header_test = get-deauthorize_header authorized (str "Cookie")
