-- ===== src/Oauth/Token.antt =====
-- internal/oauth/token.go.
pub mod Keeps
pub mod Outcome
pub mod Answers
pub mod Complete
pub mod Params
pub mod Sent
use strava_auth_proxy.Prelude.{
  ℕ, Bool, not, ◌&&◌, Option, none, some, List, [], ◌∷◌, ◌++◌, Result, ok, err, leb, ltb, eqb,
  length, is_empty, if◌then◌else◌,
}
use strava_auth_proxy.Prelude.Int.{pos}
use strava_auth_proxy.Go.Text.{Str, str, ◌==◌}
use strava_auth_proxy.Go.Url.{Url}
use strava_auth_proxy.Go.Values.{Values, get, set, keep}
use strava_auth_proxy.Go.Http.{Request, Outbound}
use strava_auth_proxy.Seal.{CodePayload, domain_code, open_envelope}
use strava_auth_proxy.Config.{Client, Config, client_of, mem, reveal, verify_secret}
use strava_auth_proxy.Fault
use strava_auth_proxy.Exchange.{
  Exchange, Level, Attr, text, seal_error, respond, count_token, log_entry, set_client_id,
}
use strava_auth_proxy.Oauth.{Env, content_type_form, path_token, relay, ring_of, upstream_url}
use strava_auth_proxy.Oauth.Callback.{outcome_internal, outcome_success, outcome_upstream_error}

abbrev pub grant_authorization_code : Str
grant_authorization_code = str "authorization_code"

abbrev pub grant_refresh_token : Str
grant_refresh_token = str "refresh_token"

abbrev pub token_owned_params : List Str
token_owned_params = str "client_id" ∷ str "client_secret" ∷ []

-- A caller-controlled grant type folded to one of four labels.
unfoldable pub key : Str → Str → Str
key grant outcome =
    (if grant == grant_authorization_code
      then grant
      else if grant == grant_refresh_token
      then grant
      else if is_empty grant
      then str "none"
      else str "other")
    ++ str ":"
    ++ outcome

unfoldable pub status_outcome : ℕ → Str
status_outcome status =
    if leb 200 status && ltb status 300 then outcome_success else outcome_upstream_error

-- The caller's form without the parameters that the proxy owns.
unfoldable pub forwarded : Values → Values
unfolding mem
forwarded form = keep (λ k. not (mem k token_owned_params)) form

unfoldable pub with_real_credentials : Config → Values → Values
with_real_credentials cfg out =
    set (set out (str "client_id") cfg.strava_client_id) (str "client_secret")
      (reveal cfg.strava_client_secret)

-- The one request of a token exchange.
unfoldable pub token_request : Env → Url → Values → Outbound
token_request env target out =
    let body = env.encode out in
    record {
      method = str "POST";
      url = env.url_string target;
      header =
          (str "Content-Type", content_type_form ∷ [])
          ∷ (str "Accept", str "application/json" ∷ [])
          ∷ [];
      body = body;
      content_length = pos (length body);
    }

token_internal : Str → Str → Exchange → Exchange
token_internal message grant w =
    respond Fault.write_upstream_unavailable
      (count_token (key grant outcome_internal) (log_entry Level.error message [] w))

pub count_status : Str → ℕ × Exchange → Exchange
count_status grant (status, w) =
    count_token (key grant (if eqb status 0 then outcome_upstream_error else status_outcome status))
      w

module _ (env : Env) (cfg : Config) (grant : Str) where
  -- From the substitution of the real credentials on.
  token_send : Values → Exchange → Exchange
  unfolding token_internal count_status
  token_send out w = elim (upstream_url env cfg path_token) [
    | none ↦ token_internal (str "building upstream token URL failed") grant w
    | some target ↦
        let req = token_request env target (with_real_credentials cfg out) in
        if env.accepts_url req.url
        then count_status grant (relay env req (str "token") w)
        else token_internal (str "building upstream token request failed") grant w
  ]

  reject_code : Str → List Attr → Exchange → Exchange
  reject_code message attrs w =
      respond Fault.write_invalid_code
        (log_entry Level.warn message attrs (count_token (key grant (str "invalid_code")) w))

  -- With the wrapped code opened.
  token_code : Client → Values → CodePayload → Exchange → Exchange
  unfolding reject_code
  token_code client out cp w =
      if not (cp.cid == client.id)
      then reject_code (str "wrapped code presented by a different client")
          (text (str "client_id") client.id ∷ []) w
      else token_send (set out (str "code") cp.sc) w

  -- With the client authenticated.
  token_grant : Client → Values → Exchange → Exchange
  unfolding reject_code
  token_grant client form w =
      if grant == grant_authorization_code
      then elim (open_envelope env.prim env.code_codec (ring_of env (some cfg)) domain_code
          (get form (str "code")) cfg.state_ttl env.now) [
            | err e ↦
                reject_code (str "rejecting wrapped code")
                  (text (str "client_id") client.id ∷ seal_error e ∷ []) w
            | ok cp ↦ token_code client (forwarded form) cp w
          ]
      else token_send (forwarded form) w

  token_client : Client → Values → Exchange → Exchange
  token_client client form w =
      if not (verify_secret env.lib (some client) (get form (str "client_secret")))
      then respond Fault.write_invalid_client_secret
          (count_token (key grant (str "invalid_client_secret")) w)
      else token_grant client form w

token_form : Env → Config → Values → Exchange → Exchange
token_form env cfg form w =
    let grant = get form (str "grant_type") in
    elim (client_of (some cfg) (get form (str "client_id"))) [
      | none ↦
          respond Fault.write_invalid_client_id
            (count_token (key grant (str "invalid_client_id")) w)
      | some client ↦ token_client env cfg grant client form (set_client_id client.id w)
    ]

pub token : Env → Config → Request → Exchange → Exchange
token env cfg r w = elim (env.parse_form r) [
  | none ↦ respond Fault.write_invalid_client_id (count_token (key [] (str "malformed_request")) w)
  | some form ↦ token_form env cfg form w
]
