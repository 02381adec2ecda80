-- ===== src/Oauth/Token/Complete.antt =====
-- When `token` does exchange a wrapped code.
use strava_auth_proxy.Oauth.Token.{
  token_owned_params, forwarded, with_real_credentials, token_request, grant_authorization_code,
  token_send, token_code, token_grant, token_client, token_form, token,
}
use strava_auth_proxy.Config.{mem, reveal, Client, Config}
use strava_auth_proxy.Go.Values.{lookup-keep, get-set_ne, get-set_self, Values, get, set}
use strava_auth_proxy.Prelude.{false, not, ◌∙◌, refl, ◌≡◌, true, some}
use strava_auth_proxy.Go.Text.{Str, str, ◌==◌, eq_iff}
use strava_auth_proxy.Go.Url.{Url}
use strava_auth_proxy.Go.Http.{Request}
use strava_auth_proxy.Seal.{CodePayload}
use strava_auth_proxy.Exchange.{Exchange, set_client_id}
use strava_auth_proxy.Oauth.{Env, path_token, upstream_url}
use strava_auth_proxy.Oauth.Relay.{IsRelayed, noted-IsRelayed}
use strava_auth_proxy.Oauth.Token.Answers.{IsKnown, IsUnwrapped}
use strava_auth_proxy.Oauth.Token.Outcome.{IsRelayed-count_status}

-- A request with a wrapped code that can be exchanged: its client is known, the code was wrapped for
-- that client and opens, and the request to Strava can be built.
pub record IsReady (env : Env) (cfg : Config) (r : Request) (form : Values) (client : Client)
    (cp : CodePayload) (target : Url) : Type 0 where
  pub parsed : env.parse_form r ≡ some form
  pub known : IsKnown env cfg form client
  pub is_code : get form (str "grant_type") ≡ grant_authorization_code
  pub unwrapped : IsUnwrapped env cfg form cp
  pub own : cp.cid ≡ client.id
  pub found : upstream_url env cfg path_token ≡ some target
  pub accepted : env.accepts_url (env.url_string target) ≡ true

-- The parameters that Strava receives.
abbrev pub exchanged_params : Config → Values → CodePayload → Values
exchanged_params cfg form cp = with_real_credentials cfg (set (forwarded form) (str "code") cp.sc)

module _ (env : Env) (cfg : Config) (r : Request) (form : Values) (client : Client)
    (cp : CodePayload) (target : Url) (ready : IsReady env cfg r form client cp target) where
  send_ready :
      (w : Exchange)
      → IsRelayed env
          (token_request env target (exchanged_params cfg form cp))
          w
          (token_code env cfg (get form (str "grant_type")) client (forwarded form) cp w)
  unfolding token_code token_send token_request
  send_ready w =
      rw
        (token_code, (eq_iff cp.cid client.id).1 ready.own, token_send, ready.found, ready.accepted)
        (IsRelayed-count_status env cfg form _ _ _ w)

  client_ready :
      (w : Exchange)
      → IsRelayed env
          (token_request env target (exchanged_params cfg form cp))
          w
          (token_client env cfg (get form (str "grant_type")) client form w)
  unfolding token_client token_grant
  client_ready w =
      let same = (eq_iff (get form (str "grant_type")) grant_authorization_code).1 ready.is_code in
      rw (token_client, ready.known.verified, token_grant, same, ready.unwrapped) (send_ready w)

  -- A token request with a wrapped code of its own client is sent on, in one request with the real
  -- credentials and Strava's own code, and Strava's answer is relayed.
  pub token_complete :
      (w : Exchange)
      → IsRelayed env
          (token_request env target (exchanged_params cfg form cp))
          w
          (token env cfg r w)
  unfolding token token_form
  token_complete w =
      rw (token, ready.parsed, token_form, ready.known.registered)
        (noted-IsRelayed env _ client.id w _ (client_ready (set_client_id client.id w)))

get-forwarded :
    (form : Values) (k : Str)
    → mem k token_owned_params ≡ false
    → get (forwarded form) k ≡ get form k
unfolding forwarded get
get-forwarded form k h = rw (lookup-keep (λ j. not (mem j token_owned_params)) form k, h) refl

module _ (cfg : Config) (form : Values) (cp : CodePayload) where
  abbrev coded : Values
  coded = set (forwarded form) (str "code") cp.sc

  abbrev identified : Values
  identified = set coded (str "client_id") cfg.strava_client_id

  beyond_credentials :
      (k : Str)
      → (str "client_secret" == k) ≡ false
      → (str "client_id" == k) ≡ false
      → get (exchanged_params cfg form cp) k ≡ get coded k
  unfolding with_real_credentials
  beyond_credentials k h h' =
      get-set_ne identified (str "client_secret") (reveal cfg.strava_client_secret) k h
      ∙ get-set_ne coded (str "client_id") cfg.strava_client_id k h'

  -- What Strava receives of a wrapped code: the real credentials, the grant, and its own code.
  pub get-exchanged_params :
      (get (exchanged_params cfg form cp) (str "client_id") ≡ cfg.strava_client_id)
      × (get (exchanged_params cfg form cp) (str "client_secret") ≡ reveal cfg.strava_client_secret)
      × (get (exchanged_params cfg form cp) (str "grant_type") ≡ get form (str "grant_type"))
      × (get (exchanged_params cfg form cp) (str "code") ≡ cp.sc)
  unfolding with_real_credentials mem ◌==◌
  get-exchanged_params = (
    get-set_ne identified (str "client_secret") (reveal cfg.strava_client_secret) (str "client_id")
          refl
        ∙ get-set_self coded (str "client_id") cfg.strava_client_id,
    get-set_self identified (str "client_secret") (reveal cfg.strava_client_secret),
    beyond_credentials (str "grant_type") refl refl
        ∙ get-set_ne (forwarded form) (str "code") cp.sc (str "grant_type") refl
        ∙ get-forwarded form (str "grant_type") refl,
    beyond_credentials (str "code") refl refl ∙ get-set_self (forwarded form) (str "code") cp.sc,
  )
