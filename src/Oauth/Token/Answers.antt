-- ===== src/Oauth/Token/Answers.antt =====
-- The ways in which `token` answers, and what it knows when it calls Strava.
use strava_auth_proxy.Fault
use strava_auth_proxy.Seal
use strava_auth_proxy.Oauth.Relay.{Unbuilt, IsRelayed, IsFault}
use strava_auth_proxy.Prelude.{◌≡◌, ◌≢◌, true, false, none, some, ok, err}
use strava_auth_proxy.Go.Text.{str}
use strava_auth_proxy.Go.Url.{Url}
use strava_auth_proxy.Go.Values.{Values, get, set}
use strava_auth_proxy.Seal.{CodePayload, domain_code, open_envelope}
use strava_auth_proxy.Config.{Client, Config, client_of, verify_secret}
use strava_auth_proxy.Exchange.{Exchange}
use strava_auth_proxy.Oauth.{Env, path_token, ring_of, upstream_url}
use strava_auth_proxy.Oauth.Token.{
  forwarded, with_real_credentials, token_request, grant_authorization_code,
}

-- The form's client is registered, and the form has its secret.
pub record IsKnown (env : Env) (cfg : Config) (form : Values) (client : Client) : Type 0 where
  pub registered : client_of (some cfg) (get form (str "client_id")) ≡ some client
  pub verified : verify_secret env.lib (some client) (get form (str "client_secret")) ≡ true

-- The code of the form opens.
abbrev pub IsUnwrapped : Env → Config → Values → CodePayload → Type 0
IsUnwrapped env cfg form cp =
    open_envelope env.prim env.code_codec (ring_of env (some cfg)) domain_code
      (get form (str "code")) cfg.state_ttl env.now
    ≡ ok cp

-- The parameters that are sent on, but for the credentials: with Strava's own code, which was
-- wrapped for the same client, where the grant is that of a code; and as they came where it is not.
pub data Grant (env : Env) (cfg : Config) (form : Values) (client : Client) : Values → Type 0 where
  coded :
      (cp : CodePayload)
      → get form (str "grant_type") ≡ grant_authorization_code
      → IsUnwrapped env cfg form cp
      → cp.cid ≡ client.id
      → Grant env cfg form client (set (forwarded form) (str "code") cp.sc)
  verbatim :
      get form (str "grant_type") ≢ grant_authorization_code
      → Grant env cfg form client (forwarded form)

-- One request of a known client went to Strava's token endpoint, with the real credentials.
pub record IsExchanged (env : Env) (cfg : Config) (form : Values) (w w' : Exchange) : Type 0 where
  pub client : Client
  pub out : Values
  pub target : Url
  pub known : IsKnown env cfg form client
  pub grant : Grant env cfg form client out
  pub is_upstream : upstream_url env cfg path_token ≡ some target
  pub relayed : IsRelayed env (token_request env target (with_real_credentials cfg out)) w w'

-- Why a code was refused: it does not open, or it was wrapped for another client.
pub data BadCode (env : Env) (cfg : Config) (form : Values) (client : Client) : Type 0 where
  not_opened :
      (e : Seal.Error)
      → open_envelope env.prim env.code_codec
          (ring_of env (some cfg))
          domain_code
          (get form (str "code"))
          cfg.state_ttl
          env.now
        ≡ err e
      → BadCode env cfg form client
  foreign :
      (cp : CodePayload)
      → IsUnwrapped env cfg form cp
      → cp.cid ≢ client.id
      → BadCode env cfg form client

-- What becomes of a form.
pub data Answer (env : Env) (cfg : Config) (form : Values) (w w' : Exchange) : Type 0 where
  bad_client :
      client_of (some cfg) (get form (str "client_id")) ≡ none
      → IsFault Fault.write_invalid_client_id w w'
      → Answer env cfg form w w'
  bad_secret :
      (client : Client)
      → client_of (some cfg) (get form (str "client_id")) ≡ some client
      → verify_secret env.lib (some client) (get form (str "client_secret")) ≡ false
      → IsFault Fault.write_invalid_client_secret w w'
      → Answer env cfg form w w'
  bad_code :
      (client : Client)
      → IsKnown env cfg form client
      → get form (str "grant_type") ≡ grant_authorization_code
      → BadCode env cfg form client
      → IsFault Fault.write_invalid_code w w'
      → Answer env cfg form w w'
  unbuilt :
      Unbuilt env cfg path_token env.url_string
      → IsFault Fault.write_upstream_unavailable w w'
      → Answer env cfg form w w'
  exchanged : IsExchanged env cfg form w w' → Answer env cfg form w w'
