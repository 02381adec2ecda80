-- ===== src/Oauth/Token/Sent.antt =====
-- internal/oauth/token.go: the request to Strava, whatever the caller's form.
use strava_auth_proxy.Oauth.Token.Answers.{coded, verbatim, Answer, Grant, IsUnwrapped, IsKnown}
use strava_auth_proxy.Go.Values.{lookup-keep, set, Values, get, lookup, lookup-set}
use strava_auth_proxy.Config.{mem, Config, Client, reveal}
use strava_auth_proxy.Oauth.{CodePayload, Env}
use strava_auth_proxy.Prelude.{
  ◌≡◌, ◌≢◌, ◌⊎◌, refl, arith, inl, inr, Option, none, some, [], ◌∷◌, ◌++◌, List, if◌then◌else◌,
}
use strava_auth_proxy.Go.Text.{Str, str, ◌==◌, eq_iff}
use strava_auth_proxy.Go.Http.{Request, Outbound}
use strava_auth_proxy.Exchange.{Exchange}
use strava_auth_proxy.Oauth.Token.{forwarded, with_real_credentials, token, token_request}
use strava_auth_proxy.Oauth.Token.Outcome.{token_outcome}
use strava_auth_proxy.Oauth.Token.Params.{lookup-with_real_credentials}

-- The code that Strava issued, if the grant is that of a code: the one in the caller's code, which
-- was sealed for that caller.
pub data Own (env : Env) (cfg : Config) (form : Values) (client : Client)
    : Option Str → Type 0 where
  unwrapped :
      (cp : CodePayload)
      → get form (str "grant_type") ≡ str "authorization_code"
      → IsUnwrapped env cfg form cp
      → cp.cid ≡ client.id
      → Own env cfg form client (some cp.sc)
  other : get form (str "grant_type") ≢ str "authorization_code" → Own env cfg form client none

-- A parameter in which the code was replaced, if there is one to put in its place.
abbrev pub with_code : Option Str → Str → Option (List Str) → Option (List Str)
with_code none k values = values
with_code (some code) k values = if str "code" == k then some (code ∷ []) else values

lookup-coded :
    (cfg : Config) (form : Values) (code k : Str)
    → lookup (with_real_credentials cfg (set (forwarded form) (str "code") code)) k ≡ (
        if str "client_secret" == k
        then some (reveal cfg.strava_client_secret ∷ [])
        else if str "client_id" == k
        then some (cfg.strava_client_id ∷ [])
        else with_code (some code) k (lookup form k))
unfolding with_real_credentials forwarded mem
lookup-coded cfg form code k =
    simp (lookup-set, lookup-keep)
      (ground (arith, eq_iff (str "client_secret") k, eq_iff (str "client_id") k))

Grant-Own :
    (env : Env) (cfg : Config) (form : Values) (client : Client) (out : Values)
    → Grant env cfg form client out
    → (code : Option Str) × Own env cfg form client code
      × ((k : Str)
          → lookup (with_real_credentials cfg out) k ≡ (
              if str "client_secret" == k
              then some (reveal cfg.strava_client_secret ∷ [])
              else if str "client_id" == k
              then some (cfg.strava_client_id ∷ [])
              else with_code code k (lookup form k)))
Grant-Own env cfg form client _ (coded cp kind opened own) =
    (some cp.sc, unwrapped cp kind opened own, lookup-coded cfg form cp.sc)
Grant-Own env cfg form client _ (verbatim kind) =
    (none, other kind, lookup-with_real_credentials cfg form)

-- The one request that `token` sends for a form: a form of parameters in which, by name, the
-- credentials are Strava's, the code is Strava's own where the grant is that of a code, and every
-- other parameter has all its values as the caller sent them.
pub record IsSent (env : Env) (cfg : Config) (r : Request) (w w' : Exchange) : Type 0 where
  pub form : Values
  pub client : Client
  pub code : Option Str
  pub params : Values
  pub request : Outbound
  pub parsed : env.parse_form r ≡ some form
  pub known : IsKnown env cfg form client
  pub own : Own env cfg form client code
  pub sent : w'.sent ≡ w.sent ++ request ∷ []
  pub method : request.method ≡ str "POST"
  pub typed : get request.header (str "Content-Type") ≡ str "application/x-www-form-urlencoded"
  pub body : request.body ≡ env.encode params
  pub received :
      (k : Str)
      → lookup params k ≡ (
          if str "client_secret" == k
          then some (reveal cfg.strava_client_secret ∷ [])
          else if str "client_id" == k
          then some (cfg.strava_client_id ∷ [])
          else with_code code k (lookup form k))

-- Either `token` sends nothing, or one request for a caller that presented the secret of a registered
-- client: a POST of a form in which client_id and client_secret are Strava's, the code is the one
-- that is sealed in the caller's code for that client where the grant is that of a code, and every
-- other parameter is as it came.
pub token-IsSent :
    (env : Env) (cfg : Config) (r : Request) (w : Exchange)
    → ((token env cfg r w).sent ≡ w.sent) ⊎ IsSent env cfg r w (token env cfg r w)
unfolding token_request get lookup ◌==◌
token-IsSent env cfg r w = elim (token_outcome env cfg r w) [
  | inl (bad, fault) ↦ inl fault.unsent
  | inr (form, good, answer) ↦ elim answer [
    | Answer.bad_client _ fault ↦ inl fault.unsent
    | Answer.bad_secret _ _ _ fault ↦ inl fault.unsent
    | Answer.bad_code _ _ _ _ fault ↦ inl fault.unsent
    | Answer.unbuilt _ fault ↦ inl fault.unsent
    | Answer.exchanged x ↦
        let (code, own, received) = Grant-Own env cfg form x.client x.out x.grant in
        inr (record {
          form = form;
          client = x.client;
          code = code;
          params = with_real_credentials cfg x.out;
          request = token_request env x.target (with_real_credentials cfg x.out);
          parsed = good;
          known = x.known;
          own = own;
          sent = x.relayed.sent;
          method = refl;
          typed = refl;
          body = refl;
          received = received;
        })
  ]
]
