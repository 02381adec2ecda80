-- ===== src/Oauth/Revoke/Forwards.antt =====
-- internal/oauth/revoke.go: what `deauthorize` and `revoke` send on, part by part.
use strava_auth_proxy.Fault
use strava_auth_proxy.Prelude.{
  ◌||◌, ◌++◌, List, ◌≡◌, ◌⊎◌, refl, inl, inr, some, [], ◌∷◌, if◌then◌else◌,
}
use strava_auth_proxy.Go.Text.{◌==◌, Str, str}
use strava_auth_proxy.Go.Values.{Values, get}
use strava_auth_proxy.Config.{reveal, Config, mem}
use strava_auth_proxy.Oauth.Revoke.{basic_auth_header, revoke, deauthorize, passthrough_request}
use strava_auth_proxy.Oauth.Revoke.Headers.{get-revoke_header, get-deauthorize_header}
use strava_auth_proxy.Go.Base64.{encode_std}
use strava_auth_proxy.Oauth.Revoke.Outcome.{
  IsPassed, IsAuthorized, revoke_outcome, deauthorize_outcome, target_url,
}
use strava_auth_proxy.Go.Url.{Url}
use strava_auth_proxy.Go.Http.{Request, Outbound}
use strava_auth_proxy.Exchange.{Exchange}
use strava_auth_proxy.Oauth.{Env, upstream_url}
use strava_auth_proxy.Oauth.Relay.{IsRelayed, IsFault, Unbuilt}

abbrev pub deauthorize_path : Str
deauthorize_path = str "/oauth/deauthorize"

abbrev pub revoke_path : Str
revoke_path = str "/oauth/revoke"

-- One request of the caller went on to a path of Strava, with these headers by name.
pub record IsForwarded (env : Env) (cfg : Config) (r : Request) (path : Str) (expected : Str → Str)
    (w w' : Exchange) : Type 0 where
  pub target : Url
  pub request : Outbound
  pub is_upstream : upstream_url env cfg path ≡ some target
  pub url : request.url ≡ env.url_string (record target { raw_query = r.raw_query })
  pub method : request.method ≡ str "POST"
  pub body : request.body ≡ r.body
  pub content_length : request.content_length ≡ r.content_length
  pub header : (k : Str) → get request.header k ≡ expected k
  pub relayed : IsRelayed env request w w'

passed-IsForwarded :
    (env : Env) (cfg : Config) (r : Request) (path : Str) (header : Values) (expected : Str → Str)
    (w w' : Exchange)
    → ((k : Str) → get header k ≡ expected k)
    → IsPassed env cfg r path header w w'
    → IsForwarded env cfg r path expected w w'
unfolding passthrough_request
passed-IsForwarded env cfg r path header expected w w' h passed = record {
  target = passed.target;
  request = passthrough_request env passed.target r header;
  is_upstream = passed.is_upstream;
  url = refl;
  method = refl;
  body = refl;
  content_length = refl;
  header = h;
  relayed = passed.relayed;
}

abbrev pub content_names : List Str
content_names = str "Content-Type" ∷ str "Accept" ∷ str "Accept-Language" ∷ str "User-Agent" ∷ []

-- The headers of a deauthorization.
abbrev pub as_it_came : Request → Str → Str
as_it_came r k = if str "Authorization" == k || mem k content_names then get r.header k else []

-- The headers of a revocation.
abbrev pub under_own_name : Config → Request → Str → Str
under_own_name cfg r k =
    if str "Authorization" == k
    then str "Basic " ++ encode_std (cfg.strava_client_id ++ b':' ∷ reveal cfg.strava_client_secret)
    else if mem k content_names
    then get r.header k
    else []

-- Whoever calls, `deauthorize` does one of two things. It sends one request to Strava's
-- /oauth/deauthorize: a POST with the caller's query, body and length, with the caller's
-- Authorization, Content-Type, Accept, Accept-Language and User-Agent and no other header; and it
-- answers with Strava's status and body or the fault of a timeout or of an unavailable upstream. Or
-- it sends nothing, for the request cannot be built, and answers with the fault of an unavailable
-- upstream.
pub deauthorize-IsForwarded :
    (env : Env) (cfg : Config) (r : Request) (w : Exchange)
    → IsForwarded env cfg r deauthorize_path (as_it_came r) w (deauthorize env cfg r w)
      ⊎ (Unbuilt env cfg deauthorize_path (target_url env r)
          × IsFault Fault.write_upstream_unavailable w (deauthorize env cfg r w))
deauthorize-IsForwarded env cfg r w = elim (deauthorize_outcome env cfg r w) [
  | inr failed ↦ inr failed
  | inl passed ↦ inl (passed-IsForwarded env cfg r _ _ _ w _ (get-deauthorize_header r) passed)
]

-- Either `revoke` sends nothing, or the caller gave the id and the secret of a registered client and
-- `revoke` sends one request to Strava's /oauth/revoke: a POST with the caller's query, body and
-- length, with the caller's Content-Type, Accept, Accept-Language and User-Agent, with the Basic
-- credentials of the proxy's own application and no other header; and it answers with Strava's status
-- and body or the fault of a timeout or of an unavailable upstream.
pub revoke-IsForwarded :
    (env : Env) (cfg : Config) (r : Request) (w : Exchange)
    → ((revoke env cfg r w).sent ≡ w.sent)
      ⊎ (IsAuthorized env cfg r
          × IsForwarded env cfg r revoke_path (under_own_name cfg r) w (revoke env cfg r w))
unfolding basic_auth_header
revoke-IsForwarded env cfg r w = elim (revoke_outcome env cfg r w) [
  | inl (refused, fault) ↦ inl fault.unsent
  | inr (known, answer) ↦ elim answer [
    | inl passed ↦
        inr (known, passed-IsForwarded env cfg r _ _ _ w _ (get-revoke_header cfg r) passed)
    | inr (why, fault) ↦ inl fault.unsent
  ]
]
