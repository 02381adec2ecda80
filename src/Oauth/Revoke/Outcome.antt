-- ===== src/Oauth/Revoke/Outcome.antt =====
-- What `revoke` and `deauthorize` answer, and what they send to Strava.
use strava_auth_proxy.Fault
use strava_auth_proxy.Prelude.{
  ◌≡◌, refl, true, false, none, some, inl, inr, Bool-cases, Option-cases, ◌⊎◌,
}
use strava_auth_proxy.Go.Text.{Str}
use strava_auth_proxy.Go.Url.{Url}
use strava_auth_proxy.Go.Values.{Values}
use strava_auth_proxy.Go.Http.{Request}
use strava_auth_proxy.Config.{Client, Config, client_of, verify_secret}
use strava_auth_proxy.Exchange.{Exchange, set_client_id}
use strava_auth_proxy.Oauth.{Env, path_deauthorize, path_revoke, upstream_url}
use strava_auth_proxy.Oauth.Relay.{
  IsRelayed, IsFault, Unbuilt, no_url, not_accepted, relay-IsRelayed, noted-IsFault,
  noted-IsRelayed,
}
use strava_auth_proxy.Oauth.Revoke.{
  basic_auth, revoke_internal, passthrough_request, deauthorize_header, deauthorize, revoke_header,
  revoke_send, revoke_client, revoke,
}

-- The URL of a request on: Strava's, with the caller's query.
abbrev pub target_url : Env → Request → Url → Str
target_url env r target = env.url_string (record target { raw_query = r.raw_query })

-- The caller's body and query went on to a path of Strava, with the header.
pub record IsPassed (env : Env) (cfg : Config) (r : Request) (path : Str) (header : Values)
    (w w' : Exchange) : Type 0 where
  pub target : Url
  pub is_upstream : upstream_url env cfg path ≡ some target
  pub relayed : IsRelayed env (passthrough_request env target r header) w w'

-- Why a caller is not authorized.
pub data Unauthorized (env : Env) (cfg : Config) (r : Request) : Type 0 where
  no_credentials : basic_auth r.header ≡ none → Unauthorized env cfg r
  unknown :
      (id secret : Str)
      → basic_auth r.header ≡ some (id, secret)
      → client_of (some cfg) id ≡ none
      → Unauthorized env cfg r
  wrong_secret :
      (id secret : Str) (client : Client)
      → basic_auth r.header ≡ some (id, secret)
      → client_of (some cfg) id ≡ some client
      → verify_secret env.lib (some client) secret ≡ false
      → Unauthorized env cfg r

-- The caller gave the id and the secret of a registered client.
pub record IsAuthorized (env : Env) (cfg : Config) (r : Request) : Type 0 where
  pub id : Str
  pub secret : Str
  pub client : Client
  pub presented : basic_auth r.header ≡ some (id, secret)
  pub registered : client_of (some cfg) id ≡ some client
  pub verified : verify_secret env.lib (some client) secret ≡ true

revoke_internal-IsFault :
    (message : Str) (w : Exchange)
    → IsFault Fault.write_upstream_unavailable w (revoke_internal message w)
unfolding revoke_internal
revoke_internal-IsFault message w = record { unsent = refl; answered = refl }

-- Whoever calls, `deauthorize` either sends the caller's body, query and allowlisted headers, with
-- the caller's own authorization, in one request to Strava's deauthorization endpoint, and answers
-- with Strava's status and body or the fault of a timeout or of an unavailable upstream; or it sends
-- nothing, for the request cannot be built, and answers with the fault of an unavailable upstream.
pub deauthorize_outcome :
    (env : Env) (cfg : Config) (r : Request) (w : Exchange)
    → IsPassed env cfg r path_deauthorize (deauthorize_header r) w (deauthorize env cfg r w)
      ⊎ (Unbuilt env cfg path_deauthorize (target_url env r)
          × IsFault Fault.write_upstream_unavailable w (deauthorize env cfg r w))
unfolding deauthorize passthrough_request
deauthorize_outcome env cfg r w = elim (Option-cases (upstream_url env cfg path_deauthorize)) [
  | inl missing ↦ inr (no_url missing, rw (missing, deauthorize) (revoke_internal-IsFault _ w))
  | inr (target, found) ↦ elim (Bool-cases (env.accepts_url (target_url env r target))) [
    | inr odd ↦
        inr (
          not_accepted target found odd,
          rw (found, odd, deauthorize) (revoke_internal-IsFault _ w),
        )
    | inl fine ↦ inl (record {
      target = target;
      is_upstream = found;
      relayed = rw (found, fine, deauthorize) (relay-IsRelayed env _ _ w);
    })
  ]
]

module _ (env : Env) (cfg : Config) (r : Request) where
  -- What becomes of a call by a client that is authorized.
  abbrev Sent : Exchange → Exchange → Type 0
  Sent w w' =
      IsPassed env cfg r path_revoke (revoke_header cfg r) w w'
      ⊎ (Unbuilt env cfg path_revoke (target_url env r)
          × IsFault Fault.write_upstream_unavailable w w')

  send_outcome : (w : Exchange) → Sent w (revoke_send env cfg r w)
  unfolding revoke_send passthrough_request
  send_outcome w = elim (Option-cases (upstream_url env cfg path_revoke)) [
    | inl missing ↦ inr (no_url missing, rw (missing, revoke_send) (revoke_internal-IsFault _ w))
    | inr (target, found) ↦ elim (Bool-cases (env.accepts_url (target_url env r target))) [
      | inr odd ↦ inr (
        not_accepted target found odd,
        rw (found, odd, revoke_send) (revoke_internal-IsFault _ w),
      )
      | inl fine ↦ inl (record {
        target = target;
        is_upstream = found;
        relayed = rw (found, fine, revoke_send) (relay-IsRelayed env _ _ w);
      })
    ]
  ]

  noted-Sent : (id : Str) (w w' : Exchange) → Sent (set_client_id id w) w' → Sent w w'
  noted-Sent id w w' (inl p) = inl (record {
    target = p.target;
    is_upstream = p.is_upstream;
    relayed = noted-IsRelayed env _ id w w' p.relayed;
  })
  noted-Sent id w w' (inr (why, h)) = inr (why, noted-IsFault _ id w w' h)

  revoke_client_outcome :
      (id secret : Str) (w : Exchange)
      → basic_auth r.header ≡ some (id, secret)
      → (Unauthorized env cfg r
          × IsFault Fault.write_unauthorized w (revoke_client env cfg r id secret w))
        ⊎ (IsAuthorized env cfg r × Sent w (revoke_client env cfg r id secret w))
  unfolding revoke_client
  revoke_client_outcome id secret w given = elim (Option-cases (client_of (some cfg) id)) [
    | inl missing ↦ inl (
      unknown id secret given missing,
      rw (missing, revoke_client) (record { unsent = refl; answered = refl }),
    )
    | inr (client, found) ↦ elim (Bool-cases (verify_secret env.lib (some client) secret)) [
      | inr wrong ↦ inl (
        wrong_secret id secret client given found wrong,
        rw (found, wrong, revoke_client)
            (noted-IsFault _ client.id w _ (record { unsent = refl; answered = refl })),
      )
      | inl right ↦ inr (
        record {
          id = id;
          secret = secret;
          client = client;
          presented = given;
          registered = found;
          verified = right;
        },
        rw (found, right, revoke_client)
            (noted-Sent client.id w _ (send_outcome (set_client_id client.id w))),
      )
    ]
  ]

-- Either the caller gave no credentials, or those of an unknown client, or a wrong secret, and then
-- `revoke` sends nothing and answers with the one fault for an unauthorized caller; or the caller
-- gave the id and the secret of a registered client, and then `revoke` either sends the caller's
-- body and query, under the proxy's own credentials, in one request to Strava's revocation endpoint,
-- and answers with Strava's status and body or the fault of a timeout or of an unavailable upstream,
-- or sends nothing, for the request cannot be built, and answers with the latter fault.
pub revoke_outcome :
    (env : Env) (cfg : Config) (r : Request) (w : Exchange)
    → (Unauthorized env cfg r × IsFault Fault.write_unauthorized w (revoke env cfg r w))
      ⊎ (IsAuthorized env cfg r
          × (IsPassed env cfg r path_revoke (revoke_header cfg r) w (revoke env cfg r w)
              ⊎ (Unbuilt env cfg path_revoke (target_url env r)
                  × IsFault Fault.write_upstream_unavailable w (revoke env cfg r w))))
unfolding revoke
revoke_outcome env cfg r w = elim (Option-cases (basic_auth r.header)) [
  | inl none_given ↦ inl (
    no_credentials none_given,
    rw (none_given, revoke) (record { unsent = refl; answered = refl }),
  )
  | inr ((id, secret), given) ↦
      rw (given, revoke) (revoke_client_outcome env cfg r id secret w given)
]
