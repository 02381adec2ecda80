-- ===== src/Oauth/Token/Outcome.antt =====
-- What `token` answers, and what it sends to Strava.
use strava_auth_proxy.Fault
use strava_auth_proxy.Oauth.Relay.{
  no_url, not_accepted, noted-IsFault, noted-IsRelayed, IsRelayed, IsFault, relay-IsRelayed,
}
use strava_auth_proxy.Prelude.{
  ◌≡◌, refl, arith, none, some, List, inl, inr, Bool-cases, Option-cases, Result-cases, ◌⊎◌,
}
use strava_auth_proxy.Go.Text.{Str, str, ◌==◌, eq_iff}
use strava_auth_proxy.Go.Values.{Values, get}
use strava_auth_proxy.Go.Http.{Request, Response}
use strava_auth_proxy.Seal.{CodePayload, domain_code, open_envelope}
use strava_auth_proxy.Config.{Client, Config, client_of, verify_secret}
use strava_auth_proxy.Exchange.{Exchange, Attr, set_client_id}
use strava_auth_proxy.Oauth.{Env, path_token, ring_of, upstream_url, relay}
use strava_auth_proxy.Oauth.Token.{
  forwarded, token_request, grant_authorization_code, token_internal, count_status, token_send,
  reject_code, token_code, token_grant, token_client, token_form, token,
}
use strava_auth_proxy.Oauth.Token.Answers.{
  IsKnown, IsUnwrapped, Grant, coded, verbatim, not_opened, foreign, Answer, bad_client, bad_secret,
  bad_code, unbuilt, exchanged,
}

token_internal-IsFault :
    (message grant : Str) (w : Exchange)
    → IsFault Fault.write_upstream_unavailable w (token_internal message grant w)
unfolding token_internal
token_internal-IsFault message grant w = record { unsent = refl; answered = refl }

module _ (env : Env) (cfg : Config) (form : Values) where
  reject_code-IsFault :
      (grant message : Str) (attrs : List Attr) (w : Exchange)
      → IsFault Fault.write_invalid_code w (reject_code env cfg grant message attrs w)
  unfolding reject_code
  reject_code-IsFault grant message attrs w = record { unsent = refl; answered = refl }

  pub IsRelayed-count_status :
      (req : strava_auth_proxy.Go.Http.Outbound) (grant route : Str) (w : Exchange)
      → IsRelayed env req w (count_status grant (relay env req route w))
  unfolding count_status
  IsRelayed-count_status req grant route w =
      let h = relay-IsRelayed env req route w in
      record { sent = h.sent; passed = h.passed; failed = h.failed }

  send-Answer :
      (grant : Str) (client : Client) (out : Values) (w : Exchange)
      → IsKnown env cfg form client
      → Grant env cfg form client out
      → Answer env cfg form w (token_send env cfg grant out w)
  unfolding token_send token_request
  send-Answer grant client out w known g = elim (Option-cases (upstream_url env cfg path_token)) [
    | inl missing ↦
        rw (missing, token_send) (unbuilt (no_url missing) (token_internal-IsFault _ grant w))
    | inr (target, found) ↦ elim (Bool-cases (env.accepts_url (env.url_string target))) [
      | inr odd ↦
          rw (found, odd, token_send)
            (unbuilt (not_accepted target found odd) (token_internal-IsFault _ grant w))
      | inl fine ↦
          rw (found, fine, token_send)
            (exchanged (record {
              client = client;
              out = out;
              target = target;
              known = known;
              grant = g;
              is_upstream = found;
              relayed = IsRelayed-count_status _ grant _ w;
            }))
    ]
  ]

  code-Answer :
      (client : Client) (cp : CodePayload) (w : Exchange)
      → IsKnown env cfg form client
      → get form (str "grant_type") ≡ grant_authorization_code
      → IsUnwrapped env cfg form cp
      → Answer env cfg form w
          (token_code env cfg (get form (str "grant_type")) client (forwarded form) cp w)
  unfolding token_code
  code-Answer client cp w known is_code unwrapped = elim (Bool-cases (cp.cid == client.id)) [
    | inl same ↦
        rw (same, token_code)
          (send-Answer (get form (str "grant_type")) client _ w known
            (coded cp is_code unwrapped ((eq_iff cp.cid client.id).0 same)))
    | inr other ↦
        rw (other, token_code)
          (bad_code client known is_code
            (foreign cp unwrapped (λ e. ground (arith, e, other, eq_iff cp.cid client.id)))
            (reject_code-IsFault _ _ _ w))
  ]

  grant-Answer :
      (client : Client) (w : Exchange)
      → IsKnown env cfg form client
      → Answer env cfg form w (token_grant env cfg (get form (str "grant_type")) client form w)
  unfolding token_grant
  grant-Answer client w known =
      let grant = get form (str "grant_type") in
      elim (Bool-cases (grant == grant_authorization_code)) [
        | inr other ↦
            rw (other, token_grant)
              (send-Answer grant client _ w known
                (verbatim (λ e. ground (arith, e, other, eq_iff grant grant_authorization_code))))
        | inl same ↦
            let is_code = (eq_iff grant grant_authorization_code).0 same in
            elim (Result-cases (
              open_envelope env.prim env.code_codec (ring_of env (some cfg)) domain_code
                (get form (str "code")) cfg.state_ttl env.now)) [
                  | inl (e, bad) ↦
                      rw (same, bad, token_grant)
                        (bad_code client known is_code (not_opened e bad)
                          (reject_code-IsFault _ _ _ w))
                  | inr (cp, good) ↦
                      rw (same, good, token_grant) (code-Answer client cp w known is_code good)
                ]
      ]

  client-Answer :
      (client : Client) (w : Exchange)
      → client_of (some cfg) (get form (str "client_id")) ≡ some client
      → Answer env cfg form w (token_client env cfg (get form (str "grant_type")) client form w)
  unfolding token_client
  client-Answer client w found =
      elim (Bool-cases (verify_secret env.lib (some client) (get form (str "client_secret")))) [
        | inr wrong ↦
            rw (wrong, token_client)
              (bad_secret client found wrong (record { unsent = refl; answered = refl }))
        | inl right ↦
            rw (right, token_client)
              (grant-Answer client w (record { registered = found; verified = right }))
      ]

  -- The id that was noted for the access log changes nothing of the answer.
  noted :
      (id : Str) (w w' : Exchange)
      → Answer env cfg form (set_client_id id w) w'
      → Answer env cfg form w w'
  noted id w w' (bad_client missing h) = bad_client missing (noted-IsFault _ id w w' h)
  noted id w w' (bad_secret client found wrong h) =
      bad_secret client found wrong (noted-IsFault _ id w w' h)
  noted id w w' (bad_code client known is_code why h) =
      bad_code client known is_code why (noted-IsFault _ id w w' h)
  noted id w w' (unbuilt why h) = unbuilt why (noted-IsFault _ id w w' h)
  noted id w w' (exchanged x) = exchanged (record {
    client = x.client;
    out = x.out;
    target = x.target;
    known = x.known;
    grant = x.grant;
    is_upstream = x.is_upstream;
    relayed = noted-IsRelayed env _ id w w' x.relayed;
  })

  form-Answer : (w : Exchange) → Answer env cfg form w (token_form env cfg form w)
  unfolding token_form
  form-Answer w = elim (Option-cases (client_of (some cfg) (get form (str "client_id")))) [
    | inl missing ↦
        rw (missing, token_form) (bad_client missing (record { unsent = refl; answered = refl }))
    | inr (client, found) ↦
        rw (found, token_form)
          (noted client.id w _ (client-Answer client (set_client_id client.id w) found))
  ]

-- For every request, `token` does one of five things, the first four of which send nothing to Strava.
-- It writes the fault of a bad client id, if the form does not parse or its client is unknown; that
-- of a bad secret, if the client is known and the secret is not its own; that of a bad code, if both
-- are right, the grant is a code's and the code does not open or was wrapped for another client; or
-- that of an unavailable upstream, if the request to Strava cannot be built. Else it sends one
-- request: the caller's form with the real credentials in place of the client's, and for a code's
-- grant with Strava's own code, which was wrapped for that client, in place of the wrapped one; and
-- the answer is Strava's status and body, or the fault of a timeout or of an unavailable upstream.
pub token_outcome :
    (env : Env) (cfg : Config) (r : Request) (w : Exchange)
    → ((env.parse_form r ≡ none) × IsFault Fault.write_invalid_client_id w (token env cfg r w))
      ⊎ ((form : Values) × (env.parse_form r ≡ some form)
          × Answer env cfg form w (token env cfg r w))
unfolding token
token_outcome env cfg r w = elim (Option-cases (env.parse_form r)) [
  | inl bad ↦ inl (bad, rw (bad, token) (record { unsent = refl; answered = refl }))
  | inr (form, good) ↦ inr (form, good, rw (good, token) (form-Answer env cfg form w))
]
