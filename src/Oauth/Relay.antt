-- ===== src/Oauth/Relay.antt =====
-- What one call of Strava leaves behind: the request that was sent, and the response that the caller
-- receives.
use strava_auth_proxy.Go.Text.{str, Str}
use strava_auth_proxy.Exchange.{count_upstream, set_client_id, Exchange}
use strava_auth_proxy.Oauth.{
  upstream_url, Env, is_timeout, relay, relay_ok, relay_failed, relay_response, copy_header,
}
use strava_auth_proxy.Config.{Config}
use strava_auth_proxy.Go.Url.{Url}
use strava_auth_proxy.Prelude.{
  false, ap, ◌∙◌, Result-cases, ◌≡◌, refl, none, some, [], ◌∷◌, ◌++◌, ok, err, if◌then◌else◌, inl,
  inr, Bool-cases, arith,
}
use strava_auth_proxy.Oauth.Responses.{response-set_client_id, sent-set_client_id}
use strava_auth_proxy.Go.Http.{Response, Outbound, Inbound, CallError}
use strava_auth_proxy.Fault.{write_upstream_timeout, write_upstream_unavailable}

-- The request was sent after the others. If Strava answered, a response that was not sent yet has
-- Strava's status and body; if the call failed, the response is the fault for a timeout or for an
-- unavailable upstream.
pub record IsRelayed (env : Env) (req : Outbound) (w w' : Exchange) : Type 0 where
  pub sent : w'.sent ≡ w.sent ++ req ∷ []
  pub passed :
      (resp : Inbound)
      → env.call req ≡ ok resp
      → w.response.status ≡ none
      → w.response.body ≡ []
      → (w'.response.status ≡ some resp.status) × (w'.response.body ≡ resp.body)
  pub failed :
      (e : CallError)
      → env.call req ≡ err e
      → w'.response ≡ (
          if is_timeout e
          then write_upstream_timeout w.response
          else write_upstream_unavailable w.response)

-- Nothing was sent, and the response is the fault that the writer writes.
pub record IsFault (write : Response → Response) (w w' : Exchange) : Type 0 where
  pub unsent : w'.sent ≡ w.sent
  pub answered : w'.response ≡ write w.response

-- The request to a path of Strava could not be built: the configured base URL is not one, or the
-- URL of the request is refused.
pub data Unbuilt (env : Env) (cfg : Config) (path : Str) (at : Url → Str) : Type 0 where
  no_url : upstream_url env cfg path ≡ none → Unbuilt env cfg path at
  not_accepted :
      (target : Url)
      → upstream_url env cfg path ≡ some target
      → env.accepts_url (at target) ≡ false
      → Unbuilt env cfg path at

relay_response_status :
    (resp : Inbound) (w : Response)
    → w.status ≡ none
    → w.body ≡ []
    → ((relay_response resp w).status ≡ some resp.status)
      × ((relay_response resp w).body ≡ resp.body)
unfolding relay_response copy_header
relay_response_status resp w unsent empty = (ground arith, ground arith)

pub relay_ok_lem :
    (resp : Inbound) (route : Str) (w : Exchange)
    → ((relay_ok resp route w).sent ≡ w.sent)
      × ((relay_ok resp route w).response ≡ relay_response resp w.response)
unfolding relay_ok
relay_ok_lem resp route w = elim (Bool-cases resp.body_failed) [
  | inl e ↦ rw (e, relay_ok) (refl, refl)
  | inr e ↦ rw (e, relay_ok) (refl, refl)
]

pub relay_failed_lem :
    (e : CallError) (route : Str) (w : Exchange)
    → ((relay_failed e route w).sent ≡ w.sent)
      × ((relay_failed e route w).response ≡ (
          if is_timeout e
          then write_upstream_timeout w.response
          else write_upstream_unavailable w.response))
unfolding relay_failed
relay_failed_lem e route w = elim (Bool-cases (is_timeout e)) [
  | inl t ↦ rw (t, relay_failed) (refl, refl)
  | inr t ↦ rw (t, relay_failed) (refl, refl)
]

pub relay-IsRelayed :
    (env : Env) (req : Outbound) (route : Str) (w : Exchange)
    → IsRelayed env req w (relay env req route w).1
unfolding relay
relay-IsRelayed env req route w =
    let called = record w { sent = w.sent ++ req ∷ [] } in
    elim (Result-cases (env.call req)) [
      | inl (e, bad) ↦
          let (same, answer) = relay_failed_lem e route called in
          rw (bad, relay)
            (record {
              sent = same;
              passed = λ resp good. absurd (cc);
              failed = λ e' bad'. ground (arith, answer, bad, bad');
            })
      | inr (resp, good) ↦
          let (same, answer) = relay_ok_lem resp route called in
          rw (good, relay)
            (record {
              sent = same;
              passed = λ resp' good' unsent empty.
                  let h = relay_response_status resp w.response unsent empty in
                  ground (arith, answer, good, good', h);
              failed = λ e' bad'. absurd (cc);
            })
    ]

-- The id that was noted for the access log changes nothing of either.
pub noted-IsFault :
    (write : Response → Response) (id : Str) (w w' : Exchange)
    → IsFault write (set_client_id id w) w'
    → IsFault write w w'
noted-IsFault write id w w' h = record {
  unsent = h.unsent ∙ sent-set_client_id id w;
  answered = h.answered ∙ ap write (response-set_client_id id w);
}

pub noted-IsRelayed :
    (env : Env) (req : Outbound) (id : Str) (w w' : Exchange)
    → IsRelayed env req (set_client_id id w) w'
    → IsRelayed env req w w'
noted-IsRelayed env req id w w' h = record {
  sent = h.sent ∙ ap (λ s. s ++ req ∷ []) (sent-set_client_id id w);
  passed = λ resp good unsent empty.
      h.passed resp good (rw (response-set_client_id id w) unsent)
        (rw (response-set_client_id id w) empty);
  failed = λ e bad.
      h.failed e bad
      ∙ ap (λ v. if is_timeout e then write_upstream_timeout v else write_upstream_unavailable v)
          (response-set_client_id id w);
}

-- What a failed call leaves of the response and of the counters.
pub relay_failure :
    (env : Env) (req : Outbound) (route : Str) (w : Exchange) (e : CallError)
    → env.call req ≡ err e
    → let w' = (relay env req route w).1 in
      (w'.response ≡ (
        if is_timeout e
        then write_upstream_timeout w.response
        else write_upstream_unavailable w.response))
      × (w'.metrics
          ≡ (count_upstream (if is_timeout e then str "timeout" else str "unavailable") w).metrics)
unfolding relay relay_failed
relay_failure env req route w e bad = elim (Bool-cases (is_timeout e)) [
  | inl t ↦ (rw (bad, t, relay, relay_failed) refl, rw (bad, t, relay, relay_failed) refl)
  | inr t ↦ (rw (bad, t, relay, relay_failed) refl, rw (bad, t, relay, relay_failed) refl)
]
