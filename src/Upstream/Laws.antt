-- ===== src/Upstream/Laws.antt =====
-- What the reverse proxy sends, and what it answers when a call fails.
use strava_auth_proxy.Oauth
use strava_auth_proxy.Prelude.{
  List, [], ◌∷◌, ◌⊎◌, ◌≡◌, refl, arith, ◌∙◌, sym, Bool, true, false, err, if◌then◌else◌, inl, inr,
  Bool-cases,
}
use strava_auth_proxy.Fault.{write_upstream_timeout, write_upstream_unavailable}
use strava_auth_proxy.Go.Text.{Str, str, contains_str}
use strava_auth_proxy.Go.Url.{Url}
use strava_auth_proxy.Go.Http.{Request, Outbound, CallError}
use strava_auth_proxy.Exchange.{Exchange, count_upstream}
use strava_auth_proxy.Oauth.{Env, relay}
use strava_auth_proxy.Oauth.Relay.{relay_failure}
use strava_auth_proxy.Upstream.{is_timeout, is_canceled, error_handler, failure}

-- The headers by which a proxy tells of its caller.
abbrev pub caller_names : List Str
caller_names =
    str "Forwarded" ∷ str "X-Forwarded-For" ∷ str "X-Forwarded-Host" ∷ str "X-Forwarded-Proto" ∷ []

-- The two rules for a timeout agree, unless only the text of the error tells.
is_timeout_agrees :
    (e : CallError)
    → contains_str e.message (str "Client.Timeout") ≡ false
    → Oauth.is_timeout e ≡ is_timeout e
unfolding Oauth.is_timeout is_timeout
is_timeout_agrees e h = ground (arith, h)

error_handler_failure :
    (r : Request) (canceled : Bool) (e : CallError) (w : Exchange)
    → is_canceled canceled e ≡ false
    → let p = error_handler r canceled e w in
      (p.response ≡ (
        if is_timeout e
        then write_upstream_timeout w.response
        else write_upstream_unavailable w.response))
      × (p.metrics
          ≡ (count_upstream (if is_timeout e then str "timeout" else str "unavailable") w).metrics)
unfolding error_handler failure
error_handler_failure r canceled e w going = elim (Bool-cases (is_timeout e)) [
  | inl t ↦ (rw (going, t, error_handler) refl, rw (going, t, error_handler) refl)
  | inr t ↦ (rw (going, t, error_handler) refl, rw (going, t, error_handler) refl)
]

error_handler_canceled :
    (r : Request) (canceled : Bool) (e : CallError) (w : Exchange)
    → is_canceled canceled e ≡ true
    → ((error_handler r canceled e w).response ≡ w.response)
      × ((error_handler r canceled e w).metrics ≡ w.metrics)
unfolding error_handler
error_handler_canceled r canceled e w gone =
    (rw (gone, error_handler) refl, rw (gone, error_handler) refl)

-- A caller that has gone away gets no response, and nothing is counted. For every other failed call
-- the reverse proxy answers and counts exactly as the OAuth handlers do for the same error, if the
-- error's text does not name the client's timeout.
pub error_handler-relay :
    (env : Env) (req : Outbound) (route : Str) (r : Request) (canceled : Bool) (e : CallError)
    (w : Exchange)
    → env.call req ≡ err e
    → contains_str e.message (str "Client.Timeout") ≡ false
    → let p = error_handler r canceled e w in
      let o = (relay env req route w).1 in
      ((is_canceled canceled e ≡ true) × (p.response ≡ w.response) × (p.metrics ≡ w.metrics))
      ⊎ ((is_canceled canceled e ≡ false) × (p.response ≡ o.response) × (p.metrics ≡ o.metrics))
error_handler-relay env req route r canceled e w bad untold =
    elim (Bool-cases (is_canceled canceled e)) [
      | inl gone ↦
          let (response, metrics) = error_handler_canceled r canceled e w gone in
          inl (gone, response, metrics)
      | inr going ↦
          let (response, metrics) = error_handler_failure r canceled e w going in
          let (response', metrics') = relay_failure env req route w e bad in
          inr (
            going,
            response ∙ sym (rw (← is_timeout_agrees e untold) response'),
            metrics ∙ sym (rw (← is_timeout_agrees e untold) metrics'),
          )
    ]
