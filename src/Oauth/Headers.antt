-- ===== src/Oauth/Headers.antt =====
-- Which headers the handlers leave alone: every one but the type, the length and the location.
use strava_auth_proxy.Fault
use strava_auth_proxy.Go.Values.{lookup, get, has}
use strava_auth_proxy.Prelude.{
  is_empty, ◌≡◌, ◌∙◌, refl, false, [], ◌∷◌, ◌++◌, List, if◌then◌else◌, inl, inr, Bool-cases,
  Result-cases, branch, ap,
}
use strava_auth_proxy.Go.Text.{Str, str, ◌==◌}
use strava_auth_proxy.Go.Http.{Response, set_header, Inbound, Outbound, CallError, redirect_found}
use strava_auth_proxy.Fault.Headers.{
  IsOther, lookup-set_type, lookup-set_header, lookup-set_location, lookup-write_bad_request_page,
  lookup-write_upstream_timeout, lookup-write_upstream_unavailable,
}
use strava_auth_proxy.Exchange.{Exchange, Attr, set_client_id}
use strava_auth_proxy.Oauth.{
  Env, bad_request, internal, write_internal, copy_header, relay_response, relay, is_timeout,
}
use strava_auth_proxy.Oauth.Relay.{relay_ok_lem, relay_failed_lem}
use strava_auth_proxy.Oauth.Responses.{response-set_client_id}

module _ (name : Str) where
  -- The header of that name is what it was.
  abbrev pub Kept : Response → Response → Type 0
  Kept w w' = lookup w'.header name ≡ lookup w.header name

  abbrev pub Keeps : Exchange → Exchange → Type 0
  Keeps w w' = Kept w.response w'.response

module _ (name : Str) (other : IsOther name) where
  pub redirect_found-Kept :
      (method url : Str) (w : Response) → Kept name w (redirect_found method url w)
  unfolding redirect_found
  redirect_found-Kept method url w =
      let located = set_header (str "Location") url w in
      let kept = lookup-set_location name other w url in
      let typed = lookup-set_type name other located (str "text/html; charset=utf-8") ∙ kept in
      branch (Kept name w) (has w.header (str "Content-Type")) (λ _. kept)
        (λ _. elim (Bool-cases (method == str "GET")) [
          | inl g ↦ rw g typed
          | inr g ↦ rw g (branch (Kept name w) (method == str "HEAD") (λ _. typed) (λ _. kept))
        ])

  pub bad_request-Keeps : (detail : Str) (w : Exchange) → Keeps name w (bad_request detail w)
  unfolding bad_request
  bad_request-Keeps detail w = lookup-write_bad_request_page name other detail w.response

  pub internal-Keeps :
      (message : Str) (attrs : List Attr) (w : Exchange) → Keeps name w (internal message attrs w)
  unfolding internal write_internal
  internal-Keeps message attrs w = lookup-set_type name other w.response _

  pub set_client_id-Keeps : (id : Str) (w : Exchange) → Keeps name w (set_client_id id w)
  set_client_id-Keeps id w =
      ap (λ (v : Response). lookup v.header name) (response-set_client_id id w)

  copy_header-Kept :
      (copied : Str)
      → (copied == name) ≡ false
      → (resp : Inbound) (w : Response) → Kept name w (copy_header copied resp w)
  unfolding copy_header
  copy_header-Kept copied n resp w =
      branch (Kept name w) (is_empty (get resp.header copied)) (λ _. refl)
        (λ _. lookup-set_header copied (get resp.header copied) name w n)

  relay_response-Kept : (resp : Inbound) (w : Response) → Kept name w (relay_response resp w)
  unfolding relay_response
  relay_response-Kept resp w =
      let first = copy_header (str "Content-Type") resp w in
      copy_header-Kept (str "Content-Length") other.1 resp first
      ∙ copy_header-Kept (str "Content-Type") other.0 resp w

  relay_failure-Kept :
      (e : CallError) (w : Response)
      → Kept name w (
          if is_timeout e
          then Fault.write_upstream_timeout w
          else Fault.write_upstream_unavailable w)
  relay_failure-Kept e w =
      branch (Kept name w) (is_timeout e) (λ _. lookup-write_upstream_timeout name other w)
        (λ _. lookup-write_upstream_unavailable name other w)

  pub relay-Keeps :
      (env : Env) (req : Outbound) (route : Str) (w : Exchange)
      → Keeps name w (relay env req route w).1
  unfolding relay
  relay-Keeps env req route w =
      let called : Exchange = record w { sent = w.sent ++ req ∷ [] } in
      elim (Result-cases (env.call req)) [
        | inl (e, bad) ↦
            rw (relay, bad)
              (ap (λ (v : Response). lookup v.header name) (relay_failed_lem e route called).1
                ∙ relay_failure-Kept e w.response)
        | inr (resp, good) ↦
            rw (relay, good)
              (ap (λ (v : Response). lookup v.header name) (relay_ok_lem resp route called).1
                ∙ relay_response-Kept resp w.response)
      ]
