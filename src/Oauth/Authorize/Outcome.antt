-- ===== src/Oauth/Authorize/Outcome.antt =====
-- When `authorize` redirects, where to, and what else it can answer.
use strava_auth_proxy.Oauth.Responses.{
  set_cookie_lem, redirect_found_cookies, response-set_client_id, IsUnsent, IsPage,
  bad_request-IsPage, internal-IsPage, set_client_id-IsUnsent, redirect_found_status,
  redirect_found_location,
}
use strava_auth_proxy.Prelude.{
  ◌∷◌, ◌++◌, ap, ◌∙◌, ltb→lt, ◌⊎◌, ◌≡◌, ◌≤◌, refl, none, some, [], arith, true, ok, length, ltb,
  inl, inr, Bool-cases, Option-cases, Result-cases, ltb-false→le,
}
use strava_auth_proxy.Oauth.Authorize.{
  url, encode_raw, max_caller_state_len, nonce_cookie, new_nonce, authorize_params, authorize_seal,
  authorize_nonce, authorize_client, authorize,
}
use strava_auth_proxy.Go.Http.{Response, Request, set_cookie}
use strava_auth_proxy.Oauth.Authorize.Answers.{
  NonceRule, unasked, given, payload_of, IsRedirect, Refused, unknown, not_allowed, too_long,
  Broken, no_random, not_sealed, no_upstream,
}
use strava_auth_proxy.Go.Text.{Str, str}
use strava_auth_proxy.Go.Url.{Url}
use strava_auth_proxy.Go.Values.{Values, get}
use strava_auth_proxy.Seal.{StatePayload, domain_state, seal}
use strava_auth_proxy.Config.{Client, Config, allows_redirect_uri, client_of}
use strava_auth_proxy.Exchange.{Exchange, respond, set_client_id}
use strava_auth_proxy.Oauth.{Env, first_param, ring_of, upstream_url}

new_nonce-none : (env : Env) → env.random ≡ none → new_nonce env ≡ none
unfolding new_nonce
new_nonce-none env h = ground arith

new_nonce-some :
    (env : Env) (bytes : Str)
    → env.random ≡ some bytes
    → new_nonce env ≡ some (encode_raw url bytes)
unfolding new_nonce
new_nonce-some env bytes h = ground arith

module _ (env : Env) (cfg : Config) (r : Request) (upstream_path : Str) (q : Values) where
  record IsSealed (payload : StatePayload) (before w : Exchange) : Type 0 where
    sealed : Str
    target : Url
    is_sealed :
        seal env.prim env.state_codec (ring_of env (some cfg)) domain_state payload ≡ ok sealed
    is_upstream : upstream_url env cfg upstream_path ≡ some target
    kept : w.response.cookies ≡ before.response.cookies
    answered : w.response.status ≡ some 302
    location :
        get w.response.header (str "Location")
        ≡ env.url_string (record target { raw_query = env.encode (authorize_params q cfg sealed) })

  seal_outcome :
      (client : Client) (nonce : Str) (w : Exchange)
      → IsUnsent w
      → client_of (some cfg) (first_param q (str "client_id")).0 ≡ some client
      → IsSealed
          (payload_of env q client nonce)
          w
          (authorize_seal env cfg r upstream_path q (payload_of env q client nonce) w)
        ⊎ IsPage 500 (authorize_seal env cfg r upstream_path q (payload_of env q client nonce) w)
          × Broken env cfg upstream_path q
  unfolding authorize_seal
  seal_outcome client nonce w u registered =
      elim (Result-cases (
        seal env.prim env.state_codec (ring_of env (some cfg)) domain_state
          (payload_of env q client nonce))) [
            | inl (e, failed) ↦ inr (
              rw (failed, authorize_seal) (internal-IsPage _ _ w u),
              not_sealed client nonce e registered failed,
            )
            | inr (sealed, good) ↦ elim (Option-cases (upstream_url env cfg upstream_path)) [
              | inl missing ↦ inr (
                rw (good, missing, authorize_seal) (internal-IsPage _ _ w u),
                no_upstream missing,
              )
              | inr (target, found) ↦ inl (record {
                sealed = sealed;
                target = target;
                is_sealed = good;
                is_upstream = found;
                kept =
                    rw (good, found, authorize_seal) (redirect_found_cookies r.method _ w.response);
                answered =
                    rw (good, found, authorize_seal)
                      (redirect_found_status r.method _ w.response u.status);
                location =
                    rw (good, found, authorize_seal)
                      (redirect_found_location r.method _ w.response u.status);
              })
            ]
          ]

  -- The nonce is empty, or drawn and in the cookie, as the client wants it.
  record IsNonced (client : Client) (before w : Exchange) : Type 0 where
    nonce : Str
    rule : NonceRule env cfg client nonce before w
    sealed : Str
    target : Url
    is_sealed :
        seal env.prim env.state_codec
          (ring_of env (some cfg))
          domain_state
          (payload_of env q client nonce)
        ≡ ok sealed
    is_upstream : upstream_url env cfg upstream_path ≡ some target
    answered : w.response.status ≡ some 302
    location :
        get w.response.header (str "Location")
        ≡ env.url_string (record target { raw_query = env.encode (authorize_params q cfg sealed) })

  nonce_outcome :
      (client : Client) (w : Exchange)
      → IsUnsent w
      → client_of (some cfg) (first_param q (str "client_id")).0 ≡ some client
      → let w' = authorize_nonce env cfg r upstream_path q client (payload_of env q client []) w in
        IsNonced client w w' ⊎ IsPage 500 w' × Broken env cfg upstream_path q
  unfolding authorize_nonce
  nonce_outcome client w u found = elim (Bool-cases client.require_nonce_cookie) [
    | inr plain ↦ elim (seal_outcome client [] w u found) [
      | inl done ↦ inl (record {
        nonce = [];
        rule = unasked plain refl (rw (plain, authorize_nonce) done.kept);
        sealed = done.sealed;
        target = done.target;
        is_sealed = done.is_sealed;
        is_upstream = done.is_upstream;
        answered = rw (plain, authorize_nonce) done.answered;
        location = rw (plain, authorize_nonce) done.location;
      })
      | inr broken ↦ inr (rw (plain, authorize_nonce) broken)
    ]
    | inl asked ↦ elim (Option-cases env.random) [
      | inl failed ↦ inr (
        rw (asked, new_nonce-none env failed, authorize_nonce) (internal-IsPage _ _ w u),
        no_random client found asked failed,
      )
      | inr (bytes, drawn) ↦
          let nonce = encode_raw url bytes in
          elim (seal_outcome client nonce (respond (set_cookie (nonce_cookie nonce cfg)) w)
            (record { status = u.status; location = u.location }) found) [
              | inl done ↦ inl (record {
                nonce = nonce;
                rule = given bytes asked drawn refl (
                    rw (asked, new_nonce-some env bytes drawn, authorize_nonce)
                      (done.kept ∙ set_cookie_lem (nonce_cookie nonce cfg) w.response u.status));
                sealed = done.sealed;
                target = done.target;
                is_sealed = done.is_sealed;
                is_upstream = done.is_upstream;
                answered =
                    rw (asked, new_nonce-some env bytes drawn, authorize_nonce) done.answered;
                location =
                    rw (asked, new_nonce-some env bytes drawn, authorize_nonce) done.location;
              })
              | inr broken ↦
                  inr (rw (asked, new_nonce-some env bytes drawn, authorize_nonce) broken)
            ]
    ]
  ]

  client_outcome :
      (client : Client) (w : Exchange)
      → IsUnsent w
      → client_of (some cfg) (first_param q (str "client_id")).0 ≡ some client
      → ((allows_redirect_uri (some client) (first_param q (str "redirect_uri")).0 ≡ true)
          × (length (first_param q (str "state")).0 ≤ max_caller_state_len)
          × IsNonced client w (authorize_client env cfg r upstream_path q client w))
        ⊎ (IsPage 400 (authorize_client env cfg r upstream_path q client w) × Refused cfg q)
        ⊎ (IsPage 500 (authorize_client env cfg r upstream_path q client w)
            × Broken env cfg upstream_path q)
  unfolding authorize_client
  client_outcome client w u found =
      elim (Bool-cases (allows_redirect_uri (some client) (first_param q (str "redirect_uri")).0)) [
        | inr refused ↦ inr (
            inl (
              rw (refused, authorize_client) (bad_request-IsPage _ w u),
              not_allowed client found refused,
            ))
        | inl allowed ↦
            elim (Bool-cases (ltb max_caller_state_len (length (first_param q (str "state")).0))) [
              | inl long ↦ inr (
                  inl (
                    rw (allowed, long, authorize_client) (bad_request-IsPage _ w u),
                    too_long (ltb→lt _ _ long),
                  ))
              | inr short ↦ elim (nonce_outcome client w u found) [
                | inl done ↦
                    inl
                      (allowed, ltb-false→le _ _ short, rw (allowed, short, authorize_client) done)
                | inr broken ↦ inr (inr (rw (allowed, short, authorize_client) broken))
              ]
            ]
      ]

noted-NonceRule :
    (env : Env) (cfg : Config) (client : Client) (nonce : Str) (w w' : Exchange)
    → NonceRule env cfg client nonce (set_client_id client.id w) w'
    → NonceRule env cfg client nonce w w'
noted-NonceRule env cfg client nonce w w' (unasked plain e kept) =
    unasked plain e (kept ∙ ap (λ (v : Response). v.cookies) (response-set_client_id client.id w))
noted-NonceRule env cfg client nonce w w' (given bytes asked drawn e kept) =
    given bytes asked drawn e (
      kept
      ∙ ap (λ (v : Response). v.cookies ++ nonce_cookie nonce cfg ∷ [])
          (response-set_client_id client.id w))

-- On a request whose response was not sent, `authorize` does one of three things: it redirects, and
-- then the client is registered, the redirect URI is exactly one of its own and the state is short
-- enough, the nonce is new and in a cookie if the client wants one and empty if not, and the target
-- is Strava's with the sealed payload; or it answers a 400 page without a
-- Location, and then the client is unknown, the redirect URI not allowed or the state too long; or
-- it answers a 500 page without a Location, and then the random source, the signing or the upstream
-- URL failed.
pub authorize_outcome :
    (env : Env) (cfg : Config) (r : Request) (upstream_path : Str) (w : Exchange)
    → IsUnsent w
    → let w' = authorize env cfg r upstream_path w in
      let q = env.parse_query r.raw_query in
      ((w'.response.status ≡ some 302) × IsRedirect env cfg r upstream_path w w')
      ⊎ (IsPage 400 w' × Refused cfg q)
      ⊎ (IsPage 500 w' × Broken env cfg upstream_path q)
unfolding authorize
authorize_outcome env cfg r upstream_path w u =
    let q = env.parse_query r.raw_query in
    elim (Option-cases (client_of (some cfg) (first_param q (str "client_id")).0)) [
      | inl missing ↦
          inr (inl (rw (missing, authorize) (bad_request-IsPage _ w u), unknown missing))
      | inr (client, found) ↦
          elim (client_outcome env cfg r upstream_path q client (set_client_id client.id w)
            (set_client_id-IsUnsent client.id w u) found) [
              | inr other ↦ inr (rw (found, authorize) other)
              | inl (allowed, short, n) ↦ inl (
                rw (found, authorize) n.answered,
                record {
                  client = client;
                  nonce = n.nonce;
                  sealed = n.sealed;
                  target = n.target;
                  registered = found;
                  allowed = allowed;
                  short = short;
                  is_sealed = n.is_sealed;
                  nonce_rule =
                      noted-NonceRule env cfg client n.nonce w _ (rw (found, authorize) n.rule);
                  is_upstream = n.is_upstream;
                  location = rw (found, authorize) n.location;
                },
              )
            ]
    ]
