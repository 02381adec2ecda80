-- ===== src/Oauth/Callback/Outcome.antt =====
-- When `callback` sends the user back to a caller, where to, and what else it can answer.
use strava_auth_proxy.Seal
use strava_auth_proxy.Oauth.Callback.Answers.{
  Leg, denied, granted, IsMute, presented, IsBound, IsOpened, IsReturn, Denied, bad_state, unknown,
  revoked, unbound, mute, Failed, no_target, not_sealed, IsFailure,
}
use strava_auth_proxy.Prelude.{
  true, false, some, not, ◌||◌, [], ◌≡◌, ◌≢◌, ◌⊎◌, arith, inl, inr, Option-cases, Bool-cases,
  Result-cases, is_empty,
}
use strava_auth_proxy.Go.Text.{Str, str, ◌==◌, eq_iff}
use strava_auth_proxy.Go.Time.{to_unix}
use strava_auth_proxy.Go.Url.{Url}
use strava_auth_proxy.Go.Values.{Values, get}
use strava_auth_proxy.Go.Http.{Request}
use strava_auth_proxy.Seal.{
  StatePayload, domain_state, domain_code, seal, open_envelope, err_expired, is,
}
use strava_auth_proxy.Config.{Client, Config, allows_redirect_uri, client_of}
use strava_auth_proxy.Exchange.{Exchange, count_callback, set_client_id}
use strava_auth_proxy.Oauth.{Env, first_param, ring_of}
use strava_auth_proxy.Oauth.Responses.{
  IsUnsent, IsPage, bad_request-IsPage, internal-IsPage, set_client_id-IsUnsent,
  redirect_found_status, redirect_found_location,
}
use strava_auth_proxy.Oauth.Callback.{
  echo_state, finish_redirect, callback_code, callback_legs, presented_nonce, callback_nonce,
  callback_state, reject_state, callback,
}

counted-IsUnsent : (key : Str) (w : Exchange) → IsUnsent w → IsUnsent (count_callback key w)
counted-IsUnsent key w u = record { status = u.status; location = u.location }

reject_state-IsPage :
    (outcome detail : Str) (e : Seal.Error) (w : Exchange)
    → IsUnsent w
    → IsPage 400 (reject_state outcome detail e w)
unfolding reject_state
reject_state-IsPage outcome detail e w u =
    bad_request-IsPage detail _ (record { status = u.status; location = u.location })

module _ (env : Env) (cfg : Config) (r : Request) (q : Values) (st : StatePayload) where
  record IsFinished (w : Exchange) : Type 0 where
    dst : Url
    out : Values
    is_target : env.lib.parse_url st.ru ≡ some dst
    leg : Leg env cfg st q (env.parse_query dst.raw_query) out
    answered : w.response.status ≡ some 302
    location :
        get w.response.header (str "Location")
        ≡ env.url_string (record dst { raw_query = env.encode (echo_state st out) })

  finish_outcome :
      (dst : Url) (out : Values) (outcome : Str) (w : Exchange)
      → IsUnsent w
      → env.lib.parse_url st.ru ≡ some dst
      → Leg env cfg st q (env.parse_query dst.raw_query) out
      → IsFinished (finish_redirect env cfg r q st dst out outcome w)
  unfolding finish_redirect
  finish_outcome dst out outcome w u parsed leg = record {
    dst = dst;
    out = out;
    is_target = parsed;
    leg = leg;
    answered = redirect_found_status r.method _ w.response u.status;
    location = redirect_found_location r.method _ w.response u.status;
  }

  -- What becomes of an authenticated state.
  abbrev Outcome : Exchange → Type 0
  Outcome w = IsFinished w ⊎ (IsPage 400 w × IsMute q) ⊎ (IsPage 500 w × Failed env cfg q st)

  code-Outcome :
      (dst : Url) (w : Exchange)
      → IsUnsent w
      → env.lib.parse_url st.ru ≡ some dst
      → (first_param q (str "error")).1 ≡ false
      → (first_param q (str "code")).0 ≢ []
      → Outcome (
          callback_code env cfg r q st dst
            (env.parse_query dst.raw_query)
            (first_param q (str "code")).0
            w)
  unfolding callback_code
  code-Outcome dst w u parsed fine has_code =
      elim (Result-cases (
        seal env.prim env.code_codec (ring_of env (some cfg)) domain_code
          (record { cid = st.cid; sc = (first_param q (str "code")).0; iat = to_unix env.now }))) [
            | inl (e, bad) ↦ inr (
                inr (
                  rw (bad, callback_code) (internal-IsPage _ _ _ (counted-IsUnsent _ w u)),
                  not_sealed e fine has_code bad,
                ))
            | inr (wrapped, good) ↦ inl (
                rw (good, callback_code)
                  (finish_outcome dst _ _ w u parsed (granted wrapped fine has_code good)))
          ]

  legs-Outcome : (w : Exchange) → IsUnsent w → Outcome (callback_legs env cfg r q st w)
  unfolding callback_legs
  legs-Outcome w u = elim (Option-cases (env.lib.parse_url st.ru)) [
    | inl bad ↦ inr (
        inr
          (rw (bad, callback_legs) (internal-IsPage _ _ _ (counted-IsUnsent _ w u)), no_target bad))
    | inr (dst, parsed) ↦ elim (Bool-cases (first_param q (str "error")).1) [
      | inl failed ↦ inl (
          rw (parsed, failed, callback_legs)
            (finish_outcome dst _ _ w u parsed
              (denied (first_param q (str "error")).0 (ground (arith, failed)))))
      | inr fine ↦ elim (Bool-cases (is_empty (first_param q (str "code")).0)) [
        | inl missing ↦ inr (
            inl (
              rw (parsed, fine, missing, callback_legs)
                  (bad_request-IsPage _ _ (counted-IsUnsent _ w u)),
              record { fine = fine; no_code = ground (arith, missing) },
            ))
        | inr has_code ↦
            rw (parsed, fine, has_code, callback_legs)
              (code-Outcome dst w u parsed fine (λ e. ground (arith, e, has_code)))
      ]
    ]
  ]

  nonce-Outcome :
      (client : Client) (w : Exchange)
      → IsUnsent w
      → ((client.require_nonce_cookie ≡ true → IsBound client r st)
          × Outcome (callback_nonce env cfg r q st client w))
        ⊎ (IsPage 400 (callback_nonce env cfg r q st client w)
            × (client.require_nonce_cookie ≡ true)
            × ¬ IsBound client r st)
  unfolding callback_nonce
  nonce-Outcome client w u = elim (Bool-cases client.require_nonce_cookie) [
    | inr plain ↦
        inl (λ asked. ground (arith, plain, asked), rw (plain, callback_nonce) (legs-Outcome w u))
    | inl asked ↦
        elim (Bool-cases (is_empty st.nonce || not (presented_nonce env cfg r q st == st.nonce))) [
          | inl bad ↦ inr (
            rw (asked, bad, callback_nonce)
                (bad_request-IsPage _ _ (record { status = u.status; location = u.location })),
            asked,
            λ bound. ground (arith, bad, bound.present, bound.equal, eq_iff (presented r) st.nonce),
          )
          | inr good ↦ inl (
            λ _. record {
              present = λ e. ground (arith, good, e);
              equal = ground (arith, good, eq_iff (presented r) st.nonce);
            },
            rw (asked, good, callback_nonce)
                (legs-Outcome _ (record { status = u.status; location = u.location })),
          )
        ]
  ]

-- What becomes of a request whose state opens.
state_outcome :
    (env : Env) (cfg : Config) (r : Request) (st : StatePayload)
    → IsOpened env cfg r st
    → (w : Exchange) → IsUnsent w
    → let w' = callback_state env cfg r (env.parse_query r.raw_query) st w in
      ((w'.response.status ≡ some 302) × IsReturn env cfg r w')
      ⊎ (IsPage 400 w' × Denied env cfg r)
      ⊎ (IsPage 500 w' × IsFailure env cfg r)
unfolding callback_state
state_outcome env cfg r st opened w u =
    let q = env.parse_query r.raw_query in
    elim (Option-cases (client_of (some cfg) st.cid)) [
      | inl missing ↦ inr (
          inl (
            rw (missing, callback_state) (bad_request-IsPage _ _ (counted-IsUnsent _ w u)),
            unknown st opened missing,
          ))
      | inr (client, found) ↦ elim (Bool-cases (allows_redirect_uri (some client) st.ru)) [
        | inr gone ↦ inr (
            inl (
              rw (found, gone, callback_state) (bad_request-IsPage _ _ (counted-IsUnsent _ w u)),
              revoked st client opened found gone,
            ))
        | inl allowed ↦ elim (nonce-Outcome env cfg r q st client w u) [
          | inr (page, asked, loose) ↦ inr (
              inl (
                rw (found, allowed, callback_state) page,
                unbound st client opened found asked loose,
              ))
          | inl (_, inr (inl (page, silent))) ↦
              inr (inl (rw (found, allowed, callback_state) page, mute st opened silent))
          | inl (_, inr (inr (page, why))) ↦ inr (
              inr (
                rw (found, allowed, callback_state) page,
                record { st = st; opened = opened; why = why },
              ))
          | inl (rule, inl f) ↦ inl (
            rw (found, allowed, callback_state) f.answered,
            record {
              st = st;
              client = client;
              dst = f.dst;
              out = f.out;
              opened = opened;
              registered = found;
              allowed = allowed;
              nonce_rule = rule;
              is_target = f.is_target;
              leg = f.leg;
              location = rw (found, allowed, callback_state) f.location;
            },
          )
        ]
      ]
    ]

-- On a request whose response was not sent, `callback` does one of three things: it redirects with
-- 302, and then the state opens, the client that it names is registered at that moment, the
-- redirect URI of the state is one of that client's at that moment, the cookie equals the state's
-- nonce, which is not empty, if the client wants a cookie, and the target is that redirect URI with
-- the parameters of Strava's answer; or it answers a 400 page without a Location, and then the state
-- does not open, or the client, the redirect URI or the cookie is refused, or Strava sent neither an
-- error nor a code; or it answers a 500 page without a Location, and then the state opens, but its
-- redirect URI does not parse or the code could not be sealed.
pub callback_outcome :
    (env : Env) (cfg : Config) (r : Request) (w : Exchange)
    → IsUnsent w
    → let w' = callback env cfg r w in
      ((w'.response.status ≡ some 302) × IsReturn env cfg r w')
      ⊎ (IsPage 400 w' × Denied env cfg r)
      ⊎ (IsPage 500 w' × IsFailure env cfg r)
unfolding callback
callback_outcome env cfg r w u =
    elim (Result-cases (
      open_envelope env.prim env.state_codec (ring_of env (some cfg)) domain_state
        (first_param (env.parse_query r.raw_query) (str "state")).0 cfg.state_ttl env.now)) [
          | inl (e, bad) ↦ elim (Bool-cases (is e err_expired)) [
            | inl late ↦
                inr
                  (inl (rw (bad, late, callback) (reject_state-IsPage _ _ e w u), bad_state e bad))
            | inr other ↦
                inr
                  (inl (rw (bad, other, callback) (reject_state-IsPage _ _ e w u), bad_state e bad))
          ]
          | inr (st, opened) ↦
              rw (opened, callback)
                (state_outcome env cfg r st opened (set_client_id st.cid w)
                  (set_client_id-IsUnsent st.cid w u))
        ]
