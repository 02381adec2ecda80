-- ===== src/Fakestrava/Exchange.antt =====
-- An exchange of a code at the simulated Strava, as a request.
use strava_auth_proxy.Prelude.{ℕ, ◌≡◌, refl, ◌+◌, true, some}
use strava_auth_proxy.Go.Text.{Str, str, eq_refl}
use strava_auth_proxy.Go.Values.{Values, get}
use strava_auth_proxy.Go.Http.{Response, fresh}
use strava_auth_proxy.Fakestrava.{Server, Libraries, mark_of, record_request}
use strava_auth_proxy.Fakestrava.Grants.{
  Moment, exchange_code, issue_tokens, grant, handle_token, is_exchangeable, is_refreshable,
  access_name, refresh_name, random_suffix, write_tokens,
}
use strava_auth_proxy.Fakestrava.Marks.{mark_of-set_mark_self}
use strava_auth_proxy.Fakestrava.Serve.{Visit, Route, route, dispatch, serve}

-- A request to exchange a code, with the credentials of the application.
pub record IsExchange (lib : Libraries) (v : Visit) (s : Server) (code : Str) : Type 0 where
  pub routed : route v.request.method v.request.path ≡ Route.token
  pub id : get (lib.form v.request) (str "client_id") ≡ s.real_client_id
  pub secret : get (lib.form v.request) (str "client_secret") ≡ s.real_client_secret
  pub grant : get (lib.form v.request) (str "grant_type") ≡ str "authorization_code"
  pub coded : get (lib.form v.request) (str "code") ≡ code

-- The code is used up, the new refresh token is valid, and the answer has the new tokens.
abbrev pub IsIssued :
    (lib : Libraries) (m : Moment) (seq : ℕ) (athlete code : Str) (p : Server × Response) → Type 0
IsIssued lib m seq athlete code p =
    let access = access_name (seq + 1) (random_suffix m.random) in
    let made = refresh_name (seq + 1) (random_suffix m.random') in
    (mark_of p.0.codes code ≡ some true)
    × (is_refreshable p.0 made ≡ true)
    × (p.1 ≡ write_tokens lib m (access, made) athlete fresh)

module _ (lib : Libraries) (m : Moment) (s : Server) (code : Str) where
  exchange_code-IsIssued :
      is_exchangeable s code ≡ true
      → IsIssued lib m s.seq s.athlete code (exchange_code lib m code s fresh)
  unfolding exchange_code issue_tokens is_refreshable
  exchange_code-IsIssued h =
      let made = refresh_name (s.seq + 1) (random_suffix m.random') in
      rw (exchange_code, h)
        (
          mark_of-set_mark_self s.codes code true,
          rw (is_refreshable, mark_of-set_mark_self s.refresh_tokens made true) refl,
          refl,
        )

module _ (lib : Libraries) (m : Moment) (s : Server) (code : Str) where
  handle_token-IsIssued :
      (form : Values)
      → get form (str "client_id") ≡ s.real_client_id
      → get form (str "client_secret") ≡ s.real_client_secret
      → get form (str "grant_type") ≡ str "authorization_code"
      → get form (str "code") ≡ code
      → is_exchangeable s code ≡ true
      → IsIssued lib m s.seq s.athlete code (handle_token lib m form s fresh)
  unfolding handle_token grant is_exchangeable
  handle_token-IsIssued form id secret kind coded h =
      rw
        (
          handle_token,
          id,
          eq_refl s.real_client_id,
          secret,
          eq_refl s.real_client_secret,
          grant,
          kind,
          eq_refl (str "authorization_code"),
          coded,
        )
        (exchange_code-IsIssued lib m (record s { token_requests = s.token_requests + 1 }) code h)

-- A request to exchange a code that can be exchanged burns it and issues tokens.
pub serve-IsIssued :
    (lib : Libraries) (v : Visit) (s : Server) (code : Str)
    → IsExchange lib v s code
    → is_exchangeable s code ≡ true
    → IsIssued lib v.moment s.seq s.athlete code (serve lib v s)
unfolding serve dispatch record_request is_exchangeable
serve-IsIssued lib v s code x h =
    rw (serve, x.routed)
      (handle_token-IsIssued lib v.moment (record_request lib v.request s) code (lib.form v.request)
        x.id x.secret x.grant x.coded h)
