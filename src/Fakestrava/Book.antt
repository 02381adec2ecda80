-- ===== src/Fakestrava/Book.antt =====
-- The part of the simulated Strava that its grants live on: the counter, the codes and the refresh
-- tokens. Every request changes it in one of six ways, or not at all.
use strava_auth_proxy.Fakestrava.Marks.{unused_mark, valid_mark}
use strava_auth_proxy.Fakestrava.Grants.{
  bearer, is_valid, is_application, Moment, mint, code_name, refresh_name, random_suffix,
  is_exchangeable, is_refreshable, exchange_code, refresh, grant, handle_authorize, handle_token,
  handle_deauthorize, handle_revoke,
}
use strava_auth_proxy.Oauth.Revoke.{basic_auth}
use strava_auth_proxy.Go.Values.{Values, get}
use strava_auth_proxy.Prelude.{
  is_empty, and_parts, ℕ, ◌+◌, ◌≡◌, refl, true, false, not, none, some, [], ◌∷◌, arith, length,
  if◌then◌else◌, branch, Bool-cases, Option-cases, inl, inr,
}
use strava_auth_proxy.Go.Text.{Str, str, ◌==◌}
use strava_auth_proxy.Go.Http.{Request, Response, fresh}
use strava_auth_proxy.Fakestrava.{
  Server, Libraries, Marks, mark_of, set_mark, delete_mark, record_request, turn, Knob,
}
use strava_auth_proxy.Fakestrava.Names.{IsDrawn, suffix_length, length-random_suffix}
use strava_auth_proxy.Fakestrava.Serve.{Visit, Route, dispatch, serve, route}

pub record Book : Type 0 where
  pub seq : ℕ
  pub codes : Marks
  pub tokens : Marks

abbrev pub book : Server → Book
book s = record { seq = s.seq; codes = s.codes; tokens = s.refresh_tokens }

abbrev fresh_token : Book → Str → Str
fresh_token b suffix = refresh_name (b.seq + 1) suffix

pub data Change (old : Book) : Book → Type 0 where
  same : Change old old
  minted :
      (suffix : Str)
      → length suffix ≡ suffix_length
      → Change old (record {
        seq = old.seq + 1;
        codes = set_mark (code_name (old.seq + 1) suffix) false old.codes;
        tokens = old.tokens;
      })
  exchanged :
      (code suffix : Str)
      → length suffix ≡ suffix_length
      → mark_of old.codes code ≡ some false
      → Change old (record {
        seq = old.seq + 1;
        codes = set_mark code true old.codes;
        tokens = set_mark (fresh_token old suffix) true old.tokens;
      })
  refreshed :
      (suffix : Str)
      → length suffix ≡ suffix_length
      → Change old (record {
        seq = old.seq + 1;
        codes = old.codes;
        tokens =
            delete_mark
              (fresh_token old suffix)
              (set_mark (fresh_token old suffix) true old.tokens);
      })
  rotated :
      (presented suffix : Str)
      → length suffix ≡ suffix_length
      → mark_of old.tokens presented ≡ some true
      → Change old (record {
        seq = old.seq + 1;
        codes = old.codes;
        tokens = delete_mark presented (set_mark (fresh_token old suffix) true old.tokens);
      })
  revoked :
      (token : Str)
      → Change old
          (record { seq = old.seq; codes = old.codes; tokens = delete_mark token old.tokens })

abbrev Leads : Server → Server × Response → Type 0
Leads s p = Change (book s) (book p.0)

pub is_exchangeable_mark :
    (s : Server) (code : Str) → is_exchangeable s code ≡ true → mark_of s.codes code ≡ some false
unfolding is_exchangeable
is_exchangeable_mark s code h = unused_mark (mark_of s.codes code) h

pub is_refreshable_mark :
    (s : Server) (token : Str)
    → is_refreshable s token ≡ true
    → mark_of s.refresh_tokens token ≡ some true
unfolding is_refreshable
is_refreshable_mark s token h =
    valid_mark (mark_of s.refresh_tokens token)
      (and_parts (not (is_empty token)) (is_valid (mark_of s.refresh_tokens token)) h).1

pub refreshable_filled :
    (s : Server) (token : Str) → is_refreshable s token ≡ true → is_empty token ≡ false
unfolding is_refreshable
refreshable_filled s [] h = ground arith
refreshable_filled s (c ∷ token) h = refl

module _ (lib : Libraries) (m : Moment) (drawn : IsDrawn m) where
  suffix_sized : length (random_suffix m.random) ≡ suffix_length
  suffix_sized = let (b, b', e, e', l, l') = drawn in length-random_suffix m.random b e l

  pub suffix'_sized : length (random_suffix m.random') ≡ suffix_length
  suffix'_sized = let (b, b', e, e', l, l') = drawn in length-random_suffix m.random' b' e' l'

  pub exchange_code-Leads :
      (code : Str) (s : Server) (w : Response) → Leads s (exchange_code lib m code s w)
  unfolding exchange_code
  exchange_code-Leads code s w =
      branch (Leads s) (is_exchangeable s code)
        (λ e.
          exchanged code (random_suffix m.random') suffix'_sized (is_exchangeable_mark s code e))
        (λ e. same)

  refresh-Leads : (token : Str) (s : Server) (w : Response) → Leads s (refresh lib m token s w)
  unfolding refresh
  refresh-Leads token s w = elim (Bool-cases (is_refreshable s token)) [
    | inr e ↦ rw e same
    | inl e ↦ rw e (
        branch (Leads s) s.rotate_refresh
          (λ d.
            rotated token (random_suffix m.random') suffix'_sized (is_refreshable_mark s token e))
          (λ d. refreshed (random_suffix m.random') suffix'_sized))
  ]

  grant-Leads : (form : Values) (s : Server) (w : Response) → Leads s (grant lib m form s w)
  unfolding grant
  grant-Leads form s w =
      branch (Leads s) (get form (str "grant_type") == str "authorization_code")
        (λ e. exchange_code-Leads (get form (str "code")) s w)
        (λ e.
          branch (Leads s) (get form (str "grant_type") == str "refresh_token")
            (λ d. refresh-Leads (get form (str "refresh_token")) s w) (λ d. same))

  handle_token-Leads :
      (form : Values) (s : Server) (w : Response) → Leads s (handle_token lib m form s w)
  unfolding handle_token
  handle_token-Leads form s w =
      branch (Leads s) (not (get form (str "client_id") == s.real_client_id)) (λ e. same)
        (λ e.
          branch (Leads s) (not (get form (str "client_secret") == s.real_client_secret))
            (λ d. same)
            (λ d. grant-Leads form (record s { token_requests = s.token_requests + 1 }) w))

  mint-Leads : (s : Server) → Change (book s) (book (mint m s).1)
  unfolding mint
  mint-Leads s =
      branch (λ (p : Str × Server). Change (book s) (book p.1)) (is_empty s.authorize_error)
        (λ e. minted (random_suffix m.random) suffix_sized) (λ e. same)

  handle_authorize-Leads :
      (r : Request) (s : Server) (w : Response) → Leads s (handle_authorize lib m r s w)
  unfolding handle_authorize
  handle_authorize-Leads r s w =
      let q = lib.parse_query r.raw_query in
      branch (Leads s) (not (get q (str "client_id") == s.real_client_id)) (λ e. same)
        (λ e.
          branch (Leads s) (is_empty (get q (str "redirect_uri"))) (λ d. same)
            (λ d. elim (Option-cases (lib.parse_url (get q (str "redirect_uri")))) [
              | inl f ↦ rw f same
              | inr (dst, f) ↦ rw f (mint-Leads s)
            ]))

handle_deauthorize-Leads :
    (lib : Libraries) (r : Request) (s : Server) (w : Response)
    → Leads s (handle_deauthorize lib r s w)
unfolding handle_deauthorize
handle_deauthorize-Leads lib r s w =
    let given = get (lib.form r) (str "access_token") in
    let token = if is_empty given then bearer (get r.header (str "Authorization")) else given in
    branch (Leads s) (is_empty token) (λ e. same) (λ e. same)

handle_revoke-Leads :
    (lib : Libraries) (r : Request) (s : Server) (w : Response) → Leads s (handle_revoke lib r s w)
unfolding handle_revoke
handle_revoke-Leads lib r s w =
    branch (Leads s) (not (is_application s (basic_auth r.header))) (λ e. same)
      (λ e.
        branch (Leads s) (is_empty (get (lib.form r) (str "token"))) (λ d. same)
          (λ d. revoked (get (lib.form r) (str "token"))))

dispatch-Leads :
    (lib : Libraries) (route : Route) (v : Visit) (s : Server) (w : Response)
    → IsDrawn v.moment
    → Leads s (dispatch lib route v s w)
unfolding dispatch
dispatch-Leads lib Route.authorize v s w d = handle_authorize-Leads lib v.moment d v.request s w
dispatch-Leads lib Route.token v s w d = handle_token-Leads lib v.moment d (lib.form v.request) s w
dispatch-Leads lib Route.deauthorize v s w d = handle_deauthorize-Leads lib v.request s w
dispatch-Leads lib Route.revoke v s w d = handle_revoke-Leads lib v.request s w
dispatch-Leads lib Route.api v s w d = same
dispatch-Leads lib Route.not_found v s w d = same

-- A request changes the book in one of the ways of `Change`.
pub serve-IsChange :
    (lib : Libraries) (v : Visit) (s : Server)
    → IsDrawn v.moment
    → Change (book s) (book (serve lib v s).0)
unfolding serve record_request
serve-IsChange lib v s d =
    dispatch-Leads lib (route v.request.method v.request.path) v (record_request lib v.request s)
      fresh d

-- A knob leaves the book as it is.
pub book-turn : (athlete : Str) (k : Knob) (s : Server) → book (turn athlete k s) ≡ book s
unfolding turn
book-turn athlete (Knob.granted_scope scope) s = refl
book-turn athlete (Knob.authorize_error value) s = refl
book-turn athlete (Knob.athlete raw) s = refl
book-turn athlete (Knob.rotate_refresh b) s = refl
book-turn athlete (Knob.hang d) s = refl
book-turn athlete (Knob.rate_limit_headers none) s = refl
book-turn athlete (Knob.rate_limit_headers (some h)) s = refl
book-turn athlete (Knob.stream n d) s = refl
book-turn athlete Knob.reset s = refl
