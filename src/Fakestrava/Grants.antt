-- ===== src/Fakestrava/Grants.antt =====
-- internal/fakestrava/oauth.go: authorization, the token grants, deauthorization and revocation.
use strava_auth_proxy.Prelude.Int.{sub_ℕ, ℤ, pos, negsuc}
use strava_auth_proxy.Prelude.{
  ◌*◌, ℕ, ◌+◌, Bool, true, false, not, ◌&&◌, ◌||◌, Option, none, some, List, [], ◌∷◌, ◌++◌, eqb,
  is_empty, drop, if◌then◌else◌,
}
use strava_auth_proxy.Go.Text.{Str, str, ◌==◌, itoa, has_prefix, trim_space}
use strava_auth_proxy.Go.Base64.{url, encode_raw}
use strava_auth_proxy.Go.Time.{Instant, second, to_unix}
use strava_auth_proxy.Go.Values.{Values, get, set, lookup}
use strava_auth_proxy.Go.Http.{Request, Response, redirect_found, write_header}
use strava_auth_proxy.Oauth.Revoke.{basic_auth}
use strava_auth_proxy.Fakestrava.{
  Server, Libraries, mark_of, set_mark, delete_mark, access_token_ttl, write_json, write_fault,
  invalid,
}

-- The moment of a request: the time, and what the random source gives, in the order of its uses.
pub record Moment : Type 0 where
  pub now : Instant
  pub random : Option Str
  pub random' : Option Str

unfoldable pub random_suffix : Option Str → Str
random_suffix none = str "x"
random_suffix (some b) = encode_raw url b

abbrev pub code_name : ℕ → Str → Str
code_name n suffix = str "fakecode" ++ itoa n ++ suffix

abbrev pub access_name : ℕ → Str → Str
access_name n suffix = str "fakeaccess" ++ itoa n ++ suffix

abbrev pub refresh_name : ℕ → Str → Str
refresh_name n suffix = str "fakerefresh" ++ itoa n ++ suffix

abbrev is_delimiter : ℕ → Bool
is_delimiter c = eqb c b',' || eqb c b' ' || eqb c 9 || eqb c 10

abbrev close_field : Str → List Str → List Str
close_field field fields = if is_empty field then fields else field ∷ fields

-- strings.FieldsFunc, with the field that is being read.
fields : Str → Str → List Str
fields [] field = close_field field []
fields (c ∷ s) field =
    if is_delimiter c then close_field field (fields s []) else fields s (field ++ c ∷ [])

join_commas : List Str → Str
join_commas [] = []
join_commas (f ∷ []) = f
join_commas (f ∷ g ∷ fs) = f ++ b',' ∷ join_commas (g ∷ fs)

unfoldable pub normalize_scope : Str → Str
unfolding fields join_commas
normalize_scope requested = join_commas (fields requested [])

abbrev bad_application : Str → Response → Response
bad_application field w = write_fault 400 (str "Bad Request") (invalid (str "Application") field) w

-- The locked part of the authorization: the code is minted unless an error is to be given.
unfoldable pub mint : Moment → Server → Str × Server
mint m s =
    let seq = s.seq + 1 in
    let code = code_name seq (random_suffix m.random) in
    if is_empty s.authorize_error
    then (code, record s { seq = seq; codes = set_mark code false s.codes })
    else ([], s)

-- The state of the query, echoed if it was sent.
abbrev echoed : Option (List Str) → Values → Values
echoed (some (v ∷ vs)) out = set out (str "state") v
echoed _ out = out

unfoldable pub granted : Server → Values → Str
granted s q =
    if is_empty s.granted_scope then normalize_scope (get q (str "scope")) else s.granted_scope

unfoldable pub answer_params : Server → Values → Str → Values → Values
unfolding granted
answer_params s q code base =
    let out = echoed (lookup q (str "state")) base in
    let scope = granted s q in
    if is_empty s.authorize_error
    then (let coded = set out (str "code") code in
        if is_empty scope then coded else set coded (str "scope") scope)
    else set out (str "error") s.authorize_error

module _ (lib : Libraries) (m : Moment) (r : Request) where
  unfoldable pub handle_authorize : Server → Response → Server × Response
  unfolding mint answer_params
  handle_authorize s w =
      let q = lib.parse_query r.raw_query in
      let redirect_uri = get q (str "redirect_uri") in
      if not (get q (str "client_id") == s.real_client_id)
      then (s, bad_application (str "client_id") w)
      else if is_empty redirect_uri
      then (s, bad_application (str "redirect_uri") w)
      else elim (lib.parse_url redirect_uri) [
        | none ↦ (s, bad_application (str "redirect_uri") w)
        | some dst ↦
            let minted = mint m s in
            let out = answer_params s q minted.0 (lib.parse_query dst.raw_query) in
            (
              minted.1,
              redirect_found r.method (lib.url_string (record dst { raw_query = lib.encode out }))
                  w,
            )
      ]

-- A fresh pair of tokens; the refresh token is valid.
unfoldable pub issue_tokens : Moment → Server → (Str × Str) × Server
issue_tokens m s =
    let seq = s.seq + 1 in
    let refresh = refresh_name seq (random_suffix m.random') in
    (
      (access_name seq (random_suffix m.random), refresh),
      record s { seq = seq; refresh_tokens = set_mark refresh true s.refresh_tokens },
    )

-- The instant of expiry, in seconds.
expires_at : Instant → ℤ
expires_at (pos n) = to_unix (pos (n + access_token_ttl * second))
expires_at (negsuc n) = to_unix (sub_ℕ (access_token_ttl * second) (n + 1))

unfoldable pub write_tokens : Libraries → Moment → Str × Str → Str → Response → Response
unfolding expires_at
write_tokens lib m (access, refresh) athlete w =
    write_json 200
      (lib.token_json (str "Bearer") refresh access (expires_at m.now) access_token_ttl athlete) w

abbrev pub is_unused : Option Bool → Bool
is_unused (some false) = true
is_unused _ = false

abbrev pub is_valid : Option Bool → Bool
is_valid (some true) = true
is_valid _ = false

unfoldable pub is_exchangeable : Server → Str → Bool
is_exchangeable s code = is_unused (mark_of s.codes code)

unfoldable pub is_refreshable : Server → Str → Bool
is_refreshable s token = not (is_empty token) && is_valid (mark_of s.refresh_tokens token)

module _ (lib : Libraries) (m : Moment) where
  -- A code is burnt before the tokens are issued.
  unfoldable pub exchange_code : Str → Server → Response → Server × Response
  unfolding issue_tokens
  exchange_code code s w =
      let issued = issue_tokens m (record s { codes = set_mark code true s.codes }) in
      if is_exchangeable s code then (issued.1, write_tokens lib m issued.0 s.athlete w) else (
        s,
        write_fault 400 (str "Bad Request") (invalid (str "AuthorizationCode") (str "code")) w,
      )

  -- With rotation the presented token is exchanged for the new one, without it the new one is
  -- dropped again.
  unfoldable pub refresh : Str → Server → Response → Server × Response
  unfolding issue_tokens
  refresh presented s w =
      let issued = issue_tokens m s in
      let (access, fresh) = issued.0 in
      let tokens = issued.1.refresh_tokens in
      if not (is_refreshable s presented)
      then (
        s,
        write_fault 400 (str "Bad Request") (invalid (str "RefreshToken") (str "refresh_token")) w,
      )
      else if s.rotate_refresh
      then (
        record issued.1 { refresh_tokens = delete_mark presented tokens },
        write_tokens lib m (access, fresh) [] w,
      )
      else (
        record issued.1 { refresh_tokens = delete_mark fresh tokens },
        write_tokens lib m (access, presented) [] w,
      )

  -- The grants, once the credentials are right.
  unfoldable pub grant : Values → Server → Response → Server × Response
  unfolding exchange_code refresh
  grant form s w =
      let grant_type = get form (str "grant_type") in
      if grant_type == str "authorization_code"
      then exchange_code (get form (str "code")) s w
      else if grant_type == str "refresh_token"
      then refresh (get form (str "refresh_token")) s w
      else (s, bad_application (str "grant_type") w)

  unfoldable pub handle_token : Values → Server → Response → Server × Response
  unfolding grant
  handle_token form s₀ w =
      let s = record s₀ { token_requests = s₀.token_requests + 1 } in
      if not (get form (str "client_id") == s.real_client_id)
      then (s, bad_application (str "client_id") w)
      else if not (get form (str "client_secret") == s.real_client_secret)
      then (s, write_fault 401 (str "Authorization Error") (invalid (str "Application") (str "")) w)
      else grant form s w

-- The Bearer token of a header; `drop` takes the scheme off.
unfoldable pub bearer : Str → Str
bearer v = if has_prefix v (str "Bearer ") then trim_space (drop 7 v) else []

unfoldable pub handle_deauthorize : Libraries → Request → Server → Response → Server × Response
unfolding bearer
handle_deauthorize lib r s w =
    let given = get (lib.form r) (str "access_token") in
    let token = if is_empty given then bearer (get r.header (str "Authorization")) else given in
    if is_empty token
    then (
      s,
      write_fault 401 (str "Authorization Error") (invalid (str "Athlete") (str "access_token")) w,
    )
    else (s, write_json 200 (lib.deauthorize_json token) w)

abbrev pub is_application : Server → Option (Str × Str) → Bool
is_application s none = false
is_application s (some (id, secret)) = id == s.real_client_id && secret == s.real_client_secret

unfoldable pub handle_revoke : Libraries → Request → Server → Response → Server × Response
handle_revoke lib r s w =
    let token = get (lib.form r) (str "token") in
    if not (is_application s (basic_auth r.header))
    then (s, write_fault 401 (str "Authorization Error") [] w)
    else if is_empty token
    then (s, write_fault 400 (str "Bad Request") (invalid (str "Application") (str "token")) w)
    else (record s { refresh_tokens = delete_mark token s.refresh_tokens }, write_header 200 w)
