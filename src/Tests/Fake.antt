-- ===== src/Tests/Fake.antt =====
-- The simulated Strava on a run: an authorization, an exchange, and what follows.
use strava_auth_proxy.Go.Base64.{encode_raw}
use strava_auth_proxy.Go.Text.{itoa, Str, str, ◌==◌}
use strava_auth_proxy.Fakestrava.{
  set_mark, Server, Libraries, Knob, new, write_fault, invalid, mark_of,
}
use strava_auth_proxy.Prelude.{All, ◌≡◌, refl, ◌+◌, true, some, List, [], ◌∷◌, replicate}
use strava_auth_proxy.Fakestrava.Induction.{IsSound}
use strava_auth_proxy.Fakestrava.Runs.{run-exchange_code_once, run-refresh_rotates}
use strava_auth_proxy.Fakestrava.Names.{IsDrawn}
use strava_auth_proxy.Prelude.Int.{pos}
use strava_auth_proxy.Go.Values.{Values, get}
use strava_auth_proxy.Go.Http.{fresh}
use strava_auth_proxy.Fakestrava.Grants.{
  Moment, exchange_code, refresh, refresh_name, random_suffix, is_exchangeable, is_refreshable,
}
use strava_auth_proxy.Fakestrava.Api.{Connection}
use strava_auth_proxy.Fakestrava.Serve.{Event, Visit, visit, knob, run, serve}
use strava_auth_proxy.Fakestrava.Book.{book}
use strava_auth_proxy.Fakestrava.Refinement.{Step, view, serve-IsStep}
use strava_auth_proxy.Tests.Setup.{request, site}

abbrev query : Values
query =
    (str "client_id", str "1001" ∷ [])
    ∷ (str "redirect_uri", str "https://proxy.example/oauth/callback" ∷ [])
    ∷ (str "scope", str "read activity:read" ∷ [])
    ∷ []

abbrev form : Values
form =
    (str "client_id", str "1001" ∷ [])
    ∷ (str "client_secret", str "real" ∷ [])
    ∷ (str "grant_type", str "authorization_code" ∷ [])
    ∷ (str "code", str "fakecode1AAAAAAAAAAAA" ∷ [])
    ∷ []

abbrev lib : Libraries
lib = record {
  parse_query = λ s. query;
  parse_url = λ s. some site;
  url_string = λ u. u.host;
  encode = λ m. [];
  form = λ r. form;
  token_json = λ type refresh access at span athlete. some access;
  deauthorize_json = λ s. some s;
  echo_json = λ r m. some r.path;
  gzip = λ s. some s;
}

abbrev moment : Moment
moment = record { now = pos 0; random = some (replicate 9 0); random' = some (replicate 9 0) }

abbrev connection : Connection
connection = record { writes = λ i. true; lives = λ i. true }

abbrev authorization : Visit
authorization = record { request = request; moment = moment; connection = connection }

abbrev exchange : Visit
exchange = record {
  request = record request { method = str "POST"; path = str "/oauth/token" };
  moment = moment;
  connection = connection;
}

abbrev default : Str
default = str "{}"

abbrev code : Str
code = str "fakecode1AAAAAAAAAAAA"

abbrev before : List Event
before = knob (Knob.rotate_refresh true) ∷ visit authorization ∷ []

abbrev later : List Event
later = visit authorization ∷ visit exchange ∷ knob Knob.reset ∷ []

-- An exchange, after which the token can be refreshed.
abbrev with_token : List Event
with_token = knob (Knob.rotate_refresh true) ∷ visit authorization ∷ visit exchange ∷ []

drawn : IsDrawn moment
drawn = (replicate 9 0, replicate 9 0, refl, refl, refl, refl)

before-IsSound : All IsSound before
before-IsSound = (tt, (drawn, tt))

later-IsSound : All IsSound later
later-IsSound = (drawn, (drawn, (tt, tt)))

with_token-IsSound : All IsSound with_token
with_token-IsSound = (tt, (drawn, (drawn, tt)))

abbrev authorized : Server
authorized = run lib default before (new default (str "1001") (str "real"))

exchanged_test : is_exchangeable authorized code ≡ true
unfolding is_exchangeable is_refreshable run new mark_of serve ◌==◌ get set_mark itoa random_suffix
    encode_raw
exchanged_test = refl

run-exchange_code_once_example :
    let after = run lib default later (exchange_code lib moment code authorized fresh).0 in
    exchange_code lib moment code after fresh ≡ (
      after,
      write_fault 400 (str "Bad Request") (invalid (str "AuthorizationCode") (str "code")) fresh,
    )
run-exchange_code_once_example =
    run-exchange_code_once lib default (str "1001") (str "real") code before later moment moment
      fresh fresh before-IsSound later-IsSound drawn exchanged_test

abbrev token : Str
token = str "fakerefresh2AAAAAAAAAAAA"

abbrev refreshing : Server
refreshing = run lib default with_token (new default (str "1001") (str "real"))

refreshable_test : is_refreshable refreshing token ≡ true
unfolding is_exchangeable is_refreshable run new mark_of serve ◌==◌ get set_mark itoa random_suffix
    encode_raw
refreshable_test = refl

rotating_test : refreshing.rotate_refresh ≡ true
unfolding is_exchangeable is_refreshable run new mark_of serve ◌==◌ get set_mark itoa random_suffix
    encode_raw
rotating_test = refl

run-refresh_rotates_example :
    let rotated = (refresh lib moment token refreshing fresh).0 in
    let after = run lib default later rotated in
    (is_refreshable rotated (refresh_name (refreshing.seq + 1) (random_suffix moment.random'))
      ≡ true)
    × (refresh lib moment token after fresh ≡ (
      after,
      write_fault 400
          (str "Bad Request")
          (invalid (str "RefreshToken") (str "refresh_token"))
          fresh,
    ))
run-refresh_rotates_example =
    run-refresh_rotates lib default (str "1001") (str "real") token with_token later moment moment
      fresh fresh with_token-IsSound later-IsSound drawn rotating_test refreshable_test

serve-IsStep_example : Step (view (book authorized)) (view (book (serve lib exchange authorized).0))
serve-IsStep_example =
    serve-IsStep lib default (str "1001") (str "real") before exchange before-IsSound drawn
