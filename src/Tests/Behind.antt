-- ===== src/Tests/Behind.antt =====
-- The proxy in front of the simulated Strava: the exchange of a wrapped code.

use strava_auth_proxy.Fakestrava
use strava_auth_proxy.Tests.Setup
use strava_auth_proxy.Prelude.{true, false, none, some, [], ◌∷◌, ok}
use strava_auth_proxy.Prelude.Int.{pos}
use strava_auth_proxy.Go.Text.{str}
use strava_auth_proxy.Go.Url.{Url}
use strava_auth_proxy.Go.Values.{Values}
use strava_auth_proxy.Go.Http.{Outbound}
use strava_auth_proxy.Oauth.{Env, path_token}
use strava_auth_proxy.Oauth.Token.Complete.{exchanged_params}
use strava_auth_proxy.Fakestrava.{new}
use strava_auth_proxy.Fakestrava.Serve.{Visit, serve}
use strava_auth_proxy.Fakestrava.Behind.{inbound}
use strava_auth_proxy.Tests.Form.{encode, decode}
use strava_auth_proxy.Tests.Envelope.{first_key, payload, minted}

abbrev form : Values
form =
    (str "client_id", str "42" ∷ [])
    ∷ (str "client_secret", str "hush" ∷ [])
    ∷ (str "grant_type", str "authorization_code" ∷ [])
    ∷ (str "code", minted.0 ∷ [])
    ∷ []

-- What Strava reads of the form that it is sent.
abbrev received : Values
received = exchanged_params Setup.cfg form payload

abbrev lib : Fakestrava.Libraries
lib = record {
  parse_query = λ s. [];
  parse_url = λ s. none;
  url_string = λ u. u.host;
  encode = λ m. [];
  form = λ r. decode r.body;
  token_json = λ type refresh access at span athlete. some access;
  deauthorize_json = λ s. some s;
  echo_json = λ r m. some r.path;
  gzip = λ s. some s;
}

abbrev visit_of : Outbound → Visit
visit_of o = record {
  request = record Setup.request {
    method = o.method;
    path = path_token;
    raw_query = [];
    header = o.header;
    body = o.body;
  };
  moment = record { now = pos 0; random = some (1 ∷ []); random' = some (2 ∷ []) };
  connection = record { writes = λ i. true; lives = λ i. true };
}

abbrev strava : Fakestrava.Server
strava = record (Fakestrava.new (str "{}") (str "1001") (str "real")) {
  codes = (str "c0de", false) ∷ [];
}

abbrev env : Env
env = record (Setup.env [] form) {
  ring = first_key ∷ [];
  encode = encode;
  call = λ o. ok (inbound (serve lib (visit_of o) strava).1);
}

target : Url
target = record Setup.site { path = path_token }
