-- ===== src/Tests/Setup.antt =====
-- A configuration with one client, and a handler's environment, for the examples.
use strava_auth_proxy.Go.Values.{get, Values}
use strava_auth_proxy.Prelude.{
  ◌*◌, refl, true, false, none, some, [], ◌∷◌, ◌++◌, ok, if◌then◌else◌, is_empty, length, replicate,
}
use strava_auth_proxy.Prelude.Int.{pos}
use strava_auth_proxy.Go.Text.{str}
use strava_auth_proxy.Go.Time.{second}
use strava_auth_proxy.Go.Url.{Url}
use strava_auth_proxy.Go.Http.{Request, fresh}
use strava_auth_proxy.Config.{Client, Config, Libraries, new_secret}
use strava_auth_proxy.Exchange.{Exchange}
use strava_auth_proxy.Oauth.{Env}
use strava_auth_proxy.Oauth.Responses.{IsUnsent}
use strava_auth_proxy.Tests.Toy.{toy, code_codec, state_codec}

abbrev pub site : Url
site = record {
  scheme = str "https";
  host = str "app.example";
  path = str "/return";
  raw_query = [];
  fragment = [];
}

-- A digest that is no digest, and a parser that knows one URL.
abbrev pub lib : Libraries
lib = record {
  sha256 = λ s. length s ∷ replicate 31 0;
  parse_url = λ s. some site;
  hostname = λ u. u.host;
  parse_duration = λ s. none;
  registry_json = λ s. some (
      record {
        client_id = str "42";
        client_secret_sha256 = [];
        client_secret = new_secret (str "hush");
        redirect_uris = str "https://app.example/return" ∷ [];
        require_nonce_cookie = true;
      }
      ∷ []);
}

abbrev pub client : Client
client = record {
  id = str "42";
  secret_sha256 = 4 ∷ replicate 31 0;
  redirect_uris = str "https://app.example/return" ∷ [];
  require_nonce_cookie = true;
}

abbrev pub cfg : Config
cfg = record {
  strava_client_id = str "1001";
  strava_client_secret = new_secret (str "real");
  public_url = str "https://proxy.example";
  upstream_base_url = str "https://www.strava.com";
  listen_addr = str ":8443";
  admin_addr = str "127.0.0.1:9090";
  tls_cert_file = [];
  tls_key_file = [];
  dev_allow_http = true;
  state_keys = record { kid = str "k1"; key = replicate 32 b'k' } ∷ [];
  state_ttl = pos (900 * second);
  clients = (str "42", client) ∷ [];
}

-- An environment for a query and a form, whose Strava answers every call with 200.
abbrev pub env : Values → Values → Env
env query form = record {
  prim = toy;
  state_codec = state_codec;
  code_codec = code_codec;
  lib = lib;
  join_path = λ u path. record u { path = path };
  url_string = λ u. u.host ++ u.path ++ b'?' ∷ u.raw_query;
  parse_query = λ s. if is_empty s then [] else query;
  encode = λ m. [];
  parse_form = λ r. some form;
  accepts_url = λ s. true;
  ring = [];
  now = pos (1030 * second);
  random = some (replicate 32 5);
  call = λ req. ok (record { status = 200; header = []; body = str "{}"; body_failed = false });
}

abbrev pub request : Request
request = record {
  method = str "GET";
  path = str "/oauth/authorize";
  raw_query = str "q";
  header = [];
  cookies = [];
  body = [];
  content_length = pos 0;
}

abbrev pub start : Exchange
start = record {
  response = fresh;
  metrics = record { oauth_callbacks = []; token_exchanges = []; upstream_errors = [] };
  log = [];
  holder = some [];
  sent = [];
}

pub start-IsUnsent : IsUnsent start
unfolding get
start-IsUnsent = record { status = refl; location = refl }
