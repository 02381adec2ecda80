-- ===== src/Fakestrava.antt =====
-- internal/fakestrava: the simulated Strava. This file has fakestrava.go, its state and its knobs;
-- Grants has oauth.go, Api has api.go, and Serve dispatches as the multiplexer does. The mutex makes
-- each operation one step.
pub mod Grants
pub mod Api
pub mod Serve
pub mod Names
pub mod Marks
pub mod Book
pub mod Invariant
pub mod Induction
pub mod Runs
pub mod Refinement
pub mod Exchange
pub mod Behind
use strava_auth_proxy.Prelude.{
  ℕ, ◌+◌, ◌*◌, Bool, true, false, Option, none, some, List, [], ◌∷◌, ◌++◌, ltb, is_empty,
  if◌then◌else◌,
}
use strava_auth_proxy.Prelude.Int.{ℤ, pos, ltb_ℤ}
use strava_auth_proxy.Go.Text.{Str, str, ◌==◌, itoa}
use strava_auth_proxy.Go.Time.{Duration, Instant}
use strava_auth_proxy.Go.Url.{Url}
use strava_auth_proxy.Go.Values.{Values, get}
use strava_auth_proxy.Go.Http.{Request, Response, set_header, write_header, write_body}
use strava_auth_proxy.Fault

abbrev pub access_token_ttl : ℕ
access_token_ttl = 21600

abbrev pub default_stream_chunks : ℕ
default_stream_chunks = 3

abbrev pub default_stream_delay : Duration
default_stream_delay = pos 5_000_000

pub record RecordedRequest : Type 0 where
  pub method : Str
  pub path : Str
  pub raw_query : Str
  pub header : Values
  pub form : Values
  pub body : Str

-- A set of names, each with a mark: for a code, that it was used; for a token, that it is valid.
abbrev pub Marks : Type 0
Marks = List (Str × Bool)

unfoldable pub mark_of : Marks → Str → Option Bool
mark_of [] name = none
mark_of ((k, b) ∷ marks) name = if k == name then some b else mark_of marks name

unfoldable pub set_mark : Str → Bool → Marks → Marks
set_mark name b [] = (name, b) ∷ []
set_mark name b ((k, c) ∷ marks) =
    if k == name then (name, b) ∷ marks else (k, c) ∷ set_mark name b marks

unfoldable pub delete_mark : Str → Marks → Marks
delete_mark name [] = []
delete_mark name ((k, c) ∷ marks) =
    let rest = delete_mark name marks in if k == name then rest else (k, c) ∷ rest

pub record Server : Type 0 where
  pub real_client_id : Str
  pub real_client_secret : Str
  pub granted_scope : Str
  pub authorize_error : Str
  pub rotate_refresh : Bool
  pub hang : Duration
  pub token_requests : ℕ
  pub last_auth_header : Str
  pub last_request_headers : Option Values
  pub requests : List RecordedRequest
  pub athlete : Str
  pub rate_limit_headers : Values
  pub stream_chunks : ℕ
  pub stream_delay : Duration
  pub seq : ℕ
  pub codes : Marks
  pub refresh_tokens : Marks

-- The packages that the handlers call: parsing, printing, JSON and gzip.
pub record Libraries : Type 0 where
  pub parse_query : Str → Values
  pub parse_url : Str → Option Url
  pub url_string : Url → Str
  pub encode : Values → Str
  pub form : Request → Values
  pub token_json :
      (token_type refresh_token access_token : Str) (expires_at : ℤ) (expires_in : ℕ)
      (athlete : Str)
      → Option Str
  pub deauthorize_json : Str → Option Str
  pub echo_json : Request → Values → Option Str
  pub gzip : Str → Option Str

abbrev pub default_rate_limit_headers : Values
default_rate_limit_headers =
    (str "X-RateLimit-Limit", str "600,30000" ∷ [])
    ∷ (str "X-RateLimit-Usage", str "314,27536" ∷ [])
    ∷ (str "X-ReadRateLimit-Limit", str "300,15000" ∷ [])
    ∷ (str "X-ReadRateLimit-Usage", str "50,100" ∷ [])
    ∷ []

-- New, with the text of the default athlete.
unfoldable pub new : Str → Str → Str → Server
new default_athlete id secret = record {
  real_client_id = id;
  real_client_secret = secret;
  granted_scope = [];
  authorize_error = [];
  rotate_refresh = false;
  hang = pos 0;
  token_requests = 0;
  last_auth_header = [];
  last_request_headers = none;
  requests = [];
  athlete = default_athlete;
  rate_limit_headers = default_rate_limit_headers;
  stream_chunks = default_stream_chunks;
  stream_delay = default_stream_delay;
  seq = 0;
  codes = [];
  refresh_tokens = [];
}

-- The knobs of the simulation.
pub data Knob : Type 0 where
  granted_scope authorize_error athlete : Str → Knob
  rotate_refresh : Bool → Knob
  hang : Duration → Knob
  rate_limit_headers : Option Values → Knob
  stream : ℤ → Duration → Knob
  reset : Knob

abbrev chunks_or : ℤ → ℕ → ℕ
chunks_or (pos n) old = if ltb 0 n then n else old
chunks_or _ old = old

abbrev delay_or : Duration → Duration → Duration
delay_or d old = if ltb_ℤ d (pos 0) then old else d

-- The methods SetGrantedScope to SetStream, and Reset.
unfoldable pub turn : Str → Knob → Server → Server
turn default_athlete (granted_scope scope) s = record s { granted_scope = scope }
turn default_athlete (authorize_error value) s = record s { authorize_error = value }
turn default_athlete (rotate_refresh rotate) s = record s { rotate_refresh = rotate }
turn default_athlete (hang d) s = record s { hang = d }
turn default_athlete (athlete raw) s = record s {
  athlete = if is_empty raw then default_athlete else raw;
}
turn default_athlete (rate_limit_headers none) s = record s {
  rate_limit_headers = default_rate_limit_headers;
}
turn default_athlete (rate_limit_headers (some h)) s = record s { rate_limit_headers = h }
turn default_athlete (stream chunks delay) s = record s {
  stream_chunks = chunks_or chunks s.stream_chunks;
  stream_delay = delay_or delay s.stream_delay;
}
turn default_athlete reset s = record s {
  requests = [];
  token_requests = 0;
  last_auth_header = [];
  last_request_headers = none;
}

-- LastRequest and RequestsTo.
unfoldable pub last_request : List RecordedRequest → Option RecordedRequest
last_request [] = none
last_request (r ∷ []) = some r
last_request (r ∷ s ∷ requests) = last_request (s ∷ requests)

unfoldable pub requests_to : Str → List RecordedRequest → List RecordedRequest
requests_to path [] = []
requests_to path (r ∷ requests) =
    let rest = requests_to path requests in if r.path == path then r ∷ rest else rest

-- What `record` keeps of a request before its handler runs.
unfoldable pub recorded : Libraries → Request → RecordedRequest
recorded lib r = record {
  method = r.method;
  path = r.path;
  raw_query = r.raw_query;
  header = r.header;
  form = lib.form r;
  body = r.body;
}

unfoldable pub record_request : Libraries → Request → Server → Server
unfolding recorded
record_request lib r s =
    let auth = get r.header (str "Authorization") in
    record s {
      requests = s.requests ++ recorded lib r ∷ [];
      last_request_headers = some r.header;
      last_auth_header = if is_empty auth then s.last_auth_header else auth;
    }

-- http.Error.
abbrev pub http_error : Str → Response → Response
http_error message w = write_body (message ++ 10 ∷ []) (
    write_header 500 (
      set_header (str "X-Content-Type-Options") (str "nosniff")
        (set_header (str "Content-Type") (str "text/plain; charset=utf-8") w)))

-- writeJSON, of what json.Marshal gives.
unfoldable pub write_json : ℕ → Option Str → Response → Response
write_json status none w = http_error (str "fakestrava: marshal failed") w
write_json status (some body) w = Fault.write_response Fault.content_type_json status body w

abbrev pub fault_error : Str → Str → Str → Fault.Error
fault_error resource field code = record { resource = resource; field = field; code = code }

-- writeFault. Its fault has the fields and the JSON of package fault's.
unfoldable pub write_fault : ℕ → Str → List Fault.Error → Response → Response
unfolding write_json
write_fault status message errors w =
    write_json status (some (Fault.marshal (record { message = message; errors = errors }))) w

abbrev pub invalid : Str → Str → List Fault.Error
invalid resource field = fault_error resource field (str "invalid") ∷ []
