-- ===== src/Httpmid.antt =====
-- internal/httpmid/mid.go: the hardening headers, the recorder and the access log. A handler is the
-- sequence of what it does: its calls on the writer it was given, and the client ids it publishes.
pub mod Paths
pub mod Recording
pub mod Logging
use strava_auth_proxy.Prelude.{
  ℕ, ◌+◌, Bool, true, false, not, ◌&&◌, ◌||◌, Option, none, some, List, [], ◌∷◌, ◌++◌, leb, ltb,
  eqb, length, take, map, is_empty, if◌then◌else◌,
}
use strava_auth_proxy.Go.Text.{Str, str}
use strava_auth_proxy.Go.Time.{Duration}
use strava_auth_proxy.Go.Http.{Request, Response, set_header}
use strava_auth_proxy.Exchange.{Level, info, warn, Attr, text, number, duration, Entry, held}

abbrev pub header_referrer_policy : Str
header_referrer_policy = str "Referrer-Policy"

abbrev pub referrer_policy_value : Str
referrer_policy_value = str "no-referrer"

abbrev pub header_cache_control : Str
header_cache_control = str "Cache-Control"

abbrev pub cache_control_value : Str
cache_control_value = str "no-store"

abbrev pub redacted_query : Str
redacted_query = str "?<redacted>"

abbrev pub max_logged_path_len : ℕ
max_logged_path_len = 256

-- What SecurityHeaders does to a response before the next handler runs.
unfoldable pub security_headers : Response → Response
security_headers w =
    set_header header_cache_control cache_control_value
      (set_header header_referrer_policy referrer_policy_value w)

-- The UTF-8 bytes of the ellipsis.
abbrev pub ellipsis : Str
ellipsis = 0xe2 ∷ 0x80 ∷ 0xa6 ∷ []

unfoldable pub clean_byte : ℕ → ℕ
clean_byte c = if ltb c 0x20 || eqb c 0x7f then b'?' else c

unfoldable pub shortened : Str → Str
shortened p =
    if ltb max_logged_path_len (length p) then take max_logged_path_len p ++ ellipsis else p

unfoldable pub safe_path : Request → Str
unfolding clean_byte shortened
safe_path r = map clean_byte (shortened r.path)

-- One use of a writer. A write tells how many of its bytes were accepted.
pub data Call : Type 0 where
  write_header : ℕ → Call
  write : ℕ → Call
  flush : Call

-- The server's own writer, as far as a recorder observes it: the status that was sent, the body's
-- bytes that were accepted, and the informational responses. The first header is final, unless it
-- is informational, and 101 is not; a write or a flush before it sends status 200.
pub record Wire : Type 0 where
  pub status : Option ℕ
  pub bytes : ℕ
  pub informational : List ℕ

abbrev pub new_wire : Wire
new_wire = record { status = none; bytes = 0; informational = [] }

abbrev sent_status : Option ℕ → ℕ → Option ℕ
sent_status none code = some code
sent_status (some old) code = some old

abbrev pub is_informational : ℕ → Bool
is_informational code = leb 100 code && ltb code 200

abbrev informed : Option ℕ → ℕ → List ℕ → List ℕ
informed none code codes = codes ++ code ∷ []
informed (some old) code codes = codes

unfoldable pub wire_step : Call → Wire → Wire
wire_step (write_header code) w =
    if is_informational code && not (eqb code 101)
    then record w { informational = informed w.status code w.informational }
    else record w { status = sent_status w.status code }
wire_step (write n) w = record w { status = sent_status w.status 200; bytes = w.bytes + n }
wire_step flush w = record w { status = sent_status w.status 200 }

pub record Recorder : Type 0 where
  pub wire : Wire
  pub status : ℕ
  pub bytes : ℕ
  pub wrote_header : Bool

abbrev pub new_recorder : Wire → Recorder
new_recorder w = record { wire = w; status = 200; bytes = 0; wrote_header = false }

-- The recorder's methods WriteHeader, Write and Flush.
unfoldable pub recorder_step : Call → Recorder → Recorder
unfolding wire_step
recorder_step (write_header code) rec =
    let forwarded = record rec { wire = wire_step (write_header code) rec.wire } in
    if is_informational code || rec.wrote_header
    then forwarded
    else record forwarded { status = code; wrote_header = true }
recorder_step (write n) rec = record rec {
  wire = wire_step (write n) rec.wire;
  wrote_header = true;
  bytes = rec.bytes + n;
}
recorder_step flush rec = record rec { wire = wire_step flush rec.wire }

-- What a handler does, step by step.
pub data Action : Type 0 where
  call : Call → Action
  publish : Str → Action

-- The recorder and the cell for the client id.
pub record Observed : Type 0 where
  pub recorder : Recorder
  pub client_id : Str

-- SetClientID, on a request that passed through the access log.
abbrev pub published : Str → Str → Str
published id old = if is_empty id then old else id

unfoldable pub observe : List Action → Observed → Observed
unfolding recorder_step
observe [] o = o
observe (call c ∷ actions) o = observe actions (record o { recorder = recorder_step c o.recorder })
observe (publish id ∷ actions) o =
    observe actions (record o { client_id = published id o.client_id })

-- What the multiplexer and the clock add to a request.
pub record Served : Type 0 where
  pub pattern : Str
  pub elapsed : Duration
  pub actions : List Action

abbrev query_attrs : Str → List Attr
query_attrs raw_query = if is_empty raw_query then [] else text (str "query") redacted_query ∷ []

abbrev client_attrs : Str → List Attr
client_attrs id = if is_empty id then [] else text (str "client_id") id ∷ []

-- The record of a request, from what was observed of it.
unfoldable pub log_record : Request → Served → Observed → Entry
unfolding safe_path
log_record r served o = record {
  level = if leb 500 o.recorder.status then warn else info;
  message = str "http request";
  attrs =
      (text (str "method") r.method
        ∷ text (str "pattern") served.pattern
        ∷ text (str "path") (safe_path r)
        ∷ number (str "status") o.recorder.status
        ∷ number (str "bytes") o.recorder.bytes
        ∷ duration (str "latency") served.elapsed
        ∷ [])
      ++ query_attrs r.raw_query
      ++ client_attrs o.client_id;
}

-- AccessLog: the record of one request, and what reached the server's writer.
unfoldable pub access_log : (Request → Served) → Request → Wire → Entry × Wire
unfolding observe log_record
access_log next r w =
    let served = next r in
    let o = observe served.actions (record { recorder = new_recorder w; client_id = [] }) in
    (log_record r served o, o.recorder.wire)
