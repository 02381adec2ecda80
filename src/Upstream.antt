-- ===== src/Upstream.antt =====
-- internal/upstream: the reverse proxy's rewriting and error handling (proxy.go), and the settings
-- of the transport and the client (transport.go). The reverse proxy itself is package httputil.
pub mod Laws
use strava_auth_proxy.Prelude.{
  length, ◌&&◌, ℕ, ◌*◌, Bool, true, false, not, ◌||◌, Option, none, some, List, [], ◌∷◌, ◌++◌,
  is_empty, if◌then◌else◌,
}
use strava_auth_proxy.Prelude.Int.{pos}
use strava_auth_proxy.Go.Text.{Str, str, trim_right}
use strava_auth_proxy.Go.Time.{Duration, second}
use strava_auth_proxy.Go.Url.{Url}
use strava_auth_proxy.Go.Values.{Values, keep}
use strava_auth_proxy.Go.Http.{Request, CallError}
use strava_auth_proxy.Config.{mem}
use strava_auth_proxy.Fault.{write_upstream_timeout, write_upstream_unavailable}
use strava_auth_proxy.Exchange.{
  Exchange, Level, debug, warn, error, Attr, text, respond, count_upstream, log_entry,
}

abbrev pub kind_timeout : Str
kind_timeout = str "timeout"

abbrev pub kind_unavailable : Str
kind_unavailable = str "unavailable"

abbrev pub forwarded_headers : List Str
forwarded_headers =
    str "Forwarded" ∷ str "X-Forwarded-For" ∷ str "X-Forwarded-Host" ∷ str "X-Forwarded-Proto" ∷ []

-- NewProxy's conditions on its base URL; for others it panics.
pub accepts_base : Option Url → Bool
accepts_base none = false
accepts_base (some base) = not (is_empty base.scheme) && not (is_empty base.host)

-- An outbound request of the reverse proxy.
pub record ProxyRequest : Type 0 where
  pub url : Url
  pub host : Str
  pub header : Values

-- Header.Del for each name of a list.
unfoldable pub delete_all : List Str → Values → Values
unfolding mem
delete_all names header = keep (λ k. not (mem k names)) header

-- NewProxy's Rewrite. What SetURL makes of the target and the inbound URL is a parameter.
unfoldable pub rewrite : (Url → Url → Url) → Url → ProxyRequest → ProxyRequest
unfolding delete_all
rewrite set_url target out = record {
  header = delete_all forwarded_headers out.header;
  url = set_url target out.url;
  host = target.host;
}

-- IsTimeout. The nil error is no value of the model.
unfoldable pub is_timeout : CallError → Bool
is_timeout e =
    if e.deadline_exceeded
    then true
    else elim e.net_timeout [ some timed_out ↦ timed_out | none ↦ false ]

-- The error, or the inbound request's context, was cancelled.
unfoldable pub is_canceled : Bool → CallError → Bool
is_canceled request_canceled e = if e.canceled then true else request_canceled

unfoldable pub redact_err : CallError → Str
redact_err e = elim e.url_error [ some (op, cause) ↦ op ++ str ": " ++ cause | none ↦ e.message ]

abbrev about : Request → List Attr
about r = text (str "method") r.method ∷ text (str "path") r.path ∷ []

failure : Str → Str → CallError → Request → Exchange → Exchange
unfolding redact_err
failure kind message e r w =
    log_entry error message (about r ++ text (str "error") (redact_err e) ∷ [])
      (count_upstream kind w)

unfoldable pub error_handler : Request → Bool → CallError → Exchange → Exchange
unfolding failure
error_handler r request_canceled e w =
    if is_canceled request_canceled e
    then log_entry debug (str "upstream request cancelled by client") (about r) w
    else if is_timeout e
    then respond write_upstream_timeout (failure kind_timeout (str "upstream timeout") e r w)
    else respond write_upstream_unavailable
        (failure kind_unavailable (str "upstream unavailable") e r w)

-- logWriter.Write, which forwards a diagnostic and reports that it wrote all of it.
unfoldable pub log_write : Str → Exchange → ℕ × Exchange
log_write p w =
    (length p, log_entry warn (str "reverse proxy") (text (str "msg") (trim_right p 10) ∷ []) w)

-- The settings of NewTransport that bear on what a caller sees; TLS versions are those of package
-- tls, and certificates are verified unless `insecure_skip_verify`, whose default is false.
pub record Transport : Type 0 where
  pub dial_timeout : Duration
  pub keep_alive : Duration
  pub min_version : ℕ
  pub insecure_skip_verify : Bool
  pub force_attempt_http2 : Bool
  pub disable_compression : Bool
  pub max_idle_conns : ℕ
  pub max_idle_conns_per_host : ℕ
  pub idle_conn_timeout : Duration
  pub tls_handshake_timeout : Duration
  pub response_header_timeout : Duration
  pub expect_continue_timeout : Duration

abbrev pub version_tls12 : ℕ
version_tls12 = 0x0303

abbrev pub new_transport : Transport
new_transport = record {
  dial_timeout = pos (5 * second);
  keep_alive = pos (30 * second);
  min_version = version_tls12;
  insecure_skip_verify = false;
  force_attempt_http2 = true;
  disable_compression = true;
  max_idle_conns = 100;
  max_idle_conns_per_host = 32;
  idle_conn_timeout = pos (90 * second);
  tls_handshake_timeout = pos (10 * second);
  response_header_timeout = pos (30 * second);
  expect_continue_timeout = pos (1 * second);
}

-- A client whose redirects are not followed.
pub record Client : Type 0 where
  pub transport : Transport
  pub follows_redirects : Bool
  pub timeout : Duration

abbrev pub new_client : Client
new_client = record {
  transport = new_transport;
  follows_redirects = false;
  timeout = pos (15 * second);
}
