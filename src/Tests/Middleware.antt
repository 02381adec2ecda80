-- ===== src/Tests/Middleware.antt =====
-- The middleware and the reverse proxy on a request.
use strava_auth_proxy.Prelude.{
  arith, ◌≡◌, ◌≤◌, ◌⊎◌, ◌+◌, refl, true, false, some, none, [], ◌∷◌, All, leb, length,
  if◌then◌else◌, err,
}
use strava_auth_proxy.Go.Text.{has_prefix, str, contains_str}
use strava_auth_proxy.Prelude.Int.{pos}
use strava_auth_proxy.Go.Http.{Request, CallError, Outbound}
use strava_auth_proxy.Exchange.{warn, info}
use strava_auth_proxy.Httpmid.{
  Served, new_wire, call, publish, write_header, write, flush, access_log, safe_path,
  max_logged_path_len,
}
use strava_auth_proxy.Httpmid.Paths.{IsPlain, safe_path-IsPlain}
use strava_auth_proxy.Httpmid.Recording.{run_wire, status_of}
use strava_auth_proxy.Httpmid.Logging.{
  access_log-wire, access_log_accurate, access_log_redacts, calls_of, number_of,
}
use strava_auth_proxy.Oauth.{Env, relay}
use strava_auth_proxy.Upstream.{ProxyRequest, error_handler, is_canceled}
use strava_auth_proxy.Upstream.Laws.{error_handler-relay}
use strava_auth_proxy.Tests.Setup.{request, site, env, start}

-- A handler that notes the client and answers in two writes.
abbrev served : Request → Served
served r = record {
  pattern = str "GET /oauth/authorize";
  elapsed = pos 12;
  actions =
      publish (str "42")
      ∷ call (write_header 502)
      ∷ call (write 3)
      ∷ call flush
      ∷ call (write 4)
      ∷ [];
}

safe_path-IsPlain_example :
    All IsPlain (safe_path request)
    × (length (safe_path request) ≤ max_logged_path_len + 3)
    × (All IsPlain request.path
        → length request.path ≤ max_logged_path_len
        → safe_path request ≡ request.path)
safe_path-IsPlain_example = safe_path-IsPlain request

access_log-wire_example :
    (access_log served request new_wire).1 ≡ run_wire (calls_of (served request).actions) new_wire
access_log-wire_example = access_log-wire served request new_wire

access_log_accurate_example :
    let (entry, w) = access_log served request new_wire in
    (number_of (str "status") entry.attrs ≡ some (status_of w))
    × (number_of (str "bytes") entry.attrs ≡ some w.bytes)
    × (entry.level ≡ (if leb 500 (status_of w) then warn else info))
access_log_accurate_example = access_log_accurate served request (λ e. omega (arith, e), (refl, tt))

access_log_redacts_example :
    (access_log served request new_wire).0
    ≡ (access_log served (record request { raw_query = str "code=s3cret" }) new_wire).0
access_log_redacts_example =
    access_log_redacts served request (record request { raw_query = str "code=s3cret" }) new_wire
      refl refl refl refl

abbrev outgoing : ProxyRequest
outgoing = record {
  url = site;
  host = str "proxy.example";
  header =
      (str "Authorization", str "Bearer t" ∷ [])
      ∷ (str "X-Forwarded-For", str "10.0.0.1" ∷ [])
      ∷ [];
}

abbrev expired : CallError
expired = record {
  deadline_exceeded = true;
  canceled = false;
  net_timeout = none;
  url_error = none;
  message = str "deadline";
}

abbrev late : Env
late = record (env [] []) { call = λ req. err expired }

abbrev sent : Outbound
sent = record {
  method = str "GET";
  url = str "https://www.strava.com/api/v3/athlete";
  header = [];
  body = [];
  content_length = pos 0;
}

error_handler-relay_example :
    let p = error_handler request false expired start in
    let o = (relay late sent (str "token") start).1 in
    ((is_canceled false expired ≡ true)
      × (p.response ≡ start.response)
      × (p.metrics ≡ start.metrics))
    ⊎ ((is_canceled false expired ≡ false) × (p.response ≡ o.response) × (p.metrics ≡ o.metrics))
unfolding contains_str has_prefix
error_handler-relay_example =
    error_handler-relay late sent (str "token") request false expired start refl refl
