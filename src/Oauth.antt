-- ===== src/Oauth.antt =====
-- internal/oauth: the handlers of the OAuth endpoints; this file has handler.go, and each child the
-- file of its name. What the handlers call and the repository does not implement is `Env`.
pub mod Responses
pub mod Relay
pub mod Headers
pub mod Flow
pub mod Authorize
pub mod Callback
pub mod Token
pub mod Revoke
use strava_auth_proxy.Prelude.{
  ℕ, Bool, true, false, not, ◌||◌, Option, none, some, List, [], ◌∷◌, ◌++◌, Result, ok, err, map,
  is_empty, if◌then◌else◌,
}
use strava_auth_proxy.Go.Text.{Str, str, contains_str}
use strava_auth_proxy.Go.Time.{Instant}
use strava_auth_proxy.Go.Url.{Url, is_abs}
use strava_auth_proxy.Go.Values.{Values, lookup, get}
use strava_auth_proxy.Go.Http.{
  Request, Response, Outbound, Inbound, CallError, set_header, write_header, write_body,
}
use strava_auth_proxy.Seal.{Primitives, Codec, Ring, StatePayload, CodePayload}
use strava_auth_proxy.Config.{Config, Libraries}
use strava_auth_proxy.Fault
use strava_auth_proxy.Exchange.{
  Exchange, Level, Attr, text, seal_error, respond, count_upstream, log_entry,
}

-- The handler's fields, the libraries it calls, and what the moment of the request decides: the
-- time, what the random source gives, and how Strava answers each call.
pub record Env : Type 0 where
  pub prim : Primitives
  pub state_codec : Codec StatePayload
  pub code_codec : Codec CodePayload
  pub lib : Libraries
  pub join_path : Url → Str → Url
  pub url_string : Url → Str
  pub parse_query : Str → Values
  pub encode : Values → Str
  pub parse_form : Request → Option Values
  pub accepts_url : Str → Bool
  pub ring : Ring
  pub now : Instant
  pub random : Option Str
  pub call : Outbound → Result CallError Inbound

abbrev pub path_authorize : Str
path_authorize = str "/oauth/authorize"

abbrev pub path_mobile_authorize : Str
path_mobile_authorize = str "/oauth/mobile/authorize"

abbrev pub path_token : Str
path_token = str "/api/v3/oauth/token"

abbrev pub path_deauthorize : Str
path_deauthorize = str "/oauth/deauthorize"

abbrev pub path_revoke : Str
path_revoke = str "/oauth/revoke"

abbrev pub content_type_form : Str
content_type_form = str "application/x-www-form-urlencoded"

-- The ring of a configuration, for which a nil one has no key.
unfoldable pub config_ring : Option Config → Ring
config_ring none = []
config_ring (some cfg) = map (λ k. record { kid = k.kid; key = k.key }) cfg.state_keys

-- The handler's ring if it has one, else the live configuration's.
unfoldable pub ring_of : Env → Option Config → Ring
unfolding config_ring
ring_of env cfg = elim env.ring [ [] ↦ config_ring cfg | k ∷ r ↦ k ∷ r ]

-- The upstream URL of a path; none is the error.
unfoldable pub upstream_url : Env → Config → Str → Option Url
upstream_url env cfg path = elim (env.lib.parse_url cfg.upstream_base_url) [
  | none ↦ none
  | some base ↦
      if not (is_abs base) || is_empty base.host then none else some (env.join_path base path)
]

abbrev first_of_values : Option (List Str) → Str × Bool
first_of_values none = ([], false)
first_of_values (some []) = ([], true)
first_of_values (some (v ∷ vs)) = (v, true)

-- The first value of a parameter, and whether it was present at all.
unfoldable pub first_param : Values → Str → Str × Bool
unfolding lookup
first_param v key = first_of_values (lookup v key)

pub internal_error_page : Str
internal_error_page =
    Fault.page_head (str "500 Internal Server Error")
    ++ str "<p>The request could not be processed.</p>"
    ++ 10 ∷ Fault.page_foot

unfoldable pub write_internal : Response → Response
write_internal w =
    write_body internal_error_page
      (write_header 500 (set_header (str "Content-Type") Fault.content_type_html w))

-- A bad request's page, and an internal failure that is logged.
unfoldable pub bad_request : Str → Exchange → Exchange
bad_request detail w = respond (Fault.write_bad_request_page detail) w

unfoldable pub internal : Str → List Attr → Exchange → Exchange
internal message attrs w = respond write_internal (log_entry Level.error message attrs w)

unfoldable pub is_timeout : CallError → Bool
is_timeout e = if e.deadline_exceeded then true else elim e.net_timeout [
  | some timed_out ↦ timed_out
  | none ↦ contains_str e.message (str "Client.Timeout")
]

unfoldable pub redact_url : CallError → Str
redact_url e = elim e.url_error [ some (op, cause) ↦ op ++ str " " ++ cause | none ↦ e.message ]

copy_header : Str → Inbound → Response → Response
copy_header name resp w =
    let v = get resp.header name in if is_empty v then w else set_header name v w

pub relay_response : Inbound → Response → Response
unfolding copy_header
relay_response resp w = write_body resp.body (
    write_header resp.status
      (copy_header (str "Content-Length") resp (copy_header (str "Content-Type") resp w)))

pub relay_failed : CallError → Str → Exchange → Exchange
relay_failed e route w =
    let kind = if is_timeout e then str "timeout" else str "unavailable" in
    let counted = count_upstream kind w in
    let logged =
      log_entry Level.warn (str "upstream call failed")
        (text (str "route") route ∷ text (str "kind") kind ∷ text (str "error") (redact_url e) ∷ [])
        counted in
    if is_timeout e
    then respond Fault.write_upstream_timeout logged
    else respond Fault.write_upstream_unavailable logged

pub relay_ok : Inbound → Str → Exchange → Exchange
unfolding relay_response
relay_ok resp route w =
    let relayed = respond (relay_response resp) w in
    if resp.body_failed
    then log_entry Level.warn (str "relaying upstream body failed") (text (str "route") route ∷ [])
        relayed
    else relayed

-- One call of Strava, relayed; the status is 0 when the call failed.
pub relay : Env → Outbound → Str → Exchange → ℕ × Exchange
relay env req route w =
    let called = record w { sent = w.sent ++ req ∷ [] } in
    elim (env.call req) [
      | err e ↦ (0, relay_failed e route called)
      | ok resp ↦ (resp.status, relay_ok resp route called)
    ]
