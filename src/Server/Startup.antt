-- ===== src/Server/Startup.antt =====
-- cmd/strava-auth-proxy/main.go: newApp, which checks the configuration and binds both listeners, and
-- app.close. Binding an address is given; the log line about the keys is left out.
use strava_auth_proxy.Go.Text.{◌==◌, Str}
use strava_auth_proxy.Prelude.{
  ℕ, ◌*◌, Bool, not, ◌&&◌, ◌||◌, Option, none, some, List, [], ◌∷◌, Result, ok, err, is_empty,
  if◌then◌else◌,
}
use strava_auth_proxy.Prelude.Int.{pos}
use strava_auth_proxy.Go.Time.{Duration, second}
use strava_auth_proxy.Go.Url.{Url, is_abs}
use strava_auth_proxy.Config.{Config, Libraries}
use strava_auth_proxy.Upstream.{Client, new_client, version_tls12}
use strava_auth_proxy.Server.{ring_from}

-- Why the server does not start.
pub data Failure : Type 0 where
  no_holder no_configuration plain_http_refused unparsable_upstream empty_ring : Failure
  not_absolute : Str → Failure
  listening listening_admin : Str → Failure

abbrev pub read_header_timeout : Duration
read_header_timeout = pos (10 * second)

abbrev pub idle_timeout : Duration
idle_timeout = pos (120 * second)

abbrev pub admin_write_timeout : Duration
admin_write_timeout = pos (15 * second)

-- The settings of one http.Server; no write timeout is none, and no TLS configuration too.
pub record HttpServer : Type 0 where
  pub read_header_timeout : Duration
  pub idle_timeout : Duration
  pub write_timeout : Option Duration
  pub min_version : Option ℕ

pub record App : Type 0 where
  pub public : HttpServer
  pub public_ln : Str
  pub admin : HttpServer
  pub admin_ln : Str
  pub tls_cert : Str
  pub tls_key : Str
  pub upstream : Url
  pub client : Client

-- The addresses on which the process listens, the last one that was bound in front.
abbrev pub Listeners : Type 0
Listeners = List Str

unfoldable pub close_listener : Str → Listeners → Listeners
close_listener addr [] = []
close_listener addr (a ∷ open_ones) =
    let rest = close_listener addr open_ones in if a == addr then open_ones else a ∷ rest

unfoldable pub has_tls : Config → Bool
has_tls cfg = not (is_empty cfg.tls_cert_file) && not (is_empty cfg.tls_key_file)

unfoldable pub check_listener_security : Config → Result Failure (Unit {0})
unfolding has_tls
check_listener_security cfg =
    if has_tls cfg then ok tt else if cfg.dev_allow_http then ok tt else err plain_http_refused

abbrev public_server : Config → HttpServer
public_server cfg = record {
  read_header_timeout = read_header_timeout;
  idle_timeout = idle_timeout;
  write_timeout = none;
  min_version = if has_tls cfg then some version_tls12 else none;
}

abbrev admin_server : HttpServer
admin_server = record {
  read_header_timeout = read_header_timeout;
  idle_timeout = idle_timeout;
  write_timeout = some admin_write_timeout;
  min_version = none;
}

unfoldable pub app_of : Config → Url → App
app_of cfg base = record {
  public = public_server cfg;
  public_ln = cfg.listen_addr;
  admin = admin_server;
  admin_ln = cfg.admin_addr;
  tls_cert = cfg.tls_cert_file;
  tls_key = cfg.tls_key_file;
  upstream = base;
  client = new_client;
}

-- When the second listener cannot be bound, the first is closed again.
unfoldable pub bind : (Str → Bool) → Config → Url → Listeners → Result Failure App × Listeners
unfolding app_of close_listener
bind listen cfg base net =
    if not (listen cfg.listen_addr)
    then (err (listening cfg.listen_addr), net)
    else let bound = cfg.listen_addr ∷ net in
      if not (listen cfg.admin_addr)
      then (err (listening_admin cfg.admin_addr), close_listener cfg.listen_addr bound)
      else (ok (app_of cfg base), cfg.admin_addr ∷ bound)

unfoldable pub check_base : Config → Option Url → Result Failure Url
check_base cfg none = err unparsable_upstream
check_base cfg (some base) =
    if not (is_abs base) || is_empty base.host
    then err (not_absolute cfg.upstream_base_url)
    else ok base

-- The checks that precede the binding.
unfoldable pub checked : Libraries → Config → Result Failure Url
unfolding check_listener_security check_base ring_from
checked lib cfg = elim (check_listener_security cfg) [
  | err e ↦ err e
  | ok _ ↦ elim (check_base cfg (lib.parse_url cfg.upstream_base_url)) [
    | err e ↦ err e
    | ok base ↦ if is_empty (ring_from (some cfg)) then err empty_ring else ok base
  ]
]

-- The holder, if there is one, publishes a configuration, if it has one.
unfoldable pub new_app :
    Libraries → (Str → Bool) → Option (Option Config) → Listeners → Result Failure App × Listeners
unfolding bind checked
new_app lib listen none net = (err no_holder, net)
new_app lib listen (some none) net = (err no_configuration, net)
new_app lib listen (some (some cfg)) net = elim (checked lib cfg) [
  | err e ↦ (err e, net)
  | ok base ↦ bind listen cfg base net
]

-- app.close, whose effect is that of its first call.
unfoldable pub close : App → Listeners → Listeners
unfolding close_listener
close a net = close_listener a.admin_ln (close_listener a.public_ln net)
