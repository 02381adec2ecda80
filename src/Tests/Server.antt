-- ===== src/Tests/Server.antt =====
-- The server: its routes, its start, its loop and its probe.
use strava_auth_proxy.Tests.Setup
use strava_auth_proxy.Prelude.{
  drop, Bool, List, if◌then◌else◌, ◌≡◌, ◌↔◌, ◌⊎◌, ◌||◌, refl, ok, err, true, some, none, [], ◌∷◌,
  ◌++◌,
}
use strava_auth_proxy.Go.Text.{Str, str, ◌==◌, split}
use strava_auth_proxy.Go.Url.{Url}
use strava_auth_proxy.Go.Http.{Request}
use strava_auth_proxy.Config.{Config, Error, System}
use strava_auth_proxy.Config.Load.{new_holder}
use strava_auth_proxy.Config.Reload.{reload_all}
use strava_auth_proxy.Exchange.{Exchange}
use strava_auth_proxy.Server.{
  Route, route, Multiplexer, public_handler, at_token, at_plain_token, same, below,
}
use strava_auth_proxy.Server.Routes.{route_proxied, is_handler, joined, IsBelow, IsTokenPost}
use strava_auth_proxy.Server.Surface.{IsHardened, public_handler-IsHardened}
use strava_auth_proxy.Server.Calls.{Calls, public_handler-Calls}
use strava_auth_proxy.Server.Startup.{Failure, new_app, app_of, has_tls, close}
use strava_auth_proxy.Server.Starting.{new_app-outcome}
use strava_auth_proxy.Server.Loop.{Signal, done, ended, hup, ServeError, Shutdown, serve, start}
use strava_auth_proxy.Server.Running.{verdict, reloads, serve-verdict}
use strava_auth_proxy.Server.Healthcheck.{Network, healthcheck}
use strava_auth_proxy.Server.Probe.{healthcheck_iff, IsAdmin, Asked}

abbrev athlete : List Str
athlete = str "api" ∷ str "v3" ∷ str "athlete" ∷ []

route_proxied_example :
    (route (str "GET") athlete ≡ Route.proxy)
    ↔ (IsBelow athlete × ¬ IsTokenPost (str "GET") athlete)
route_proxied_example = route_proxied (str "GET") athlete

-- A GET to the token endpoint below the API goes to the proxy, a PUT to the plain one nowhere. A POST
-- to the former with an escaped slash, /api/v3/oauth%2Ftoken, is not the token endpoint's.
route_test :
    (route (str "GET") at_token ≡ Route.proxy)
    × (route (str "PUT") at_plain_token ≡ Route.method_not_allowed)
    × (route (str "POST") at_token ≡ Route.token)
    × (route (str "POST") (str "api" ∷ str "v3" ∷ str "oauth/token" ∷ []) ≡ Route.proxy)
unfolding route ◌==◌ same below
route_test = (refl, refl, refl, refl)

abbrev mux : Multiplexer
mux = record {
  segments = λ r. drop 1 (split r.path b'/');
  redirect_slash = λ r w. w;
  refuse_method = λ r w. w;
  refuse_path = λ r w. w;
}

abbrev relayed : Request → Exchange → Exchange
relayed r w = w

public_handler-IsHardened_example :
    IsHardened
      (public_handler (Setup.env [] []) relayed mux Setup.cfg Setup.request Setup.start).response
unfolding route is_handler ◌==◌ split joined same
public_handler-IsHardened_example =
    public_handler-IsHardened (Setup.env [] []) relayed mux Setup.cfg Setup.request Setup.start refl
      refl refl

public_handler-Calls_example :
    Calls
      (Setup.env [] [])
      Setup.cfg
      Setup.request
      Setup.start
      (public_handler (Setup.env [] []) relayed mux Setup.cfg Setup.request Setup.start)
unfolding route is_handler ◌==◌ split same
public_handler-Calls_example =
    public_handler-Calls (Setup.env [] []) relayed mux Setup.cfg Setup.request Setup.start refl

-- Only the public address can be bound.
abbrev half : Str → Bool
half addr = addr == str ":8443"

new_app-outcome_example :
    ((f : Failure) × (new_app Setup.lib half (some (some Setup.cfg)) (str ":22" ∷ [])
        ≡ (err f, str ":22" ∷ [])))
    ⊎ ((cfg : Config) × (base : Url) × (some (some Setup.cfg) ≡ some (some cfg))
        × (new_app Setup.lib half (some (some Setup.cfg)) (str ":22" ∷ [])
            ≡ (ok (app_of cfg base), cfg.admin_addr ∷ cfg.listen_addr ∷ str ":22" ∷ []))
        × ((has_tls cfg || cfg.dev_allow_http) ≡ true)
        × (close (app_of cfg base) (cfg.admin_addr ∷ cfg.listen_addr ∷ str ":22" ∷ [])
            ≡ str ":22" ∷ []))
new_app-outcome_example = new_app-outcome Setup.lib half (some (some Setup.cfg)) (str ":22" ∷ [])

abbrev empty_system : System
empty_system = record { getenv = λ name. []; read_file = λ path. none }

abbrev signals : List Signal
signals = hup empty_system ∷ ended ServeError.server_closed ∷ done ∷ hup empty_system ∷ []

abbrev down : Shutdown
down = record { public = none; admin = some (str "deadline") }

abbrev message : Error → Str
message e = str "error"

serve-verdict_example :
    let last = serve Setup.lib message down signals (start (new_holder Setup.cfg)) in
    (last.returned ≡ verdict down signals)
    × (last.holder ≡ reload_all Setup.lib (new_holder Setup.cfg) (reloads signals))
serve-verdict_example =
    serve-verdict Setup.lib message down signals (start (new_holder Setup.cfg)) refl

abbrev net : Network
net = record {
  split_host_port = λ addr. some ([], str "9090");
  get = λ url. if url == str "http://127.0.0.1:9090/healthz" then some 200 else none;
}

healthcheck_iff_example : (healthcheck net empty_system ≡ ok (str "ok" ++ 10 ∷ [])) ↔ (
    (addr : Str) × (host : Str) × (port : Str) × (url : Str) × IsAdmin empty_system addr
    × (net.split_host_port addr ≡ some (host, port))
    × Asked addr host port url
    × (net.get url ≡ some 200))
healthcheck_iff_example = healthcheck_iff net empty_system
