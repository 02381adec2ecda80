-- ===== src/Server/Loop.antt =====
-- cmd/strava-auth-proxy/main.go: app.serve, shutdown and ignoreClosed. The order in which the signals
-- arrive at the loop is a sequence of steps. The log lines of the two goroutines are left out.
use strava_auth_proxy.Prelude.{Option, none, some, List, [], ◌∷◌, ◌++◌, length}
use strava_auth_proxy.Go.Text.{Str, str}
use strava_auth_proxy.Config.{Error, Config, Libraries, System}
use strava_auth_proxy.Config.Load.{Holder, reload, get}
use strava_auth_proxy.Exchange.{Level, info, error, Attr, text, texts, number, duration, Entry}
use strava_auth_proxy.Server.{ring_from, kids}

-- How a listener's Serve ended: with the sentinel of a closed server, or with an error.
pub data ServeError : Type 0 where
  server_closed : ServeError
  failed : Str → ServeError

unfoldable pub ignore_closed : ServeError → Option Str
ignore_closed server_closed = none
ignore_closed (failed message) = some message

-- What the loop may receive: the end of its context, the end of a listener, and SIGHUP, with the
-- environment and the files that a reload then finds.
pub data Signal : Type 0 where
  done : Signal
  ended : ServeError → Signal
  hup : System → Signal

-- The texts of the two errors of shutdown, in the order of the servers.
pub record Shutdown : Type 0 where
  pub public : Option Str
  pub admin : Option Str

-- errors.Join: the errors that there are, one on a line.
unfoldable pub join_errors : Option Str → Option Str → Option Str
join_errors none e = e
join_errors (some a) none = some a
join_errors (some a) (some b) = some (a ++ 10 ∷ b)

unfoldable pub shutdown : Shutdown → Option Str
unfolding join_errors
shutdown s = join_errors s.public s.admin

-- The loop: the holder and the log; `returned` is what serve returned, once it has.
pub record Serving : Type 0 where
  pub holder : Holder
  pub log : List Entry
  pub returned : Option (Option Str)

abbrev pub start : Holder → Serving
start h = record { holder = h; log = []; returned = none }

entry : Level → Str → List Attr → Entry
entry level message attrs = record { level = level; message = message; attrs = attrs }

reloaded : Config → Entry
unfolding entry
reloaded cfg = entry info (str "config reloaded") (
    number (str "clients") (length cfg.clients)
    ∷ texts (str "kids") (kids (ring_from (some cfg)))
    ∷ duration (str "state_ttl") cfg.state_ttl
    ∷ [])

module _ (lib : Libraries) (message : Error → Str) (down : Shutdown) where
  unfoldable pub after_reload : Holder × Option Error → List Entry → Serving
  unfolding entry reloaded
  after_reload (h, some e) log = record {
    holder = h;
    log =
        log
        ++ entry error (str "config reload failed, keeping previous configuration")
            (text (str "error") (message e) ∷ [])
          ∷ [];
    returned = none;
  }
  after_reload (h, none) log = record {
    holder = h;
    log = log ++ reloaded (get h) ∷ [];
    returned = none;
  }

  -- One turn of the loop.
  unfoldable pub turn : Signal → Serving → Serving
  unfolding shutdown entry after_reload ignore_closed
  turn done s = record s {
    log = s.log ++ entry info (str "shutdown requested") [] ∷ [];
    returned = some (shutdown down);
  }
  turn (ended e) s = elim (ignore_closed e) [
    | some failure ↦ record s { returned = some (some failure) }
    | none ↦ s
  ]
  turn (hup sys) s = after_reload (reload lib sys s.holder) s.log

  -- Serving goes on until a turn returns.
  unfoldable pub serve : List Signal → Serving → Serving
  unfolding turn
  serve [] s = s
  serve (signal ∷ signals) s =
      let next = turn signal s in
      let rest = serve signals next in elim next.returned [ none ↦ rest | some _ ↦ next ]
