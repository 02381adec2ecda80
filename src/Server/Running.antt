-- ===== src/Server/Running.antt =====
-- What serving comes to, for any order of the signals.
use strava_auth_proxy.Go.Text.{Str}
use mathlib.Core.Path.{subst}
use strava_auth_proxy.Config.Reload.{reload_all-IsValid, reload_all}
use strava_auth_proxy.Server.Loop.{
  after_reload, Signal, done, ended, hup, ServeError, Shutdown, shutdown, ignore_closed, Serving,
  start, turn, serve,
}
use strava_auth_proxy.Exchange.{Entry}
use strava_auth_proxy.Prelude.{ap, ◌≡◌, refl, sym, ◌∙◌, Option, none, some, List, [], ◌∷◌}
use strava_auth_proxy.Config.{Error, Config, Libraries, System}
use strava_auth_proxy.Config.Load.{Holder, reload, new_holder, get}
use strava_auth_proxy.Config.Valid.{IsValid}

-- What the loop returns, read off the signals: the first that is not a reload or the regular end of a
-- listener decides.
pub verdict : Shutdown → List Signal → Option (Option Str)
verdict down [] = none
verdict down (done ∷ signals) = some (shutdown down)
verdict down (ended (ServeError.failed message) ∷ signals) = some (some message)
verdict down (ended ServeError.server_closed ∷ signals) = verdict down signals
verdict down (hup sys ∷ signals) = verdict down signals

-- The reloads that precede it.
pub reloads : List Signal → List System
reloads [] = []
reloads (done ∷ signals) = []
reloads (ended (ServeError.failed message) ∷ signals) = []
reloads (ended ServeError.server_closed ∷ signals) = reloads signals
reloads (hup sys ∷ signals) = sys ∷ reloads signals

module _ (lib : Libraries) (message : Error → Str) (down : Shutdown) where
  after_reload_lem :
      (p : Holder × Option Error) (log : List Entry)
      → ((after_reload lib message down p log).returned ≡ none)
        × ((after_reload lib message down p log).holder ≡ p.0)
  unfolding after_reload
  after_reload_lem (h, some e) log = (refl, refl)
  after_reload_lem (h, none) log = (refl, refl)

  -- A loop that has not returned, after any signals: it has returned what the first signal decides
  -- that is neither a reload nor the regular end of a listener, and the holder went through the
  -- reloads before that signal.
  pub serve-verdict :
      (signals : List Signal) (s : Serving)
      → s.returned ≡ none
      → ((serve lib message down signals s).returned ≡ verdict down signals)
        × ((serve lib message down signals s).holder ≡ reload_all lib s.holder (reloads signals))
  unfolding serve turn verdict reloads reload_all ignore_closed
  serve-verdict [] s h = (h, refl)
  serve-verdict (done ∷ signals) s h = (refl, refl)
  serve-verdict (ended (ServeError.failed m) ∷ signals) s h = (refl, refl)
  serve-verdict (ended ServeError.server_closed ∷ signals) s h = rw h (serve-verdict signals s h)
  serve-verdict (hup sys ∷ signals) s h =
      let p = reload lib sys s.holder in
      let (running, published) = after_reload_lem p s.log in
      let (ends, holds) = serve-verdict signals (after_reload lib message down p s.log) running in
      rw (serve, running) (ends, holds ∙ ap (λ h. reload_all lib h (reloads signals)) published)

  -- Over any signals that the loop receives, a server that starts with a valid configuration has a
  -- valid one published.
  pub serve-IsValid :
      (cfg : Config) (signals : List Signal)
      → IsValid lib cfg
      → IsValid lib (get (serve lib message down signals (start (new_holder cfg))).holder)
  serve-IsValid cfg signals v =
      let s = start (new_holder cfg) in
      subst (λ h. IsValid lib (get h)) (sym (serve-verdict signals s refl).1)
        (reload_all-IsValid lib (new_holder cfg) (reloads signals) v)
