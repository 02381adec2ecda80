-- ===== src/Exchange.antt =====
-- The state that the handlers of one request share: the response being written, the counters, the
-- log, the access log's cell for the client id, and the requests sent to Strava.
use strava_auth_proxy.Seal
use strava_auth_proxy.Go.Time.{Duration}
use strava_auth_proxy.Prelude.{ℕ, Option, none, some, List, [], ◌∷◌, ◌++◌, is_empty, if◌then◌else◌}
use strava_auth_proxy.Go.Text.{Str}
use strava_auth_proxy.Go.Http.{Response, Outbound}
use strava_auth_proxy.Metrics.{Metrics, inc}

pub data Level : Type 0 where
  debug info warn error : Level

-- An attribute of a log record: a text, a number, a duration, a list of texts, or an error of the
-- envelope.
pub data Attr : Type 0 where
  text : Str → Str → Attr
  number : Str → ℕ → Attr
  duration : Str → Duration → Attr
  texts : Str → List Str → Attr
  seal_error : Seal.Error → Attr

pub record Entry : Type 0 where
  pub level : Level
  pub message : Str
  pub attrs : List Attr

-- `holder` is none for a request that did not pass through the access log.
pub record Exchange : Type 0 where
  pub response : Response
  pub metrics : Metrics
  pub log : List Entry
  pub holder : Option Str
  pub sent : List Outbound

abbrev pub respond : (Response → Response) → Exchange → Exchange
respond f w = record w { response = f w.response }

abbrev pub count_callback : Str → Exchange → Exchange
count_callback key w = record w {
  metrics = record w.metrics { oauth_callbacks = inc w.metrics.oauth_callbacks key };
}

abbrev pub count_token : Str → Exchange → Exchange
count_token key w = record w {
  metrics = record w.metrics { token_exchanges = inc w.metrics.token_exchanges key };
}

abbrev pub count_upstream : Str → Exchange → Exchange
count_upstream key w = record w {
  metrics = record w.metrics { upstream_errors = inc w.metrics.upstream_errors key };
}

abbrev pub log_entry : Level → Str → List Attr → Exchange → Exchange
log_entry level message attrs w = record w {
  log = w.log ++ record { level = level; message = message; attrs = attrs } ∷ [];
}

abbrev pub held : Option Str → Str → Option Str
held none id = none
held (some old) id = some id

-- httpmid.SetClientID.
unfoldable pub set_client_id : Str → Exchange → Exchange
set_client_id id w = if is_empty id then w else record w { holder = held w.holder id }
