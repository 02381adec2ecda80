-- ===== src/Lib.antt =====
-- strava-auth-proxy, a proxy that lets several virtual OAuth clients share one Strava application.
-- A caller's authorization request is redirected to Strava with the caller's context sealed into the
-- state; Strava's answer comes back to the proxy, which opens the state and redirects to the caller
-- with Strava's code wrapped for that caller; the token and revocation endpoints put
-- the real credentials in place of the caller's.
--
-- Parts and files:
-- - Go and its children: what the source uses of the standard library. Text has byte strings (a list
--   of natural numbers), split, cut, trimming and decimal digits; Base64 and Hex the codings; Time
--   instants and durations in nanoseconds with the saturation of Time.Sub and the wrap-around of
--   time.Unix; Values the maps of url.Values and http.Header; Http requests, responses and cookies,
--   where a header that is set once the header is written has no effect.
-- - Seal: internal/seal/seal.go. seal is Ring.Seal, open_envelope is Ring.Open in its five steps, and
--   check_window the last of them. Children: Laws (the assumptions and the single parts), RoundTrip,
--   Sealed, Authentic, Domains and Window.
-- - Config: internal/config/config.go and secret.go. Validate has Config.validate, StateKeys
--   parseStateKeys, Clients parseClients, Load the function Load and the Holder; Rules and Valid say
--   what the checks decide, Reload follows the holder over any sequence of reloads, and Renderings has
--   the ways to print a secret.
-- - Metrics: internal/metrics/metrics.go. Fault: internal/fault/fault.go, with the JSON and the HTML
--   page byte for byte.
-- - Exchange: the state that the handlers of a request share, passed from step to step: the response
--   being written, the counters, the log, the access log's cell for the client id (SetClientID of
--   internal/httpmid/mid.go), and the requests sent to Strava, in order.
-- - Oauth: internal/oauth/handler.go, with Authorize, Callback, Token and Revoke for the files of
--   these names. A handler is a function from the environment, the published configuration, the
--   request and an Exchange to an Exchange; its early returns are the branches. Relay and Responses
--   have the lemmas on one call of Strava and on pages and redirects; Flow follows a sealed state from
--   one configuration to another. Token.Sent and Revoke.Forwards take the requests to Strava apart.
-- - Httpmid: internal/httpmid/mid.go. A handler behind the access log is the sequence of its calls on
--   the writer (Action); the recorder passes each on to the server's writer (Wire) and notes what the
--   log record tells. Recording compares the two, Logging is about the record, Paths about its path.
-- - Upstream: internal/upstream/proxy.go and transport.go. The reverse proxy of package httputil is
--   left out; its rewrite and its error handler are functions, the latter on an Exchange as the OAuth
--   handlers are, and Laws compares the two.
-- - Server: cmd/strava-auth-proxy/main.go and healthcheck.go. route says which handler the
--   patterns of Handler.Register and of publicHandler choose for the segments of the escaped path,
--   public_handler puts the hardening headers before it; Startup has newApp, Loop the serving,
--   whose signals arrive as a list in any order, and Healthcheck the probe. Routes, Surface,
--   Calls, Starting, Running and Probe have the theorems on them. The server uses Oauth, Httpmid
--   and Config.
-- - Fakestrava: internal/fakestrava, the Strava of the integration tests. Grants has oauth.go, Api
--   api.go and Serve the routes and the recording; a run is a list of events, each a request with what
--   the clock and the random source give, or a knob. Book has the changes that a request can make,
--   Names, Marks, Invariant, Induction and Runs what holds over every run, and Refinement the
--   contract; Behind puts the proxy's token endpoint in front of it.
-- - Tests: the examples, with concrete functions in place of the parameters.
--
-- Parameters: HMAC-SHA256, flate and JSON (Primitives and Codec of Seal), SHA-256, the parsers of
-- URLs, durations and the registry (Libraries of Config), the environment and files (System), and in
-- Env of Oauth the query coding, URL printing, the random source, the clock and Strava itself. What
-- is assumed of them is named: IsFaithful, IsCodec and IsTotal of Seal.Laws, IsDrawn of
-- Fakestrava.Names (the random source gives its bytes), and IsNetwork and IsForm of Fakestrava.Behind
-- (a request arrives as it was sent, and a form is read as it was encoded). JSON replaces invalid
-- UTF-8, so IsCodec allows a coercion of the payload.
--
-- Bounds: numbers are natural numbers and integers; durations saturate at int64 and unix seconds wrap
-- as in package time. All recursion is structural, but for trim_prefixes and decimal of Go.Text, whose
-- fuel is the length of the string and the number itself: each step removes at least one byte, or
-- divides the number by ten.
--
-- A map is a list of entries, so the order in which the source ranges over one is the order of the
-- list; the comparison in constant time is equality. A request's escaped path is clean, as the
-- multiplexer redirects any other first; how it takes a path apart and the answers that it gives
-- by itself are a parameter (Multiplexer). The simulated Strava is modelled for paths without an
-- escaped slash. Not modelled: the copying of package httputil's reverse proxy, connections that
-- are handed over (Hijack, Unwrap), the goroutines of the two listeners beyond the signals that
-- they send, main and run, which call the modelled parts and exit, and the accessors of the
-- simulated Strava that return copies. Its pause before an answer changes no state and is left
-- out.
mod Prelude
pub mod Go
pub mod Seal
pub mod Config
pub mod Metrics
pub mod Fault
pub mod Exchange
pub mod Httpmid
pub mod Upstream
pub mod Fakestrava
pub mod Server
pub mod Oauth
mod Tests
