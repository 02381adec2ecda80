-- ===== src/Server/Healthcheck.antt =====
-- cmd/strava-auth-proxy/healthcheck.go: the probe of the admin listener. Splitting an address and the
-- call itself are given.
use strava_auth_proxy.Prelude.{
  ℕ, Bool, ◌||◌, Option, none, some, [], ◌∷◌, ◌++◌, Result, ok, err, eqb, is_empty, if◌then◌else◌,
}
use strava_auth_proxy.Prelude.Int.{pos}
use strava_auth_proxy.Go.Text.{Str, str, ◌==◌, contains, trim_space}
use strava_auth_proxy.Go.Time.{Duration}
use strava_auth_proxy.Config.{System}
use strava_auth_proxy.Config.Load.{default_admin_addr}

abbrev pub healthcheck_flag : Str
healthcheck_flag = str "-healthcheck"

abbrev pub healthcheck_timeout : Duration
healthcheck_timeout = pos 3_000_000_000

-- Why the probe failed.
pub data Failure : Type 0 where
  not_an_address unreachable : Str → Failure
  answered : Str → ℕ → Failure

-- net.SplitHostPort and a GET with the probe's timeout: its status, if it is answered.
pub record Network : Type 0 where
  pub split_host_port : Str → Option (Str × Str)
  pub get : Str → Option ℕ

-- net.JoinHostPort.
unfoldable pub join_host_port : Str → Str → Str
join_host_port host port =
    if contains host b':' then b'[' ∷ host ++ str "]:" ++ port else host ++ b':' ∷ port

unfoldable pub configured_addr : System → Str
configured_addr sys =
    let addr = trim_space (sys.getenv (str "ADMIN_ADDR")) in
    if is_empty addr then default_admin_addr else addr

unfoldable pub is_wildcard : Str → Bool
is_wildcard host = is_empty host || host == str "0.0.0.0" || host == str "::" || host == str "[::]"

-- The address to dial: loopback for a wildcard.
unfoldable pub dialed : Str → Str × Str → Str
unfolding is_wildcard join_host_port
dialed addr (host, port) = if is_wildcard host then join_host_port (str "127.0.0.1") port else addr

unfoldable pub probe_url : Str → Str
probe_url addr = str "http://" ++ addr ++ str "/healthz"

unfoldable pub judge : Str → Option ℕ → Result Failure Str
judge url none = err (unreachable url)
judge url (some status) =
    if eqb status 200 then ok (str "ok" ++ 10 ∷ []) else err (answered url status)

-- What the probe prints, or its error.
unfoldable pub healthcheck : Network → System → Result Failure Str
unfolding configured_addr dialed probe_url judge
healthcheck net sys =
    let addr = configured_addr sys in
    elim (net.split_host_port addr) [
      | none ↦ err (not_an_address addr)
      | some parts ↦ let url = probe_url (dialed addr parts) in judge url (net.get url)
    ]
