-- ===== src/Config/Load.antt =====
-- `Load`, and the holder of the published configuration.
use mathlib.Core.Path.{subst}
use strava_auth_proxy.Prelude.{
  Result-cases, inl, inr, arith, ◌≡◌, refl, ◌>>=◌, ◌*◌, Bool, true, false, not, Option, none, some,
  [], ◌∷◌, ◌++◌, Result, ok, err, ◌>>◌, is_empty, if◌then◌else◌,
}
use strava_auth_proxy.Prelude.Int.{pos}
use strava_auth_proxy.Go.Text.{Str, str, trim_space, trim_right}
use strava_auth_proxy.Go.Time.{Duration, second}
use strava_auth_proxy.Config.{
  Error, invalid_bool, invalid_state_ttl, no_client_registry, reading, Config, Libraries, System,
  new_secret, mem,
}
use strava_auth_proxy.Config.StateKeys.{parse_state_keys}
use strava_auth_proxy.Config.Clients.{parse_clients}
use strava_auth_proxy.Config.Validate.{validate}

abbrev pub default_upstream_base_url : Str
default_upstream_base_url = str "https://www.strava.com"

abbrev pub default_listen_addr : Str
default_listen_addr = str ":8443"

abbrev pub default_admin_addr : Str
default_admin_addr = str "127.0.0.1:9090"

abbrev pub default_state_ttl : Duration
default_state_ttl = pos (15 * 60 * second)

-- os.Getenv, trimmed.
abbrev env : System → Str → Str
env sys name = trim_space (sys.getenv name)

-- A variable that is trimmed and, if it is empty, left at a default.
abbrev pub env_or : System → Str → Str → Str
env_or sys name default = let v = env sys name in if is_empty v then default else v

pub env_or_file : System → Str → Result Error Str
env_or_file sys name =
    let path = env sys (name ++ str "_FILE") in
    if is_empty path
    then ok (env sys name)
    else elim (sys.read_file path) [ none ↦ err (reading name) | some b ↦ ok (trim_space b) ]

pub load_client_registry : System → Result Error Str
load_client_registry sys =
    let path = env sys (str "PROXY_CLIENTS_FILE") in
    let v = env sys (str "PROXY_CLIENTS") in
    if not (is_empty path)
    then elim (sys.read_file path) [
      | none ↦ err (reading (str "PROXY_CLIENTS_FILE"))
      | some b ↦ ok b
    ]
    else if not (is_empty v)
    then ok v
    else err no_client_registry

-- strconv.ParseBool.
parse_bool : Str → Option Bool
unfolding mem
parse_bool v =
    if mem v (str "1" ∷ str "t" ∷ str "T" ∷ str "TRUE" ∷ str "true" ∷ str "True" ∷ [])
    then some true
    else if mem v (str "0" ∷ str "f" ∷ str "F" ∷ str "FALSE" ∷ str "false" ∷ str "False" ∷ [])
    then some false
    else none

load_dev_allow_http : System → Result Error Bool
load_dev_allow_http sys =
    let v = env sys (str "DEV_ALLOW_HTTP") in
    if is_empty v
    then ok false
    else elim (parse_bool v) [ none ↦ err (invalid_bool v) | some b ↦ ok b ]

load_state_ttl : Libraries → System → Result Error Duration
load_state_ttl lib sys =
    let v = env sys (str "PROXY_STATE_TTL") in
    if is_empty v
    then ok default_state_ttl
    else elim (lib.parse_duration v) [ none ↦ err (invalid_state_ttl v) | some d ↦ ok d ]

-- Everything that `Load` reads, before it is validated.
pub assemble : Libraries → System → Result Error Config
assemble lib sys = do
  secret ← env_or_file sys (str "STRAVA_CLIENT_SECRET")
  public ← env_or_file sys (str "PROXY_PUBLIC_URL")
  dev ← load_dev_allow_http sys
  ttl ← load_state_ttl lib sys
  spec ← env_or_file sys (str "PROXY_STATE_KEYS")
  keys ← parse_state_keys spec
  raw ← load_client_registry sys
  clients ← parse_clients lib raw
  ok (record {
    strava_client_id = env sys (str "STRAVA_CLIENT_ID");
    strava_client_secret = new_secret secret;
    public_url = trim_right public b'/';
    upstream_base_url =
        (let v = env sys (str "UPSTREAM_BASE_URL") in
          if is_empty v then default_upstream_base_url else trim_right v b'/');
    listen_addr = env_or sys (str "LISTEN_ADDR") default_listen_addr;
    admin_addr = env_or sys (str "ADMIN_ADDR") default_admin_addr;
    tls_cert_file = env sys (str "TLS_CERT_FILE");
    tls_key_file = env sys (str "TLS_KEY_FILE");
    dev_allow_http = dev;
    state_keys = keys;
    state_ttl = ttl;
    clients = clients;
  })

abbrev IsAdmin : System → Result Error Config → Type 0
IsAdmin sys (ok c) = c.admin_addr ≡ env_or sys (str "ADMIN_ADDR") default_admin_addr
IsAdmin sys (err e) = Unit

bind-IsAdmin :
    (sys : System) {A : Type 0} (m : Result Error A) (f : A → Result Error Config)
    → ((a : A) → IsAdmin sys (f a))
    → IsAdmin sys (m >>= f)
bind-IsAdmin sys (ok a) f h = h a
bind-IsAdmin sys (err e) f h = tt

assemble-IsAdmin : (lib : Libraries) (sys : System) → IsAdmin sys (assemble lib sys)
unfolding assemble
assemble-IsAdmin lib sys =
    bind-IsAdmin sys (env_or_file sys (str "STRAVA_CLIENT_SECRET")) _ (λ secret.
      bind-IsAdmin sys (env_or_file sys (str "PROXY_PUBLIC_URL")) _ (λ public.
        bind-IsAdmin sys (load_dev_allow_http sys) _ (λ dev.
          bind-IsAdmin sys (load_state_ttl lib sys) _ (λ ttl.
            bind-IsAdmin sys (env_or_file sys (str "PROXY_STATE_KEYS")) _ (λ spec.
              bind-IsAdmin sys (parse_state_keys spec) _ (λ keys.
                bind-IsAdmin sys (load_client_registry sys) _
                  (λ raw. bind-IsAdmin sys (parse_clients lib raw) _ (λ clients. refl))))))))

unfoldable pub load : Libraries → System → Result Error Config
load lib sys = do c ← assemble lib sys; validate lib c; ok c

-- The holder is the snapshot that it publishes; a reload stores a new one only if it loads.
pub record Holder : Type 0 where
  pub published : Config

abbrev pub new_holder : Config → Holder
new_holder c = record { published = c }

abbrev pub get : Holder → Config
get h = h.published

abbrev pub stored : Holder → Result Error Config → Holder × Option Error
stored h (ok c) = (record { published = c }, none)
stored h (err e) = (h, some e)

unfoldable pub reload : Libraries → System → Holder → Holder × Option Error
reload lib sys h = stored h (load lib sys)

pub load-admin_addr :
    (lib : Libraries) (sys : System) (c : Config)
    → load lib sys ≡ ok c
    → c.admin_addr ≡ env_or sys (str "ADMIN_ADDR") default_admin_addr
unfolding load
load-admin_addr lib sys c h = elim (Result-cases (assemble lib sys)) [
  | inl (e, bad) ↦ absurd (ground arith)
  | inr (d, built) ↦ elim (Result-cases (validate lib d)) [
    | inl (e, bad) ↦ absurd (ground arith)
    | inr (_, good) ↦
        let same : d ≡ c = ground arith in
        subst (λ (x : Config). IsAdmin sys (ok x)) same
          (subst (IsAdmin sys) built (assemble-IsAdmin lib sys))
  ]
]
