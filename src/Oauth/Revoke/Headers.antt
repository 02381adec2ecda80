-- ===== src/Oauth/Revoke/Headers.antt =====
-- The headers that a revocation carries on to Strava.
use strava_auth_proxy.Prelude.{
  ◌||◌, ◌≡◌, refl, arith, List, [], ◌∷◌, if◌then◌else◌, Bool-cases, inl, inr, is_empty,
}
use strava_auth_proxy.Go.Values.{lookup, Values, get, set, get-set_self, get-set_ne}
use strava_auth_proxy.Go.Text.{Str, str, ◌==◌, eq_iff}
use strava_auth_proxy.Go.Http.{Request}
use strava_auth_proxy.Config.{Config, mem, reveal}
use strava_auth_proxy.Oauth.Revoke.{
  passthrough_headers, copy_headers, copy_request_headers, basic_auth_header, revoke_header,
  deauthorize_header,
}

get-set : (m : Values) (name v k : Str) → get (set m name v) k ≡ (if name == k then v else get m k)
get-set m name v k = elim (Bool-cases (name == k)) [
  | inl e ↦ rw e (rw ((eq_iff name k).0 e) (get-set_self m k v))
  | inr e ↦ rw e (get-set_ne m name v k e)
]

get-copy_headers :
    (names : List Str) (src dst : Values) (k : Str)
    → get (copy_headers names src dst) k
      ≡ (if mem k names then (if is_empty (get src k) then get dst k else get src k) else get dst k)
unfolding copy_headers mem
get-copy_headers [] src dst k = refl
get-copy_headers (name ∷ names) src dst k = ground (
  arith,
  get-copy_headers names src (set dst name (get src name)) k,
  get-copy_headers names src dst k,
  get-set dst name (get src name) k,
  eq_iff name k,
)

get_nil : (k : Str) → get [] k ≡ []
unfolding get lookup
get_nil k = refl

-- By name: the headers of the allowlist as the caller sent them, and no other.
get-copy_request_headers :
    (src : Values) (k : Str)
    → get (copy_request_headers src []) k ≡ (if mem k passthrough_headers then get src k else [])
unfolding copy_request_headers
get-copy_request_headers src k =
    ground (arith, get-copy_headers passthrough_headers src [] k, get_nil k)

pub get-revoke_header :
    (cfg : Config) (r : Request) (k : Str)
    → get (revoke_header cfg r) k ≡ (
        if str "Authorization" == k
        then basic_auth_header cfg.strava_client_id (reveal cfg.strava_client_secret)
        else if mem k passthrough_headers
        then get r.header k
        else [])
unfolding revoke_header
get-revoke_header cfg r k = simp (get-set, get-copy_request_headers)

-- A deauthorization carries the caller's own authorization, the headers of the allowlist as the
-- caller sent them, and no other.
pub get-deauthorize_header :
    (r : Request) (k : Str)
    → get (deauthorize_header r) k
      ≡ (if str "Authorization" == k || mem k passthrough_headers then get r.header k else [])
unfolding deauthorize_header
get-deauthorize_header r k = ground (
  arith,
  get-set (copy_request_headers r.header []) (str "Authorization")
      (get r.header (str "Authorization")) k,
  get-copy_request_headers r.header k,
  eq_iff (str "Authorization") k,
)
