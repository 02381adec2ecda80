-- ===== src/Server/Starting.antt =====
-- How newApp ends: with a failure, or with both listeners bound and a public one that is secure.
use strava_auth_proxy.Go.Text.{eq_iff, Str, str, ◌==◌, eq_refl}
use strava_auth_proxy.Config.Rules.{is_empty_iff, IsAbsUrl}
use strava_auth_proxy.Server.Startup.{
  app_of, Failure, Listeners, new_app, checked, check_listener_security, has_tls, check_base, bind,
  close_listener, close,
}
use strava_auth_proxy.Config.Reload.{load-IsValid}
use strava_auth_proxy.Prelude.{
  Bool, true, false, ◌||◌, ◌≡◌, ◌≢◌, refl, sym, ◌⊎◌, inl, inr, Option, none, some, List, [], ◌∷◌,
  ok, err, Result-cases, Bool-cases, arith, is_empty, map,
}
use strava_auth_proxy.Go.Url.{Url}
use strava_auth_proxy.Config.{Config, Libraries, System}
use strava_auth_proxy.Config.Load.{load}
use strava_auth_proxy.Config.Valid.{IsValid}
use strava_auth_proxy.Server.{ring_from}

close_self : (addr : Str) (net : Listeners) → close_listener addr (addr ∷ net) ≡ net
unfolding close_listener
close_self addr net = rw (eq_refl addr) refl

-- How a start goes for a base URL that was accepted.
bind-cases :
    (listen : Str → Bool) (cfg : Config) (base : Url) (net : Listeners)
    → ((f : Failure) × (bind listen cfg base net ≡ (err f, net)))
      ⊎ (bind listen cfg base net ≡ (ok (app_of cfg base), cfg.admin_addr ∷ cfg.listen_addr ∷ net))
unfolding bind
bind-cases listen cfg base net = elim (Bool-cases (listen cfg.listen_addr)) [
  | inr e ↦ inl (Failure.listening cfg.listen_addr, rw e refl)
  | inl e ↦ elim (Bool-cases (listen cfg.admin_addr)) [
    | inr d ↦
        inl (Failure.listening_admin cfg.admin_addr, rw (e, d, close_self cfg.listen_addr net) refl)
    | inl d ↦ inr (rw (e, d) refl)
  ]
]

checked_secure :
    (lib : Libraries) (cfg : Config) (base : Url)
    → checked lib cfg ≡ ok base
    → (has_tls cfg || cfg.dev_allow_http) ≡ true
unfolding checked check_listener_security
checked_secure lib cfg base h = ground arith

close_app :
    (cfg : Config) (base : Url) (net : Listeners)
    → close (app_of cfg base) (cfg.admin_addr ∷ cfg.listen_addr ∷ net) ≡ net
unfolding close app_of
close_app cfg base net = elim (Bool-cases (cfg.admin_addr == cfg.listen_addr)) [
  | inl e ↦
      let back =
        (eq_iff cfg.listen_addr cfg.admin_addr).1
          (sym ((eq_iff cfg.admin_addr cfg.listen_addr).0 e)) in
      rw (close, close_listener, e, back) refl
  | inr e ↦
      rw (close, close_listener, e, eq_refl cfg.listen_addr) (rw (eq_refl cfg.admin_addr) refl)
]

-- However the holder stands and whatever can be bound, newApp either fails and leaves the listeners
-- of the process as they were, or it binds the two addresses of the published configuration, which
-- serves TLS or allows plain HTTP; closing that app releases exactly these two.
pub new_app-outcome :
    (lib : Libraries) (listen : Str → Bool) (holder : Option (Option Config)) (net : Listeners)
    → ((f : Failure) × (new_app lib listen holder net ≡ (err f, net)))
      ⊎ ((cfg : Config) × (base : Url) × (holder ≡ some (some cfg))
          × (new_app lib listen holder net
              ≡ (ok (app_of cfg base), cfg.admin_addr ∷ cfg.listen_addr ∷ net))
          × ((has_tls cfg || cfg.dev_allow_http) ≡ true)
          × (close (app_of cfg base) (cfg.admin_addr ∷ cfg.listen_addr ∷ net) ≡ net))
unfolding new_app
new_app-outcome lib listen none net = inl (Failure.no_holder, refl)
new_app-outcome lib listen (some none) net = inl (Failure.no_configuration, refl)
new_app-outcome lib listen (some (some cfg)) net = elim (Result-cases (checked lib cfg)) [
  | inl (f, e) ↦ inl (f, rw (new_app, e) refl)
  | inr (base, e) ↦ elim (bind-cases listen cfg base net) [
    | inl (f, d) ↦ inl (f, rw (new_app, e) d)
    | inr d ↦
        inr (
          cfg,
          base,
          refl,
          rw (new_app, e) d,
          checked_secure lib cfg base e,
          close_app cfg base net,
        )
  ]
]

IsValid-secure :
    (lib : Libraries) (cfg : Config) → IsValid lib cfg → check_listener_security cfg ≡ ok tt
unfolding check_listener_security has_tls
IsValid-secure lib cfg v = elim v.tls [
  | inl dev ↦ ground arith
  | inr (cert, key) ↦
      rw ((is_empty_iff cfg.tls_cert_file).1 cert, (is_empty_iff cfg.tls_key_file).1 key) refl
]

filled_scheme :
    (u : Url) → (u.scheme ≡ str "http") ⊎ (u.scheme ≡ str "https") → is_empty u.scheme ≡ false
filled_scheme u (inl e) = rw e refl
filled_scheme u (inr e) = rw e refl

upstream_checked :
    (lib : Libraries) (cfg : Config)
    → (v : IsAbsUrl lib cfg.upstream_base_url)
    → check_base cfg (lib.parse_url cfg.upstream_base_url) ≡ ok v.url
unfolding check_base
upstream_checked lib cfg v =
    rw (v.parsed, (is_empty_iff v.url.host).1 v.host, filled_scheme v.url v.scheme) refl

filled_map : {A B : Type 0} (f : A → B) (xs : List A) → xs ≢ [] → is_empty (map f xs) ≡ false
filled_map f [] n = absurd (n refl)
filled_map f (x ∷ xs) n = refl

ring_filled : (cfg : Config) → cfg.state_keys ≢ [] → is_empty (ring_from (some cfg)) ≡ false
unfolding ring_from
ring_filled cfg n = filled_map _ cfg.state_keys n

-- The checks accept every valid configuration.
checked-IsValid :
    (lib : Libraries) (cfg : Config) → IsValid lib cfg → (base : Url) × (checked lib cfg ≡ ok base)
unfolding checked
checked-IsValid lib cfg v = (
  v.upstream.url,
  rw
      (
        checked,
        IsValid-secure lib cfg v,
        upstream_checked lib cfg v.upstream,
        ring_filled cfg v.some_key,
      )
      refl,
)

-- A configuration that loads, with both of its addresses free, starts: newApp binds them and returns
-- the app.
pub new_app-load :
    (lib : Libraries) (sys : System) (cfg : Config) (listen : Str → Bool) (net : Listeners)
    → load lib sys ≡ ok cfg
    → listen cfg.listen_addr ≡ true
    → listen cfg.admin_addr ≡ true
    → (base : Url) × (new_app lib listen (some (some cfg)) net
        ≡ (ok (app_of cfg base), cfg.admin_addr ∷ cfg.listen_addr ∷ net))
unfolding new_app bind
new_app-load lib sys cfg listen net h free free' =
    let (base, e) = checked-IsValid lib cfg (load-IsValid lib sys cfg h) in
    (base, rw (new_app, e, bind, free, free') refl)
