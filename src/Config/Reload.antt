-- ===== src/Config/Reload.antt =====
-- What `load` returns and what the holder publishes, over any sequence of reloads.
use strava_auth_proxy.Prelude.{
  ◌⊎◌, ok, err, none, some, ◌≡◌, Result-cases, arith, List, [], ◌∷◌, inl, inr,
}
use strava_auth_proxy.Config.{Error, Config, Libraries, System}
use strava_auth_proxy.Config.Validate.{validate}
use strava_auth_proxy.Config.Load.{assemble, load, Holder, reload, new_holder, get}
use strava_auth_proxy.Config.Valid.{IsValid, validate_iff}

-- A configuration that loads obeys every rule.
pub load-IsValid :
    (lib : Libraries) (sys : System) (c : Config) → load lib sys ≡ ok c → IsValid lib c
unfolding load
load-IsValid lib sys c h = elim (Result-cases (assemble lib sys)) [
  | inl (e, bad) ↦ absurd (ground arith)
  | inr (d, built) ↦ elim (Result-cases (validate lib d)) [
    | inl (e, bad) ↦ absurd (ground arith)
    | inr (_, good) ↦ let same : d ≡ c = ground arith in (validate_iff lib c).0 (rw same at good)
  ]
]

-- The holder after reloads, each with the environment and files that it finds.
unfoldable pub reload_all : Libraries → Holder → List System → Holder
reload_all lib h [] = h
reload_all lib h (sys ∷ later) = reload_all lib (reload lib sys h).0 later

reload-IsValid :
    (lib : Libraries) (sys : System) (h : Holder)
    → IsValid lib (get h)
    → IsValid lib (get (reload lib sys h).0)
unfolding reload
reload-IsValid lib sys h v = elim (Result-cases (load lib sys)) [
  | inl (e, failed) ↦ rw failed v
  | inr (c, loaded) ↦ rw loaded (load-IsValid lib sys c loaded)
]

-- From a valid configuration, whatever the environment and the files hold at each reload, the
-- published configuration is valid.
pub reload_all-IsValid :
    (lib : Libraries) (h : Holder) (systems : List System)
    → IsValid lib (get h)
    → IsValid lib (get (reload_all lib h systems))
unfolding reload_all
reload_all-IsValid lib h [] v = v
reload_all-IsValid lib h (sys ∷ later) v =
    reload_all-IsValid lib (reload lib sys h).0 later (reload-IsValid lib sys h v)

-- A reload reports an error exactly when loading fails, and then publishes what it published
-- before; when loading succeeds it publishes what was loaded.
pub reload_outcome :
    (lib : Libraries) (sys : System) (h : Holder)
    → ((e : Error) × (load lib sys ≡ err e) × (reload lib sys h ≡ (h, some e)))
      ⊎ ((c : Config) × (load lib sys ≡ ok c) × (reload lib sys h ≡ (new_holder c, none)))
unfolding reload
reload_outcome lib sys h = elim (Result-cases (load lib sys)) [
  | inl (e, failed) ↦ inl (e, failed, rw failed)
  | inr (c, loaded) ↦ inr (c, loaded, rw loaded)
]
