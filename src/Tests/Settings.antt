-- ===== src/Tests/Settings.antt =====
-- A configuration, its reloads, and the counters and faults.
use strava_auth_proxy.Fault
use strava_auth_proxy.Config.Load
use strava_auth_proxy.Prelude.{
  Bool, ◌+◌, ◌≡◌, ◌↔◌, refl, arith, none, some, [], ◌∷◌, ok, if◌then◌else◌, is_empty, inl, inr,
  length,
}
use strava_auth_proxy.Go.Text.{Str, str, itoa, ◌==◌, contains, trim_space}
use strava_auth_proxy.Go.Values.{get}
use strava_auth_proxy.Go.Http.{fresh}
use strava_auth_proxy.Metrics.{count, inc, count-inc}
use strava_auth_proxy.Fault.Laws.{write_lem}
use strava_auth_proxy.Config.{System, validate_redirect_uri}
use strava_auth_proxy.Config.Rules.{IsAbsUrl, IsRedirectUri, validate_redirect_uri_iff}
use strava_auth_proxy.Config.Validate.{validate}
use strava_auth_proxy.Config.Valid.{IsValid, validate_iff}
use strava_auth_proxy.Config.Load.{new_holder}
use strava_auth_proxy.Config.Reload.{reload_all, reload_all-IsValid}
use strava_auth_proxy.Tests.Setup.{lib, cfg, site}

validate_redirect_uri_iff_example :
    (validate_redirect_uri lib (str "https://app.example/return") ≡ ok tt)
    ↔ IsRedirectUri lib (str "https://app.example/return")
validate_redirect_uri_iff_example = validate_redirect_uri_iff lib (str "https://app.example/return")

validate_iff_example : (validate lib cfg ≡ ok tt) ↔ IsValid lib cfg
validate_iff_example = validate_iff lib cfg

site-IsAbsUrl : (raw : Str) → is_empty raw ≡ Bool.false → IsAbsUrl lib raw
site-IsAbsUrl raw h = record {
  url = site;
  not_empty = λ e. ground (arith, e, h);
  parsed = refl;
  scheme = inr refl;
  host = λ e. cc;
  no_query = refl;
  no_fragment = refl;
}

return-IsRedirectUri : IsRedirectUri lib (str "https://app.example/return")
unfolding contains trim_space
return-IsRedirectUri = record {
  url = site;
  not_blank = λ e. cc;
  parsed = refl;
  host = λ e. cc;
  no_fragment = refl;
  no_hash = refl;
  secure = inl refl;
}

cfg-IsValid : IsValid lib cfg
cfg-IsValid = record {
  strava_id = λ e. cc;
  strava_secret = λ e. cc;
  public_url = site-IsAbsUrl _ refl;
  upstream = site-IsAbsUrl _ refl;
  ttl = refl;
  some_key = λ e. cc;
  keys = (record { named = λ e. cc; plain = ground arith; long = omega arith }, tt);
  distinct = (tt, tt);
  some_client = λ e. cc;
  clients = (
    record {
      named = λ e. cc;
      digits = ground arith;
      own_id = refl;
      some_uri = λ e. cc;
      uris = (return-IsRedirectUri, tt);
    },
    tt,
  );
  tls = inl refl;
}

abbrev empty_system : System
empty_system = record { getenv = λ name. []; read_file = λ path. none }

reload_all-IsValid_example :
    IsValid lib (Load.get (reload_all lib (new_holder cfg) (empty_system ∷ empty_system ∷ [])))
reload_all-IsValid_example =
    reload_all-IsValid lib (new_holder cfg) (empty_system ∷ empty_system ∷ []) cfg-IsValid

count-inc_test : count (inc ((str "success", 2) ∷ []) (str "success")) (str "success") ≡ (
    if is_empty (str "success")
    then count ((str "success", 2) ∷ []) (str "success")
    else if str "success" == str "success"
    then count ((str "success", 2) ∷ []) (str "success") + 1
    else count ((str "success", 2) ∷ []) (str "success"))
count-inc_test = count-inc ((str "success", 2) ∷ []) (str "success") (str "success")

write_lem_example :
    ((Fault.write 400 Fault.invalid_code fresh).status ≡ some 400)
    × ((Fault.write 400 Fault.invalid_code fresh).body ≡ Fault.marshal Fault.invalid_code)
    × (get (Fault.write 400 Fault.invalid_code fresh).header (str "Content-Type")
        ≡ Fault.content_type_json)
    × (get (Fault.write 400 Fault.invalid_code fresh).header (str "Content-Length")
        ≡ itoa (length (Fault.marshal Fault.invalid_code)))
write_lem_example = write_lem 400 Fault.invalid_code fresh refl refl
