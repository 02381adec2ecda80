-- ===== src/Config/Valid.antt =====
-- `validate` decides the rules of a whole configuration.
use strava_auth_proxy.Prelude.{
  ◌&&◌, ◌||◌, is_empty, err, refl, arith, length, ok, ◌>>◌, false, ltb, ◌≤◌, ◌⊎◌, All, not, ◌∷◌,
  Bool, List, Result, [], true, ◌≡◌, ◌≢◌, ◌↔◌,
}
use strava_auth_proxy.Prelude.Int.{ltb_ℤ, pos}
use strava_auth_proxy.Go.Text.{Str, ◌==◌, eq_iff}
use strava_auth_proxy.Config.{
  Error, StateKey, Client, Config, Libraries, mem, valid_kid, is_all_digits,
}
use strava_auth_proxy.Config.Validate.{require, validate_keys, validate_clients, validate}
use strava_auth_proxy.Config.Rules.{
  IsAbsUrl, IsRedirectUri, IsKidChar, IsDigit, validate_abs_url_iff, validate_redirect_uris_iff,
  valid_kid_iff, is_all_digits_iff,
}

pub record IsStateKey (k : StateKey) : Type 0 where
  pub named : k.kid ≢ []
  pub plain : All IsKidChar k.kid
  pub long : 32 ≤ length k.key

-- No two keys have one id.
abbrev pub DistinctKids : List StateKey → Type 0
DistinctKids [] = Unit
DistinctKids (k ∷ keys) = All (λ (j : StateKey). k.kid ≢ j.kid) keys × DistinctKids keys

-- A registered client is listed under its own id, all digits, and has redirect URIs that are
-- absolute, free of fragments and https or loopback http.
pub record IsClient (lib : Libraries) (entry : Str × Client) : Type 0 where
  pub named : entry.0 ≢ []
  pub digits : All IsDigit entry.0
  pub own_id : entry.1.id ≡ entry.0
  pub some_uri : entry.1.redirect_uris ≢ []
  pub uris : All (IsRedirectUri lib) entry.1.redirect_uris

pub record IsValid (lib : Libraries) (c : Config) : Type 0 where
  pub strava_id : c.strava_client_id ≢ []
  pub strava_secret : c.strava_client_secret.v ≢ []
  pub public_url : IsAbsUrl lib c.public_url
  pub upstream : IsAbsUrl lib c.upstream_base_url
  pub ttl : ltb_ℤ (pos 0) c.state_ttl ≡ true
  pub some_key : c.state_keys ≢ []
  pub keys : All IsStateKey c.state_keys
  pub distinct : DistinctKids c.state_keys
  pub some_client : c.clients ≢ []
  pub clients : All (IsClient lib) c.clients
  pub tls : (c.dev_allow_http ≡ true) ⊎ (c.tls_cert_file ≢ []) × (c.tls_key_file ≢ [])

require_iff :
    (b : Bool) (e : Error) (m : Result Error (Unit {0}))
    → ((require b e >> m) ≡ ok tt) ↔ ((b ≡ true) × (m ≡ ok tt))
unfolding require
require_iff true e m = (λ h. (refl, h), λ h. h.1)
require_iff false e m = (λ h. cc, λ h. cc)

require_last : (b : Bool) (e : Error) → require b e ≡ ok tt → b ≡ true
unfolding require
require_last true e h = refl
require_last false e h = cc

tls_rule :
    (c : Config)
    → (c.dev_allow_http || not (is_empty c.tls_cert_file) && not (is_empty c.tls_key_file)) ≡ true
    → (c.dev_allow_http ≡ true) ⊎ (c.tls_cert_file ≢ []) × (c.tls_key_file ≢ [])
tls_rule c h = ground arith

then_iff : (m n : Result Error (Unit {0})) → ((m >> n) ≡ ok tt) ↔ ((m ≡ ok tt) × (n ≡ ok tt))
then_iff (ok _) n = (λ h. (refl, h), λ h. h.1)
then_iff (err e) n = (λ h. cc, λ h. cc)

-- What the loop over the keys decides, with the kids seen so far.
abbrev KeysBeyond : List Str → List StateKey → Type 0
KeysBeyond seen keys =
    All IsStateKey keys × All (λ (k : StateKey). mem k.kid seen ≡ false) keys × DistinctKids keys

All-unseen :
    (kid : Str) (seen : List Str) (keys : List StateKey)
    → All (λ (j : StateKey). mem j.kid (kid ∷ seen) ≡ false) keys ↔ (
        All (λ (j : StateKey). mem j.kid seen ≡ false) keys
        × All (λ (j : StateKey). kid ≢ j.kid) keys)
unfolding mem
All-unseen kid seen [] = (λ h. (tt, tt), λ h. tt)
All-unseen kid seen (j ∷ keys) = (
  λ h.
      let (unseen, differ) = (All-unseen kid seen keys).0 h.1 in
      ((ground (arith, h.0), unseen), (ground (arith, h.0, eq_iff kid j.kid), differ)),
  λ (unseen, differ). (
    ground (arith, unseen.0, differ.0, eq_iff kid j.kid),
    (All-unseen kid seen keys).1 (unseen.1, differ.1),
  ),
)

state_key_iff :
    (k : StateKey)
    → IsStateKey k ↔ ((valid_kid k.kid ≡ true) × (not (ltb (length k.key) 32) ≡ true))
state_key_iff k = (
  λ v. ((valid_kid_iff k.kid).1 (v.named, v.plain), ground (arith, v.long)),
  λ (valid, long).
      let (named, plain) = (valid_kid_iff k.kid).0 valid in
      record { named = named; plain = plain; long = ground arith },
)

validate_keys_iff :
    (keys : List StateKey) (seen : List Str)
    → (validate_keys keys seen ≡ ok tt) ↔ KeysBeyond seen keys
unfolding validate_keys
validate_keys_iff [] seen = (λ h. (tt, tt, tt), λ h. refl)
validate_keys_iff (k ∷ keys) seen = (
  λ h.
      let (valid, h₁) = (require_iff _ _ _).0 h in
      let (unseen, h₂) = (require_iff _ _ _).0 h₁ in
      let (long, h₃) = (require_iff _ _ _).0 h₂ in
      let (good, beyond, distinct) = (validate_keys_iff keys (k.kid ∷ seen)).0 h₃ in
      let (others, differ) = (All-unseen k.kid seen keys).0 beyond in
      (
        ((state_key_iff k).1 (valid, long), good),
        (ground (arith, unseen), others),
        (differ, distinct),
      ),
  λ (good, beyond, distinct).
      let (valid, long) = (state_key_iff k).0 good.0 in
      let rest =
        (validate_keys_iff keys (k.kid ∷ seen)).1
          (good.1, (All-unseen k.kid seen keys).1 (beyond.1, distinct.0), distinct.1) in
      (require_iff _ _ _).1
        (valid, (require_iff _ _ _).1 (rw beyond.0, (require_iff _ _ _).1 (long, rest))),
)

module _ (lib : Libraries) where
  client_iff :
      (id : Str) (c : Client)
      → IsClient lib (id, c) ↔ (
          (is_all_digits id ≡ true)
          × ((c.id == id) ≡ true)
          × (not (is_empty c.redirect_uris) ≡ true)
          × All (IsRedirectUri lib) c.redirect_uris)
  client_iff id c = (
    λ v. (
      (is_all_digits_iff id).1 (v.named, v.digits),
      (eq_iff c.id id).1 v.own_id,
      ground (arith, v.some_uri),
      v.uris,
    ),
    λ (digits, own_id, some_uri, uris). record {
      named = ((is_all_digits_iff id).0 digits).0;
      digits = ((is_all_digits_iff id).0 digits).1;
      own_id = (eq_iff c.id id).0 own_id;
      some_uri = ground arith;
      uris = uris;
    },
  )

  validate_clients_iff :
      (clients : List (Str × Client))
      → (validate_clients lib clients ≡ ok tt) ↔ All (IsClient lib) clients
  unfolding validate_clients
  validate_clients_iff [] = (λ h. tt, λ h. refl)
  validate_clients_iff ((id, c) ∷ rest) = (
    λ h.
        let (digits, h₁) = (require_iff _ _ _).0 h in
        let (own_id, h₂) = (require_iff _ _ _).0 h₁ in
        let (some_uri, h₃) = (require_iff _ _ _).0 h₂ in
        let (uris, h₄) = (then_iff _ _).0 h₃ in
        (
          (client_iff id c).1
              (digits, own_id, some_uri, (validate_redirect_uris_iff lib id _).0 uris),
          (validate_clients_iff rest).0 h₄,
        ),
    λ v.
        let (digits, own_id, some_uri, uris) = (client_iff id c).0 v.0 in
        (require_iff _ _ _).1 (
          digits,
          (require_iff _ _ _).1 (
            own_id,
            (require_iff _ _ _).1 (
              some_uri,
              (then_iff _ _).1
                  ((validate_redirect_uris_iff lib id _).1 uris, (validate_clients_iff rest).1 v.1),
            ),
          ),
        ),
  )

  validate-IsValid : (c : Config) → validate lib c ≡ ok tt → IsValid lib c
  unfolding validate
  validate-IsValid c h =
      let (strava_id, h₁) = (require_iff _ _ _).0 h in
      let (strava_secret, h₂) = (require_iff _ _ _).0 h₁ in
      let (public_url, h₃) = (then_iff _ _).0 h₂ in
      let (upstream, h₄) = (then_iff _ _).0 h₃ in
      let (ttl, h₅) = (require_iff _ _ _).0 h₄ in
      let (some_key, h₆) = (require_iff _ _ _).0 h₅ in
      let (keys, h₇) = (then_iff _ _).0 h₆ in
      let (some_client, h₈) = (require_iff _ _ _).0 h₇ in
      let (clients, tls) = (then_iff _ _).0 h₈ in
      let beyond = (validate_keys_iff c.state_keys []).0 keys in
      record {
        strava_id = ground (arith, strava_id);
        strava_secret = ground (arith, strava_secret);
        public_url = (validate_abs_url_iff lib _ Error.invalid_public_url).0 public_url;
        upstream = (validate_abs_url_iff lib _ Error.invalid_upstream_base_url).0 upstream;
        ttl = ttl;
        some_key = ground (arith, some_key);
        keys = beyond.0;
        distinct = beyond.2;
        some_client = ground (arith, some_client);
        clients = (validate_clients_iff c.clients).0 clients;
        tls = tls_rule c (require_last _ _ tls);
      }

  mem_nil : (keys : List StateKey) → All (λ (k : StateKey). mem k.kid [] ≡ false) keys
  unfolding mem
  mem_nil [] = tt
  mem_nil (k ∷ keys) = (refl, mem_nil keys)

  IsValid-validate : (c : Config) → IsValid lib c → validate lib c ≡ ok tt
  unfolding validate require
  IsValid-validate c v =
      let keys = (validate_keys_iff c.state_keys []).1 (v.keys, mem_nil c.state_keys, v.distinct) in
      let clients = (validate_clients_iff c.clients).1 v.clients in
      simp
        (
          (validate_abs_url_iff lib c.public_url Error.invalid_public_url).1 v.public_url,
          (validate_abs_url_iff lib c.upstream_base_url Error.invalid_upstream_base_url).1
              v.upstream,
          keys,
          clients,
        )
        (ground arith)

  -- `validate` accepts exactly the configurations that obey every rule.
  pub validate_iff : (c : Config) → (validate lib c ≡ ok tt) ↔ IsValid lib c
  validate_iff c = (validate-IsValid c, IsValid-validate c)
