-- ===== src/Config/Rules.antt =====
-- The rules of a configuration, stated without the code, and the checks that decide them.
use strava_auth_proxy.Prelude.{
  refl, Result-cases, ◌∷◌, All, List, ◌≤◌, all, ℕ, ◌≡◌, ◌≢◌, ◌↔◌, ◌⊎◌, inl, inr, true, false, some,
  [], ok, arith, is_empty, Option-cases,
}
use strava_auth_proxy.Config.{
  is_digit, is_all_digits, kid_char, valid_kid, validate_redirect_uri, validate_redirect_uris,
  Error, Fault, Libraries, mem, loopback_hosts, check_redirect_url, check_abs_url, validate_abs_url,
}
use strava_auth_proxy.Go.Text.{Str, str, eq_iff, contains, trim_space}
use strava_auth_proxy.Go.Url.{Url}

-- An absolute http or https URL with no query and no fragment.
pub record IsAbsUrl (lib : Libraries) (raw : Str) : Type 0 where
  pub url : Url
  pub not_empty : raw ≢ []
  pub parsed : lib.parse_url raw ≡ some url
  pub scheme : (url.scheme ≡ str "http") ⊎ (url.scheme ≡ str "https")
  pub host : url.host ≢ []
  pub no_query : url.raw_query ≡ []
  pub no_fragment : url.fragment ≡ []

abbrev pub IsLoopback : Str → Type 0
IsLoopback host = (host ≡ str "localhost") ⊎ (host ≡ str "127.0.0.1") ⊎ (host ≡ str "::1")

-- An absolute URI without a fragment: https, or http to a loopback host.
pub record IsRedirectUri (lib : Libraries) (raw : Str) : Type 0 where
  pub url : Url
  pub not_blank : trim_space raw ≢ []
  pub parsed : lib.parse_url raw ≡ some url
  pub host : url.host ≢ []
  pub no_fragment : url.fragment ≡ []
  pub no_hash : contains raw b'#' ≡ false
  pub secure :
      (url.scheme ≡ str "https") ⊎ (url.scheme ≡ str "http") × IsLoopback (lib.hostname url)

pub is_empty_iff : (s : Str) → (is_empty s ≡ false) ↔ (s ≢ [])
is_empty_iff s = ground arith

check_abs_url_iff :
    (raw : Str) (u : Url) (sentinel : Fault → Error)
    → (check_abs_url raw u sentinel ≡ ok tt) ↔ (
        ((u.scheme ≡ str "http") ⊎ (u.scheme ≡ str "https"))
        × (u.host ≢ [])
        × (u.raw_query ≡ [])
        × (u.fragment ≡ []))
unfolding check_abs_url
check_abs_url_iff raw u sentinel =
    ground (arith, eq_iff u.scheme (str "http"), eq_iff u.scheme (str "https"))

module _ (lib : Libraries) (raw : Str) where
  validate_abs_url-IsAbsUrl :
      (sentinel : Fault → Error) → validate_abs_url lib raw sentinel ≡ ok tt → IsAbsUrl lib raw
  unfolding validate_abs_url
  validate_abs_url-IsAbsUrl sentinel h = elim (Option-cases (lib.parse_url raw)) [
    | inl e ↦ absurd (ground arith)
    | inr (u, e) ↦
        let (scheme, host, no_query, no_fragment) =
          (check_abs_url_iff raw u sentinel).0 (ground arith) in
        record {
          url = u;
          not_empty = ground arith;
          parsed = e;
          scheme = scheme;
          host = host;
          no_query = no_query;
          no_fragment = no_fragment;
        }
  ]

  -- The check accepts exactly the absolute http and https URLs with no query and no fragment.
  pub validate_abs_url_iff :
      (sentinel : Fault → Error) → (validate_abs_url lib raw sentinel ≡ ok tt) ↔ IsAbsUrl lib raw
  unfolding validate_abs_url
  validate_abs_url_iff sentinel = (
    validate_abs_url-IsAbsUrl sentinel,
    λ v. rw ((is_empty_iff raw).1 v.not_empty) (
        rw v.parsed
          ((check_abs_url_iff raw v.url sentinel).1 (v.scheme, v.host, v.no_query, v.no_fragment))),
  )

  loopback_hosts_iff : (host : Str) → (mem host loopback_hosts ≡ true) ↔ IsLoopback host
  unfolding mem
  loopback_hosts_iff host =
      ground (
        arith,
        eq_iff (str "localhost") host,
        eq_iff (str "127.0.0.1") host,
        eq_iff (str "::1") host,
      )

  check_redirect_url_iff :
      (u : Url)
      → (check_redirect_url lib raw u ≡ ok tt) ↔ (
          (u.host ≢ [])
          × (u.scheme ≢ [])
          × (u.fragment ≡ [])
          × (contains raw b'#' ≡ false)
          × ((u.scheme ≡ str "https")
              ⊎ (u.scheme ≡ str "http") × (mem (lib.hostname u) loopback_hosts ≡ true)))
  unfolding check_redirect_url
  check_redirect_url_iff u =
      ground (arith, eq_iff u.scheme (str "http"), eq_iff u.scheme (str "https"))

  validate_redirect_uri-IsRedirectUri :
      validate_redirect_uri lib raw ≡ ok tt → IsRedirectUri lib raw
  unfolding validate_redirect_uri
  validate_redirect_uri-IsRedirectUri h = elim (Option-cases (lib.parse_url raw)) [
    | inl e ↦ absurd (ground arith)
    | inr (u, e) ↦
        let (host, _, no_fragment, no_hash, secure) = (check_redirect_url_iff u).0 (ground arith) in
        record {
          url = u;
          not_blank = ground arith;
          parsed = e;
          host = host;
          no_fragment = no_fragment;
          no_hash = no_hash;
          secure = ground (arith, secure, loopback_hosts_iff (lib.hostname u));
        }
  ]

  IsRedirectUri-scheme : (v : IsRedirectUri lib raw) → v.url.scheme ≢ []
  IsRedirectUri-scheme v = ground (arith, v.secure)

  -- The check accepts exactly the absolute URIs without a fragment that are https, or http to a
  -- loopback host.
  pub validate_redirect_uri_iff : (validate_redirect_uri lib raw ≡ ok tt) ↔ IsRedirectUri lib raw
  unfolding validate_redirect_uri
  validate_redirect_uri_iff = (
    validate_redirect_uri-IsRedirectUri,
    λ v. rw ((is_empty_iff _).1 v.not_blank) (
        rw v.parsed (
          (check_redirect_url_iff v.url).1 (
            v.host,
            IsRedirectUri-scheme v,
            v.no_fragment,
            v.no_hash,
            ground (arith, v.secure, loopback_hosts_iff (lib.hostname v.url)),
          ))),
  )

pub validate_redirect_uris_iff :
    (lib : Libraries) (id : Str) (uris : List Str)
    → (validate_redirect_uris lib id uris ≡ ok tt) ↔ All (IsRedirectUri lib) uris
unfolding validate_redirect_uris
validate_redirect_uris_iff lib id [] = (λ h. tt, λ h. refl)
validate_redirect_uris_iff lib id (uri ∷ uris) = (
  λ h. elim (Result-cases (validate_redirect_uri lib uri)) [
    | inl (e, bad) ↦ absurd (ground arith)
    | inr (_, good) ↦ (
      (validate_redirect_uri_iff lib uri).0 good,
      (validate_redirect_uris_iff lib id uris).0 (ground arith),
    )
  ],
  λ v.
      rw ((validate_redirect_uri_iff lib uri).1 v.0, validate_redirect_uris)
        ((validate_redirect_uris_iff lib id uris).1 v.1),
)

-- [A-Za-z0-9_-]
abbrev pub IsKidChar : ℕ → Type 0
IsKidChar r =
    (b'a' ≤ r) × (r ≤ b'z')
    ⊎ (b'A' ≤ r) × (r ≤ b'Z')
    ⊎ (b'0' ≤ r) × (r ≤ b'9')
    ⊎ (r ≡ b'_')
    ⊎ (r ≡ b'-')

all-kid_char : (kid : Str) → (all kid_char kid ≡ true) ↔ All IsKidChar kid
unfolding kid_char
all-kid_char [] = (λ h. tt, λ h. refl)
all-kid_char (r ∷ kid) = (
  λ h. (ground arith, (all-kid_char kid).0 (ground arith)),
  λ h. ground (arith, (all-kid_char kid).1 h.1),
)

-- A key id is accepted exactly if it matches [A-Za-z0-9_-]+.
pub valid_kid_iff : (kid : Str) → (valid_kid kid ≡ true) ↔ ((kid ≢ []) × All IsKidChar kid)
unfolding valid_kid
valid_kid_iff kid = ground (arith, all-kid_char kid)

abbrev pub IsDigit : ℕ → Type 0
IsDigit r = (b'0' ≤ r) × (r ≤ b'9')

all-is_digit : (s : Str) → (all is_digit s ≡ true) ↔ All IsDigit s
all-is_digit [] = (λ h. tt, λ h. refl)
all-is_digit (r ∷ s) = (
  λ h. (ground arith, (all-is_digit s).0 (ground arith)),
  λ h. ground (arith, (all-is_digit s).1 h.1),
)

pub is_all_digits_iff : (s : Str) → (is_all_digits s ≡ true) ↔ ((s ≢ []) × All IsDigit s)
unfolding is_all_digits
is_all_digits_iff s = ground (arith, all-is_digit s)
