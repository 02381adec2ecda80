-- ===== src/Server/Probe.antt =====
-- The probe and the configuration agree on the admin address.
use strava_auth_proxy.Prelude.{
  is_empty, true, ◌⊎◌, ◌≢◌, ℕ, Option, ◌≡◌, ◌∙◌, ◌↔◌, refl, sym, ap, inl, inr, arith, ok,
  Option-cases, none, some, [], ◌∷◌, ◌++◌, eqb, eqb_iff, Bool-cases, false,
}
use strava_auth_proxy.Go.Text.{eq_iff, contains, ◌==◌, trim_space, Str, str}
use strava_auth_proxy.Server.Healthcheck.{
  is_wildcard, join_host_port, Network, healthcheck, configured_addr, dialed, probe_url, judge,
}
use mathlib.Core.Path.{subst}
use strava_auth_proxy.Config.{System}

-- What the probe prints, for an address that was split.
other_status : (status : ℕ) → eqb status 200 ≡ false → some status ≢ some 200
other_status status e h = ground (arith, eqb_iff status 200)

judge_iff :
    (url : Str) (answer : Option ℕ)
    → (judge url answer ≡ ok (str "ok" ++ 10 ∷ [])) ↔ (answer ≡ some 200)
unfolding judge
judge_iff url none = ground arith
judge_iff url (some status) = elim (Bool-cases (eqb status 200)) [
  | inl e ↦ rw (judge, e) (λ _. ap some ((eqb_iff status 200).0 e), λ _. refl)
  | inr e ↦ rw (judge, e) (λ h. absurd (cc h), λ h. absurd (other_status status e h))
]

-- In the words of the code.
healthcheck_by_parts :
    (net : Network) (sys : System)
    → (healthcheck net sys ≡ ok (str "ok" ++ 10 ∷ [])) ↔ (
        (parts : Str × Str) × (net.split_host_port (configured_addr sys) ≡ some parts)
        × (net.get (probe_url (dialed (configured_addr sys) parts)) ≡ some 200))
unfolding healthcheck
healthcheck_by_parts net sys = elim (Option-cases (net.split_host_port (configured_addr sys))) [
  | inl e ↦ (λ h. absurd (cc (rw (healthcheck, e) at h)), λ (parts, d, _). absurd (cc (sym e ∙ d)))
  | inr (parts, e) ↦
      let url = probe_url (dialed (configured_addr sys) parts) in
      (
        λ h. (parts, e, (judge_iff url (net.get url)).0 (rw (healthcheck, e) at h)),
        λ (parts', d, g).
            let same : parts' ≡ parts = ground arith in
            rw (healthcheck, e)
              ((judge_iff url (net.get url)).1 (
                subst (λ p. net.get (probe_url (dialed (configured_addr sys) p)) ≡ some 200) same
                  g)),
      )
]

-- The hosts that stand for every interface.
pub data IsEvery : Str → Type 0 where
  no_host : IsEvery []
  every_v4 : IsEvery (str "0.0.0.0")
  every_v6 : IsEvery (str "::")
  bracketed : IsEvery (str "[::]")

-- The admin address: that of the environment without surrounding space, or 127.0.0.1:9090.
pub record IsAdmin (sys : System) (addr : Str) : Type 0 where
  pub given :
      trim_space (sys.getenv (str "ADMIN_ADDR")) ≢ []
      → addr ≡ trim_space (sys.getenv (str "ADMIN_ADDR"))
  pub missing : trim_space (sys.getenv (str "ADMIN_ADDR")) ≡ [] → addr ≡ str "127.0.0.1:9090"

is_wildcard-IsEvery : (host : Str) → is_wildcard host ≡ true → IsEvery host
unfolding is_wildcard
is_wildcard-IsEvery [] h = no_host
is_wildcard-IsEvery (c ∷ cs) h =
    let host : Str = c ∷ cs in
    let named = λ (name : Str) (e : (host == name) ≡ true). sym ((eq_iff host name).0 e) in
    elim (Bool-cases (host == str "0.0.0.0")) [
      | inl e ↦ subst IsEvery (named (str "0.0.0.0") e) every_v4
      | inr not_v4 ↦ elim (Bool-cases (host == str "::")) [
        | inl e ↦ subst IsEvery (named (str "::") e) every_v6
        | inr not_v6 ↦
            subst IsEvery (named (str "[::]") (ground (arith, h, not_v4, not_v6))) bracketed
      ]
    ]

IsEvery-is_wildcard : (host : Str) → IsEvery host → is_wildcard host ≡ true
unfolding is_wildcard ◌==◌
IsEvery-is_wildcard _ no_host = refl
IsEvery-is_wildcard _ every_v4 = refl
IsEvery-is_wildcard _ every_v6 = refl
IsEvery-is_wildcard _ bracketed = refl

-- What is asked for an address with that host and port.
abbrev pub Asked : Str → Str → Str → Str → Type 0
Asked addr host port url =
    (IsEvery host × (url ≡ str "http://127.0.0.1:" ++ port ++ str "/healthz"))
    ⊎ ((¬ IsEvery host) × (url ≡ str "http://" ++ addr ++ str "/healthz"))

dialed-Asked : (addr host port : Str) → Asked addr host port (probe_url (dialed addr (host, port)))
unfolding probe_url dialed join_host_port contains
dialed-Asked addr host port = elim (Bool-cases (is_wildcard host)) [
  | inl e ↦ inl (is_wildcard-IsEvery host e, rw e refl)
  | inr e ↦ inr (λ h. absurd (cc (e, IsEvery-is_wildcard host h)), rw e refl)
]

Asked-unique : (addr host port u v : Str) → Asked addr host port u → Asked addr host port v → u ≡ v
Asked-unique addr host port u v (inl (_, e)) (inl (_, e')) = e ∙ sym e'
Asked-unique addr host port u v (inl (h, _)) (inr (n, _)) = absurd (n h)
Asked-unique addr host port u v (inr (n, _)) (inl (h, _)) = absurd (n h)
Asked-unique addr host port u v (inr (_, e)) (inr (_, e')) = e ∙ sym e'

configured_addr-IsAdmin : (sys : System) → IsAdmin sys (configured_addr sys)
unfolding configured_addr
configured_addr-IsAdmin sys = record { given = λ h. ground arith; missing = λ h. ground arith }

IsAdmin-unique : (sys : System) (addr : Str) → IsAdmin sys addr → addr ≡ configured_addr sys
unfolding configured_addr
IsAdmin-unique sys addr h =
    let given = trim_space (sys.getenv (str "ADMIN_ADDR")) in
    elim (Bool-cases (is_empty given)) [
      | inl e ↦ rw e (h.missing (ground (arith, e)))
      | inr e ↦ rw e (h.given (ground (arith, e)))
    ]

-- The probe prints its "ok" exactly when the admin address of the environment, or the default one,
-- has a host and a port and a GET of /healthz is answered with 200: at 127.0.0.1 and that port for a
-- host that stands for every interface, and at that address for any other.
pub healthcheck_iff :
    (net : Network) (sys : System)
    → (healthcheck net sys ≡ ok (str "ok" ++ 10 ∷ [])) ↔ (
        (addr : Str) × (host : Str) × (port : Str) × (url : Str) × IsAdmin sys addr
        × (net.split_host_port addr ≡ some (host, port))
        × Asked addr host port url
        × (net.get url ≡ some 200))
healthcheck_iff net sys = (
  λ h.
      let ((host, port), split, answered) = (healthcheck_by_parts net sys).0 h in
      let addr = configured_addr sys in
      (
        addr,
        host,
        port,
        probe_url (dialed addr (host, port)),
        configured_addr-IsAdmin sys,
        split,
        dialed-Asked addr host port,
        answered,
      ),
  λ (addr, host, port, url, admin, split, asked, answered).
      let same = IsAdmin-unique sys addr admin in
      let here = Asked-unique addr host port url _ asked (dialed-Asked addr host port) in
      (healthcheck_by_parts net sys).1 (
        subst
          (λ a.
            (parts : Str × Str) × (net.split_host_port a ≡ some parts)
            × (net.get (probe_url (dialed a parts)) ≡ some 200))
          same ((host, port), split, ap net.get (sym here) ∙ answered)),
)
