-- ===== src/Seal/RoundTrip.antt =====
-- Opening what was sealed, with the ring it was sealed under or a later one.
use strava_auth_proxy.Prelude.{
  ◌≤◌, ◌<◌, ◌≡◌, ◌∙◌, true, false, some, [], ◌∷◌, ◌++◌, ok, err, ◌>>◌, arith, length, All,
  Option-cases, inl, inr,
}
use strava_auth_proxy.Prelude.Int.{ℤ}
use strava_auth_proxy.Go.Text.{Str, ◌==◌, eq_refl}
use strava_auth_proxy.Go.Time.{Instant, Duration}
use strava_auth_proxy.Seal.{
  Primitives, Codec, Key, Ring, Error, max_payload_bytes, key, tag, envelope, check_window,
  seal_with, seal, open_payload, open_envelope,
}
use strava_auth_proxy.Seal.Laws.{
  IsFaithful, IsCodec, IsUsable, IsTotal, inflate_fits, inflate_over, open-envelope_lem,
}

-- `newer` has no key under the id.
abbrev pub IsFresh : Str → Ring → Type 0
IsFresh kid newer = All (λ (j : Key). (j.kid == kid) ≡ false) newer

pub key-append :
    (newer rest : Ring) (k : Key)
    → IsUsable k
    → IsFresh k.kid newer
    → key (newer ++ k ∷ rest) k.kid ≡ some k.key
unfolding key
key-append [] rest k u h = rw (eq_refl k.kid, u.keyed)
key-append (j ∷ newer) rest k u h = rw h.0 (key-append newer rest k u h.1)

module _ {P : Type 0} (prim : Primitives) (codec : Codec P) where
  pub seal_with-eq-ok :
      (k : Key) (domain : Str) (p : P) (token : Str)
      → seal_with prim codec k domain p ≡ ok token
      → (raw : Str) × (packed : Str) × (codec.marshal p ≡ some raw)
        × (prim.flate raw ≡ some packed)
        × (token ≡ envelope prim k domain packed)
  unfolding seal_with
  seal_with-eq-ok k domain p token h = elim (Option-cases (codec.marshal p)) [
    | inl e ↦ absurd (cc (rw e at h))
    | inr (raw, e) ↦ elim (Option-cases (prim.flate raw)) [
      | inl e' ↦ ground arith
      | inr (packed, e') ↦ (raw, packed, e, e', ground arith)
    ]
  ]

  -- A ring that seals has a usable first key, and the token is its envelope of the packed JSON.
  pub seal-eq-ok :
      (k : Key) (r : Ring) (domain : Str) (p : P) (token : Str)
      → seal prim codec (k ∷ r) domain p ≡ ok token
      → IsUsable k × (seal_with prim codec k domain p ≡ ok token)
  unfolding seal
  seal-eq-ok k r domain p token h =
      (record { named = ground arith; no_dot = ground arith; keyed = ground arith }, ground arith)

  -- With a usable first key sealing fails only where JSON or the compressor fails.
  pub seal_total :
      (k : Key) (r : Ring) (domain : Str) (p : P)
      → IsUsable k
      → IsTotal prim codec
      → (token : Str) × (seal prim codec (k ∷ r) domain p ≡ ok token)
  unfolding seal seal_with
  seal_total k r domain p u t =
      let (raw, e) = t.marshals p in
      let (packed, e') = t.flates raw in
      (envelope prim k domain packed, rw (u.named, u.no_dot, u.keyed, e, e'))

module _ {P : Type 0} (prim : Primitives) (codec : Codec P) (coerce : P → P) (iat_of : P → ℤ)
    (f : IsFaithful prim) (c : IsCodec codec coerce iat_of) where
  open_payload_fits :
      (p : P) (raw packed : Str) (ttl : Duration) (now : Instant)
      → codec.marshal p ≡ some raw
      → prim.flate raw ≡ some packed
      → length raw ≤ max_payload_bytes
      → open_payload prim codec packed ttl now ≡ (check_window (iat_of p) ttl now >> ok (coerce p))
  unfolding open_payload
  open_payload_fits p raw packed ttl now m e fits = rw (
    inflate_fits prim raw packed (f.flate_back raw packed e) fits,
    c.unmarshal_back p raw m,
    c.iat_back p raw m,
  )

  -- A token sealed under a key opens under every ring that lists the key behind newer ones of other
  -- ids, whatever older keys follow: the result is the payload with its strings coerced to valid
  -- UTF-8 if its issue time is in the window, and the window's error if not.
  pub open-seal :
      (k : Key) (older newer older' : Ring) (domain : Str) (p : P) (raw token : Str)
      (ttl : Duration) (now : Instant)
      → codec.marshal p ≡ some raw
      → length raw ≤ max_payload_bytes
      → seal prim codec (k ∷ older) domain p ≡ ok token
      → IsFresh k.kid newer
      → open_envelope prim codec (newer ++ k ∷ older') domain token ttl now
        ≡ (check_window (iat_of p) ttl now >> ok (coerce p))
  open-seal k older newer older' domain p raw token ttl now m fits sealed fresh =
      let (u, with_key) = seal-eq-ok prim codec k older domain p token sealed in
      let (raw', packed, m', e, is_envelope) =
        seal_with-eq-ok prim codec k domain p token with_key in
      let same : raw' ≡ raw = ground (arith, m, m') in
      let e' : prim.flate raw ≡ some packed = rw same at e in
      let opened =
        open-envelope_lem prim codec (newer ++ k ∷ older') k domain domain packed ttl now f u
          (f.flate_bytes raw packed e') (key-append newer older' k u fresh) in
      rw is_envelope (
        opened
        ∙ rw (eq_refl (tag prim k.key domain packed))
            (open_payload_fits p raw packed ttl now m e' fits))

  -- A payload whose JSON is larger than the cap can be sealed, and never opens.
  pub open-seal_oversize :
      (k : Key) (older newer older' : Ring) (domain : Str) (p : P) (raw token : Str)
      (ttl : Duration) (now : Instant)
      → codec.marshal p ≡ some raw
      → max_payload_bytes < length raw
      → seal prim codec (k ∷ older) domain p ≡ ok token
      → IsFresh k.kid newer
      → open_envelope prim codec (newer ++ k ∷ older') domain token ttl now
        ≡ err Error.payload_corrupt
  unfolding open_payload
  open-seal_oversize k older newer older' domain p raw token ttl now m over sealed fresh =
      let (u, with_key) = seal-eq-ok prim codec k older domain p token sealed in
      let (raw', packed, m', e, is_envelope) =
        seal_with-eq-ok prim codec k domain p token with_key in
      let same : raw' ≡ raw = ground (arith, m, m') in
      let e' : prim.flate raw ≡ some packed = rw same at e in
      let opened =
        open-envelope_lem prim codec (newer ++ k ∷ older') k domain domain packed ttl now f u
          (f.flate_bytes raw packed e') (key-append newer older' k u fresh) in
      rw is_envelope (
        opened
        ∙ rw (eq_refl (tag prim k.key domain packed))
            (rw (inflate_over prim raw packed true (f.flate_back raw packed e') over)))
