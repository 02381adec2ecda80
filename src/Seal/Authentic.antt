-- ===== src/Seal/Authentic.antt =====
-- What an envelope that opens is worth: it carries the MAC of a key of the ring, over the domain.
use strava_auth_proxy.Prelude.{
  ◌≡◌, ◌≢◌, ◌↔◌, refl, ◌∙◌, some, List, [], ◌∷◌, ◌++◌, ok, arith, inl, inr, Option-cases,
}
use strava_auth_proxy.Prelude.Int.{ℤ}
use strava_auth_proxy.Go.Text.{Str, eq_iff, split}
use strava_auth_proxy.Go.Base64.{url, decode_raw}
use strava_auth_proxy.Go.Time.{Instant, Duration}
use strava_auth_proxy.Seal.{
  Primitives, Codec, Ring, key, tag, inflate, check_window, open_payload, open_parts, open_split,
  open_envelope,
}

-- The token has three parts; the first names a key of the ring, and the last is the MAC, under that
-- key, of the domain and the bytes `packed` of the middle one.
pub record IsAuthentic (prim : Primitives) (r : Ring) (domain token packed : Str) : Type 0 where
  pub kid : Str
  pub payload_part : Str
  pub mac_part : Str
  pub secret : Str
  pub parts : split token b'.' ≡ kid ∷ payload_part ∷ mac_part ∷ []
  pub listed : key r kid ≡ some secret
  pub unpacked : decode_raw url payload_part ≡ some packed
  pub signed : decode_raw url mac_part ≡ some (prim.hmac secret (domain ++ packed))

-- The authenticated bytes decompress, read as a payload and were issued in the window.
pub record IsReadable {P : Type 0} (prim : Primitives) (codec : Codec P) (packed : Str)
    (ttl : Duration) (now : Instant) (p : P) : Type 0 where
  pub raw : Str
  pub iat : ℤ
  pub inflated : inflate prim packed ≡ some raw
  pub decoded : codec.unmarshal raw ≡ some p
  pub dated : codec.unmarshal_iat raw ≡ some iat
  pub in_window : check_window iat ttl now ≡ ok tt

key_nil : (kid secret : Str) → key [] kid ≢ some secret
unfolding key
key_nil kid secret h = cc

module _ {P : Type 0} (prim : Primitives) (codec : Codec P) where
  open_payload-IsReadable :
      (packed : Str) (ttl : Duration) (now : Instant) (p : P)
      → open_payload prim codec packed ttl now ≡ ok p
      → IsReadable prim codec packed ttl now p
  unfolding open_payload
  open_payload-IsReadable packed ttl now p h = elim (Option-cases (inflate prim packed)) [
    | inl e ↦ absurd (cc (rw e at h))
    | inr (raw, e) ↦ elim (Option-cases (codec.unmarshal raw)) [
      | inl e' ↦ absurd (ground arith)
      | inr (q, e') ↦ elim (Option-cases (codec.unmarshal_iat raw)) [
        | inl e'' ↦ absurd (ground arith)
        | inr (iat, e'') ↦ record {
          raw = raw;
          iat = iat;
          inflated = e;
          decoded = ground arith;
          dated = e'';
          in_window = ground arith;
        }
      ]
    ]
  ]

  open_parts-IsAuthentic :
      (r : Ring) (domain token kid payload_part mac_part : Str) (ttl : Duration) (now : Instant)
      (p : P)
      → split token b'.' ≡ kid ∷ payload_part ∷ mac_part ∷ []
      → open_parts prim codec r domain kid payload_part mac_part ttl now ≡ ok p
      → (packed : Str) × IsAuthentic prim r domain token packed
        × (open_payload prim codec packed ttl now ≡ ok p)
  unfolding open_parts tag
  open_parts-IsAuthentic r domain token kid payload_part mac_part ttl now p s h =
      elim (Option-cases (key r kid)) [
        | inl e ↦ absurd (ground arith)
        | inr (secret, e) ↦ elim (Option-cases (decode_raw url payload_part)) [
          | inl e' ↦ absurd (ground arith)
          | inr (packed, e') ↦ elim (Option-cases (decode_raw url mac_part)) [
            | inl e'' ↦ absurd (ground arith)
            | inr (got, e'') ↦ (
              packed,
              record {
                kid = kid;
                payload_part = payload_part;
                mac_part = mac_part;
                secret = secret;
                parts = s;
                listed = e;
                unpacked = e';
                signed = ground (arith, eq_iff got (prim.hmac secret (domain ++ packed)));
              },
              ground arith,
            )
          ]
        ]
      ]

  open_split-IsAuthentic :
      (r : Ring) (domain token : Str) (parts : List Str) (ttl : Duration) (now : Instant) (p : P)
      → split token b'.' ≡ parts
      → open_split prim codec r domain parts ttl now ≡ ok p
      → (packed : Str) × IsAuthentic prim r domain token packed
        × (open_payload prim codec packed ttl now ≡ ok p)
  unfolding open_split
  open_split-IsAuthentic r domain token (kid ∷ pp ∷ mp ∷ []) ttl now p s h =
      open_parts-IsAuthentic r domain token kid pp mp ttl now p s h
  open_split-IsAuthentic r domain token _ ttl now p s h = cc

  -- Whatever the token, if it opens then it is authentic under the domain and its authenticated
  -- bytes are readable as the payload that is returned.
  pub open-IsAuthentic :
      (r : Ring) (domain token : Str) (ttl : Duration) (now : Instant) (p : P)
      → open_envelope prim codec r domain token ttl now ≡ ok p
      → (packed : Str) × IsAuthentic prim r domain token packed
        × IsReadable prim codec packed ttl now p
  unfolding open_envelope
  open-IsAuthentic [] domain token ttl now p h = absurd (cc)
  open-IsAuthentic (k ∷ r) domain token ttl now p h =
      let (packed, authentic, read) =
        open_split-IsAuthentic (k ∷ r) domain token (split token b'.') ttl now p refl h in
      (packed, authentic, open_payload-IsReadable packed ttl now p read)

  authentic-open :
      (r : Ring) (domain token packed : Str) (ttl : Duration) (now : Instant)
      → IsAuthentic prim r domain token packed
      → open_envelope prim codec r domain token ttl now ≡ open_payload prim codec packed ttl now
  unfolding open_envelope open_parts tag
  authentic-open [] domain token packed ttl now a = absurd (key_nil a.kid a.secret a.listed)
  authentic-open (k ∷ r) domain token packed ttl now a =
      rw a.parts (rw (a.listed, a.unpacked, a.signed, (eq_iff _ _).1 refl))

  readable-open :
      (packed : Str) (ttl : Duration) (now : Instant) (p : P)
      → IsReadable prim codec packed ttl now p
      → open_payload prim codec packed ttl now ≡ ok p
  unfolding open_payload
  readable-open packed ttl now p a = rw (a.inflated, a.decoded, a.dated, a.in_window)

  -- A token opens to a payload exactly when it is authentic under the domain and the authenticated
  -- bytes are readable as that payload.
  pub open_iff :
      (r : Ring) (domain token : Str) (ttl : Duration) (now : Instant) (p : P)
      → (open_envelope prim codec r domain token ttl now ≡ ok p) ↔ (
          (packed : Str) × IsAuthentic prim r domain token packed
          × IsReadable prim codec packed ttl now p)
  open_iff r domain token ttl now p = (
    open-IsAuthentic r domain token ttl now p,
    λ (packed, authentic, readable).
        authentic-open r domain token packed ttl now authentic
        ∙ readable-open packed ttl now p readable,
  )
