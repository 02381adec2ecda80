-- ===== src/Seal/Laws.antt =====
-- What the envelope relies on in package flate, package json and HMAC, and the parts of `seal` and
-- `open_envelope` one by one.
use strava_auth_proxy.Prelude.{
  ℕ, ◌+◌, ◌≤◌, ◌<◌, ◌≡◌, ap, Bool, true, false, none, some, [], ◌∷◌, ◌++◌, err, arith, ◌∙◌,
  length-take, length, take, is_empty, if◌then◌else◌,
}
use strava_auth_proxy.Prelude.Int.{ℤ}
use strava_auth_proxy.Go.Text.{Str, ◌==◌, contains, split, split-join, split_single}
use strava_auth_proxy.Go.Base64.{url, encode_raw}
use strava_auth_proxy.Go.Base64.Laws.{IsBytes, decode_raw-encode_raw, contains-encode_raw}
use strava_auth_proxy.Go.Time.{Instant, Duration}
use strava_auth_proxy.Seal.{
  Primitives, Codec, Key, Ring, Error, max_payload_bytes, read_capped, key, tag, inflate, envelope,
  open_payload, open_parts, open_envelope,
}

-- What a compressor writes are bytes, and its decompressor reads the input back to a clean end. A
-- MAC is a sequence of bytes.
pub record IsFaithful (prim : Primitives) : Type 0 where
  pub flate_bytes : (raw packed : Str) → prim.flate raw ≡ some packed → IsBytes packed
  pub flate_back :
      (raw packed : Str) → prim.flate raw ≡ some packed → prim.flate_stream packed ≡ (raw, true)
  pub hmac_bytes : (key message : Str) → IsBytes (prim.hmac key message)

-- JSON that was written from a payload reads back as the payload with its strings coerced to valid
-- UTF-8, and the probe reads its issue time.
pub record IsCodec {P : Type 0} (codec : Codec P) (coerce : P → P) (iat_of : P → ℤ) : Type 0 where
  pub unmarshal_back :
      (p : P) (raw : Str) → codec.marshal p ≡ some raw → codec.unmarshal raw ≡ some (coerce p)
  pub iat_back :
      (p : P) (raw : Str) → codec.marshal p ≡ some raw → codec.unmarshal_iat raw ≡ some (iat_of p)

-- Neither fails.
pub record IsTotal {P : Type 0} (prim : Primitives) (codec : Codec P) : Type 0 where
  pub flates : (raw : Str) → (packed : Str) × (prim.flate raw ≡ some packed)
  pub marshals : (p : P) → (raw : Str) × (codec.marshal p ≡ some raw)

-- A key that can sign: its id is not empty and has no separator, and it has key material.
pub record IsUsable (k : Key) : Type 0 where
  pub named : is_empty k.kid ≡ false
  pub no_dot : contains k.kid b'.' ≡ false
  pub keyed : is_empty k.key ≡ false

read_capped_fits :
    (n : ℕ) (bytes : Str) → length bytes ≤ n → read_capped n (bytes, true) ≡ some bytes
unfolding read_capped
read_capped_fits n bytes h = ground arith

length-take_over : (n : ℕ) (bytes : Str) → n < length bytes → n < length (take (n + 1) bytes)
length-take_over n bytes h = omega (arith, length-take (n + 1) bytes)

read_capped_over :
    (n : ℕ) (bytes : Str) (clean : Bool) → n < length bytes → read_capped n (bytes, clean) ≡ none
unfolding read_capped
read_capped_over n bytes clean h = ground (arith, length-take_over n bytes h)

module _ (prim : Primitives) where
  pub inflate_fits :
      (raw packed : Str)
      → prim.flate_stream packed ≡ (raw, true)
      → length raw ≤ max_payload_bytes
      → inflate prim packed ≡ some raw
  unfolding inflate
  inflate_fits raw packed e h =
      ap (read_capped max_payload_bytes) e ∙ read_capped_fits max_payload_bytes raw h

  pub inflate_over :
      (raw packed : Str) (clean : Bool)
      → prim.flate_stream packed ≡ (raw, clean)
      → max_payload_bytes < length raw
      → inflate prim packed ≡ none
  unfolding inflate
  inflate_over raw packed clean e h =
      ap (read_capped max_payload_bytes) e ∙ read_capped_over max_payload_bytes raw clean h

  pub split-envelope :
      (k : Key) (domain packed : Str)
      → contains k.kid b'.' ≡ false
      → split (envelope prim k domain packed) b'.'
        ≡ k.kid ∷ encode_raw url packed ∷ encode_raw url (tag prim k.key domain packed) ∷ []
  unfolding envelope
  split-envelope k domain packed h = ground (
    arith,
    split-join k.kid (encode_raw url packed ++ b'.' ∷ encode_raw url (tag prim k.key domain packed))
        b'.' h,
    split-join (encode_raw url packed) (encode_raw url (tag prim k.key domain packed)) b'.'
        (contains-encode_raw url packed),
    split_single (encode_raw url (tag prim k.key domain packed)) b'.'
        (contains-encode_raw url (tag prim k.key domain packed)),
  )

module _ {P : Type 0} (prim : Primitives) (codec : Codec P) where
  -- A ring that has the key under its id opens an envelope of any domain as far as the MAC check.
  pub open-envelope_lem :
      (r : Ring) (k : Key) (minted domain packed : Str) (ttl : Duration) (now : Instant)
      → IsFaithful prim
      → IsUsable k
      → IsBytes packed
      → key r k.kid ≡ some k.key
      → open_envelope prim codec r domain (envelope prim k minted packed) ttl now ≡ (
          if tag prim k.key minted packed == tag prim k.key domain packed
          then open_payload prim codec packed ttl now
          else err Error.mac_mismatch)
  unfolding open_envelope open_parts key tag
  open-envelope_lem [] k minted domain packed ttl now f u b e = cc
  open-envelope_lem (k₀ ∷ r) k minted domain packed ttl now f u b e =
      rw (split-envelope prim k minted packed u.no_dot) (
        rw (
          e,
          decode_raw-encode_raw url packed b,
          decode_raw-encode_raw url (tag prim k.key minted packed) (f.hmac_bytes _ _),
        ))
