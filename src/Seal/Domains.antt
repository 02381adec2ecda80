-- ===== src/Seal/Domains.antt =====
-- Domain separation, what runs before the MAC check, and how much of a token an error repeats.
use strava_auth_proxy.Prelude.{
  ℕ, ◌+◌, ◌≤◌, ◌≡◌, ◌≢◌, refl, ap, some, List, [], ◌∷◌, ◌++◌, ok, err, arith, length, length-append,
  length-take, take, sym, inl, inr, Bool-cases, Option-cases, ◌∙◌,
}
use mathlib.Core.Path.{subst}
use mathlib.Core.List.{append_cancel_right}
use strava_auth_proxy.Go.Text.{Str, str, ◌==◌, eq_iff, ne_of_test, split}
use strava_auth_proxy.Go.Base64.{url, decode_raw}
use strava_auth_proxy.Go.Base64.Laws.{IsBytes, decode_raw-encode_raw}
use strava_auth_proxy.Go.Time.{Instant, Duration}
use strava_auth_proxy.Seal.{
  Primitives, Codec, Key, Ring, Error, key, tag, envelope, truncate, domain_state, domain_code,
  max_logged_kid_len, seal, open_parts, open_split, open_envelope,
}
use strava_auth_proxy.Seal.Laws.{IsFaithful, IsUsable, split-envelope}
use strava_auth_proxy.Seal.RoundTrip.{seal-eq-ok, seal_with-eq-ok}
use strava_auth_proxy.Seal.Authentic.{IsAuthentic, open-IsAuthentic}

-- Two keys, and two different messages, with one MAC.
pub record Collision (hmac : Str → Str → Str) : Type 0 where
  pub key₁ : Str
  pub key₂ : Str
  pub message₁ : Str
  pub message₂ : Str
  pub differ : message₁ ≢ message₂
  pub collide : hmac key₁ message₁ ≡ hmac key₂ message₂

some_inj {ℓ} : {A : Type ℓ} {a b : A} → some a ≡ some b → a ≡ b
some_inj h = cc

three_inj :
    {a b c a' b' c' : Str}
    → ◌≡◌ {A = List Str} (a ∷ b ∷ c ∷ []) (a' ∷ b' ∷ c' ∷ [])
    → (b ≡ b') × (c ≡ c')
three_inj h = (cc, cc)

module _ (prim : Primitives) where
  envelope-Collision :
      (k : Key) (r : Ring) (minted domain packed unpacked : Str)
      → IsFaithful prim
      → IsUsable k
      → IsBytes packed
      → minted ≢ domain
      → IsAuthentic prim r domain (envelope prim k minted packed) unpacked
      → Collision prim.hmac
  unfolding tag
  envelope-Collision k r minted domain packed unpacked f u b differ a =
      let parts = three_inj (sym (split-envelope prim k minted packed u.no_dot) ∙ a.parts) in
      let same : packed ≡ unpacked =
        some_inj
          (sym (decode_raw-encode_raw url packed b) ∙ ap (decode_raw url) parts.0 ∙ a.unpacked) in
      let macs : prim.hmac k.key (minted ++ packed) ≡ prim.hmac a.secret (domain ++ unpacked) =
        some_inj (
          sym (decode_raw-encode_raw url _ (f.hmac_bytes k.key (minted ++ packed)))
          ∙ ap (decode_raw url) parts.1
          ∙ a.signed) in
      record {
        key₁ = k.key;
        key₂ = a.secret;
        message₁ = minted ++ packed;
        message₂ = domain ++ packed;
        differ = λ e. differ (append_cancel_right minted domain packed e);
        collide = macs ∙ ap (λ (t : Str). prim.hmac a.secret (domain ++ t)) (sym same);
      }

  -- A token minted under one domain that opens under another, with any ring and for any payload
  -- type, shows two different messages with one MAC.
  pub open-Collision :
      {P Q : Type 0} (minting : Codec P) (opening : Codec Q) (k : Key) (older r : Ring)
      (minted domain : Str) (p : P) (q : Q) (token : Str) (ttl : Duration) (now : Instant)
      → IsFaithful prim
      → minted ≢ domain
      → seal prim minting (k ∷ older) minted p ≡ ok token
      → open_envelope prim opening r domain token ttl now ≡ ok q
      → Collision prim.hmac
  open-Collision minting opening k older r minted domain p q token ttl now f differ sealed opened =
      let (u, with_key) = seal-eq-ok prim minting k older minted p token sealed in
      let (raw, packed, m, e, is_envelope) =
        seal_with-eq-ok prim minting k minted p token with_key in
      let (unpacked, authentic, _) =
        open-IsAuthentic prim opening r domain token ttl now q opened in
      envelope-Collision k r minted domain packed unpacked f u (f.flate_bytes raw packed e) differ
        (subst (λ t. IsAuthentic prim r domain t unpacked) is_envelope authentic)

pub domain_state-ne-domain_code : domain_state ≢ domain_code
unfolding ◌==◌
domain_state-ne-domain_code = ne_of_test domain_state domain_code refl

module _ {P Q : Type 0} (prim prim' : Primitives) (codec : Codec P) (codec' : Codec Q)
    (same_mac : prim.hmac ≡ prim'.hmac) (r : Ring) (domain : Str) (ttl : Duration)
    (now : Instant) where
  parts_before_mac :
      (token kid payload_part mac_part : Str)
      → split token b'.' ≡ kid ∷ payload_part ∷ mac_part ∷ []
      → ((packed : Str) → ¬ IsAuthentic prim r domain token packed)
      → (e : Error) × (open_parts prim codec r domain kid payload_part mac_part ttl now ≡ err e)
        × (open_parts prim' codec' r domain kid payload_part mac_part ttl now ≡ err e)
  unfolding open_parts tag
  parts_before_mac token kid payload_part mac_part s forged = elim (Option-cases (key r kid)) [
    | inl e ↦ (Error.kid_not_in_ring (truncate kid max_logged_kid_len), rw e, rw e)
    | inr (secret, e) ↦ elim (Option-cases (decode_raw url payload_part)) [
      | inl e' ↦ (Error.payload_undecodable, rw (e, e'), rw (e, e'))
      | inr (packed, e') ↦ elim (Option-cases (decode_raw url mac_part)) [
        | inl e'' ↦ (Error.mac_undecodable, rw (e, e', e''), rw (e, e', e''))
        | inr (got, e'') ↦ elim (Bool-cases (got == prim.hmac secret (domain ++ packed))) [
          | inl same ↦ absurd (
              forged packed (record {
                kid = kid;
                payload_part = payload_part;
                mac_part = mac_part;
                secret = secret;
                parts = s;
                listed = e;
                unpacked = e';
                signed = ground (arith, eq_iff got (prim.hmac secret (domain ++ packed)));
              }))
          | inr wrong ↦ (
            Error.mac_mismatch,
            rw (e, e', e'') (rw wrong),
            rw (e, e', e'') (rw (← same_mac) (rw wrong)),
          )
        ]
      ]
    ]
  ]

  split_before_mac :
      (token : Str) (parts : List Str)
      → split token b'.' ≡ parts
      → ((packed : Str) → ¬ IsAuthentic prim r domain token packed)
      → (e : Error) × (open_split prim codec r domain parts ttl now ≡ err e)
        × (open_split prim' codec' r domain parts ttl now ≡ err e)
  unfolding open_split
  split_before_mac token (kid ∷ pp ∷ mp ∷ []) s forged = parts_before_mac token kid pp mp s forged
  split_before_mac token [] s forged = (Error.wrong_parts 0, refl, refl)
  split_before_mac token parts s forged = (Error.wrong_parts (length parts), refl, refl)

-- A token that is not authentic is refused with an error that depends neither on the decompressor,
-- nor on the decoder of payloads, nor on the payload's type: with any others in their place, over
-- the same MAC, the error is the same.
pub open_before_mac :
    {P Q : Type 0} (prim prim' : Primitives) (codec : Codec P) (codec' : Codec Q) (r : Ring)
    (domain token : Str) (ttl : Duration) (now : Instant)
    → prim.hmac ≡ prim'.hmac
    → ((packed : Str) → ¬ IsAuthentic prim r domain token packed)
    → (e : Error) × (open_envelope prim codec r domain token ttl now ≡ err e)
      × (open_envelope prim' codec' r domain token ttl now ≡ err e)
unfolding open_envelope
open_before_mac prim prim' codec codec' [] domain token ttl now same_mac forged =
    (Error.ring_empty, refl, refl)
open_before_mac prim prim' codec codec' (k ∷ r) domain token ttl now same_mac forged =
    split_before_mac prim prim' codec codec' same_mac (k ∷ r) domain ttl now token
      (split token b'.') refl forged

-- Of a key id an error repeats at most its first 64 bytes and the mark that it was cut.
pub length-truncate : (s : Str) (n : ℕ) → length (truncate s n) ≤ n + 14
unfolding truncate
length-truncate s n =
    ground (arith, length-append (take n s) (str "...(truncated)"), length-take n s)
