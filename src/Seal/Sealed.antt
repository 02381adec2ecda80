-- ===== src/Seal/Sealed.antt =====
-- internal/seal/seal.go: what Ring.Seal makes, byte for byte.
use strava_auth_proxy.Prelude.{◌≡◌, ◌↔◌, ◌≢◌, refl, some, [], ◌∷◌, ◌++◌, ok, false, arith, is_empty}
use strava_auth_proxy.Go.Text.{Str, contains}
use strava_auth_proxy.Go.Base64.{url, encode_raw}
use strava_auth_proxy.Seal.{Primitives, Codec, Key, Ring, tag, envelope, seal_with, seal}
use strava_auth_proxy.Seal.RoundTrip.{seal-eq-ok, seal_with-eq-ok}

-- The ring's first key has an id without a dot and a key, and the token is the id, the packed JSON
-- of the payload and its MAC under that key over the domain, the last two in base64 and a dot between
-- each two.
pub record IsSealed {P : Type 0} (prim : Primitives) (codec : Codec P) (r : Ring) (domain : Str)
    (payload : P) (token : Str) : Type 0 where
  pub first : Key
  pub rest : Ring
  pub raw : Str
  pub packed : Str
  pub ring : r ≡ first ∷ rest
  pub named : first.kid ≢ []
  pub no_dot : contains first.kid b'.' ≡ false
  pub keyed : first.key ≢ []
  pub marshalled : codec.marshal payload ≡ some raw
  pub compressed : prim.flate raw ≡ some packed
  pub parts :
      token
      ≡ first.kid
        ++ b'.'
          ∷ (encode_raw url packed
              ++ b'.' ∷ encode_raw url (prim.hmac first.key (domain ++ packed)))

not_empty : (s : Str) → is_empty s ≡ false → s ≢ []
not_empty s h = ground arith

is_empty-false : (s : Str) → s ≢ [] → is_empty s ≡ false
is_empty-false s h = ground arith

module _ {P : Type 0} (prim : Primitives) (codec : Codec P) where
  seal-IsSealed :
      (r : Ring) (domain : Str) (payload : P) (token : Str)
      → seal prim codec r domain payload ≡ ok token
      → IsSealed prim codec r domain payload token
  unfolding seal envelope tag
  seal-IsSealed [] domain payload token h = absurd (cc h)
  seal-IsSealed (k ∷ r) domain payload token h =
      let (usable, sealed) = seal-eq-ok prim codec k r domain payload token h in
      let (raw, packed, marshalled, compressed, parts) =
        seal_with-eq-ok prim codec k domain payload token sealed in
      record {
        first = k;
        rest = r;
        raw = raw;
        packed = packed;
        ring = refl;
        named = not_empty k.kid usable.named;
        no_dot = usable.no_dot;
        keyed = not_empty k.key usable.keyed;
        marshalled = marshalled;
        compressed = compressed;
        parts = parts;
      }

  IsSealed-seal :
      (r : Ring) (domain : Str) (payload : P) (token : Str)
      → IsSealed prim codec r domain payload token
      → seal prim codec r domain payload ≡ ok token
  unfolding seal seal_with envelope tag
  IsSealed-seal r domain payload token s =
      rw
        (
          s.ring,
          is_empty-false s.first.kid s.named,
          s.no_dot,
          is_empty-false s.first.key s.keyed,
          s.marshalled,
          s.compressed,
          s.parts,
        )
        refl

  -- Sealing gives a token exactly when the ring has a first key, its id is not empty and has no dot,
  -- it is not empty itself, and the payload has JSON that can be compressed; the token is then the
  -- id, the compressed JSON and the MAC under that key over the domain and the compressed JSON, the
  -- last two in base64, with a dot between each two.
  pub seal_iff :
      (r : Ring) (domain : Str) (payload : P) (token : Str)
      → (seal prim codec r domain payload ≡ ok token) ↔ IsSealed prim codec r domain payload token
  seal_iff r domain payload token =
      (seal-IsSealed r domain payload token, IsSealed-seal r domain payload token)
