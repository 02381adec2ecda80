-- ===== src/Tests/Envelope.antt =====
-- The envelope: an authorization code that is sealed under one ring and opened under a later one.
use strava_auth_proxy.Go.Text.{split, Str, str, contains, ◌==◌}
use strava_auth_proxy.Tests.Toy.{
  put, put_int, toy, code_codec, state_codec, toy-IsFaithful, toy-IsTotal, code_codec-IsCodec,
}
use strava_auth_proxy.Prelude.{◌+◌, ◌*◌, ◌≡◌, ◌↔◌, ◌≤◌, refl, arith, false, [], ◌∷◌, ok, err, ◌>>◌}
use strava_auth_proxy.Prelude.Int.{pos}
use strava_auth_proxy.Go.Time.{second}
use strava_auth_proxy.Seal.{
  Key, Error, CodePayload, domain_code, domain_state, check_window, seal, open_envelope,
}
use strava_auth_proxy.Seal.Laws.{IsUsable}
use strava_auth_proxy.Seal.RoundTrip.{seal_total, open-seal}
use strava_auth_proxy.Seal.Sealed.{IsSealed, seal_iff}
use strava_auth_proxy.Seal.Authentic.{IsAuthentic, IsReadable, open_iff}
use strava_auth_proxy.Seal.Domains.{open_before_mac}
use strava_auth_proxy.Seal.Window.{check_window_iff}

abbrev pub first_key : Key
first_key = record { kid = str "k1"; key = str "0123456789abcdef0123456789abcdef" }

abbrev second_key : Key
second_key = record { kid = str "k2"; key = str "fedcba9876543210fedcba9876543210" }

abbrev pub payload : CodePayload
payload = record { cid = str "42"; sc = str "c0de"; iat = pos 1000 }

pub first_key-IsUsable : IsUsable first_key
unfolding contains
first_key-IsUsable = record { named = refl; no_dot = refl; keyed = refl }

abbrev pub minted :
    (token : Str) × (seal toy code_codec (first_key ∷ []) domain_code payload ≡ ok token)
minted = seal_total toy code_codec first_key [] domain_code payload first_key-IsUsable toy-IsTotal

seal_iff_example :
    (seal toy code_codec (first_key ∷ []) domain_code payload ≡ ok minted.0)
    ↔ IsSealed toy code_codec (first_key ∷ []) domain_code payload minted.0
seal_iff_example = seal_iff toy code_codec (first_key ∷ []) domain_code payload minted.0

keys_differ : (second_key.kid == first_key.kid) ≡ false
unfolding ◌==◌
keys_differ = refl

open-seal_example :
    open_envelope toy code_codec
      (second_key ∷ first_key ∷ [])
      domain_code
      minted.0
      (pos (900 * second))
      (pos (1030 * second))
    ≡ (check_window (pos 1000) (pos (900 * second)) (pos (1030 * second)) >> ok payload)
unfolding code_codec put put_int
open-seal_example =
    open-seal toy code_codec (λ p. p) (λ p. p.iat) toy-IsFaithful code_codec-IsCodec first_key []
      (second_key ∷ []) [] domain_code payload _ minted.0 (pos (900 * second)) (pos (1030 * second))
      refl (omega arith) minted.1 (keys_differ, tt)

open_iff_example :
    (open_envelope toy code_codec
        (first_key ∷ [])
        domain_code
        minted.0
        (pos (900 * second))
        (pos (1030 * second))
      ≡ ok payload)
    ↔ ((packed : Str) × IsAuthentic toy (first_key ∷ []) domain_code minted.0 packed
        × IsReadable toy code_codec packed (pos (900 * second)) (pos (1030 * second)) payload)
open_iff_example =
    open_iff toy code_codec (first_key ∷ []) domain_code minted.0 (pos (900 * second))
      (pos (1030 * second)) payload

-- A token of one part, whose decompressor and payload do not matter.
not_a_token : (packed : Str) → ¬ IsAuthentic toy (first_key ∷ []) domain_state (str "token") packed
unfolding split
not_a_token packed a = cc (a.parts)

open_before_mac_example :
    (e : Error) × (open_envelope toy code_codec
        (first_key ∷ [])
        domain_state
        (str "token")
        (pos 0)
        (pos 0)
      ≡ err e)
    × (open_envelope
          (record toy { flate_stream = λ packed. ([], false) })
          state_codec
          (first_key ∷ [])
          domain_state
          (str "token")
          (pos 0)
          (pos 0)
        ≡ err e)
open_before_mac_example =
    open_before_mac toy (record toy { flate_stream = λ packed. ([], false) }) code_codec state_codec
      (first_key ∷ []) domain_state (str "token") (pos 0) (pos 0) refl not_a_token

check_window_iff_example :
    (check_window (pos 1000) (pos (900 * second)) (pos (1030 * second)) ≡ ok tt) ↔ (
      (1000 * second ≤ 1030 * second + 60 * second)
      × (1030 * second ≤ 1000 * second + 900 * second))
check_window_iff_example =
    check_window_iff 1000 (1030 * second) (900 * second) (omega arith) (omega arith) (omega arith)
