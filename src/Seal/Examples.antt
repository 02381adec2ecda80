-- ===== src/Seal/Examples.antt =====
-- A MAC that is the same for all messages lets a code open as a state.
use strava_auth_proxy.Go.Text.{contains, Str, str, ◌==◌}
use strava_auth_proxy.Prelude.{sym, ◌*◌, ◌≡◌, refl, [], ◌∷◌, ◌∙◌, ok}
use strava_auth_proxy.Prelude.Int.{pos, ◌-ℤ◌, scale}
use strava_auth_proxy.Go.Time.{second, sub, unix, saturate}
use strava_auth_proxy.Seal.{
  Primitives, domain_code, domain_state, seal, seal_with, envelope, tag, open_payload,
  open_envelope, inflate, read_capped, check_window, key,
}
use strava_auth_proxy.Seal.Laws.{IsFaithful, open-envelope_lem}
use strava_auth_proxy.Seal.Domains.{Collision, open-Collision, domain_state-ne-domain_code}
use strava_auth_proxy.Tests.Toy.{
  toy, code_codec, toy-IsFaithful, put, put_int, pack, unpack, unary, split_first, get_code,
  get_int,
}
use strava_auth_proxy.Tests.Envelope.{first_key, payload, first_key-IsUsable}

abbrev weak : Primitives
weak = record toy { hmac = λ key message. [] }

weak-IsFaithful : IsFaithful weak
weak-IsFaithful = record {
  flate_bytes = toy-IsFaithful.flate_bytes;
  flate_back = toy-IsFaithful.flate_back;
  hmac_bytes = λ key message. tt;
}

abbrev packed_payload : Str
packed_payload = pack (put (str "42") (put (str "c0de") (put_int (pos 1000))))

abbrev code_token : Str
code_token = envelope weak first_key domain_code packed_payload

is_sealed : seal weak code_codec (first_key ∷ []) domain_code payload ≡ ok code_token
unfolding seal seal_with code_codec toy contains
is_sealed = refl

opens_elsewhere :
    open_envelope weak code_codec
      (first_key ∷ [])
      domain_state
      code_token
      (pos (900 * second))
      (pos (1030 * second))
    ≡ ok payload
unfolding tag key open_payload inflate read_capped code_codec toy pack unpack unary put put_int
    split_first get_code get_int check_window sub unix saturate ◌-ℤ◌ scale ◌==◌
opens_elsewhere =
    open-envelope_lem weak code_codec (first_key ∷ []) first_key domain_code domain_state
      packed_payload (pos (900 * second)) (pos (1030 * second)) weak-IsFaithful first_key-IsUsable
      (weak-IsFaithful.flate_bytes (put (str "42") (put (str "c0de") (put_int (pos 1000))))
        packed_payload refl)
      refl
    ∙ refl

open-Collision_example : Collision weak.hmac
open-Collision_example =
    open-Collision weak code_codec code_codec first_key [] (first_key ∷ []) domain_code domain_state
      payload payload code_token (pos (900 * second)) (pos (1030 * second)) weak-IsFaithful
      (λ e. domain_state-ne-domain_code (sym e)) is_sealed opens_elsewhere
