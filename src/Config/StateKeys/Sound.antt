-- ===== src/Config/StateKeys/Sound.antt =====
-- What `parse_state_keys` returns passes the loop of `validate` over the keys.
use strava_auth_proxy.Prelude.{
  ◌≢◌, false, Bool-cases, refl, true, ok, ◌≡◌, Result-cases, arith, List, [], ◌∷◌, ◌++◌, inl, inr,
  append-nil, append_assoc, ltb, length, is_empty, Option-cases,
}
use strava_auth_proxy.Go.Text.{Str, cut, trim_space, split}
use strava_auth_proxy.Config.{StateKey, mem, valid_kid}
use strava_auth_proxy.Config.StateKeys.{
  decode_key, parse_pair, parse_entry, parse_entries, not_empty, parse_state_keys,
}
use strava_auth_proxy.Config.Validate.{require, validate_keys}

parse_pair_sound :
    (entry kid encoded : Str) (seen : List Str) (k : StateKey)
    → parse_pair entry kid encoded seen ≡ ok k
    → (valid_kid k.kid ≡ true) × (mem k.kid seen ≡ false) × (ltb (length k.key) 32 ≡ false)
unfolding parse_pair
parse_pair_sound entry kid encoded seen k h = elim (Option-cases (decode_key encoded)) [
  | inl e ↦ absurd (ground arith)
  | inr (key, e) ↦ ground arith
]

parse_entry_sound :
    (entry : Str) (seen : List Str) (k : StateKey)
    → parse_entry entry seen ≡ ok k
    → (valid_kid k.kid ≡ true) × (mem k.kid seen ≡ false) × (ltb (length k.key) 32 ≡ false)
unfolding parse_entry
parse_entry_sound entry seen k h = elim (Option-cases (cut entry b'=')) [
  | inl e ↦ absurd (ground arith)
  | inr ((kid, encoded), e) ↦
      parse_pair_sound entry (trim_space kid) (trim_space encoded) seen k (ground arith)
]

parse_entries_sound :
    (entries seen : List Str) (keys result : List StateKey)
    → parse_entries entries seen keys ≡ ok result
    → (new : List StateKey) × (result ≡ keys ++ new) × (validate_keys new seen ≡ ok tt)
unfolding parse_entries validate_keys require
parse_entries_sound [] seen keys result h = ([], ground (arith, append-nil keys), refl)
parse_entries_sound (raw ∷ entries) seen keys result h =
    elim (Bool-cases (is_empty (trim_space raw))) [
      | inl blank ↦ parse_entries_sound entries seen keys result (ground arith)
      | inr more ↦ elim (Result-cases (parse_entry (trim_space raw) seen)) [
        | inl (e, bad) ↦ absurd (ground arith)
        | inr (k, good) ↦
            let (valid, unseen, long) = parse_entry_sound (trim_space raw) seen k good in
            let (new, same, rest) =
              parse_entries_sound entries (k.kid ∷ seen) (keys ++ k ∷ []) result (ground arith) in
            (
              k ∷ new,
              ground (arith, same, append_assoc keys (k ∷ []) new),
              rw (valid, unseen, long) rest,
            )
      ]
    ]

-- The keys that `parse_state_keys` returns are not empty and pass the loop of `validate`.
pub parse_state_keys-validate_keys :
    (spec : Str) (keys : List StateKey)
    → parse_state_keys spec ≡ ok keys
    → (keys ≢ []) × (validate_keys keys [] ≡ ok tt)
unfolding parse_state_keys not_empty
parse_state_keys-validate_keys spec keys h =
    elim (Result-cases (parse_entries (split spec b',') [] [])) [
      | inl (e, bad) ↦ absurd (ground arith)
      | inr (found, good) ↦
          let (new, same, valid) = parse_entries_sound (split spec b',') [] [] found good in
          let all_of_them : keys ≡ new = ground arith in (ground arith, rw all_of_them valid)
    ]
