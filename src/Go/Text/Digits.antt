-- ===== src/Go/Text/Digits.antt =====
-- The decimal digits of strconv.Itoa, read back.
use strava_auth_proxy.Prelude.{
  ℕ, zero, suc, ◌+◌, ◌-◌, ◌*◌, ◌/◌, ◌%◌, ◌<◌, ◌≡◌, ◌∙◌, sym, ap, [], ◌∷◌, eqb, arith, Bool-cases,
  inl, inr,
}
use strava_auth_proxy.Go.Text.{Str, itoa, decimal}

-- The number that digits denote, after `n` in front of them.
number : Str → ℕ → ℕ
number [] n = n
number (c ∷ s) n = number s (n * 10 + (c - 48))

number-digit :
    (m n : ℕ) (acc : Str) → m * 10 + n % 10 ≡ n → number ((48 + n % 10) ∷ acc) m ≡ number acc n
unfolding number
number-digit m n acc h = ap (λ k. number acc k) (omega arith)

number-decimal : (fuel n : ℕ) (acc : Str) → n < fuel → number (decimal fuel n acc) 0 ≡ number acc n
unfolding decimal
number-decimal zero n acc h = ground arith
number-decimal (suc fuel) n acc h =
    let digit : Str = (48 + n % 10) ∷ acc in
    elim (Bool-cases (eqb (n / 10) 0)) [
      | inl e ↦ rw e (number-digit 0 n acc (ground arith))
      | inr e ↦ rw e (
          number-decimal fuel (n / 10) digit (ground arith)
          ∙ number-digit (n / 10) n acc (omega arith))
    ]

number-itoa : (n : ℕ) → number (itoa n) 0 ≡ n
unfolding itoa number
number-itoa n = number-decimal (n + 1) n [] (omega arith)

pub itoa_injective : (m n : ℕ) → itoa m ≡ itoa n → m ≡ n
itoa_injective m n e = sym (number-itoa m) ∙ ap (λ s. number s 0) e ∙ number-itoa n
