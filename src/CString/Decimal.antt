-- ===== src/CString/Decimal.antt =====
-- What `%d` prints for an `int` that is not negative.
use osmud.Prelude.{
  lt→ltb, Bool-cases, inl, inr, ap, ◌∙◌, ◌-◌, ◌-◌, ℕ, zero, suc, ◌+◌, ◌*◌, ◌/◌, ◌%◌, ◌<◌, ◌≤◌, [],
  ◌∷◌, ◌≡◌, arith, if◌then◌else◌, ltb, length,
}
use osmud.CString.{Bytes}

-- The digits of `n` before `acc`. Each step divides by 10, so fuel that is at least `n` is enough.
unfoldable pub digits : ℕ → ℕ → Bytes → Bytes
digits zero n acc = (48 + n % 10) ∷ acc
digits (suc fuel) n acc =
    let rest = digits fuel (n / 10) ((48 + n % 10) ∷ acc) in
    if ltb n 10 then (48 + n % 10) ∷ acc else rest

unfoldable pub decimal : ℕ → Bytes
unfolding digits
decimal n = digits n n []

-- the number that digits print
unfoldable pub value_of : ℕ → Bytes → ℕ
value_of high [] = high
value_of high (c ∷ cs) = value_of (high * 10 + (c - 48)) cs

-- 10 to the power `d`
unfoldable pub power : ℕ → ℕ
power zero = 1
power (suc d) = 10 * power d

digits-length :
    (d fuel n : ℕ) (acc : Bytes)
    → n < power (suc d)
    → length (digits fuel n acc) ≤ suc d + length acc
unfolding digits power
digits-length d zero n acc h = omega arith
digits-length zero (suc fuel) n acc h = ground arith
digits-length (suc d) (suc fuel) n acc h =
    ground (arith, digits-length d fuel (n / 10) ((48 + n % 10) ∷ acc) (omega (arith, h)))

-- A number below 10 to the power `d` has at most `d` digits, where `d` is not 0.
pub decimal-length : (d n : ℕ) → n < power (suc d) → length (decimal n) ≤ suc d
unfolding decimal
decimal-length d n h = omega (arith, digits-length d n n [] h)

same_value : (a b : ℕ) (acc : Bytes) → a ≡ b → value_of a acc ≡ value_of b acc
same_value a b acc e = ap (λ n. value_of n acc) e

digits-value :
    (fuel n : ℕ) (acc : Bytes) → n ≤ fuel → value_of 0 (digits fuel n acc) ≡ value_of n acc
unfolding digits value_of
digits-value zero n acc h = same_value _ n acc (omega (arith, h))
digits-value (suc fuel) n acc h = elim (Bool-cases (ltb n 10)) [
  | inl e ↦ rw e (same_value _ n acc (ground arith))
  | inr e ↦ rw e (
      digits-value fuel (n / 10) ((48 + n % 10) ∷ acc) (ground arith)
      ∙ same_value _ n acc (omega arith))
]

-- The digits of a number have its value.
pub decimal-value : (n : ℕ) → value_of 0 (decimal n) ≡ n
unfolding decimal value_of
decimal-value n = digits-value n n [] (omega arith)

digits-digit : (fuel n : ℕ) → n < 10 → digits fuel n [] ≡ (48 + n) ∷ []
unfolding digits
digits-digit zero n h = ap (λ m. (48 + m) ∷ []) (omega (arith, h))
digits-digit (suc fuel) n h =
    rw (lt→ltb n 10 h, if◌then◌else◌) (ap (λ m. (48 + m) ∷ []) (omega (arith, h)))

-- A number below 10 is one digit.
pub decimal_digit : (n : ℕ) → n < 10 → decimal n ≡ (48 + n) ∷ []
unfolding decimal
decimal_digit n h = digits-digit n n h
