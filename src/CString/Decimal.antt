-- ===== src/CString/Decimal.antt =====
-- "%d" of `printf`: the decimal digits of an `int`, and how many there are.
use freenote_probe.Base.{
  ℕ, zero, suc, ◌+◌, ◌*◌, ◌/◌, ◌%◌, ◌≤◌, ◌<◌, [], ◌∷◌, ◌++◌, ltb, if◌then◌else◌, arith, length,
  length-append, Bool-cases, inl, inr,
}
use freenote_probe.Base.Int.{ℤ, pos, negsuc}
use freenote_probe.CString.{Bytes}

-- One digit is taken in each round, so the number itself is enough fuel.
unfoldable pub digits : ℕ → ℕ → Bytes
digits zero n = []
digits (suc fuel) n =
    let rest = digits fuel (n / 10) in
    if ltb n 10 then (b'0' + n) ∷ [] else rest ++ (b'0' + n % 10) ∷ []

unfoldable pub decimal : ℤ → Bytes
unfolding digits
decimal (pos n) = digits (n + 1) n
decimal (negsuc n) = b'-' ∷ digits (n + 2) (n + 1)

abbrev pub power_10 : ℕ → ℕ
power_10 zero = 1
power_10 (suc k) = 10 * power_10 k

pub length-digits : (fuel n k : ℕ) → n < power_10 (suc k) → length (digits fuel n) ≤ suc k
unfolding digits
length-digits zero n k h = omega arith
length-digits (suc fuel) n zero h = elim (Bool-cases (ltb n 10)) [
  | inl small ↦ rw small (omega arith)
  | inr large ↦ absurd (ground (arith, large))
]
length-digits (suc fuel) n (suc k) h = elim (Bool-cases (ltb n 10)) [
  | inl small ↦ rw small (omega arith)
  | inr large ↦ rw large (
      omega (
        arith,
        length-append {0} (digits fuel (n / 10)) ((b'0' + n % 10) ∷ []),
        length-digits fuel (n / 10) k (omega arith),
      ))
]

-- A value of a 32-bit `int`.
abbrev pub IsInt : ℤ → Type 0
IsInt (pos n) = n < 2147483648
IsInt (negsuc n) = n < 2147483648

pub length-decimal : (z : ℤ) → IsInt z → length (decimal z) ≤ 11
unfolding decimal
length-decimal (pos n) h = omega (arith, length-digits (n + 1) n 9 (omega arith))
length-decimal (negsuc n) h = omega (arith, length-digits (n + 2) (n + 1) 9 (omega arith))
