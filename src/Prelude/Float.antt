-- ===== src/Prelude/Float.antt =====
-- Go's float64, as far as it is not negative and stays below infinity: the number of units of
-- 2^-1074 that it is. Results are rounded to 53 binary digits, to the nearest and ties to even, as
-- IEEE 754 says.
use native.Mathlib.Nat.{
  pow-suc, mul-one, mul_assoc, mul-lt-mul_of_pos_right, mul-div_cancel, mul-mod_left,
  le-div_iff_mul-le,
}
use deins_complete.Prelude.{
  ℕ, zero, suc, ◌+◌, ◌-◌, ◌*◌, ◌/◌, ◌%◌, ◌^◌, ◌≤◌, ◌<◌, ◌≡◌, refl, true, false, ltb, inl, inr,
  Bool-cases, ltb→lt, lt→ltb, ltb_false→le, arith, if◌then◌else◌,
}

unfoldable pub exponent : ℕ
exponent = 1074

-- The number 1.
unfoldable pub float_one : ℕ
float_one = 2 ^ exponent

-- The whole number nearest to p / q, the even one of two.
unfoldable pub nearest : ℕ → ℕ → ℕ
nearest p q =
    let n = p / q in
    let rest = p % q in
    if ltb (2 * rest) q then n else if ltb q (2 * rest) then suc n else n + n % 2

-- p / q with 53 binary digits, doubling the unit until they suffice.
unfoldable pub rounded_from : ℕ → ℕ → ℕ → ℕ
rounded_from zero p q = nearest p q
rounded_from (suc n) p q = elim (ltb p (2 ^ 53 * q)) [
  | true ↦ nearest p q
  | false ↦ 2 * rounded_from n p (2 * q)
]

-- What the operations round is below 2^4200 units.
unfoldable pub doublings : ℕ
doublings = 4200

unfoldable pub rounded : ℕ → ℕ → ℕ
rounded p q = rounded_from doublings p q

-- float64(n)
unfoldable pub to_float : ℕ → ℕ
to_float n = rounded (n * float_one) 1

unfoldable pub add_float : ℕ → ℕ → ℕ
add_float a b = rounded (a + b) 1

-- a - b, where b is not greater
unfoldable pub sub_float : ℕ → ℕ → ℕ
sub_float a b = rounded (a - b) 1

unfoldable pub mul_float : ℕ → ℕ → ℕ
mul_float a b = rounded (a * b) float_one

unfoldable pub div_float : ℕ → ℕ → ℕ
div_float a b = rounded (a * float_one) b

-- int(a)
unfoldable pub of_float : ℕ → ℕ
of_float a = a / float_one

nearest_exact : (m q : ℕ) → 0 < q → nearest (m * q) q ≡ m
unfolding nearest
nearest_exact m q h = rw (mul-div_cancel m h, mul-mod_left m q) (ground arith)

nearest_ge : (n p q : ℕ) → 0 < q → n * q ≤ p → n ≤ nearest p q
unfolding nearest
nearest_ge n p q h k = let fits = (le-div_iff_mul-le h).1 k in ground arith

-- Doubling the denominator is halving the power of two.
halved : (m j q : ℕ) → m * 2 ^ suc j * q ≡ m * 2 ^ j * (2 * q)
halved m j q = rw (pow-suc 2 j) (omega (arith, mul_assoc m (2 ^ j) 2, mul_assoc (m * 2 ^ j) 2 q))

rounded_exact :
    (fuel m j q : ℕ)
    → 0 < q
    → m < 2 ^ 53
    → j ≤ fuel
    → rounded_from fuel (m * 2 ^ j * q) q ≡ m * 2 ^ j
unfolding rounded_from
rounded_exact zero m j q h k l = nearest_exact (m * 2 ^ j) q h
rounded_exact (suc n) m zero q h k l =
    let few : ltb (m * 1 * q) (2 ^ 53 * q) ≡ true =
      lt→ltb _ _ (mul-lt-mul_of_pos_right (omega arith) h) in
    rw (rounded_from, few) (nearest_exact (m * 1) q h)
rounded_exact (suc n) m (suc j) q h k l =
    let rest = rounded_exact n m j (2 * q) (omega arith) k (omega arith) in
    elim (Bool-cases (ltb (m * 2 ^ suc j * q) (2 ^ 53 * q))) [
      | inl few ↦ rw (rounded_from, few) (nearest_exact (m * 2 ^ suc j) q h)
      | inr many ↦
          rw (rounded_from, many)
            (rw (halved m j q) (rw rest (rw (pow-suc 2 j) (omega (arith, mul_assoc m (2 ^ j) 2)))))
    ]

rounded_ge : (fuel j p q : ℕ) → 0 < q → 2 ^ j * q ≤ p → 2 ^ j ≤ rounded_from fuel p q
unfolding rounded_from
rounded_ge zero j p q h k = nearest_ge (2 ^ j) p q h k
rounded_ge (suc n) zero p q h k = elim (Bool-cases (ltb p (2 ^ 53 * q))) [
  | inl few ↦ rw (rounded_from, few) (nearest_ge 1 p q h k)
  | inr many ↦
      rw (rounded_from, many)
        (omega (
          arith,
          rounded_ge n 0 p (2 * q) (omega arith) (omega (arith, ltb_false→le p (2 ^ 53 * q) many)),
        ))
]
rounded_ge (suc n) (suc j) p q h k = elim (Bool-cases (ltb p (2 ^ 53 * q))) [
  | inl few ↦ rw (rounded_from, few) (nearest_ge (2 ^ suc j) p q h k)
  | inr many ↦
      rw (rounded_from, many)
        (rw (pow-suc 2 j)
          (omega (arith, rounded_ge n j p (2 * q) (omega arith) (omega (arith, halved 1 j q)))))
]

exponent_le : exponent ≤ doublings
unfolding exponent doublings
exponent_le = omega arith

pub float_one_pos : 0 < float_one
unfolding float_one exponent
float_one_pos = ltb→lt 0 float_one refl

-- The whole numbers below 2^53 are exact.
pub rounded_whole : (n : ℕ) → n < 2 ^ 53 → rounded (n * float_one) 1 ≡ n * float_one
unfolding rounded float_one
rounded_whole n h =
    rw (mul-one (n * 2 ^ exponent)) at
      (rounded_exact doublings n exponent 1 (omega arith) h exponent_le)

pub to_float_lem : (n : ℕ) → n < 2 ^ 53 → to_float n ≡ n * float_one
unfolding to_float
to_float_lem n h = rounded_whole n h

pub rounded_zero : (q : ℕ) → 0 < q → rounded 0 q ≡ 0
unfolding rounded
rounded_zero q h =
    let none_left : 0 * q ≡ 0 = omega arith in
    rw none_left at (rounded_exact doublings 0 0 q h (omega arith) (omega arith))

-- What is 1 or more stays 1 or more.
pub one-le_rounded : (p q : ℕ) → 0 < q → float_one * q ≤ p → float_one ≤ rounded p q
unfolding rounded float_one
one-le_rounded p q h k = rounded_ge doublings exponent p q h k
