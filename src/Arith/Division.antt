-- ===== src/Arith/Division.antt =====
-- The quotients and remainders of vm/cpuemu.c against the law of division.
use cspim.Base.{
  ℕ, zero, suc, ◌+◌, ◌*◌, ◌/◌, ◌%◌, ◌^◌, ◌≡◌, ◌≢◌, ◌<◌, ◌≤◌, refl, ◌==◌, if◌then◌else◌, Bool, true,
  false, arith, IsWord, Bool-cases, inl, inr,
}
use native.Mathlib.Omega.{div_any}
use native.Mathlib.Nat.{mod-lt}
use cspim.Base.Int.{ℤ, pos, negsuc, pos_part, neg_part, ◌+ℤ◌, ◌*ℤ◌, pattern_of}
use cspim.Arith.{
  sword, signs_differ, magnitude, negate_if, is_negative, quot_ℤ, rem_ℤ, divide_signed,
  quotient_overflows,
}

pos_part-negate_if : (b : Bool) (n : ℕ) → pos_part (negate_if b n) ≡ (if b then 0 else n)
pos_part-negate_if true n = ground arith
pos_part-negate_if false n = refl

neg_part-negate_if : (b : Bool) (n : ℕ) → neg_part (negate_if b n) ≡ (if b then n else 0)
neg_part-negate_if true n = ground arith
neg_part-negate_if false n = refl

negate_suc : (n : ℕ) → negate_if true (suc n) ≡ negsuc n
negate_suc n = ground arith

-- With the quotient `q` and the remainder `r` of the magnitudes.
law :
    (a b : ℤ) (q r : ℕ)
    → magnitude b * q + r ≡ magnitude a
    → negate_if (signs_differ a b) q *ℤ b +ℤ negate_if (is_negative a) r ≡ a
unfolding ◌*ℤ◌ ◌+ℤ◌
law (pos x) (pos y) q r e = ground arith
law (pos x) (negsuc y) zero r e = ground arith
law (pos x) (negsuc y) (suc q) r e = rw (negate_suc q) (ground arith)
law (negsuc x) (pos y) zero r e = ground arith
law (negsuc x) (pos y) (suc q) r e = rw (negate_suc q) (ground arith)
law (negsuc x) (negsuc y) zero r e = ground arith
law (negsuc x) (negsuc y) (suc q) r e = ground arith

-- The integers that a word stands for.
InRange : ℤ → Type 0
InRange z = (pos_part z < 2 ^ 31) × (neg_part z ≤ 2 ^ 31)

sword-InRange : (x : ℕ) → IsWord x → InRange (sword x)
unfolding InRange
sword-InRange x h = (ground arith, ground arith)

sword-pattern_of : (z : ℤ) → InRange z → sword (pattern_of 32 z) ≡ z
unfolding InRange
sword-pattern_of (pos n) (h, g) = ground arith
sword-pattern_of (negsuc n) (h, g) = ground arith

halved : (b q r a : ℕ) → 2 ≤ b → b * q + r ≡ a → 2 * q ≤ a
halved zero q r a h e = absurd (omega arith)
halved (suc zero) q r a h e = absurd (omega arith)
halved (suc (suc b)) q r a h e = omega arith

at_most : (b q r a : ℕ) → b ≢ 0 → b * q + r ≡ a → q ≤ a
at_most zero q r a h e = absurd (omega arith)
at_most (suc b) q r a h e = omega arith

negate_if-InRange :
    (b : Bool) (n : ℕ) → n ≤ 2 ^ 31 → (b ≡ false → n < 2 ^ 31) → InRange (negate_if b n)
unfolding InRange
negate_if-InRange true n h g = (ground arith, ground arith)
negate_if-InRange false n h g = (g refl, omega arith)

module _ (rs rt : ℕ) (hs : IsWord rs) (ht : IsWord rt) (ne : rt ≢ 0)
    (fits : quotient_overflows rs rt ≡ false) where
  divisor-ne_zero : magnitude (sword rt) ≢ 0
  divisor-ne_zero e = ground arith

  dividend_bound : magnitude (sword rs) ≤ 2 ^ 31
  dividend_bound = ground arith

  same_sign_bound :
      signs_differ (sword rs) (sword rt) ≡ false
      → magnitude (sword rt) ≡ 1
      → magnitude (sword rs) < 2 ^ 31
  same_sign_bound e e' = ground arith

  abbrev quotient : ℕ
  quotient = magnitude (sword rs) / magnitude (sword rt)

  abbrev remainder : ℕ
  remainder = magnitude (sword rs) % magnitude (sword rt)

  remainder_bound : remainder < magnitude (sword rt)
  remainder_bound = mod-lt (magnitude (sword rs)) (omega (arith, divisor-ne_zero))

  divided : magnitude (sword rt) * quotient + remainder ≡ magnitude (sword rs)
  divided = div_any (magnitude (sword rs)) (magnitude (sword rt))

  quotient_bound : signs_differ (sword rs) (sword rt) ≡ false → quotient < 2 ^ 31
  quotient_bound e = elim (Bool-cases (magnitude (sword rt) == 1)) [
    | inl one ↦
        let q = at_most _ quotient remainder _ divisor-ne_zero divided in
        let a = same_sign_bound e (ground arith) in omega (arith, q, a)
    | inr other ↦
        let two : 2 ≤ magnitude (sword rt) = ground (arith, divisor-ne_zero) in
        let q = halved _ quotient remainder _ two divided in omega (arith, q, dividend_bound)
  ]

  quot-InRange : InRange (quot_ℤ (sword rs) (sword rt))
  unfolding quot_ℤ
  quot-InRange =
      let q = at_most _ quotient remainder _ divisor-ne_zero divided in
      negate_if-InRange (signs_differ (sword rs) (sword rt)) quotient
        (omega (arith, q, dividend_bound)) quotient_bound

  divisor_bound : magnitude (sword rt) ≤ 2 ^ 31
  divisor_bound = ground arith

  rem-InRange : InRange (rem_ℤ (sword rs) (sword rt))
  unfolding rem_ℤ
  rem-InRange =
      negate_if-InRange (is_negative (sword rs)) remainder
        (omega (arith, remainder_bound, divisor_bound))
        (λ e. omega (arith, remainder_bound, divisor_bound))

  magnitude-negate_if : (b : Bool) (n : ℕ) → magnitude (negate_if b n) ≡ n
  magnitude-negate_if true n = ground arith
  magnitude-negate_if false n = omega arith

  -- For 32-bit words with a divisor other than 0, except the least integer by -1, the quotient and
  -- the remainder of DIV satisfy the law of division as signed integers: the quotient times the
  -- divisor plus the remainder is the dividend, and the remainder is smaller than the divisor in
  -- magnitude.
  pub divide_signed_law :
      (sword (divide_signed rs rt).0 *ℤ sword rt +ℤ sword (divide_signed rs rt).1 ≡ sword rs)
      × (magnitude (sword (divide_signed rs rt).1) < magnitude (sword rt))
  unfolding divide_signed quot_ℤ rem_ℤ
  divide_signed_law =
      let z : (rt == 0) ≡ false = ground (arith, ne) in
      rw (z, sword-pattern_of _ quot-InRange, sword-pattern_of _ rem-InRange)
        (
          law (sword rs) (sword rt) quotient remainder divided,
          rw (magnitude-negate_if (is_negative (sword rs)) remainder) remainder_bound,
        )
