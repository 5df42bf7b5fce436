-- ===== src/Isa/Shift.antt =====
-- The shift of a signed word of vm/cpuemu.c, a division rounded down, fills with the sign bit.
use native.Mathlib.Nat.{
  div-add-mod, div-eq_of_lt-le, div-lt_iff_lt-mul, mul_comm, one-le-pow, div-le_self,
}
use cspim.Base.{
  ℕ, ◌+◌, ◌-◌, ◌*◌, ◌/◌, ◌%◌, ◌^◌, ◌<◌, ◌≤◌, ◌≡◌, refl, inl, inr, ap, ◌∙◌, sym, ◌==◌, ltb, leb,
  ◌&&◌, arith, IsWord, Bool, true, Bool-cases, each_below, each_below-at,
}
use cspim.Instruction.{sar}
use cspim.Isa.{shift_arithmetic}

-- The quotient of the complement of `p * a + r` by a power of two.
complement_quotient :
    (p a b r : ℕ) → p * (a + 1 + b) ≡ 2 ^ 32 → r < p → (2 ^ 32 - 1 - (p * a + r)) / p ≡ b
complement_quotient p a b r e h = div-eq_of_lt-le {k = b} p (grind arith) (grind arith)

complement-div :
    (p q x : ℕ)
    → 0 < p
    → p * q ≡ 2 ^ 32
    → IsWord x
    → (x / p < q) × ((2 ^ 32 - 1 - x) / p ≡ q - 1 - x / p)
complement-div p q x hp e h =
    let below : x / p < q = (div-lt_iff_lt-mul hp).1 (omega (arith, mul_comm p q)) in
    let parts : q ≡ x / p + 1 + (q - 1 - x / p) = omega arith in
    (
      below,
      ap (λ (t : ℕ). (2 ^ 32 - 1 - t) / p) (sym (div-add-mod x p))
          ∙ complement_quotient p (x / p) (q - 1 - x / p) (x % p)
              (ap (λ (t : ℕ). p * t) (sym parts) ∙ e) (omega arith),
    )

abbrev factors : ℕ → Bool
factors k = (2 ^ k * 2 ^ (32 - k) == 2 ^ 32) && leb (2 ^ (32 - k)) (2 ^ 32)

factors_table : each_below factors 32 ≡ true
unfolding each_below
factors_table = refl

pow-factors : (k : ℕ) → k < 32 → (2 ^ k * 2 ^ (32 - k) ≡ 2 ^ 32) × (2 ^ (32 - k) ≤ 2 ^ 32)
pow-factors k h =
    let both = each_below-at factors 32 k factors_table h in (ground arith, ground arith)

pub sar-shift_arithmetic : (x k : ℕ) → IsWord x → k < 32 → sar x k ≡ shift_arithmetic x k
unfolding sar shift_arithmetic
sar-shift_arithmetic x k h hk =
    let (product, bound) = pow-factors k hk in
    let (below, quotient) =
      complement-div (2 ^ k) (2 ^ (32 - k)) x (one-le-pow k 2 (omega arith)) product h in
    let small : x / 2 ^ k ≤ x = div-le_self x (2 ^ k) in
    elim (Bool-cases (ltb x (2 ^ 31))) [ inl e ↦ rw e (ground arith) | inr e ↦ rw e (ground arith) ]
