-- ===== src/Base/Bits/Step.antt =====
-- The library defines the bit operations by `digits`, a recursion that is counted by fuel. Fuel
-- beyond the first argument changes nothing, so each operation has one equation for its lowest
-- digit, at every pair of arguments.
use Prim.Native.Nat.{
  ℕ, zero, suc, ◌+◌, ◌-◌, ◌*◌, ◌/◌, ◌%◌, ◌≤◌, min, max, differ, digits, bitwise, bit_and, bit_or,
  bit_xor, bit_and-bitwise, bit_or-bitwise, bit_xor-bitwise,
}
use mathlib.Core.Path.{◌≡◌, refl, ◌∙◌, ap}
use native.Mathlib.Omega.{arith}

module _ (rest : ℕ → ℕ) (digit : ℕ → ℕ → ℕ) where
  -- One more unit of fuel than is needed.
  spare_unit : (n a b : ℕ) → a ≤ n → digits rest digit (suc n) a b ≡ digits rest digit n a b
  spare_unit zero zero b h = refl
  spare_unit zero (suc a) b h = absurd (omega arith)
  spare_unit (suc n) zero b h = refl
  spare_unit (suc n) (suc a) b h =
      ap (λ (t : ℕ). t * 2 + digit (suc a % 2) (b % 2))
        (spare_unit n (suc a / 2) (b / 2) (omega arith))

  -- Any number of units more than is needed.
  spare_units : (k a b : ℕ) {n : ℕ} → n ≡ k + a → digits rest digit n a b ≡ bitwise rest digit a b
  spare_units zero a b e = rw e (rw (let p : 0 + a ≡ a = omega arith in p))
  spare_units (suc k) a b e = rw e (
      rw (let p : suc k + a ≡ suc (k + a) = omega arith in p)
        (spare_unit (k + a) a b (omega arith) ∙ spare_units k a b refl))

  lowest_digit :
      (a b : ℕ)
      → bitwise rest digit (suc a) b
        ≡ bitwise rest digit (suc a / 2) (b / 2) * 2 + digit (suc a % 2) (b % 2)
  lowest_digit a b =
      ap (λ (t : ℕ). t * 2 + digit (suc a % 2) (b % 2))
        (spare_units (a - suc a / 2) (suc a / 2) (b / 2) (omega arith))

-- The lowest digit of each operation, and the rest.
pub halves-bit_xor : (m n : ℕ) → bit_xor m n ≡ 2 * bit_xor (m / 2) (n / 2) + differ (m % 2) (n % 2)
halves-bit_xor zero n =
    simp bit_xor-bitwise (let e : differ 0 (n % 2) ≡ n % 2 = refl in omega (arith, e))
halves-bit_xor (suc m) n = simp bit_xor-bitwise (omega (arith, lowest_digit (λ y. y) differ m n))

pub halves-bit_and : (m n : ℕ) → bit_and m n ≡ 2 * bit_and (m / 2) (n / 2) + min (m % 2) (n % 2)
halves-bit_and zero n = simp bit_and-bitwise (omega arith)
halves-bit_and (suc m) n = simp bit_and-bitwise (omega (arith, lowest_digit (λ _. 0) min m n))

pub halves-bit_or : (m n : ℕ) → bit_or m n ≡ 2 * bit_or (m / 2) (n / 2) + max (m % 2) (n % 2)
halves-bit_or zero n = simp bit_or-bitwise (omega arith)
halves-bit_or (suc m) n = simp bit_or-bitwise (omega (arith, lowest_digit (λ y. y) max m n))
