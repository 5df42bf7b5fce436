-- ===== src/Rc5/Rotate.antt =====
-- The rotations of hostapps/rc5-16.c undo each other.
use cspim.Base.{
  ℕ, ◌+◌, ◌-◌, ◌*◌, ◌/◌, ◌%◌, ◌^◌, ◌<◌, ◌≤◌, ◌≡◌, ◌∙◌, ap, refl, arith, u16, IsHalf, each_below,
  each_below-at, ==_iff, ◌==◌,
}
use cspim.Base.Bits.{bit_and_mask, bit_or_fields, bit_or_fields_swapped}
use cspim.Rc5.{rol, ror}
use native.Mathlib.Nat.{
  one-le-pow, mul_assoc, mul_comm, mul-le-mul_right, add-mul, div-add-mod', div-lt_iff_lt-mul,
  mul-add-div_right, div-eq_of_lt, mod-lt, mul-add-mod_self_right, mod-eq_of_lt,
}

-- A word is split by `q` and its parts change places.
unfoldable pub rotated : ℕ → ℕ → ℕ → ℕ
rotated p q x = x % q * p + x / q

module _ (p q x : ℕ) (whole : p * q ≡ 2 ^ 16) (hp : 0 < p) (hq : 0 < q) (h : x < 2 ^ 16) where
  quotient-lt : x / q < p
  quotient-lt = (div-lt_iff_lt-mul hq).1 (omega (arith, whole))

  -- The bits that are shifted out on the left are lost.
  shifted_left : x * p ≡ x / q * 2 ^ 16 + x % q * p
  shifted_left =
      ap (λ (t : ℕ). t * p) (let e : x ≡ x / q * q + x % q = omega (arith, div-add-mod' x q) in e)
      ∙ add-mul (x / q * q) (x % q) p
      ∙ ap (λ (t : ℕ). t + x % q * p)
          (mul_assoc (x / q) q p ∙ ap (λ (t : ℕ). x / q * t) (mul_comm q p ∙ whole))

  pub rotated-lt : rotated p q x < 2 ^ 16
  unfolding rotated
  rotated-lt = omega (
    arith,
    quotient-lt,
    whole,
    mul_comm p q,
    add-mul (x % q) 1 p,
    mul-le-mul_right p (let l : x % q + 1 ≤ q = omega (arith, mod-lt x hq) in l),
  )

  pub rotated-rotated : rotated q p (rotated p q x) ≡ x
  unfolding rotated
  rotated-rotated =
      let a : x / q % p ≡ x / q = mod-eq_of_lt quotient-lt in
      let b : x / q / p ≡ 0 = div-eq_of_lt quotient-lt in
      omega (
        arith,
        ap (λ (t : ℕ). t * q) (mul-add-mod_self_right (x % q) p (x / q) ∙ a),
        mul-add-div_right hp (x % q) (x / q),
        b,
        div-add-mod' x q,
      )

  -- The cast to 16 bits of both parts.
  pub u16-rotated : u16 (x * p + x / q) ≡ rotated p q x
  unfolding rotated
  u16-rotated = omega (arith, shifted_left, rotated-lt)

-- The two shift amounts of a rotation.
complement : (m : ℕ) → m < 16 → 2 ^ m * 2 ^ (16 - m) ≡ 2 ^ 16
unfolding each_below
complement m h = (==_iff _ _).0 (each_below-at (λ k. 2 ^ k * 2 ^ (16 - k) == 2 ^ 16) 16 m refl h)

complement_swapped : (m : ℕ) → m < 16 → 2 ^ (16 - m) * 2 ^ m ≡ 2 ^ 16
complement_swapped m h = mul_comm (2 ^ (16 - m)) (2 ^ m) ∙ complement m h

positive : (k : ℕ) → 0 < 2 ^ k
positive k = one-le-pow k 2 (omega arith)

module _ (x n : ℕ) (h : IsHalf x) where
  shift-lt : n % 16 < 16
  shift-lt = omega arith

  pub rol-rotated : rol x n ≡ rotated (2 ^ (n % 16)) (2 ^ (16 - n % 16)) x
  unfolding rol
  rol-rotated =
      rw
        (
          bit_and_mask 4 n,
          bit_or_fields (n % 16) x (x / 2 ^ (16 - n % 16))
              (quotient-lt _ _ x (complement _ shift-lt) (positive _) (positive _) h),
        )
        (u16-rotated _ _ x (complement _ shift-lt) (positive _) (positive _) h)

  pub ror-rotated : ror x n ≡ rotated (2 ^ (16 - n % 16)) (2 ^ (n % 16)) x
  unfolding ror
  ror-rotated =
      rw
        (
          bit_and_mask 4 n,
          bit_or_fields_swapped (16 - n % 16) x (x / 2 ^ (n % 16))
              (quotient-lt _ _ x (complement_swapped _ shift-lt) (positive _) (positive _) h),
        )
        (u16-rotated _ _ x (complement_swapped _ shift-lt) (positive _) (positive _) h)

  pub rol-IsHalf : IsHalf (rol x n)
  rol-IsHalf = rw rol-rotated (rotated-lt _ _ x (complement _ shift-lt) (positive _) (positive _) h)

  pub ror-IsHalf : IsHalf (ror x n)
  ror-IsHalf =
      rw ror-rotated (rotated-lt _ _ x (complement_swapped _ shift-lt) (positive _) (positive _) h)

pub ror-rol : (x n : ℕ) → IsHalf x → ror (rol x n) n ≡ x
ror-rol x n h =
    ror-rotated (rol x n) n (rol-IsHalf x n h)
    ∙ rw (rol-rotated x n h)
        (rotated-rotated _ _ x (complement _ (omega arith)) (positive _) (positive _) h)

pub rol-ror : (x n : ℕ) → IsHalf x → rol (ror x n) n ≡ x
rol-ror x n h =
    rol-rotated (ror x n) n (ror-IsHalf x n h)
    ∙ rw (ror-rotated x n h)
        (rotated-rotated _ _ x (complement_swapped _ (omega arith)) (positive _) (positive _) h)
