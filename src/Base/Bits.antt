-- ===== src/Base/Bits.antt =====
-- Laws of the native bit operations at variables: the split of both arguments at any bit, bounds,
-- masks, disjoint fields, and exclusive or as its own inverse.
mod Step
use Prim.Native.Nat.{
  ℕ, zero, suc, ◌+◌, ◌-◌, ◌*◌, ◌/◌, ◌%◌, ◌^◌, ◌≤◌, ◌<◌, min, max, differ, bit_and, bit_or, bit_xor,
  bit_and-bitwise, bit_or-bitwise,
}
use mathlib.Core.Path.{◌≡◌, refl, ap, ap₂, ◌∙◌}
use native.Mathlib.Nat.{pow-suc, one-le-pow, div-add-mod, mod-lt}
use native.Mathlib.Omega.{arith}
use Step.{halves-bit_and, halves-bit_or, halves-bit_xor}

-- An operation that works digit by digit, on digits 0 and 1.
record IsBitwise (op digit : ℕ → ℕ → ℕ) : Type 0 where
  halves : (a b : ℕ) → op a b ≡ 2 * op (a / 2) (b / 2) + digit (a % 2) (b % 2)
  zeros : op 0 0 ≡ 0
  digit-lt : (a b : ℕ) → a < 2 → b < 2 → digit a b < 2

shift_pow : (q k : ℕ) → q * 2 ^ suc k ≡ q * 2 ^ k * 2
shift_pow q k = omega (arith, ap (λ (t : ℕ). q * t) (pow-suc 2 k))

module _ {op digit : ℕ → ℕ → ℕ} (bw : IsBitwise op digit) where
  -- Both arguments split at bit `k`: the high parts and the low parts are treated apart.
  split :
      (k a b x y : ℕ)
      → x < 2 ^ k
      → y < 2 ^ k
      → op (a * 2 ^ k + x) (b * 2 ^ k + y) ≡ op a b * 2 ^ k + op x y
  split zero a b x y hx hy =
      let ex : x ≡ 0 = omega arith in
      let ey : y ≡ 0 = omega arith in
      rw (ex, ey)
        (rw
          (
            let p : a * 2 ^ 0 + 0 ≡ a = omega arith in p,
            let p : b * 2 ^ 0 + 0 ≡ b = omega arith in p,
          )
          (omega (arith, bw.zeros)))
  split (suc k) a b x y hx hy =
      let p : (a * 2 ^ suc k + x) / 2 ≡ a * 2 ^ k + x / 2 = omega (arith, shift_pow a k) in
      let q : (b * 2 ^ suc k + y) / 2 ≡ b * 2 ^ k + y / 2 = omega (arith, shift_pow b k) in
      let r : (a * 2 ^ suc k + x) % 2 ≡ x % 2 = omega (arith, shift_pow a k) in
      let s : (b * 2 ^ suc k + y) % 2 ≡ y % 2 = omega (arith, shift_pow b k) in
      bw.halves (a * 2 ^ suc k + x) (b * 2 ^ suc k + y)
      ∙ rw (p, q, r, s)
          (omega (
            arith,
            split k a b (x / 2) (y / 2) (omega (arith, pow-suc 2 k)) (omega (arith, pow-suc 2 k)),
            bw.halves x y,
            shift_pow (op a b) k,
          ))

  bound : (k a b : ℕ) → a < 2 ^ k → b < 2 ^ k → op a b < 2 ^ k
  bound zero a b ha hb =
      let ea : a ≡ 0 = omega arith in
      let eb : b ≡ 0 = omega arith in rw (ea, eb, bw.zeros) (omega arith)
  bound (suc k) a b ha hb = omega (
    arith,
    bw.halves a b,
    bound k (a / 2) (b / 2) (omega (arith, pow-suc 2 k)) (omega (arith, pow-suc 2 k)),
    bw.digit-lt (a % 2) (b % 2) (omega arith) (omega arith),
    pow-suc 2 k,
  )

differ-lt : (a b : ℕ) → a < 2 → b < 2 → differ a b < 2
differ-lt zero b p q = q
differ-lt (suc zero) zero p q = omega arith
differ-lt (suc zero) (suc zero) p q = omega arith
differ-lt (suc zero) (suc (suc b)) p q = absurd (omega arith)
differ-lt (suc (suc a)) b p q = absurd (omega arith)

and-IsBitwise : IsBitwise bit_and min
and-IsBitwise = record { halves = halves-bit_and; zeros = refl; digit-lt = λ a b p q. omega arith }

or-IsBitwise : IsBitwise bit_or max
or-IsBitwise = record { halves = halves-bit_or; zeros = refl; digit-lt = λ a b p q. omega arith }

xor-IsBitwise : IsBitwise bit_xor differ
xor-IsBitwise = record { halves = halves-bit_xor; zeros = refl; digit-lt = differ-lt }

pub bit_and_split :
    (k a b x y : ℕ)
    → x < 2 ^ k
    → y < 2 ^ k
    → bit_and (a * 2 ^ k + x) (b * 2 ^ k + y) ≡ bit_and a b * 2 ^ k + bit_and x y
bit_and_split = split and-IsBitwise

pub bit_or_split :
    (k a b x y : ℕ)
    → x < 2 ^ k
    → y < 2 ^ k
    → bit_or (a * 2 ^ k + x) (b * 2 ^ k + y) ≡ bit_or a b * 2 ^ k + bit_or x y
bit_or_split = split or-IsBitwise

pub bit_and-lt : (k a b : ℕ) → a < 2 ^ k → b < 2 ^ k → bit_and a b < 2 ^ k
bit_and-lt = bound and-IsBitwise

pub bit_or-lt : (k a b : ℕ) → a < 2 ^ k → b < 2 ^ k → bit_or a b < 2 ^ k
bit_or-lt = bound or-IsBitwise

pub bit_xor-lt : (k a b : ℕ) → a < 2 ^ k → b < 2 ^ k → bit_xor a b < 2 ^ k
bit_xor-lt = bound xor-IsBitwise

-- A bound on a value gives one on its digits: every number lies below a power of two.
below_pow : (a : ℕ) → a < 2 ^ a
below_pow zero = omega arith
below_pow (suc a) = omega (arith, below_pow a, pow-suc 2 a)

bit_and-zero_below : (k a : ℕ) → a < 2 ^ k → bit_and a 0 ≡ 0
bit_and-zero_below zero a h = let e : a ≡ 0 = omega arith in rw e
bit_and-zero_below (suc k) a h =
    omega (arith, halves-bit_and a 0, bit_and-zero_below k (a / 2) (omega (arith, pow-suc 2 k)))

pub bit_and-zero : (a : ℕ) → bit_and a 0 ≡ 0
bit_and-zero a = bit_and-zero_below a a (below_pow a)

bit_or-zero_below : (k a : ℕ) → a < 2 ^ k → bit_or a 0 ≡ a
bit_or-zero_below zero a h = let e : a ≡ 0 = omega arith in rw e
bit_or-zero_below (suc k) a h =
    omega (arith, halves-bit_or a 0, bit_or-zero_below k (a / 2) (omega (arith, pow-suc 2 k)))

pub bit_or-zero : (a : ℕ) → bit_or a 0 ≡ a
bit_or-zero a = bit_or-zero_below a a (below_pow a)

pub zero-bit_or : (a : ℕ) → bit_or 0 a ≡ a
zero-bit_or a = bit_or-bitwise 0 a

-- All of the low `k` bits are kept by a mask of `k` ones.
bit_and_ones : (k r : ℕ) → r < 2 ^ k → bit_and r (2 ^ k - 1) ≡ r
bit_and_ones zero r h = let e : r ≡ 0 = omega arith in rw e
bit_and_ones (suc k) r h =
    let p : (2 ^ suc k - 1) / 2 ≡ 2 ^ k - 1 = omega (arith, pow-suc 2 k, one-le-pow k 2) in
    let q : (2 ^ suc k - 1) % 2 ≡ 1 = omega (arith, pow-suc 2 k, one-le-pow k 2) in
    halves-bit_and r (2 ^ suc k - 1)
    ∙ rw (p, q) (omega (arith, bit_and_ones k (r / 2) (omega (arith, pow-suc 2 k))))

-- `a & (2 ^ k - 1)` is the remainder by `2 ^ k`.
pub bit_and_mask : (k a : ℕ) → bit_and a (2 ^ k - 1) ≡ a % 2 ^ k
bit_and_mask k a =
    let hr : a % 2 ^ k < 2 ^ k = omega (arith, one-le-pow k 2) in
    let e : a ≡ a / 2 ^ k * 2 ^ k + a % 2 ^ k = omega (arith, div-add-mod a (2 ^ k)) in
    let m : 2 ^ k - 1 ≡ 0 * 2 ^ k + (2 ^ k - 1) = omega arith in
    ap₂ bit_and e m
    ∙ bit_and_split k (a / 2 ^ k) 0 (a % 2 ^ k) (2 ^ k - 1) hr (omega (arith, one-le-pow k 2))
    ∙ omega
        (arith, ap (λ (t : ℕ). t * 2 ^ k) (bit_and-zero (a / 2 ^ k)), bit_and_ones k (a % 2 ^ k) hr)

-- `(a << k) | x` is a sum when `x` fits the low `k` bits, in either order.
pub bit_or_fields : (k a x : ℕ) → x < 2 ^ k → bit_or (a * 2 ^ k) x ≡ a * 2 ^ k + x
bit_or_fields k a x h =
    let e : a * 2 ^ k ≡ a * 2 ^ k + 0 = omega arith in
    let f : x ≡ 0 * 2 ^ k + x = omega arith in
    ap₂ bit_or e f
    ∙ bit_or_split k a 0 0 x (one-le-pow k 2 (omega arith)) h
    ∙ omega (arith, ap (λ (t : ℕ). t * 2 ^ k) (bit_or-zero a), zero-bit_or x)

pub bit_or_fields_swapped : (k a x : ℕ) → x < 2 ^ k → bit_or x (a * 2 ^ k) ≡ a * 2 ^ k + x
bit_or_fields_swapped k a x h =
    let e : a * 2 ^ k ≡ a * 2 ^ k + 0 = omega arith in
    let f : x ≡ 0 * 2 ^ k + x = omega arith in
    ap₂ bit_or f e
    ∙ bit_or_split k 0 a x 0 h (one-le-pow k 2 (omega arith))
    ∙ omega (arith, ap (λ (t : ℕ). t * 2 ^ k) (zero-bit_or a), bit_or-zero x)

differ-differ : (a b : ℕ) → a < 2 → b < 2 → differ (differ a b) b ≡ a
differ-differ zero zero p q = refl
differ-differ zero (suc zero) p q = refl
differ-differ (suc zero) zero p q = refl
differ-differ (suc zero) (suc zero) p q = refl
differ-differ zero (suc (suc b)) p q = absurd (omega arith)
differ-differ (suc zero) (suc (suc b)) p q = absurd (omega arith)
differ-differ (suc (suc a)) b p q = absurd (omega arith)

-- Exclusive or is undone by itself.
pub bit_xor-bit_xor : (k a b : ℕ) → a < 2 ^ k → b < 2 ^ k → bit_xor (bit_xor a b) b ≡ a
bit_xor-bit_xor zero a b ha hb =
    let ea : a ≡ 0 = omega arith in let eb : b ≡ 0 = omega arith in rw (ea, eb)
bit_xor-bit_xor (suc k) a b ha hb =
    let d = differ-lt (a % 2) (b % 2) (omega arith) (omega arith) in
    let p : bit_xor a b / 2 ≡ bit_xor (a / 2) (b / 2) = omega (arith, halves-bit_xor a b) in
    let q : bit_xor a b % 2 ≡ differ (a % 2) (b % 2) = omega (arith, halves-bit_xor a b) in
    halves-bit_xor (bit_xor a b) b
    ∙ rw (p, q)
        (omega (
          arith,
          bit_xor-bit_xor k (a / 2) (b / 2) (omega (arith, pow-suc 2 k))
              (omega (arith, pow-suc 2 k)),
          differ-differ (a % 2) (b % 2) (omega arith) (omega arith),
        ))

-- `(w & ~field) | (v << k)`: the bits from `k` up to `h` of `w` are replaced by `v`.
pub bit_insert :
    (k h m w v : ℕ)
    → 2 ^ k ≤ 2 ^ h
    → v * 2 ^ k + 2 ^ k ≤ 2 ^ h
    → bit_or (bit_and w ((2 ^ m - 1) * 2 ^ h + (2 ^ k - 1))) (v * 2 ^ k)
      ≡ w / 2 ^ h % 2 ^ m * 2 ^ h + (v * 2 ^ k + w % 2 ^ h % 2 ^ k)
bit_insert k h m w v p q =
    let hk : 0 < 2 ^ k = one-le-pow k 2 (omega arith) in
    let low : w % 2 ^ h % 2 ^ k < 2 ^ k = omega arith in
    let e : w ≡ w / 2 ^ h * 2 ^ h + w % 2 ^ h = omega (arith, div-add-mod w (2 ^ h)) in
    let kept : bit_and w ((2 ^ m - 1) * 2 ^ h + (2 ^ k - 1))
        ≡ w / 2 ^ h % 2 ^ m * 2 ^ h + w % 2 ^ h % 2 ^ k =
      ap (λ (t : ℕ). bit_and t ((2 ^ m - 1) * 2 ^ h + (2 ^ k - 1))) e
      ∙ bit_and_split h (w / 2 ^ h) (2 ^ m - 1) (w % 2 ^ h) (2 ^ k - 1) (omega arith) (omega arith)
      ∙ rw (bit_and_mask m (w / 2 ^ h), bit_and_mask k (w % 2 ^ h)) refl in
    let f : v * 2 ^ k ≡ 0 * 2 ^ h + v * 2 ^ k = omega arith in
    ap₂ bit_or kept f
    ∙ bit_or_split h (w / 2 ^ h % 2 ^ m) 0 (w % 2 ^ h % 2 ^ k) (v * 2 ^ k) (omega arith)
        (omega arith)
    ∙ rw (bit_or-zero (w / 2 ^ h % 2 ^ m), bit_or_fields_swapped k v (w % 2 ^ h % 2 ^ k) low) refl
