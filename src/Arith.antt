-- ===== src/Arith.antt =====
-- The arithmetic helpers of vm/cpuemu.c: addition and subtraction with a check for overflow, the
-- products of 64 bits, and the division macro of `do_divmult`.
pub mod Overflow
pub mod Division
use cspim.Base.{ℕ, ◌+◌, ◌-◌, ◌*◌, ◌/◌, ◌%◌, ◌^◌, ◌==◌, if◌then◌else◌, ◌>>>◌, Bool, ◌||◌, ◌&&◌}
use cspim.Base.Int.{ℤ, pos, negsuc, pos_part, neg_part, ltb_ℤ, ◌+ℤ◌, ◌-ℤ◌, ◌*ℤ◌, signed, pattern_of}
use cspim.Cpu.{Exception, done, thrown, Command}

-- A value of type mips_sword.
abbrev pub sword : ℕ → ℤ
sword w = signed 32 w

-- `(z < -2147483648LL) || (z > 2147483647LL)`
abbrev pub out_of_range : ℤ → Bool
out_of_range z = ltb_ℤ z (negsuc 2147483647) || ltb_ℤ (pos 2147483647) z

unfoldable pub add_ovf : ℕ → ℕ → Command ℕ
unfolding ◌+ℤ◌
add_ovf x y c =
    let z = sword x +ℤ sword y in
    if out_of_range z then thrown Exception.overflow c else done (pattern_of 32 z) c

unfoldable pub sub_ovf : ℕ → ℕ → Command ℕ
unfolding ◌-ℤ◌
sub_ovf x y c =
    let z = sword x -ℤ sword y in
    if out_of_range z then thrown Exception.overflow c else done (pattern_of 32 z) c

-- The high and the low word of the product, which cannot overflow 64 bits.
unfoldable pub multu : ℕ → ℕ → ℕ × ℕ
multu x y = let r = x * y in (r >>> 32, r % 2 ^ 32)

unfoldable pub mult : ℕ → ℕ → ℕ × ℕ
unfolding ◌*ℤ◌
mult x y = let r = pattern_of 64 (sword x *ℤ sword y) in (r >>> 32, r % 2 ^ 32)

-- C's `/` and `%` on integers: the quotient is rounded towards 0.
abbrev pub signs_differ : ℤ → ℤ → Bool
signs_differ (pos _) (pos _) = Bool.false
signs_differ (negsuc _) (negsuc _) = Bool.false
signs_differ _ _ = Bool.true

abbrev pub magnitude : ℤ → ℕ
magnitude a = pos_part a + neg_part a

abbrev pub negate_if : Bool → ℕ → ℤ
negate_if Bool.false n = pos n
negate_if Bool.true n = if n == 0 then pos 0 else negsuc (n - 1)

abbrev pub is_negative : ℤ → Bool
is_negative (pos _) = Bool.false
is_negative (negsuc _) = Bool.true

unfoldable pub quot_ℤ : ℤ → ℤ → ℤ
quot_ℤ a b = negate_if (signs_differ a b) (magnitude a / magnitude b)

unfoldable pub rem_ℤ : ℤ → ℤ → ℤ
rem_ℤ a b = negate_if (is_negative a) (magnitude a % magnitude b)

-- D_ on unsigned words: the registers `lo` and `hi`.
unfoldable pub divide_unsigned : ℕ → ℕ → ℕ × ℕ
divide_unsigned rs rt = if rt == 0 then (0xffff_ffff, 0xffff_ffff) else (rs / rt, rs % rt)

-- D_ on signed words. The quotient of the least integer by -1 does not fit, and C leaves the
-- division undefined.
abbrev pub quotient_overflows : ℕ → ℕ → Bool
quotient_overflows rs rt = rs == 0x8000_0000 && rt == 0xffff_ffff

unfoldable pub divide_signed : ℕ → ℕ → ℕ × ℕ
unfolding quot_ℤ rem_ℤ
divide_signed rs rt =
    if rt == 0
    then (0xffff_ffff, 0xffff_ffff)
    else (pattern_of 32 (quot_ℤ (sword rs) (sword rt)), pattern_of 32 (rem_ℤ (sword rs) (sword rt)))
