-- ===== src/Arith/Overflow.antt =====
-- The checks for overflow of vm/cpuemu.c against the rule on sign bits.
use cspim.Base.{ℕ, ◌+◌, ◌^◌, ◌≡◌, if◌then◌else◌, Bool, ◌&&◌, leb, not, u32, sub32, arith, IsWord}
use cspim.Base.Int.{◌+ℤ◌, ◌-ℤ◌}
use cspim.Cpu.{MipsCpu, Exception, done, thrown}
use cspim.Arith.{add_ovf, sub_ovf}

-- The sign bit of a word.
abbrev pub sign : ℕ → Bool
sign w = leb (2 ^ 31) w

abbrev pub same_sign : ℕ → ℕ → Bool
same_sign x y = if sign x then sign y else not (sign y)

-- For 32-bit words, add_ovf throws an overflow exactly when the words have the same sign bit and
-- the sum modulo 2 ^ 32 has another one, and returns that sum otherwise.
pub add_ovf-same_sign :
    (x y : ℕ) (c : MipsCpu)
    → IsWord x
    → IsWord y
    → add_ovf x y c ≡ (
        if same_sign x y && not (same_sign x (u32 (x + y)))
        then thrown Exception.overflow c
        else done (u32 (x + y)) c)
unfolding add_ovf ◌+ℤ◌
add_ovf-same_sign x y c hx hy = ground arith

-- For 32-bit words, sub_ovf throws an overflow exactly when the words have different sign bits and
-- the difference modulo 2 ^ 32 has another sign bit than the first, and returns that difference
-- otherwise.
pub sub_ovf-same_sign :
    (x y : ℕ) (c : MipsCpu)
    → IsWord x
    → IsWord y
    → sub_ovf x y c ≡ (
        if not (same_sign x y) && not (same_sign x (sub32 x y))
        then thrown Exception.overflow c
        else done (sub32 x y) c)
unfolding sub_ovf ◌-ℤ◌
sub_ovf-same_sign x y c hx hy = ground arith
