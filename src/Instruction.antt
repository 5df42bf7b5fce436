-- ===== src/Instruction.antt =====
-- The fields of an instruction word and its immediate operands, as the macros of vm/cpuemu.c read
-- them. The children hold the handlers of the instruction groups.
pub mod Control
pub mod Alu
pub mod LoadStore
pub mod DivMult
use cspim.Base.{ℕ, ◌/◌, ◌^◌, bit_and, if◌then◌else◌, ◌<<◌, ◌>>>◌, Bool}
use cspim.Base.Int.{ℤ, pos, negsuc, ltb_ℤ, pattern_of}
use cspim.Arith.{sword}

-- fRS and fRD; fRT is shared with the decoder.
unfoldable pub f_rs : ℕ → ℕ
f_rs insn = bit_and (insn >>> 21) 0x1f

unfoldable pub f_rd : ℕ → ℕ
f_rd insn = bit_and (insn >>> 11) 0x1f

unfoldable pub f_sa : ℕ → ℕ
f_sa insn = bit_and (insn >>> 6) 0x1f

-- `x >> k` of a signed word, which keeps the sign.
abbrev pub shr_ℤ : ℤ → ℕ → ℤ
shr_ℤ (pos n) k = pos (n / 2 ^ k)
shr_ℤ (negsuc n) k = negsuc (n / 2 ^ k)

unfoldable pub sar : ℕ → ℕ → ℕ
sar x k = pattern_of 32 (shr_ℤ (sword x) k)

-- sIMM and uIMM have one pattern; zIMM is extended with zeros.
unfoldable pub s_imm : ℕ → ℕ
unfolding sar
s_imm insn = sar (bit_and insn 0xffff << 16) 16

unfoldable pub z_imm : ℕ → ℕ
z_imm insn = bit_and insn 0xffff

-- The `int` of a comparison.
abbrev pub of_bool : Bool → ℕ
of_bool b = if b then 1 else 0

abbrev pub slt_word : ℕ → ℕ → Bool
slt_word x y = ltb_ℤ (sword x) (sword y)

abbrev pub zero_word : ℤ
zero_word = pos 0
