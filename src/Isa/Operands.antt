-- ===== src/Isa/Operands.antt =====
-- The fields that the macros of vm/cpuemu.c cut out of an instruction word by shifts and masks are
-- those of the format, and the signed operands are extended from 16 bits.
use cspim.Base.{ℕ, ◌*◌, ◌/◌, ◌%◌, ◌^◌, ◌<◌, ◌≡◌, bit_and, ◌>>>◌, u32, arith, IsWord}
use cspim.Base.Bits.{bit_and_mask}
use cspim.Opcodes.{f_rt}
use cspim.Instruction.{f_rs, f_rd, f_sa, sar, s_imm, z_imm}
use cspim.Instruction.Control.{branch_offset}
use cspim.Isa.{Fields, extend_half, fields}

-- The operands as the code reads them.
abbrev pub code_fields : ℕ → Fields
code_fields insn = record {
  rs = f_rs insn;
  rt = f_rt insn;
  rd = f_rd insn;
  sa = f_sa insn;
  imm = z_imm insn;
  signed_imm = s_imm insn;
  offset = branch_offset insn;
  index = bit_and insn 0x03ff_ffff;
  rd_sa = bit_and (insn >>> 6) 0x3ff;
  rt_rd_sa = bit_and (insn >>> 6) 0x7fff;
}

s_imm-extend_half : (insn : ℕ) → s_imm insn ≡ extend_half (insn % 2 ^ 16)
unfolding s_imm sar
s_imm-extend_half insn = ground (arith, bit_and_mask 16 insn)

branch_offset-extend_half : (insn : ℕ) → branch_offset insn ≡ u32 (4 * extend_half (insn % 2 ^ 16))
unfolding branch_offset sar
branch_offset-extend_half insn = ground arith

f_rs-field : (insn : ℕ) → f_rs insn ≡ insn / 2 ^ 21 % 32
unfolding f_rs
f_rs-field insn = bit_and_mask 5 (insn / 2 ^ 21)

f_rt-field : (insn : ℕ) → f_rt insn ≡ insn / 2 ^ 16 % 32
unfolding f_rt
f_rt-field insn = bit_and_mask 5 (insn / 2 ^ 16)

f_rd-field : (insn : ℕ) → f_rd insn ≡ insn / 2 ^ 11 % 32
unfolding f_rd
f_rd-field insn = bit_and_mask 5 (insn / 2 ^ 11)

f_sa-field : (insn : ℕ) → f_sa insn ≡ insn / 2 ^ 6 % 32
unfolding f_sa
f_sa-field insn = bit_and_mask 5 (insn / 2 ^ 6)

z_imm-field : (insn : ℕ) → z_imm insn ≡ insn % 2 ^ 16
unfolding z_imm
z_imm-field insn = bit_and_mask 16 insn

pub code_fields-fields : (insn : ℕ) → code_fields insn ≡ fields insn
unfolding fields
code_fields-fields insn = rw (
  f_rs-field insn,
  f_rt-field insn,
  f_rd-field insn,
  f_sa-field insn,
  z_imm-field insn,
  s_imm-extend_half insn,
  branch_offset-extend_half insn,
  bit_and_mask 26 insn,
  bit_and_mask 10 (insn / 2 ^ 6),
  bit_and_mask 15 (insn / 2 ^ 6),
)

-- What the proofs on the effective address and on the shifts use of the fields.
pub f_sa-lt : (insn : ℕ) → f_sa insn < 32
f_sa-lt insn = omega (arith, f_sa-field insn)

pub z_imm-lt : (insn : ℕ) → z_imm insn < 2 ^ 16
z_imm-lt insn = omega (arith, z_imm-field insn)

pub s_imm-IsWord : (insn : ℕ) → IsWord (s_imm insn)
s_imm-IsWord insn = ground (arith, s_imm-extend_half insn)
