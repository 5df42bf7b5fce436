-- ===== src/Instruction/DivMult.antt =====
-- `do_divmult` of vm/cpuemu.c.
use cspim.Base.{ℕ, bit_and, ◌==◌, if◌then◌else◌, ◌>>>◌, Bool, false, ◌||◌, not}
use cspim.Opcodes.{Opcode, mfhi, mthi, mflo, mtlo, mult, multu, div, divu, f_rt}
use cspim.Cpu.{Exception, done, undefined, Command, ◌>>◌, throw, throw_if, write_reg}
use cspim.Memory.{}
use cspim.Arith
use cspim.Arith.{sword, add_ovf, sub_ovf, divide_signed, divide_unsigned, quotient_overflows}
use cspim.Instruction.{f_rs, f_rd}

-- `hi` and `lo` from a pair of the two.
abbrev pub set_hi_lo : ℕ × ℕ → Command (Unit {0})
set_hi_lo r c = done tt (record c { hi = r.0; lo = r.1 })

-- D_ assigns `lo` and `hi`.
abbrev pub set_lo_hi : ℕ × ℕ → Command (Unit {0})
set_lo_hi r c = done tt (record c { hi = r.1; lo = r.0 })

-- Z_(or, mask)
abbrev pub zero_bits : Bool → ℕ → ℕ → Command (Unit {0})
zero_bits other insn mask =
    throw_if (other || not (bit_and (insn >>> 6) mask == 0)) Exception.invalid

unfoldable pub do_divmult : ℕ → Opcode → Command (Unit {0})
unfolding f_rs f_rt f_rd Arith.mult Arith.multu divide_signed divide_unsigned
do_divmult insn mult = do
  zero_bits false insn 0x3ff
  λ c. set_hi_lo (Arith.mult (c.ur (f_rs insn)) (c.ur (f_rt insn))) c
do_divmult insn multu = do
  zero_bits false insn 0x3ff
  λ c. set_hi_lo (Arith.multu (c.ur (f_rs insn)) (c.ur (f_rt insn))) c
do_divmult insn mthi = do
  zero_bits false insn 0x7fff
  λ c. done tt (record c { hi = c.ur (f_rs insn) })
do_divmult insn mtlo = do
  zero_bits false insn 0x7fff
  λ c. done tt (record c { lo = c.ur (f_rs insn) })
do_divmult insn div = do
  zero_bits false insn 0x3ff
  λ c.
      if quotient_overflows (c.ur (f_rs insn)) (c.ur (f_rt insn))
      then undefined
      else set_lo_hi (divide_signed (c.ur (f_rs insn)) (c.ur (f_rt insn))) c
do_divmult insn divu = do
  zero_bits false insn 0x3ff
  λ c. set_lo_hi (divide_unsigned (c.ur (f_rs insn)) (c.ur (f_rt insn))) c
do_divmult insn mfhi = do
  zero_bits (not (f_rs insn == 0) || not (f_rt insn == 0)) insn 0x1f
  λ c. write_reg (f_rd insn) (done c.hi) c
do_divmult insn mflo = do
  zero_bits (not (f_rs insn == 0) || not (f_rt insn == 0)) insn 0x1f
  λ c. write_reg (f_rd insn) (done c.lo) c
do_divmult insn _ = throw Exception.abort
