-- ===== src/Isa/DivMult.antt =====
-- `do_divmult` of vm/cpuemu.c does what the specification says of its instructions.
use cspim.Base.{ℕ, ◌≡◌, inl, inr, ◌==◌, if◌then◌else◌, bit_and, ◌||◌, not, ◌>>>◌, Bool-cases}
use cspim.Opcodes.{Opcode, mfhi, mthi, mflo, mtlo, mult, multu, div, divu, f_rt}
use cspim.Cpu.{MipsCpu, Command, Exception, done, undefined, and_then, write_reg}
use cspim.Arith
use cspim.Arith.{divide_signed, divide_unsigned, quotient_overflows}
use cspim.Instruction.{f_rs, f_rd, f_sa}
use cspim.Instruction.DivMult.{do_divmult, zero_bits, set_hi_lo, set_lo_hi}
use cspim.Execute.{Group, group}
use cspim.Isa.{Action, expect_zero}
use cspim.Isa.Meaning.{meaning, divides_signed, divides_unsigned}
use cspim.Isa.Operands.{code_fields}
use cspim.Isa.View.{view, value, Does, hi_lo, crashed, trapped, write_reg-Does, expect_zero-Does}

module _ {c : MipsCpu} where
  divides-Does :
      (x y : ℕ)
      → Does c
          (divides_signed x y)
          (if quotient_overflows x y then undefined else set_lo_hi (divide_signed x y) c)
  divides-Does x y = elim (Bool-cases (quotient_overflows x y)) [
    | inl e ↦ rw e crashed
    | inr e ↦ rw e (hi_lo _ _)
  ]

  divides_unsigned-Does :
      (x y : ℕ) → Does c (divides_unsigned x y) (set_lo_hi (divide_unsigned x y) c)
  unfolding divide_unsigned
  divides_unsigned-Does x y = elim (Bool-cases (y == 0)) [
    | inl e ↦ rw e (hi_lo _ _)
    | inr e ↦ rw e (hi_lo _ _)
  ]

  -- The check of MFHI and MFLO on three fields.
  three_fields-Does :
      (rs rt n : ℕ) (a : Action) (k : Unit {0} → Command (Unit {0})) (insn : ℕ)
      → Does c a (k tt c)
      → Does c
          (expect_zero rs (expect_zero rt (expect_zero (bit_and (insn >>> 6) n) a)))
          (and_then (zero_bits (not (rs == 0) || not (rt == 0)) insn n c) k)
  three_fields-Does rs rt n a k insn d = elim (Bool-cases (rs == 0)) [
    | inl e ↦ elim (Bool-cases (rt == 0)) [
      | inl f ↦ rw (e, f) (expect_zero-Does (bit_and (insn >>> 6) n) a k d)
      | inr f ↦ rw (e, f) (trapped Exception.invalid tt)
    ]
    | inr e ↦ rw e (trapped Exception.invalid tt)
  ]

  pub do_divmult-Does :
      (insn : ℕ) (op : Opcode)
      → group op ≡ Group.div_mult
      → Does c (meaning op (code_fields insn) c.memsz (view c)) (do_divmult insn op c)
  unfolding do_divmult meaning f_sa Arith.multu Arith.mult
  do_divmult-Does insn mult g =
      expect_zero-Does (bit_and (insn >>> 6) 0x3ff) _
        (λ _ c. set_hi_lo (Arith.mult (c.ur (f_rs insn)) (c.ur (f_rt insn))) c) (hi_lo _ _)
  do_divmult-Does insn multu g =
      expect_zero-Does (bit_and (insn >>> 6) 0x3ff) _
        (λ _ c. set_hi_lo (Arith.multu (c.ur (f_rs insn)) (c.ur (f_rt insn))) c) (hi_lo _ _)
  do_divmult-Does insn mthi g =
      expect_zero-Does (bit_and (insn >>> 6) 0x7fff) _
        (λ _ c. done tt (record c { hi = c.ur (f_rs insn) })) (hi_lo _ c.lo)
  do_divmult-Does insn mtlo g =
      expect_zero-Does (bit_and (insn >>> 6) 0x7fff) _
        (λ _ c. done tt (record c { lo = c.ur (f_rs insn) })) (hi_lo c.hi _)
  do_divmult-Does insn div g =
      expect_zero-Does (bit_and (insn >>> 6) 0x3ff) _
        (λ _ c.
          if quotient_overflows (c.ur (f_rs insn)) (c.ur (f_rt insn))
          then undefined
          else set_lo_hi (divide_signed (c.ur (f_rs insn)) (c.ur (f_rt insn))) c)
        (divides-Does (c.ur (f_rs insn)) (c.ur (f_rt insn)))
  do_divmult-Does insn divu g =
      expect_zero-Does (bit_and (insn >>> 6) 0x3ff) _
        (λ _ c. set_lo_hi (divide_unsigned (c.ur (f_rs insn)) (c.ur (f_rt insn))) c)
        (divides_unsigned-Does (c.ur (f_rs insn)) (c.ur (f_rt insn)))
  do_divmult-Does insn mfhi g =
      three_fields-Does (f_rs insn) (f_rt insn) 0x1f _ (λ _ c. write_reg (f_rd insn) (done c.hi) c)
        insn (write_reg-Does (f_rd insn) (value _))
  do_divmult-Does insn mflo g =
      three_fields-Does (f_rs insn) (f_rt insn) 0x1f _ (λ _ c. write_reg (f_rd insn) (done c.lo) c)
        insn (write_reg-Does (f_rd insn) (value _))
  do_divmult-Does insn _ g = cc
