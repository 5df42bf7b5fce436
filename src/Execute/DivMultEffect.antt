-- ===== src/Execute/DivMultEffect.antt =====
-- The effects of `do_divmult`.
use cspim.Base.{
  ℕ, ◌*◌, ◌^◌, ◌≤◌, ◌<◌, ◌≡◌, refl, inl, inr, ◌==◌, if◌then◌else◌, arith, IsWord, true, false,
  bit_and, not, ◌||◌, ◌>>>◌, Bool-cases,
}
use cspim.Base.Int.{ℤ, pos, negsuc, pattern_of, ◌*ℤ◌}
use cspim.Opcodes.{Opcode, mfhi, mthi, mflo, mtlo, mult, multu, div, divu, f_rt}
use cspim.Cpu.{MipsCpu, Exception, done, undefined, write_reg}
use cspim.Arith
use cspim.Arith.{sword, add_ovf, sub_ovf, divide_signed, divide_unsigned, quotient_overflows}
use cspim.Instruction.{f_rs, f_rd}
use cspim.Execute.{Group, group}
use cspim.Execute.Effect.{
  IsWellFormed, Effect, crash, value, registers, write_reg-Effect, throw_if-Effect,
  pattern_of-IsWord,
}
use cspim.Instruction.DivMult.{do_divmult, set_hi_lo, set_lo_hi}
use native.Mathlib.Nat.{div-le_self, mul-le-mul}

-- The one division that C leaves undefined.
pub record OverflowingDivision (insn : ℕ) (op : Opcode) (c : MipsCpu) : Type 0 where
  pub is_div : op ≡ div
  pub overflows : quotient_overflows (c.ur (f_rs insn)) (c.ur (f_rt insn)) ≡ true

multu-IsWord :
    (x y : ℕ) → IsWord x → IsWord y → IsWord (Arith.multu x y).0 × IsWord (Arith.multu x y).1
unfolding Arith.multu
multu-IsWord x y hx hy =
    let h : x * y ≤ 0xffff_ffff * 0xffff_ffff =
      mul-le-mul {n₁ = x} {m₁ = y} {n₂ = 0xffff_ffff} {m₂ = 0xffff_ffff} (omega arith)
        (omega arith) in
    (omega arith, omega arith)

pattern_of_64 : (z : ℤ) → pattern_of 64 z < 2 ^ 64
pattern_of_64 (pos n) = omega arith
pattern_of_64 (negsuc n) = omega arith

mult-IsWord : (x y : ℕ) → IsWord (Arith.mult x y).0 × IsWord (Arith.mult x y).1
unfolding Arith.mult
mult-IsWord x y = omega (arith, pattern_of_64 (sword x *ℤ sword y))

divide_signed-IsWord : (x y : ℕ) → IsWord (divide_signed x y).0 × IsWord (divide_signed x y).1
unfolding divide_signed
divide_signed-IsWord x y = elim (Bool-cases (y == 0)) [
  | inl e ↦ rw e (omega arith, omega arith)
  | inr e ↦ rw e (pattern_of-IsWord _, pattern_of-IsWord _)
]

divide_unsigned-IsWord :
    (x y : ℕ) → IsWord x → IsWord (divide_unsigned x y).0 × IsWord (divide_unsigned x y).1
unfolding divide_unsigned
divide_unsigned-IsWord x y h = elim (Bool-cases (y == 0)) [
  | inl e ↦ rw e (omega arith, omega arith)
  | inr e ↦ rw e (omega (arith, div-le_self x y), ground arith)
]

module _ {c : MipsCpu} (wf : IsWellFormed c) where
  rs : (insn : ℕ) → IsWord (c.ur (f_rs insn))
  rs insn = wf.registers.words (f_rs insn)

  rt : (insn : ℕ) → IsWord (c.ur (f_rt insn))
  rt insn = wf.registers.words (f_rt insn)

  set_hi_lo-Effect : {P : Type 0} (r : ℕ × ℕ) → IsWord r.0 × IsWord r.1 → Effect P c (set_hi_lo r c)
  set_hi_lo-Effect r h = registers c.ur r.0 r.1 wf.registers h.0 h.1

  set_lo_hi-Effect : {P : Type 0} (r : ℕ × ℕ) → IsWord r.0 × IsWord r.1 → Effect P c (set_lo_hi r c)
  set_lo_hi-Effect r h = registers c.ur r.1 r.0 wf.registers h.1 h.0

  division-Effect :
      (insn : ℕ)
      → Effect (OverflowingDivision insn div c) c (
          if quotient_overflows (c.ur (f_rs insn)) (c.ur (f_rt insn))
          then undefined
          else set_lo_hi (divide_signed (c.ur (f_rs insn)) (c.ur (f_rt insn))) c)
  division-Effect insn =
      elim (Bool-cases (quotient_overflows (c.ur (f_rs insn)) (c.ur (f_rt insn)))) [
        | inl e ↦ rw e (crash (record { is_div = refl; overflows = e }))
        | inr e ↦ rw e (set_lo_hi-Effect _ (divide_signed-IsWord _ _))
      ]

  pub do_divmult-Effect :
      (insn : ℕ) (op : Opcode)
      → group op ≡ Group.div_mult
      → Effect (OverflowingDivision insn op c) c (do_divmult insn op c)
  unfolding do_divmult
  do_divmult-Effect insn mult h =
      throw_if-Effect wf (false || not (bit_and (insn >>> 6) 0x3ff == 0)) Exception.invalid
        (λ _ c. set_hi_lo (Arith.mult (c.ur (f_rs insn)) (c.ur (f_rt insn))) c) tt
        (set_hi_lo-Effect _ (mult-IsWord (c.ur (f_rs insn)) (c.ur (f_rt insn))))
  do_divmult-Effect insn multu h =
      throw_if-Effect wf (false || not (bit_and (insn >>> 6) 0x3ff == 0)) Exception.invalid
        (λ _ c. set_hi_lo (Arith.multu (c.ur (f_rs insn)) (c.ur (f_rt insn))) c) tt
        (set_hi_lo-Effect _
          (multu-IsWord (c.ur (f_rs insn)) (c.ur (f_rt insn)) (rs insn) (rt insn)))
  do_divmult-Effect insn mthi h =
      throw_if-Effect wf (false || not (bit_and (insn >>> 6) 0x7fff == 0)) Exception.invalid
        (λ _ c. done tt (record c { hi = c.ur (f_rs insn) })) tt
        (registers c.ur (c.ur (f_rs insn)) c.lo wf.registers (rs insn) wf.lo_word)
  do_divmult-Effect insn mtlo h =
      throw_if-Effect wf (false || not (bit_and (insn >>> 6) 0x7fff == 0)) Exception.invalid
        (λ _ c. done tt (record c { lo = c.ur (f_rs insn) })) tt
        (registers c.ur c.hi (c.ur (f_rs insn)) wf.registers wf.hi_word (rs insn))
  do_divmult-Effect insn div h =
      throw_if-Effect wf (false || not (bit_and (insn >>> 6) 0x3ff == 0)) Exception.invalid
        (λ _ c.
          if quotient_overflows (c.ur (f_rs insn)) (c.ur (f_rt insn))
          then undefined
          else set_lo_hi (divide_signed (c.ur (f_rs insn)) (c.ur (f_rt insn))) c)
        tt (division-Effect insn)
  do_divmult-Effect insn divu h =
      throw_if-Effect wf (false || not (bit_and (insn >>> 6) 0x3ff == 0)) Exception.invalid
        (λ _ c. set_lo_hi (divide_unsigned (c.ur (f_rs insn)) (c.ur (f_rt insn))) c) tt
        (set_lo_hi-Effect _
          (divide_unsigned-IsWord (c.ur (f_rs insn)) (c.ur (f_rt insn)) (rs insn)))
  do_divmult-Effect insn mfhi h =
      throw_if-Effect wf
        ((not (f_rs insn == 0) || not (f_rt insn == 0)) || not (bit_and (insn >>> 6) 0x1f == 0))
        Exception.invalid (λ _ c. write_reg (f_rd insn) (done c.hi) c) tt
        (write_reg-Effect wf (f_rd insn) (value c.hi wf.hi_word))
  do_divmult-Effect insn mflo h =
      throw_if-Effect wf
        ((not (f_rs insn == 0) || not (f_rt insn == 0)) || not (bit_and (insn >>> 6) 0x1f == 0))
        Exception.invalid (λ _ c. write_reg (f_rd insn) (done c.lo) c) tt
        (write_reg-Effect wf (f_rd insn) (value c.lo wf.lo_word))
  do_divmult-Effect insn _ h = cc
