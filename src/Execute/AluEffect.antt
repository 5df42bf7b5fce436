-- ===== src/Execute/AluEffect.antt =====
-- The effects of `do_alui` and `do_alu3`.
use cspim.Base.{
  ℕ, ◌+◌, ◌/◌, ◌^◌, ◌≡◌, ◌==◌, if◌then◌else◌, Bool, arith, IsWord, true, false, ltb, bit_and,
  bit_or, bit_xor, not, u32, sub32, not32, ◌<<◌, ◌>>>◌,
}
use cspim.Base.Bits.{bit_and_mask, bit_and-lt, bit_or-lt, bit_xor-lt}
use cspim.Opcodes.{
  Opcode, addi, addiu, slti, sltiu, andi, ori, xori, sll, srl, sra, sllv, srlv, srav, add, addu,
  sub, subu, and, or, xor, nor, slt, sltu, f_rt,
}
use cspim.Cpu.{MipsCpu, Command, Exception, done, thrown, write_reg}
use cspim.Arith.{add_ovf, sub_ovf}
use cspim.Instruction.{f_rs, f_rd, f_sa, sar, s_imm, z_imm, of_bool, slt_word}
use cspim.Execute.{Group, group}
use cspim.Execute.Effect.{
  IsWellFormed, IsFault, Effect, Value, value, fault, write_reg-Effect, throw_if-Effect,
  pattern_of-IsWord,
}
use cspim.Instruction.Alu.{do_alui, do_alu3, with_zero}

pub of_bool-IsWord : (b : Bool) → IsWord (of_bool b)
of_bool-IsWord b = ground arith

pub z_imm-IsWord : (insn : ℕ) → IsWord (z_imm insn)
unfolding z_imm
z_imm-IsWord insn = omega (arith, bit_and_mask 16 insn)

pub div-IsWord : (x k : ℕ) → IsWord x → IsWord (x / 2 ^ k)
div-IsWord x k h = grind arith

pub u32-IsWord : (n : ℕ) → IsWord (u32 n)
u32-IsWord n = omega arith

not32-IsWord : (n : ℕ) → IsWord (not32 n)
not32-IsWord n = omega arith

module _ {c : MipsCpu} where
  checked-Value :
      (b : Bool) (e : Exception) {v : ℕ}
      → IsFault e
      → IsWord v
      → Value c (if b then thrown e c else done v c)
  checked-Value true e h w = fault e h
  checked-Value false e h w = value _ w

  add_ovf-Value : (x y : ℕ) → Value c (add_ovf x y c)
  unfolding add_ovf
  add_ovf-Value x y = checked-Value _ Exception.overflow tt (pattern_of-IsWord _)

  sub_ovf-Value : (x y : ℕ) → Value c (sub_ovf x y c)
  unfolding sub_ovf
  sub_ovf-Value x y = checked-Value _ Exception.overflow tt (pattern_of-IsWord _)

module _ {c : MipsCpu} (wf : IsWellFormed c) where
  rs : (insn : ℕ) → IsWord (c.ur (f_rs insn))
  rs insn = wf.registers.words (f_rs insn)

  rt : (insn : ℕ) → IsWord (c.ur (f_rt insn))
  rt insn = wf.registers.words (f_rt insn)

module _ {P : Type 0} {c : MipsCpu} (wf : IsWellFormed c) where
  pub do_alui-Effect :
      (insn : ℕ) (op : Opcode) → group op ≡ Group.alui → Effect P c (do_alui insn op c)
  unfolding do_alui
  do_alui-Effect insn addi h =
      write_reg-Effect wf (f_rt insn) (add_ovf-Value (c.ur (f_rs insn)) (s_imm insn))
  do_alui-Effect insn addiu h = write_reg-Effect wf (f_rt insn) (value _ (u32-IsWord _))
  do_alui-Effect insn slti h = write_reg-Effect wf (f_rt insn) (value _ (of_bool-IsWord _))
  do_alui-Effect insn sltiu h = write_reg-Effect wf (f_rt insn) (value _ (of_bool-IsWord _))
  do_alui-Effect insn andi h =
      write_reg-Effect wf (f_rt insn) (value _ (bit_and-lt 32 _ _ (rs wf insn) (z_imm-IsWord insn)))
  do_alui-Effect insn ori h =
      write_reg-Effect wf (f_rt insn) (value _ (bit_or-lt 32 _ _ (rs wf insn) (z_imm-IsWord insn)))
  do_alui-Effect insn xori h =
      write_reg-Effect wf (f_rt insn) (value _ (bit_xor-lt 32 _ _ (rs wf insn) (z_imm-IsWord insn)))
  do_alui-Effect insn _ h = cc

  with_zero-Effect :
      (field insn : ℕ) (expr : ℕ → ℕ → Command ℕ)
      → Value c (expr (c.ur (f_rs insn)) (c.ur (f_rt insn)) c)
      → Effect P c (with_zero field insn expr c)
  with_zero-Effect field insn expr v =
      throw_if-Effect wf (not (field == 0)) Exception.invalid
        (λ _ c. write_reg (f_rd insn) (expr (c.ur (f_rs insn)) (c.ur (f_rt insn))) c) tt
        (write_reg-Effect wf (f_rd insn) v)

  pub do_alu3-Effect :
      (insn : ℕ) (op : Opcode) → group op ≡ Group.alu3 → Effect P c (do_alu3 insn op c)
  unfolding do_alu3
  do_alu3-Effect insn sll h =
      with_zero-Effect (f_rs insn) insn (λ s t. done (t << f_sa insn)) (value _ (u32-IsWord _))
  do_alu3-Effect insn srl h =
      with_zero-Effect (f_rs insn) insn (λ s t. done (t >>> f_sa insn))
        (value _ (div-IsWord _ _ (rt wf insn)))
  do_alu3-Effect insn sra h =
      with_zero-Effect (f_rs insn) insn (λ s t. done (sar t (f_sa insn)))
        (value _ (pattern_of-IsWord _))
  do_alu3-Effect insn sllv h =
      with_zero-Effect (f_sa insn) insn (λ s t. done (t << bit_and s 0x1f)) (value _ (u32-IsWord _))
  do_alu3-Effect insn srlv h =
      with_zero-Effect (f_sa insn) insn (λ s t. done (t >>> bit_and s 0x1f))
        (value _ (div-IsWord _ _ (rt wf insn)))
  do_alu3-Effect insn srav h =
      with_zero-Effect (f_sa insn) insn (λ s t. done (sar t (bit_and s 0x1f)))
        (value _ (pattern_of-IsWord _))
  do_alu3-Effect insn add h =
      with_zero-Effect (f_sa insn) insn (λ s t. add_ovf s t)
        (add_ovf-Value (c.ur (f_rs insn)) (c.ur (f_rt insn)))
  do_alu3-Effect insn addu h =
      with_zero-Effect (f_sa insn) insn (λ s t. done (u32 (s + t))) (value _ (u32-IsWord _))
  do_alu3-Effect insn sub h =
      with_zero-Effect (f_sa insn) insn (λ s t. sub_ovf s t)
        (sub_ovf-Value (c.ur (f_rs insn)) (c.ur (f_rt insn)))
  do_alu3-Effect insn subu h =
      with_zero-Effect (f_sa insn) insn (λ s t. done (sub32 s t)) (value _ (u32-IsWord _))
  do_alu3-Effect insn and h =
      with_zero-Effect (f_sa insn) insn (λ s t. done (bit_and s t))
        (value _ (bit_and-lt 32 _ _ (rs wf insn) (rt wf insn)))
  do_alu3-Effect insn or h =
      with_zero-Effect (f_sa insn) insn (λ s t. done (bit_or s t))
        (value _ (bit_or-lt 32 _ _ (rs wf insn) (rt wf insn)))
  do_alu3-Effect insn xor h =
      with_zero-Effect (f_sa insn) insn (λ s t. done (bit_xor s t))
        (value _ (bit_xor-lt 32 _ _ (rs wf insn) (rt wf insn)))
  do_alu3-Effect insn nor h =
      with_zero-Effect (f_sa insn) insn (λ s t. done (not32 (bit_or s t)))
        (value _ (not32-IsWord _))
  do_alu3-Effect insn slt h =
      with_zero-Effect (f_sa insn) insn (λ s t. done (of_bool (slt_word s t)))
        (value _ (of_bool-IsWord _))
  do_alu3-Effect insn sltu h =
      with_zero-Effect (f_sa insn) insn (λ s t. done (of_bool (ltb s t)))
        (value _ (of_bool-IsWord _))
  do_alu3-Effect insn _ h = cc
