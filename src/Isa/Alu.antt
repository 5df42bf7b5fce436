-- ===== src/Isa/Alu.antt =====
-- `do_alui` and `do_alu3` of vm/cpuemu.c do what the specification says of their instructions.
use cspim.Base.{
  ℕ, ◌+◌, ◌%◌, ◌≡◌, ap, ◌∙◌, if◌then◌else◌, ltb, bit_and, bit_or, bit_xor, ◌<<◌, ◌>>>◌, u32, sub32,
  not32, arith, IsWord, Bool, true, false,
}
use cspim.Base.Bits.{bit_and_mask}
use cspim.Opcodes.{
  Opcode, addi, addiu, slti, sltiu, andi, ori, xori, sll, srl, sra, sllv, srlv, srav, add, addu,
  sub, subu, and, or, xor, nor, slt, sltu, f_rt,
}
use cspim.Cpu.{MipsCpu, Command, Exception, done, thrown, write_reg}
use cspim.Arith.{add_ovf, sub_ovf}
use cspim.Arith.Overflow.{add_ovf-same_sign, sub_ovf-same_sign}
use cspim.Instruction.{f_rs, f_rd, f_sa, sar, of_bool, slt_word}
use cspim.Instruction.Alu.{do_alui, do_alu3, with_zero}
use cspim.Execute.{Group, group}
use cspim.Execute.Effect.{IsWellFormed}
use cspim.Isa.{
  Computed, gives, faults, write, expect_zero, checked_sum, checked_difference, below_signed,
  shift_arithmetic,
}
use cspim.Isa.Shift.{sar-shift_arithmetic}
use cspim.Isa.Meaning.{meaning}
use cspim.Isa.Operands.{code_fields, s_imm-IsWord, f_sa-lt}
use cspim.Isa.View.{view, Yields, value, fault, Does, write_reg-Does, expect_zero-Does}

checked-Yields :
    {c : MipsCpu} (b : Bool) (v : ℕ)
    → Yields c
        (if b then faults Exception.overflow else gives v)
        (if b then thrown Exception.overflow c else done v c)
checked-Yields true v = fault Exception.overflow tt
checked-Yields false v = value v

add_ovf-Yields :
    {c : MipsCpu} (x y : ℕ) → IsWord x → IsWord y → Yields c (checked_sum x y) (add_ovf x y c)
add_ovf-Yields {c} x y hx hy = rw (add_ovf-same_sign x y c hx hy) (checked-Yields _ _)

sub_ovf-Yields :
    {c : MipsCpu} (x y : ℕ)
    → IsWord x
    → IsWord y
    → Yields c (checked_difference x y) (sub_ovf x y c)
sub_ovf-Yields {c} x y hx hy = rw (sub_ovf-same_sign x y c hx hy) (checked-Yields _ _)

slt_word-below_signed : (x y : ℕ) → IsWord x → IsWord y → slt_word x y ≡ below_signed x y
slt_word-below_signed x y hx hy = ground arith

slt-Yields :
    {c : MipsCpu} (x y : ℕ)
    → IsWord x
    → IsWord y
    → Yields c (gives (if below_signed x y then 1 else 0)) (done (of_bool (slt_word x y)) c)
slt-Yields x y hx hy = rw (slt_word-below_signed x y hx hy) (value _)

srav-word : (x s : ℕ) → IsWord x → sar x (bit_and s 0x1f) ≡ shift_arithmetic x (s % 32)
srav-word x s h = ap (sar x) (bit_and_mask 5 s) ∙ sar-shift_arithmetic x (s % 32) h (omega arith)

module _ {c : MipsCpu} (wf : IsWellFormed c) where
  rs : (insn : ℕ) → IsWord (c.ur (f_rs insn))
  rs insn = wf.registers.words (f_rs insn)

  rt : (insn : ℕ) → IsWord (c.ur (f_rt insn))
  rt insn = wf.registers.words (f_rt insn)

  pub do_alui-Does :
      (insn : ℕ) (op : Opcode)
      → group op ≡ Group.alui
      → Does c (meaning op (code_fields insn) c.memsz (view c)) (do_alui insn op c)
  unfolding do_alui meaning
  do_alui-Does insn addi g =
      write_reg-Does (f_rt insn) (add_ovf-Yields _ _ (rs insn) (s_imm-IsWord insn))
  do_alui-Does insn addiu g = write_reg-Does (f_rt insn) (value _)
  do_alui-Does insn slti g =
      write_reg-Does (f_rt insn) (slt-Yields _ _ (rs insn) (s_imm-IsWord insn))
  do_alui-Does insn sltiu g = write_reg-Does (f_rt insn) (value _)
  do_alui-Does insn andi g = write_reg-Does (f_rt insn) (value _)
  do_alui-Does insn ori g = write_reg-Does (f_rt insn) (value _)
  do_alui-Does insn xori g = write_reg-Does (f_rt insn) (value _)
  do_alui-Does insn _ g = cc

  with_zero-Does :
      (field insn : ℕ) (expr : ℕ → ℕ → Command ℕ) {x : Computed}
      → Yields c x (expr (c.ur (f_rs insn)) (c.ur (f_rt insn)) c)
      → Does c (expect_zero field (write (f_rd insn) x)) (with_zero field insn expr c)
  with_zero-Does field insn expr {x} y =
      expect_zero-Does field (write (f_rd insn) x)
        (λ _ c. write_reg (f_rd insn) (expr (c.ur (f_rs insn)) (c.ur (f_rt insn))) c)
        (write_reg-Does (f_rd insn) y)

  pub do_alu3-Does :
      (insn : ℕ) (op : Opcode)
      → group op ≡ Group.alu3
      → Does c (meaning op (code_fields insn) c.memsz (view c)) (do_alu3 insn op c)
  unfolding do_alu3 meaning
  do_alu3-Does insn sll g = with_zero-Does (f_rs insn) insn (λ s t. done (t << f_sa insn)) (value _)
  do_alu3-Does insn srl g =
      with_zero-Does (f_rs insn) insn (λ s t. done (t >>> f_sa insn)) (value _)
  do_alu3-Does insn sra g =
      rw (← sar-shift_arithmetic (c.ur (f_rt insn)) (f_sa insn) (rt insn) (f_sa-lt insn))
        (with_zero-Does (f_rs insn) insn (λ s t. done (sar t (f_sa insn))) (value _))
  do_alu3-Does insn sllv g =
      rw (← bit_and_mask 5 (c.ur (f_rs insn)))
        (with_zero-Does (f_sa insn) insn (λ s t. done (t << bit_and s 0x1f)) (value _))
  do_alu3-Does insn srlv g =
      rw (← bit_and_mask 5 (c.ur (f_rs insn)))
        (with_zero-Does (f_sa insn) insn (λ s t. done (t >>> bit_and s 0x1f)) (value _))
  do_alu3-Does insn srav g =
      rw (← srav-word (c.ur (f_rt insn)) (c.ur (f_rs insn)) (rt insn))
        (with_zero-Does (f_sa insn) insn (λ s t. done (sar t (bit_and s 0x1f))) (value _))
  do_alu3-Does insn add g =
      with_zero-Does (f_sa insn) insn (λ s t. add_ovf s t) (add_ovf-Yields _ _ (rs insn) (rt insn))
  do_alu3-Does insn addu g = with_zero-Does (f_sa insn) insn (λ s t. done (u32 (s + t))) (value _)
  do_alu3-Does insn sub g =
      with_zero-Does (f_sa insn) insn (λ s t. sub_ovf s t) (sub_ovf-Yields _ _ (rs insn) (rt insn))
  do_alu3-Does insn subu g = with_zero-Does (f_sa insn) insn (λ s t. done (sub32 s t)) (value _)
  do_alu3-Does insn and g = with_zero-Does (f_sa insn) insn (λ s t. done (bit_and s t)) (value _)
  do_alu3-Does insn or g = with_zero-Does (f_sa insn) insn (λ s t. done (bit_or s t)) (value _)
  do_alu3-Does insn xor g = with_zero-Does (f_sa insn) insn (λ s t. done (bit_xor s t)) (value _)
  do_alu3-Does insn nor g =
      with_zero-Does (f_sa insn) insn (λ s t. done (not32 (bit_or s t))) (value _)
  do_alu3-Does insn slt g =
      with_zero-Does (f_sa insn) insn (λ s t. done (of_bool (slt_word s t)))
        (slt-Yields _ _ (rs insn) (rt insn))
  do_alu3-Does insn sltu g =
      with_zero-Does (f_sa insn) insn (λ s t. done (of_bool (ltb s t))) (value _)
  do_alu3-Does insn _ g = cc
