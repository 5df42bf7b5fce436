-- ===== src/Execute/ControlEffect.antt =====
-- The effects of `do_jump` and `do_branch`.
use cspim.Base.{
  ℕ, zero, suc, ◌+◌, ◌≡◌, inl, inr, ◌==◌, Bool, arith, IsWord, true, false, bit_and, not, ne→==,
  u32, ◌>>>◌, Bool-cases,
}
use cspim.Base.Bits.{bit_and-lt, bit_or-lt}
use cspim.Base.Int.{ltb_ℤ}
use cspim.Opcodes.{Opcode, j, jal, beq, bne, blez, bgtz, jr, jalr, bltz, bgez, bltzal, bgezal, f_rt}
use cspim.Cpu.{MipsCpu, Exception, done, and_then, update, write_reg}
use cspim.Arith.{sword}
use cspim.Instruction.{f_rs, f_rd, zero_word}
use cspim.Execute.{Group, group}
use cspim.Execute.Effect.{
  IsRegisters, IsWellFormed, Effect, jump, fault, registers, throw_if-Effect, set_ur-IsRegisters,
}
use cspim.Instruction.Control.{
  jump_to, jump_target, jump_switch, do_jump, branch_offset, take_branch, branch_switch, do_branch,
}
use cspim.Execute.AluEffect.{u32-IsWord}

pub jump_target-IsWord : (nds insn : ℕ) → IsWord nds → IsWord (jump_target nds insn)
unfolding jump_target
jump_target-IsWord nds insn h = bit_or-lt 32 _ _ (bit_and-lt 32 _ _ h (omega arith)) (u32-IsWord _)

linked : {c : MipsCpu} → IsWellFormed c → (v : ℕ) → IsWord v → IsRegisters (update c.ur 31 v)
linked wf v h = set_ur-IsRegisters 31 v wf.registers (omega arith) h

module _ {P : Type 0} {c : MipsCpu} (wf : IsWellFormed c) (ready : c.delay_slot ≡ 0) where
  link_and_jump :
      (r rs v : ℕ)
      → IsWord v
      → Effect P c (
          and_then (write_reg r (λ c. done v c) c) (λ _ c'. jump_to (u32 (c.pc + 4)) (c'.ur rs) c'))
  link_and_jump zero rs v hv = jump c.ur (c.ur rs) wf.registers (wf.registers.words rs) ready
  link_and_jump (suc r) rs v hv =
      let regs = set_ur-IsRegisters (suc r) v wf.registers (omega arith) hv in
      rw (ne→== (suc r) 0 (omega arith))
        (jump (update c.ur (suc r) v) (update c.ur (suc r) v rs) regs (regs.words rs) ready)

  jump_switch-Effect :
      (insn : ℕ) (op : Opcode)
      → group op ≡ Group.jump
      → Effect P c (jump_switch insn op (u32 (c.pc + 4)) c)
  unfolding jump_switch
  jump_switch-Effect insn jal g =
      jump (update c.ur 31 (u32 (c.pc + 8))) (jump_target (u32 (c.pc + 4)) insn)
        (linked wf _ (u32-IsWord _)) (jump_target-IsWord (u32 (c.pc + 4)) insn (u32-IsWord _)) ready
  jump_switch-Effect insn j g =
      jump c.ur (jump_target (u32 (c.pc + 4)) insn) wf.registers
        (jump_target-IsWord (u32 (c.pc + 4)) insn (u32-IsWord _)) ready
  jump_switch-Effect insn jalr g =
      throw_if-Effect wf (not (f_rt insn == 0)) Exception.invalid
        (λ _ c'.
          and_then (write_reg (f_rd insn) (λ c. done (u32 (c.pc + 8)) c) c')
            (λ _ c'. jump_to (u32 (c.pc + 4)) (c'.ur (f_rs insn)) c'))
        tt (link_and_jump (f_rd insn) (f_rs insn) (u32 (c.pc + 8)) (u32-IsWord _))
  jump_switch-Effect insn jr g =
      throw_if-Effect wf (not (bit_and (insn >>> 6) 0x7fff == 0)) Exception.invalid
        (λ _ c'. jump_to (u32 (c.pc + 4)) (c'.ur (f_rs insn)) c') tt
        (jump c.ur (c.ur (f_rs insn)) wf.registers (wf.registers.words (f_rs insn)) ready)
  jump_switch-Effect insn _ g = cc

  take_branch-Effect :
      (insn : ℕ) (b : Bool) (ur : ℕ → ℕ)
      → IsRegisters ur
      → Effect P c (take_branch insn b (record c { ur = ur }))
  unfolding take_branch
  take_branch-Effect insn false ur h = registers ur c.hi c.lo h wf.hi_word wf.lo_word
  take_branch-Effect insn true ur h =
      jump ur (u32 (u32 (c.pc + 4) + branch_offset insn)) h (u32-IsWord _) ready

  branch_switch-Effect :
      (insn : ℕ) (op : Opcode) → group op ≡ Group.branch → Effect P c (branch_switch insn op c)
  unfolding branch_switch
  branch_switch-Effect insn beq g = take_branch-Effect insn _ c.ur wf.registers
  branch_switch-Effect insn bne g = take_branch-Effect insn _ c.ur wf.registers
  branch_switch-Effect insn blez g =
      throw_if-Effect wf (not (f_rt insn == 0)) Exception.invalid
        (λ _ c. take_branch insn (not (ltb_ℤ zero_word (sword (c.ur (f_rs insn))))) c) tt
        (take_branch-Effect insn (not (ltb_ℤ zero_word (sword (c.ur (f_rs insn))))) c.ur
          wf.registers)
  branch_switch-Effect insn bgtz g =
      throw_if-Effect wf (not (f_rt insn == 0)) Exception.invalid
        (λ _ c. take_branch insn (ltb_ℤ zero_word (sword (c.ur (f_rs insn)))) c) tt
        (take_branch-Effect insn (ltb_ℤ zero_word (sword (c.ur (f_rs insn)))) c.ur wf.registers)
  branch_switch-Effect insn bltzal g =
      take_branch-Effect insn _ (update c.ur 31 (u32 (c.pc + 8))) (linked wf _ (u32-IsWord _))
  branch_switch-Effect insn bltz g = take_branch-Effect insn _ c.ur wf.registers
  branch_switch-Effect insn bgezal g =
      take_branch-Effect insn _ (update c.ur 31 (u32 (c.pc + 8))) (linked wf _ (u32-IsWord _))
  branch_switch-Effect insn bgez g = take_branch-Effect insn _ c.ur wf.registers
  branch_switch-Effect insn _ g = cc

module _ {P : Type 0} {c : MipsCpu} (wf : IsWellFormed c) where
  pub do_jump-Effect :
      (insn : ℕ) (op : Opcode) → group op ≡ Group.jump → Effect P c (do_jump insn op c)
  unfolding do_jump
  do_jump-Effect insn op g = elim (Bool-cases (c.delay_slot == 0)) [
    | inl e ↦ rw e (jump_switch-Effect wf (ground arith) insn op g)
    | inr e ↦ rw e (fault Exception.invalid tt)
  ]

  pub do_branch-Effect :
      (insn : ℕ) (op : Opcode) → group op ≡ Group.branch → Effect P c (do_branch insn op c)
  unfolding do_branch
  do_branch-Effect insn op g = elim (Bool-cases (c.delay_slot == 0)) [
    | inl e ↦ rw e (branch_switch-Effect wf (ground arith) insn op g)
    | inr e ↦ rw e (fault Exception.invalid tt)
  ]
