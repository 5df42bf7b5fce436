-- ===== src/Execute/DispatchEffect.antt =====
-- The effects of `do_dispatch` and of `mips_execute`.
use cspim.Base.{ℕ, ◌≡◌, refl, arith}
use cspim.Opcodes.{Opcode, special, regimm}
use cspim.Cpu.{MipsCpu, Exception}
use cspim.Instruction.{}
use cspim.Execute.Effect.{IsWellFormed, Effect, fault}
use cspim.Execute.{
  Group, group, jump as jump_group, branch, alui, alu3, load_store, div_mult, syscalls, breaks,
  others, call_handler, do_dispatch,
}
use cspim.Opcodes.Decode.{IsInstruction}
use cspim.Execute.AluEffect.{do_alui-Effect, do_alu3-Effect}
use cspim.Execute.ControlEffect.{do_jump-Effect, do_branch-Effect}
use cspim.Execute.DivMultEffect.{OverflowingDivision, do_divmult-Effect}
use cspim.Execute.LoadStoreEffect.{do_loadstore-Effect}

pub not_others : (op : Opcode) → group op ≡ others → IsInstruction op → ⊥
not_others special h i = omega arith
not_others regimm h i = omega arith
not_others _ h i = cc

module _ {c : MipsCpu} (wf : IsWellFormed c) where
  call_handler-Effect :
      (g : Group) (insn : ℕ) (op : Opcode)
      → group op ≡ g
      → IsInstruction op
      → Effect (OverflowingDivision insn op c) c (call_handler g insn op c)
  unfolding call_handler
  call_handler-Effect jump_group insn op h i = do_jump-Effect wf insn op h
  call_handler-Effect branch insn op h i = do_branch-Effect wf insn op h
  call_handler-Effect alui insn op h i = do_alui-Effect wf insn op h
  call_handler-Effect alu3 insn op h i = do_alu3-Effect wf insn op h
  call_handler-Effect load_store insn op h i = do_loadstore-Effect wf insn op h
  call_handler-Effect div_mult insn op h i = do_divmult-Effect wf insn op h
  call_handler-Effect syscalls insn op h i = fault Exception.syscall tt
  call_handler-Effect breaks insn op h i = fault Exception.break tt
  call_handler-Effect others insn op h i = absurd (not_others op h i)

  pub do_dispatch-Effect :
      (insn : ℕ) (op : Opcode)
      → IsInstruction op
      → Effect (OverflowingDivision insn op c) c (do_dispatch insn op c)
  unfolding do_dispatch
  do_dispatch-Effect insn op i = call_handler-Effect (group op) insn op refl i
