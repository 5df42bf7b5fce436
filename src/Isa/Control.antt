-- ===== src/Isa/Control.antt =====
-- `do_jump` and `do_branch` of vm/cpuemu.c do what the specification says of their instructions. The
-- mask of `do_jump` keeps five bits of the address of the delay slot where the format has four, so
-- the memory is smaller than 2 ^ 27 bytes here.
use cspim.Base.{
  ℕ, zero, suc, ◌+◌, ◌^◌, ◌<◌, ◌≡◌, ◌≢◌, inl, inr, ◌==◌, if◌then◌else◌, bit_and, ◌>>>◌, u32, Bool,
  true, false, Bool-cases, not, Option, some, arith, IsWord, ne→==,
}
use cspim.Base.Int.{ltb_ℤ}
use cspim.Opcodes.{Opcode, j, jal, beq, bne, blez, bgtz, jr, jalr, bltz, bgez, bltzal, bgezal, f_rt}
use cspim.Cpu.{MipsCpu, Exception, done, thrown, and_then, update, write_reg}
use cspim.Arith.{sword}
use cspim.Arith.Overflow.{sign}
use cspim.Instruction.{f_rs, f_rd, zero_word}
use cspim.Instruction.Control.{
  jump_to, jump_switch, do_jump, branch_offset, take_branch, branch_switch, do_branch,
}
use cspim.Execute.{Group, group}
use cspim.Execute.Effect.{IsWellFormed}
use cspim.Memory.View.{guest_byte}
use cspim.Isa.{Machine, transfer, expect_zero, taken}
use cspim.Isa.Meaning.{meaning, at_most_zero}
use cspim.Isa.Operands.{code_fields}
use cspim.Isa.Region.{jump_target-region}
use cspim.Isa.View.{view, Does, stays, goes, slot, trapped, expect_zero-Does}

-- The comparisons of a signed word with 0.
sign-word : (x : ℕ) → IsWord x → sign x ≡ ltb_ℤ (sword x) zero_word
sign-word x h = ground arith

at_most_zero-word : (x : ℕ) → IsWord x → at_most_zero x ≡ not (ltb_ℤ zero_word (sword x))
at_most_zero-word x h = ground arith

above_zero-word : (x : ℕ) → IsWord x → not (at_most_zero x) ≡ ltb_ℤ zero_word (sword x)
above_zero-word x h = ground arith

-- The machine that a state without a delay slot stands for.
abbrev plain : MipsCpu → Machine
plain c = record {
  reg = c.ur;
  hi = c.hi;
  lo = c.lo;
  pc = c.pc;
  npc = u32 (c.pc + 4);
  in_slot = false;
  mem = guest_byte c;
}

linked : (pc : ℕ) → u32 (u32 (pc + 4) + 4) ≡ u32 (pc + 8)
linked pc = omega arith

module _ {c : MipsCpu} (wf : IsWellFormed c) (size : ℕ) (ready : c.delay_slot ≡ 0) where
  zero_kept : (r v : ℕ) → r ≢ 0 → update c.ur r v 0 ≡ 0
  zero_kept r v ne = ground (arith, wf.registers.zero_register)

  linked-word : (n k : ℕ) → IsWord (update c.ur 31 (u32 n) k)
  linked-word n k = ground (arith, wf.registers.words k)

  take_branch-Does :
      (insn : ℕ) (b : Bool) (ur : ℕ → ℕ)
      → ur 0 ≡ 0
      → Does c
          (transfer ur (taken b (u32 (u32 (c.pc + 4) + branch_offset insn))))
          (take_branch insn b (record c { ur = ur }))
  unfolding take_branch
  take_branch-Does insn false ur h = stays ur h ready
  take_branch-Does insn true ur h = goes ur _ h ready

  link_and_jump-Does :
      (r rs v : ℕ)
      → let ur = if r == 0 then c.ur else update c.ur r v in
        Does c (transfer ur (some (ur rs))) (
          and_then (write_reg r (λ c. done v c) c) (λ _ c'. jump_to (u32 (c.pc + 4)) (c'.ur rs) c'))
  link_and_jump-Does zero rs v = goes c.ur _ wf.registers.zero_register ready
  link_and_jump-Does (suc r) rs v =
      rw (ne→== (suc r) 0 (omega arith))
        (goes (update c.ur (suc r) v) _ (zero_kept (suc r) v (omega arith)) ready)

  jump_switch-Does :
      (insn : ℕ) (op : Opcode)
      → group op ≡ Group.jump
      → u32 (c.pc + 4) < 2 ^ 27
      → Does c
          (meaning op (code_fields insn) size (plain c))
          (jump_switch insn op (u32 (c.pc + 4)) c)
  unfolding jump_switch meaning
  jump_switch-Does insn jal g low =
      rw (← jump_target-region (u32 (c.pc + 4)) insn low, linked c.pc)
        (goes (update c.ur 31 (u32 (c.pc + 8))) _ (zero_kept 31 (u32 (c.pc + 8)) (omega arith))
          ready)
  jump_switch-Does insn j g low =
      rw (← jump_target-region (u32 (c.pc + 4)) insn low)
        (goes c.ur _ wf.registers.zero_register ready)
  jump_switch-Does insn jalr g low = rw (linked c.pc) (
      expect_zero-Does (f_rt insn) _
        (λ _ c'.
          and_then (write_reg (f_rd insn) (λ c. done (u32 (c.pc + 8)) c) c')
            (λ _ c'. jump_to (u32 (c.pc + 4)) (c'.ur (f_rs insn)) c'))
        (link_and_jump-Does (f_rd insn) (f_rs insn) (u32 (c.pc + 8))))
  jump_switch-Does insn jr g low =
      expect_zero-Does (bit_and (insn >>> 6) 0x7fff) _
        (λ _ c'. jump_to (u32 (c.pc + 4)) (c'.ur (f_rs insn)) c')
        (goes c.ur (c.ur (f_rs insn)) wf.registers.zero_register ready)
  jump_switch-Does insn _ g low = cc

  branch_switch-Does :
      (insn : ℕ) (op : Opcode)
      → group op ≡ Group.branch
      → Does c (meaning op (code_fields insn) size (plain c)) (branch_switch insn op c)
  unfolding branch_switch meaning
  branch_switch-Does insn beq g = take_branch-Does insn _ c.ur wf.registers.zero_register
  branch_switch-Does insn bne g = take_branch-Does insn _ c.ur wf.registers.zero_register
  branch_switch-Does insn blez g =
      rw (at_most_zero-word (c.ur (f_rs insn)) (wf.registers.words (f_rs insn))) (
        expect_zero-Does (f_rt insn) _
          (λ _ c. take_branch insn (not (ltb_ℤ zero_word (sword (c.ur (f_rs insn))))) c)
          (take_branch-Does insn _ c.ur wf.registers.zero_register))
  branch_switch-Does insn bgtz g =
      rw (above_zero-word (c.ur (f_rs insn)) (wf.registers.words (f_rs insn))) (
        expect_zero-Does (f_rt insn) _
          (λ _ c. take_branch insn (ltb_ℤ zero_word (sword (c.ur (f_rs insn)))) c)
          (take_branch-Does insn _ c.ur wf.registers.zero_register))
  branch_switch-Does insn bltz g =
      rw (sign-word (c.ur (f_rs insn)) (wf.registers.words (f_rs insn)))
        (take_branch-Does insn _ c.ur wf.registers.zero_register)
  branch_switch-Does insn bgez g =
      rw (sign-word (c.ur (f_rs insn)) (wf.registers.words (f_rs insn)))
        (take_branch-Does insn _ c.ur wf.registers.zero_register)
  branch_switch-Does insn bltzal g =
      let v = u32 (c.pc + 8) in
      rw
        (linked c.pc, sign-word (update c.ur 31 v (f_rs insn)) (linked-word (c.pc + 8) (f_rs insn)))
        (take_branch-Does insn _ (update c.ur 31 v) (zero_kept 31 v (omega arith)))
  branch_switch-Does insn bgezal g =
      let v = u32 (c.pc + 8) in
      rw
        (linked c.pc, sign-word (update c.ur 31 v (f_rs insn)) (linked-word (c.pc + 8) (f_rs insn)))
        (take_branch-Does insn _ (update c.ur 31 v) (zero_kept 31 v (omega arith)))
  branch_switch-Does insn _ g = cc

-- In a delay slot the emulator refuses every jump and branch.
expect_zero-slot :
    {c : MipsCpu} (n : ℕ) (ur : ℕ → ℕ) (target : Option ℕ)
    → c.delay_slot ≢ 0
    → Does c (expect_zero n (transfer ur target)) (thrown Exception.invalid c)
expect_zero-slot n ur target h = elim (Bool-cases (n == 0)) [
  | inl e ↦ rw e (slot ur target h)
  | inr e ↦ rw e (trapped Exception.invalid tt)
]

module _ {c : MipsCpu} (h : c.delay_slot ≢ 0) where
  jump-slot :
      (insn : ℕ) (op : Opcode)
      → group op ≡ Group.jump
      → Does c (meaning op (code_fields insn) c.memsz (view c)) (thrown Exception.invalid c)
  unfolding meaning
  jump-slot insn jal g = slot _ _ h
  jump-slot insn j g = slot _ _ h
  jump-slot insn jalr g = expect_zero-slot (f_rt insn) _ _ h
  jump-slot insn jr g = expect_zero-slot (bit_and (insn >>> 6) 0x7fff) _ _ h
  jump-slot insn _ g = cc

  branch-slot :
      (insn : ℕ) (op : Opcode)
      → group op ≡ Group.branch
      → Does c (meaning op (code_fields insn) c.memsz (view c)) (thrown Exception.invalid c)
  unfolding meaning
  branch-slot insn beq g = slot _ _ h
  branch-slot insn bne g = slot _ _ h
  branch-slot insn blez g = expect_zero-slot (f_rt insn) _ _ h
  branch-slot insn bgtz g = expect_zero-slot (f_rt insn) _ _ h
  branch-slot insn bltz g = slot _ _ h
  branch-slot insn bgez g = slot _ _ h
  branch-slot insn bltzal g = slot _ _ h
  branch-slot insn bgezal g = slot _ _ h
  branch-slot insn _ g = cc

module _ {c : MipsCpu} (wf : IsWellFormed c) where
  pub do_jump-Does :
      (insn : ℕ) (op : Opcode)
      → group op ≡ Group.jump
      → (c.delay_slot ≡ 0 → u32 (c.pc + 4) < 2 ^ 27)
      → Does c (meaning op (code_fields insn) c.memsz (view c)) (do_jump insn op c)
  unfolding do_jump
  do_jump-Does insn op g low = elim (Bool-cases (c.delay_slot == 0)) [
    | inl e ↦
        let ready : c.delay_slot ≡ 0 = ground arith in
        rw e (jump_switch-Does wf c.memsz ready insn op g (low ready))
    | inr e ↦
        let ne : c.delay_slot ≢ 0 = ground arith in
        let d = jump-slot {c = c} ne insn op g in rw e (rw e at d)
  ]

  pub do_branch-Does :
      (insn : ℕ) (op : Opcode)
      → group op ≡ Group.branch
      → Does c (meaning op (code_fields insn) c.memsz (view c)) (do_branch insn op c)
  unfolding do_branch
  do_branch-Does insn op g = elim (Bool-cases (c.delay_slot == 0)) [
    | inl e ↦
        let ready : c.delay_slot ≡ 0 = ground arith in
        rw e (branch_switch-Does wf c.memsz ready insn op g)
    | inr e ↦
        let ne : c.delay_slot ≢ 0 = ground arith in
        let d = branch-slot {c = c} ne insn op g in rw e (rw e at d)
  ]
