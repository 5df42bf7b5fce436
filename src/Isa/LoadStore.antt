-- ===== src/Isa/LoadStore.antt =====
-- `do_loadstore` of vm/cpuemu.c does what the specification says of its instructions.
use cspim.Base.{
  ℕ, ◌+◌, ◌^◌, ◌<◌, ◌≡◌, refl, if◌then◌else◌, ◌<<◌, u32, Bool, true, false, arith, IsWord,
}
use cspim.Base.Int.{sign_extend}
use cspim.Opcodes.{Opcode, lui, lb, lh, lwl, lw, lbu, lhu, lwr, sb, sh, swl, sw, swr, f_rt}
use cspim.Cpu.{MipsCpu, Exception, done, thrown, write_reg}
use cspim.Memory.View.{
  guest_byte, guest_half, accessible, mips_peek_ub-guest_byte, mips_peek_sb-guest_byte,
  mips_peek_uh-guest_half, mips_peek_sh-guest_half, mips_peek_uw-guest_word,
}
use cspim.Memory.Flat.{mips_poke-Writes}
use cspim.Instruction.{f_rs, s_imm, z_imm}
use cspim.Instruction.LoadStore.{load_store_switch, do_loadstore}
use cspim.Execute.{Group, group}
use cspim.Execute.Effect.{IsWellFormed}
use cspim.Isa.{load, extend_byte, extend_half}
use cspim.Isa.Meaning.{meaning}
use cspim.Isa.Operands.{code_fields}
use cspim.Isa.Merge.{Writes-Does, lwl-Does, lwr-Does, swl-Does, swr-Does}
use cspim.Isa.View.{view, Yields, value, fault, Does, write_reg-Does, expect_zero-Does}

read-Yields :
    {c : MipsCpu} (b : Bool) (v w : ℕ)
    → v ≡ w
    → Yields c (load b w) (if b then done v c else thrown Exception.address c)
read-Yields true v w e = rw e (value w)
read-Yields false v w e = fault Exception.address tt

sign_extend-byte : (b : ℕ) → b < 2 ^ 8 → sign_extend 8 b ≡ extend_byte b
sign_extend-byte b h = ground arith

sign_extend-half : (b : ℕ) → b < 2 ^ 16 → sign_extend 16 b ≡ extend_half b
sign_extend-half b h = ground arith

module _ {c : MipsCpu} (wf : IsWellFormed c) where
  rt : (insn : ℕ) → IsWord (c.ur (f_rt insn))
  rt insn = wf.registers.words (f_rt insn)

  switch-Does :
      (insn : ℕ) (op : Opcode)
      → group op ≡ Group.load_store
      → let ea = u32 (c.ur (f_rs insn) + s_imm insn) in
        Does c (meaning op (code_fields insn) c.memsz (view c)) (load_store_switch insn op ea c)
  unfolding load_store_switch meaning
  switch-Does insn lb g =
      let ea = u32 (c.ur (f_rs insn) + s_imm insn) in
      rw (mips_peek_sb-guest_byte c ea wf.safe (omega arith)) (
        write_reg-Does (f_rt insn)
          (read-Yields (accessible c ea 1) _ _ (sign_extend-byte (guest_byte c ea) (omega arith))))
  switch-Does insn lbu g =
      let ea = u32 (c.ur (f_rs insn) + s_imm insn) in
      rw (mips_peek_ub-guest_byte c ea wf.safe (omega arith))
        (write_reg-Does (f_rt insn) (read-Yields (accessible c ea 1) _ _ refl))
  switch-Does insn lh g =
      let ea = u32 (c.ur (f_rs insn) + s_imm insn) in
      rw (mips_peek_sh-guest_half c ea wf.safe (omega arith)) (
        write_reg-Does (f_rt insn)
          (read-Yields (accessible c ea 2) _ _ (sign_extend-half (guest_half c ea) (omega arith))))
  switch-Does insn lhu g =
      let ea = u32 (c.ur (f_rs insn) + s_imm insn) in
      rw (mips_peek_uh-guest_half c ea wf.safe (omega arith))
        (write_reg-Does (f_rt insn) (read-Yields (accessible c ea 2) _ _ refl))
  switch-Does insn lw g =
      let ea = u32 (c.ur (f_rs insn) + s_imm insn) in
      rw (mips_peek_uw-guest_word c ea wf.safe (omega arith))
        (write_reg-Does (f_rt insn) (read-Yields (accessible c ea 4) _ _ refl))
  switch-Does insn sb g =
      Writes-Does _ (λ k. refl) (mips_poke-Writes wf.safe _ _ (omega arith) (rt insn)).0
  switch-Does insn sh g =
      Writes-Does _ (λ k. refl) (mips_poke-Writes wf.safe _ _ (omega arith) (rt insn)).1
  switch-Does insn sw g =
      Writes-Does _ (λ k. refl) (mips_poke-Writes wf.safe _ _ (omega arith) (rt insn)).2
  switch-Does insn lui g =
      expect_zero-Does (f_rs insn) _ (λ _ c. write_reg (f_rt insn) (done (z_imm insn << 16)) c)
        (write_reg-Does (f_rt insn) (value _))
  switch-Does insn lwl g = lwl-Does wf (f_rt insn) _ (omega arith)
  switch-Does insn lwr g = lwr-Does wf (f_rt insn) _ (omega arith)
  switch-Does insn swl g = swl-Does wf (f_rt insn) _ (omega arith)
  switch-Does insn swr g = swr-Does wf (f_rt insn) _ (omega arith)
  switch-Does insn _ g = cc

  pub do_loadstore-Does :
      (insn : ℕ) (op : Opcode)
      → group op ≡ Group.load_store
      → Does c (meaning op (code_fields insn) c.memsz (view c)) (do_loadstore insn op c)
  unfolding do_loadstore
  do_loadstore-Does insn op g = switch-Does insn op g
