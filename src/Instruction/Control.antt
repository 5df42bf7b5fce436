-- ===== src/Instruction/Control.antt =====
-- `do_jump` and `do_branch` of vm/cpuemu.c.
use cspim.Base.{
  ℕ, ◌+◌, bit_and, bit_or, ◌==◌, if◌then◌else◌, ◌<<◌, ◌>>>◌, u32, Bool, true, false, not,
}
use cspim.Base.Int.{ltb_ℤ}
use cspim.Opcodes.{Opcode, j, jal, beq, bne, blez, bgtz, jr, jalr, bltz, bgez, bltzal, bgezal, f_rt}
use cspim.Cpu.{Exception, done, thrown, Command, ◌>>◌, throw, throw_if, set_ur, write_reg}
use cspim.Memory.{}
use cspim.Arith.{sword}
use cspim.Instruction.{f_rs, f_rd, sar, zero_word}

-- The last two assignments of `do_jump`.
abbrev pub jump_to : ℕ → ℕ → Command (Unit {0})
jump_to nds npc c = done tt (record c { delay_slot = nds; pc = npc })

-- `(nds & 0xF8000000) | ((insn & 0x03FFFFFF) << 2)`
unfoldable pub jump_target : ℕ → ℕ → ℕ
jump_target nds insn = bit_or (bit_and nds 0xf800_0000) (bit_and insn 0x03ff_ffff << 2)

-- The `switch` of `do_jump`, with `PC + 4` for `nds`.
unfoldable pub jump_switch : ℕ → Opcode → ℕ → Command (Unit {0})
unfolding jump_target f_rt f_rs f_rd
jump_switch insn jal nds = λ c. jump_to nds (jump_target nds insn) (set_ur 31 (u32 (c.pc + 8)) c)
jump_switch insn j nds = λ c. jump_to nds (jump_target nds insn) c
jump_switch insn jalr nds = do
  throw_if (not (f_rt insn == 0)) Exception.invalid
  write_reg (f_rd insn) (λ c. done (u32 (c.pc + 8)) c)
  λ c. jump_to nds (c.ur (f_rs insn)) c
jump_switch insn jr nds = do
  throw_if (not (bit_and (insn >>> 6) 0x7fff == 0)) Exception.invalid
  λ c. jump_to nds (c.ur (f_rs insn)) c
jump_switch insn _ nds = throw Exception.abort

unfoldable pub do_jump : ℕ → Opcode → Command (Unit {0})
unfolding jump_switch
do_jump insn op c =
    if c.delay_slot == 0 then jump_switch insn op (u32 (c.pc + 4)) c else thrown Exception.invalid c

-- `(mips_uword)((((mips_sword)insn) << 16) >> 14)`
unfoldable pub branch_offset : ℕ → ℕ
unfolding sar
branch_offset insn = sar (insn << 16) 14

-- The branch that is taken if `s` is not 0.
unfoldable pub take_branch : ℕ → Bool → Command (Unit {0})
unfolding branch_offset
take_branch insn false c = done tt c
take_branch insn true c =
    let nds = u32 (c.pc + 4) in
    done tt (record c { delay_slot = nds; pc = u32 (nds + branch_offset insn) })

-- The `switch` of `do_branch`. Each case that does not throw sets `s`, so the test for -1 behind
-- the `switch` never holds.
unfoldable pub branch_switch : ℕ → Opcode → Command (Unit {0})
unfolding take_branch f_rt f_rs
branch_switch insn beq = λ c. take_branch insn (c.ur (f_rs insn) == c.ur (f_rt insn)) c
branch_switch insn bne = λ c. take_branch insn (not (c.ur (f_rs insn) == c.ur (f_rt insn))) c
branch_switch insn blez = do
  throw_if (not (f_rt insn == 0)) Exception.invalid
  λ c. take_branch insn (not (ltb_ℤ zero_word (sword (c.ur (f_rs insn))))) c
branch_switch insn bgtz = do
  throw_if (not (f_rt insn == 0)) Exception.invalid
  λ c. take_branch insn (ltb_ℤ zero_word (sword (c.ur (f_rs insn)))) c
branch_switch insn bltzal = λ c.
    let c' = set_ur 31 (u32 (c.pc + 8)) c in
    take_branch insn (ltb_ℤ (sword (c'.ur (f_rs insn))) zero_word) c'
branch_switch insn bltz = λ c. take_branch insn (ltb_ℤ (sword (c.ur (f_rs insn))) zero_word) c
branch_switch insn bgezal = λ c.
    let c' = set_ur 31 (u32 (c.pc + 8)) c in
    take_branch insn (not (ltb_ℤ (sword (c'.ur (f_rs insn))) zero_word)) c'
branch_switch insn bgez = λ c. take_branch insn (not (ltb_ℤ (sword (c.ur (f_rs insn))) zero_word)) c
branch_switch insn _ = throw Exception.abort

unfoldable pub do_branch : ℕ → Opcode → Command (Unit {0})
unfolding branch_switch
do_branch insn op c =
    if c.delay_slot == 0 then branch_switch insn op c else thrown Exception.invalid c
