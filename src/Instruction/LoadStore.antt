-- ===== src/Instruction/LoadStore.antt =====
-- `do_loadstore` of vm/cpuemu.c.
use cspim.Base.{
  ℕ, ◌+◌, ◌-◌, ◌*◌, bit_and, bit_or, ◌==◌, if◌then◌else◌, ◌<<◌, ◌>>>◌, u32, sub32, not,
}
use cspim.Opcodes.{Opcode, lui, lb, lh, lwl, lw, lbu, lhu, lwr, sb, sh, swl, sw, swr, f_rt}
use cspim.Cpu.{Exception, done, Command, ◌>>=◌, ◌>>◌, throw, throw_if, write_reg}
use cspim.Memory.{
  mips_peek_sb, mips_peek_sh, mips_peek_ub, mips_peek_uh, mips_peek_uw, mips_poke_ub, mips_poke_uh,
  mips_poke_uw, pure,
}
use cspim.Instruction.{f_rs, s_imm, z_imm}

-- The word that LWL and LWR leave in RT, and the word that SWL and SWR store, from the word in
-- memory, the register and the place `s` of the address in its word.
unfoldable pub lwl_word : ℕ → ℕ → ℕ → ℕ
lwl_word s mem rt =
    bit_or (mem << (8 * (3 - s))) (if s == 3 then 0 else bit_and rt (0xffff_ffff >>> (8 * (s + 1))))

unfoldable pub lwr_word : ℕ → ℕ → ℕ → ℕ
lwr_word s mem rt =
    bit_or (mem >>> (8 * s)) (if s == 0 then 0 else bit_and rt (0xffff_ffff << (8 * (4 - s))))

unfoldable pub swl_word : ℕ → ℕ → ℕ → ℕ
swl_word s mem rt =
    bit_or (if s == 3 then 0 else bit_and mem (0xffff_ffff << (8 * (s + 1)))) (rt >>> (8 * (3 - s)))

unfoldable pub swr_word : ℕ → ℕ → ℕ → ℕ
swr_word s mem rt =
    bit_or (if s == 0 then 0 else bit_and mem (0xffff_ffff >>> (8 * (4 - s)))) (rt << (8 * s))

-- `do_loadstore` at the effective address `ea`.
unfoldable pub load_store_switch : ℕ → Opcode → ℕ → Command (Unit {0})
unfolding f_rs f_rt z_imm lwl_word lwr_word swl_word swr_word mips_peek_sb mips_peek_sh mips_peek_ub
    mips_peek_uh mips_peek_uw mips_poke_ub mips_poke_uh mips_poke_uw
load_store_switch insn lb ea = write_reg (f_rt insn) (mips_peek_sb ea)
load_store_switch insn lbu ea = write_reg (f_rt insn) (mips_peek_ub ea)
load_store_switch insn lh ea = write_reg (f_rt insn) (mips_peek_sh ea)
load_store_switch insn lhu ea = write_reg (f_rt insn) (mips_peek_uh ea)
load_store_switch insn lw ea = write_reg (f_rt insn) (mips_peek_uw ea)
load_store_switch insn sb ea = λ c. mips_poke_ub ea (c.ur (f_rt insn)) c
load_store_switch insn sh ea = λ c. mips_poke_uh ea (c.ur (f_rt insn)) c
load_store_switch insn sw ea = λ c. mips_poke_uw ea (c.ur (f_rt insn)) c
load_store_switch insn lui ea = do
  throw_if (not (f_rs insn == 0)) Exception.invalid
  write_reg (f_rt insn) (done (z_imm insn << 16))
load_store_switch insn lwl ea = do
  let s = bit_and ea 3
  w ← mips_peek_uw (sub32 ea s)
  λ c. write_reg (f_rt insn) (done (lwl_word s w (c.ur (f_rt insn)))) c
load_store_switch insn lwr ea = do
  let s = bit_and ea 3
  w ← mips_peek_uw (sub32 ea s)
  λ c. write_reg (f_rt insn) (done (lwr_word s w (c.ur (f_rt insn)))) c
load_store_switch insn swl ea = do
  let s = bit_and ea 3
  w ← if s == 3 then pure 0 else mips_peek_uw (sub32 ea s)
  λ c. mips_poke_uw (sub32 ea s) (swl_word s w (c.ur (f_rt insn))) c
load_store_switch insn swr ea = do
  let s = bit_and ea 3
  w ← if s == 0 then pure 0 else mips_peek_uw (sub32 ea s)
  λ c. mips_poke_uw (sub32 ea s) (swr_word s w (c.ur (f_rt insn))) c
load_store_switch insn _ ea = throw Exception.abort

unfoldable pub do_loadstore : ℕ → Opcode → Command (Unit {0})
unfolding load_store_switch f_rs s_imm
do_loadstore insn op c = load_store_switch insn op (u32 (c.ur (f_rs insn) + s_imm insn)) c
