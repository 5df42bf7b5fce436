-- ===== src/Instruction/Alu.antt =====
-- `do_alui` and `do_alu3` of vm/cpuemu.c.
use cspim.Base.{ℕ, ◌+◌, bit_and, bit_or, bit_xor, ◌==◌, ltb, ◌<<◌, ◌>>>◌, u32, sub32, not32, not}
use cspim.Opcodes.{
  Opcode, addi, addiu, slti, sltiu, andi, ori, xori, sll, srl, sra, sllv, srlv, srav, add, addu,
  sub, subu, and, or, xor, nor, slt, sltu, f_rt,
}
use cspim.Cpu.{Exception, done, Command, ◌>>◌, throw, throw_if, write_reg}
use cspim.Memory.{}
use cspim.Arith.{add_ovf, sub_ovf}
use cspim.Instruction.{f_rs, f_rd, f_sa, sar, s_imm, z_imm, of_bool, slt_word}

unfoldable pub do_alui : ℕ → Opcode → Command (Unit {0})
unfolding f_rs f_rt s_imm z_imm add_ovf
do_alui insn addi = λ c. write_reg (f_rt insn) (add_ovf (c.ur (f_rs insn)) (s_imm insn)) c
do_alui insn addiu = λ c. write_reg (f_rt insn) (done (u32 (c.ur (f_rs insn) + s_imm insn))) c
do_alui insn slti =
    λ c. write_reg (f_rt insn) (done (of_bool (slt_word (c.ur (f_rs insn)) (s_imm insn)))) c
do_alui insn sltiu =
    λ c. write_reg (f_rt insn) (done (of_bool (ltb (c.ur (f_rs insn)) (s_imm insn)))) c
do_alui insn andi = λ c. write_reg (f_rt insn) (done (bit_and (c.ur (f_rs insn)) (z_imm insn))) c
do_alui insn ori = λ c. write_reg (f_rt insn) (done (bit_or (c.ur (f_rs insn)) (z_imm insn))) c
do_alui insn xori = λ c. write_reg (f_rt insn) (done (bit_xor (c.ur (f_rs insn)) (z_imm insn))) c
do_alui insn _ = throw Exception.abort

-- Z_(fRS) or Z_(fSA), then a write to RD of an expression on RS and RT.
abbrev pub with_zero : ℕ → ℕ → (ℕ → ℕ → Command ℕ) → Command (Unit {0})
with_zero field insn expr = do
  throw_if (not (field == 0)) Exception.invalid
  λ c. write_reg (f_rd insn) (expr (c.ur (f_rs insn)) (c.ur (f_rt insn))) c

unfoldable pub do_alu3 : ℕ → Opcode → Command (Unit {0})
unfolding f_rs f_rt f_rd f_sa sar add_ovf sub_ovf
do_alu3 insn sll = with_zero (f_rs insn) insn (λ s t. done (t << f_sa insn))
do_alu3 insn srl = with_zero (f_rs insn) insn (λ s t. done (t >>> f_sa insn))
do_alu3 insn sra = with_zero (f_rs insn) insn (λ s t. done (sar t (f_sa insn)))
do_alu3 insn sllv = with_zero (f_sa insn) insn (λ s t. done (t << bit_and s 0x1f))
do_alu3 insn srlv = with_zero (f_sa insn) insn (λ s t. done (t >>> bit_and s 0x1f))
do_alu3 insn srav = with_zero (f_sa insn) insn (λ s t. done (sar t (bit_and s 0x1f)))
do_alu3 insn add = with_zero (f_sa insn) insn (λ s t. add_ovf s t)
do_alu3 insn addu = with_zero (f_sa insn) insn (λ s t. done (u32 (s + t)))
do_alu3 insn sub = with_zero (f_sa insn) insn (λ s t. sub_ovf s t)
do_alu3 insn subu = with_zero (f_sa insn) insn (λ s t. done (sub32 s t))
do_alu3 insn and = with_zero (f_sa insn) insn (λ s t. done (bit_and s t))
do_alu3 insn or = with_zero (f_sa insn) insn (λ s t. done (bit_or s t))
do_alu3 insn xor = with_zero (f_sa insn) insn (λ s t. done (bit_xor s t))
do_alu3 insn nor = with_zero (f_sa insn) insn (λ s t. done (not32 (bit_or s t)))
do_alu3 insn slt = with_zero (f_sa insn) insn (λ s t. done (of_bool (slt_word s t)))
do_alu3 insn sltu = with_zero (f_sa insn) insn (λ s t. done (of_bool (ltb s t)))
do_alu3 insn _ = throw Exception.abort
