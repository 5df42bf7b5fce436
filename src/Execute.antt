-- ===== src/Execute.antt =====
-- The execution engine of vm/cpuemu.c: the dispatcher, `mips_execute`, `mips_break_code` and
-- `mips_resume`.
pub mod Effect
pub mod AluEffect
pub mod ControlEffect
pub mod DivMultEffect
pub mod LoadStoreEffect
pub mod DispatchEffect
pub mod Step
pub mod Safety
use cspim.Base.{
  ℕ, ◌+◌, ◌-◌, ◌*◌, ◌/◌, ◌%◌, ◌^◌, bit_and, bit_or, bit_xor, ◌==◌, if◌then◌else◌, ltb, leb, ◌<<◌,
  ◌>>>◌, u8, u16, u32, sub32, not32, Bool, true, false, ◌||◌, not, Option, none, some,
}
use cspim.Base.Int.{ℤ, pos, negsuc, pos_part, neg_part, ltb_ℤ, signed, pattern_of}
use cspim.Opcodes.{
  Opcode, code, special, regimm, j, jal, beq, bne, blez, bgtz, addi, addiu, slti, sltiu, andi, ori,
  xori, lui, lb, lh, lwl, lw, lbu, lhu, lwr, sb, sh, swl, sw, swr, sll, srl, sra, sllv, srlv, srav,
  jr, jalr, syscall, break, mfhi, mthi, mflo, mtlo, mult, multu, div, divu, add, addu, sub, subu,
  and, or, xor, nor, slt, sltu, bltz, bgez, bltzal, bgezal, f_rt, mips_decode, opcode_of,
}
use cspim.Cpu.{
  minus_one, Memory, MipsCpu, Exception, Outcome, done, thrown, undefined, Command, and_then, ◌>>=◌,
  ◌>>◌, throw, throw_if, set_ur, write_reg,
}
use cspim.Memory.{
  mips_peek_sb, mips_peek_sh, mips_peek_ub, mips_peek_uh, mips_peek_uw, mips_poke_ub, mips_poke_uh,
  mips_poke_uw, pure,
}
use cspim.Arith
use cspim.Arith.{sword, add_ovf, sub_ovf, divide_signed, divide_unsigned, quotient_overflows}
use cspim.Instruction.Control.{do_jump, do_branch}
use cspim.Instruction.Alu.{do_alui, do_alu3}
use cspim.Instruction.LoadStore.{do_loadstore}
use cspim.Instruction.DivMult.{do_divmult}

-- The group whose handler `do_dispatch` calls.
pub data Group : Type 0 where
  jump branch alui alu3 load_store div_mult syscalls breaks others : Group

abbrev pub group : Opcode → Group
group jal = jump
group j = jump
group jr = jump
group jalr = jump
group beq = branch
group bne = branch
group blez = branch
group bgtz = branch
group bltz = branch
group bgez = branch
group bltzal = branch
group bgezal = branch
group addi = alui
group addiu = alui
group slti = alui
group sltiu = alui
group andi = alui
group ori = alui
group xori = alui
group sll = alu3
group srl = alu3
group sra = alu3
group sllv = alu3
group srlv = alu3
group srav = alu3
group add = alu3
group addu = alu3
group sub = alu3
group subu = alu3
group and = alu3
group or = alu3
group xor = alu3
group nor = alu3
group slt = alu3
group sltu = alu3
group lb = load_store
group lh = load_store
group lwl = load_store
group lw = load_store
group lbu = load_store
group lhu = load_store
group lwr = load_store
group sb = load_store
group sh = load_store
group swl = load_store
group sw = load_store
group swr = load_store
group lui = load_store
group mult = div_mult
group multu = div_mult
group div = div_mult
group divu = div_mult
group mfhi = div_mult
group mthi = div_mult
group mflo = div_mult
group mtlo = div_mult
group syscall = syscalls
group break = breaks
group special = others
group regimm = others

unfoldable pub call_handler : Group → ℕ → Opcode → Command (Unit {0})
call_handler jump insn op = do_jump insn op
call_handler branch insn op = do_branch insn op
call_handler alui insn op = do_alui insn op
call_handler alu3 insn op = do_alu3 insn op
call_handler load_store insn op = do_loadstore insn op
call_handler div_mult insn op = do_divmult insn op
call_handler syscalls insn op = throw Exception.syscall
call_handler breaks insn op = throw Exception.break
call_handler others insn op = throw Exception.abort

unfoldable pub do_dispatch : ℕ → Opcode → Command (Unit {0})
unfolding call_handler
do_dispatch insn op = call_handler (group op) insn op

abbrev pub dispatch_found : ℕ → Option Opcode → Command (Unit {0})
dispatch_found insn none = throw Exception.abort
dispatch_found insn (some op) = do_dispatch insn op

-- The `switch` of `do_dispatch` on an `int`; a number that is no opcode is its `default`.
unfoldable pub dispatch_code : ℕ → ℕ → Command (Unit {0})
unfolding do_dispatch opcode_of
dispatch_code insn opcode = dispatch_found insn (opcode_of opcode)

-- Whether $0 holds another value than 0, which is an error of the emulator.
abbrev pub check_zero : Command (Unit {0})
check_zero c = throw_if (not (c.ur 0 == 0)) Exception.abort c

-- The decoded opcode, with the two checks that follow the decoder.
unfoldable pub check_opcode : Option ℕ → Command ℕ
check_opcode none = throw Exception.invalid
check_opcode (some opcode) = do
  throw_if (opcode == code special || opcode == code regimm) Exception.abort
  pure opcode

-- The update of the program counter and the delay slot, from `fdelay`.
unfoldable pub advance : Bool → Command (Unit {0})
advance true c = done tt (record c { delay_slot = 0 })
advance false c =
    if c.delay_slot == 0 then done tt (record c { pc = u32 (c.pc + 4) }) else done tt c

-- The body of `mips_execute` behind `setjmp`.
unfoldable pub execute_body : Command (Unit {0})
unfolding mips_peek_uw mips_decode check_opcode dispatch_code advance
execute_body c =
    let fdelay = not (c.delay_slot == 0) in
    (do
      insn ← mips_peek_uw (if fdelay then c.delay_slot else c.pc)
      opcode ← check_opcode (mips_decode insn)
      check_zero
      dispatch_code insn opcode
      check_zero
      advance fdelay)
      c

-- The exception that was thrown, or `ok`, and the state; `none` where C leaves it undefined.
abbrev pub caught : Outcome (Unit {0}) → Option (Exception × MipsCpu)
caught (done _ c) = some (Exception.ok, c)
caught (thrown e c) = some (e, c)
caught undefined = none

unfoldable pub mips_execute : MipsCpu → Option (Exception × MipsCpu)
unfolding execute_body
mips_execute c = caught (execute_body c)

-- What `mips_break_code` returns, with the opcode that it stores; no opcode is stored if the fetch
-- throws, and the opcode is -1 (`none`) if the instruction is not valid.
unfoldable pub break_code_of : ℕ → ℕ → ℕ
break_code_of insn opcode =
    if opcode == code break
    then bit_and (insn >>> 16) 0x3ff
    else if opcode == code syscall
    then bit_and (insn >>> 6) 0xf_ffff
    else minus_one

pub data BreakCode : Type 0 where
  faulted : BreakCode
  not_valid : BreakCode
  decoded : (opcode result : ℕ) → BreakCode

abbrev pub decoded_code : ℕ → Option ℕ → BreakCode
decoded_code insn none = not_valid
decoded_code insn (some opcode) = decoded opcode (break_code_of insn opcode)

abbrev pub code_of_fetch : Outcome ℕ → Option BreakCode
code_of_fetch (done insn _) = some (decoded_code insn (mips_decode insn))
code_of_fetch (thrown _ _) = some faulted
code_of_fetch undefined = none

unfoldable pub mips_break_code : MipsCpu → Option BreakCode
unfolding mips_peek_uw mips_decode break_code_of
mips_break_code c = code_of_fetch (mips_peek_uw c.pc c)

-- The result of `mips_resume`, 0 or -1, and the state.
abbrev pub resumes : Option ℕ → Bool
resumes none = false
resumes (some opcode) = opcode == code break || opcode == code syscall

abbrev pub resume_of_fetch : MipsCpu → Outcome ℕ → Option (ℕ × MipsCpu)
resume_of_fetch c (done insn _) =
    some
      (if resumes (mips_decode insn) then (0, record c { pc = u32 (c.pc + 4) }) else (minus_one, c))
resume_of_fetch c (thrown _ _) = some (minus_one, c)
resume_of_fetch c undefined = none

unfoldable pub mips_resume : MipsCpu → Option (ℕ × MipsCpu)
unfolding mips_peek_uw mips_decode
mips_resume c = resume_of_fetch c (mips_peek_uw c.pc c)
