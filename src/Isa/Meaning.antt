-- ===== src/Isa/Meaning.antt =====
-- The meaning of each opcode as an action, what an action does to the machine, and the step and the
-- run of the machine. Jumps and branches set the address behind the next instruction; the emulator
-- refuses them in a delay slot.
use cspim.Base.{
  ℕ, zero, suc, ◌+◌, ◌-◌, ◌*◌, ◌/◌, ◌%◌, ◌^◌, bit_and, bit_or, bit_xor, ◌==◌, if◌then◌else◌, ltb,
  u32, sub32, Bool, true, false, ◌||◌, not, Option, none, some,
}
use cspim.Opcodes.{
  Opcode, special, regimm, j, jal, beq, bne, blez, bgtz, addi, addiu, slti, sltiu, andi, ori, xori,
  lui, lb, lh, lwl, lw, lbu, lhu, lwr, sb, sh, swl, sw, swr, sll, srl, sra, sllv, srlv, srav, jr,
  jalr, syscall, break, mfhi, mthi, mflo, mtlo, mult, multu, div, divu, add, addu, sub, subu, and,
  or, xor, nor, slt, sltu, bltz, bgez, bltzal, bgezal, opcode_of,
}
use cspim.Opcodes.Decode.{field_opcode}
use cspim.Cpu.{Exception, update}
use cspim.Arith.{divide_signed, quotient_overflows}
use cspim.Base.Int.{◌*ℤ◌, signed, pattern_of}
use cspim.Arith.Overflow.{sign}
use cspim.Memory.Flat.{flat_write}
use cspim.Isa.{
  Machine, Fields, extend_byte, extend_half, fields, Computed, gives, faults, Action, write,
  write_hi_lo, store, transfer, trap, unspecified, allowed, half_in, word_in, load, left_word,
  right_word, write_left, write_right, checked_sum, checked_difference, below_signed, flag,
  shift_arithmetic, expect_zero, taken,
}

-- The address for a return, behind the delay slot.
abbrev pub link : Machine → ℕ
link m = u32 (m.npc + 4)

-- The target of J and JAL: the 256 MB region of the delay slot, and the index in words.
abbrev pub region_target : Machine → ℕ → ℕ
region_target m index = m.npc / 2 ^ 28 * 2 ^ 28 + 4 * index

abbrev pub branch : (ℕ → ℕ) → Machine → Fields → Bool → Action
branch reg m f b = transfer reg (taken b (u32 (m.npc + f.offset)))

-- Whether a word is 0 or, as a signed integer, less.
abbrev pub at_most_zero : ℕ → Bool
at_most_zero x = sign x || (x == 0)

abbrev pub divides_signed : ℕ → ℕ → Action
divides_signed x y =
    if quotient_overflows x y
    then unspecified
    else write_hi_lo (divide_signed x y).1 (divide_signed x y).0

-- The emulator's choice for a divisor of 0, which MIPS I leaves open: two words of ones.
abbrev pub divides_unsigned : ℕ → ℕ → Action
divides_unsigned x y =
    if y == 0 then write_hi_lo 0xffff_ffff 0xffff_ffff else write_hi_lo (x % y) (x / y)

-- LWL and LWR read their word also for $0.
abbrev pub unaligned : Bool → Action → Action
unaligned ok a = if ok then a else trap Exception.address

unfoldable pub meaning : Opcode → Fields → ℕ → Machine → Action
meaning j f size m = transfer m.reg (some (region_target m f.index))
meaning jal f size m = transfer (update m.reg 31 (link m)) (some (region_target m f.index))
meaning jr f size m = expect_zero f.rt_rd_sa (transfer m.reg (some (m.reg f.rs)))
meaning jalr f size m =
    let reg = if f.rd == 0 then m.reg else update m.reg f.rd (link m) in
    expect_zero f.rt (transfer reg (some (reg f.rs)))
meaning beq f size m = branch m.reg m f (m.reg f.rs == m.reg f.rt)
meaning bne f size m = branch m.reg m f (not (m.reg f.rs == m.reg f.rt))
meaning blez f size m = expect_zero f.rt (branch m.reg m f (at_most_zero (m.reg f.rs)))
meaning bgtz f size m = expect_zero f.rt (branch m.reg m f (not (at_most_zero (m.reg f.rs))))
meaning bltz f size m = branch m.reg m f (sign (m.reg f.rs))
meaning bgez f size m = branch m.reg m f (not (sign (m.reg f.rs)))
meaning bltzal f size m = let reg = update m.reg 31 (link m) in branch reg m f (sign (reg f.rs))
meaning bgezal f size m =
    let reg = update m.reg 31 (link m) in branch reg m f (not (sign (reg f.rs)))
meaning addi f size m = write f.rt (checked_sum (m.reg f.rs) f.signed_imm)
meaning addiu f size m = write f.rt (gives (u32 (m.reg f.rs + f.signed_imm)))
meaning slti f size m = write f.rt (flag (below_signed (m.reg f.rs) f.signed_imm))
meaning sltiu f size m = write f.rt (flag (ltb (m.reg f.rs) f.signed_imm))
meaning andi f size m = write f.rt (gives (bit_and (m.reg f.rs) f.imm))
meaning ori f size m = write f.rt (gives (bit_or (m.reg f.rs) f.imm))
meaning xori f size m = write f.rt (gives (bit_xor (m.reg f.rs) f.imm))
meaning lui f size m = expect_zero f.rs (write f.rt (gives (u32 (f.imm * 2 ^ 16))))
meaning sll f size m = expect_zero f.rs (write f.rd (gives (u32 (m.reg f.rt * 2 ^ f.sa))))
meaning srl f size m = expect_zero f.rs (write f.rd (gives (m.reg f.rt / 2 ^ f.sa)))
meaning sra f size m = expect_zero f.rs (write f.rd (gives (shift_arithmetic (m.reg f.rt) f.sa)))
meaning sllv f size m =
    expect_zero f.sa (write f.rd (gives (u32 (m.reg f.rt * 2 ^ (m.reg f.rs % 32)))))
meaning srlv f size m = expect_zero f.sa (write f.rd (gives (m.reg f.rt / 2 ^ (m.reg f.rs % 32))))
meaning srav f size m =
    expect_zero f.sa (write f.rd (gives (shift_arithmetic (m.reg f.rt) (m.reg f.rs % 32))))
meaning add f size m = expect_zero f.sa (write f.rd (checked_sum (m.reg f.rs) (m.reg f.rt)))
meaning addu f size m = expect_zero f.sa (write f.rd (gives (u32 (m.reg f.rs + m.reg f.rt))))
meaning sub f size m = expect_zero f.sa (write f.rd (checked_difference (m.reg f.rs) (m.reg f.rt)))
meaning subu f size m = expect_zero f.sa (write f.rd (gives (sub32 (m.reg f.rs) (m.reg f.rt))))
meaning and f size m = expect_zero f.sa (write f.rd (gives (bit_and (m.reg f.rs) (m.reg f.rt))))
meaning or f size m = expect_zero f.sa (write f.rd (gives (bit_or (m.reg f.rs) (m.reg f.rt))))
meaning xor f size m = expect_zero f.sa (write f.rd (gives (bit_xor (m.reg f.rs) (m.reg f.rt))))
meaning nor f size m =
    expect_zero f.sa (write f.rd (gives (2 ^ 32 - 1 - bit_or (m.reg f.rs) (m.reg f.rt))))
meaning slt f size m = expect_zero f.sa (write f.rd (flag (below_signed (m.reg f.rs) (m.reg f.rt))))
meaning sltu f size m = expect_zero f.sa (write f.rd (flag (ltb (m.reg f.rs) (m.reg f.rt))))
meaning mfhi f size m =
    expect_zero f.rs (expect_zero f.rt (expect_zero f.sa (write f.rd (gives m.hi))))
meaning mflo f size m =
    expect_zero f.rs (expect_zero f.rt (expect_zero f.sa (write f.rd (gives m.lo))))
meaning mthi f size m = expect_zero f.rt_rd_sa (write_hi_lo (m.reg f.rs) m.lo)
meaning mtlo f size m = expect_zero f.rt_rd_sa (write_hi_lo m.hi (m.reg f.rs))
meaning mult f size m =
    let p = pattern_of 64 (signed 32 (m.reg f.rs) *ℤ signed 32 (m.reg f.rt)) in
    expect_zero f.rd_sa (write_hi_lo (p / 2 ^ 32) (p % 2 ^ 32))
meaning multu f size m =
    let p = m.reg f.rs * m.reg f.rt in expect_zero f.rd_sa (write_hi_lo (p / 2 ^ 32) (p % 2 ^ 32))
meaning div f size m = expect_zero f.rd_sa (divides_signed (m.reg f.rs) (m.reg f.rt))
meaning divu f size m = expect_zero f.rd_sa (divides_unsigned (m.reg f.rs) (m.reg f.rt))
meaning lb f size m =
    let a = u32 (m.reg f.rs + f.signed_imm) in
    write f.rt (load (allowed size a 1) (extend_byte (m.mem a)))
meaning lbu f size m =
    let a = u32 (m.reg f.rs + f.signed_imm) in write f.rt (load (allowed size a 1) (m.mem a))
meaning lh f size m =
    let a = u32 (m.reg f.rs + f.signed_imm) in
    write f.rt (load (allowed size a 2) (extend_half (half_in m.mem a)))
meaning lhu f size m =
    let a = u32 (m.reg f.rs + f.signed_imm) in
    write f.rt (load (allowed size a 2) (half_in m.mem a))
meaning lw f size m =
    let a = u32 (m.reg f.rs + f.signed_imm) in
    write f.rt (load (allowed size a 4) (word_in m.mem a))
meaning lwl f size m =
    let a = u32 (m.reg f.rs + f.signed_imm) in
    unaligned (allowed size a 1) (write f.rt (gives (left_word m.mem a (m.reg f.rt))))
meaning lwr f size m =
    let a = u32 (m.reg f.rs + f.signed_imm) in
    unaligned (allowed size a 1) (write f.rt (gives (right_word m.mem a (m.reg f.rt))))
meaning sb f size m =
    let a = u32 (m.reg f.rs + f.signed_imm) in
    store (allowed size a 1) (flat_write m.mem a 1 (m.reg f.rt))
meaning sh f size m =
    let a = u32 (m.reg f.rs + f.signed_imm) in
    store (allowed size a 2) (flat_write m.mem a 2 (m.reg f.rt))
meaning sw f size m =
    let a = u32 (m.reg f.rs + f.signed_imm) in
    store (allowed size a 4) (flat_write m.mem a 4 (m.reg f.rt))
meaning swl f size m =
    let a = u32 (m.reg f.rs + f.signed_imm) in
    store (allowed size a 1) (write_left m.mem a (m.reg f.rt))
meaning swr f size m =
    let a = u32 (m.reg f.rs + f.signed_imm) in
    store (allowed size a 1) (write_right m.mem a (m.reg f.rt))
meaning syscall f size m = trap Exception.syscall
meaning break f size m = trap Exception.break
meaning special f size m = trap Exception.invalid
meaning regimm f size m = trap Exception.invalid

-- What a step comes to: the machine behind it, a trap with the machine, or nothing that C defines.
pub data Result : Type 0 where
  steps : Machine → Result
  traps : Exception → Machine → Result
  unpredictable : Result

-- On to the next instruction.
abbrev pub retire : Machine → Machine
retire m = record m { pc = m.npc; npc = u32 (m.npc + 4); in_slot = false }

abbrev pub write_computed : ℕ → Computed → Machine → Result
write_computed r (gives v) m = steps (record (retire m) { reg = update m.reg r v })
write_computed r (faults e) m = traps e m

abbrev pub transferred : (ℕ → ℕ) → Option ℕ → Machine → Machine
transferred reg none m = record (retire m) { reg = reg }
transferred reg (some target) m = record m { reg = reg; pc = m.npc; npc = target; in_slot = true }

unfoldable pub perform : Action → Machine → Result
perform (write r x) m = if r == 0 then steps (retire m) else write_computed r x m
perform (write_hi_lo h l) m = steps (record (retire m) { hi = h; lo = l })
perform (store ok mem) m =
    if ok then steps (record (retire m) { mem = mem }) else traps Exception.address m
perform (transfer reg target) m =
    if m.in_slot then traps Exception.invalid m else steps (transferred reg target m)
perform (trap e) m = traps e m
perform unspecified m = unpredictable

unfoldable pub execute_found : ℕ → Option Opcode → ℕ → Machine → Result
unfolding fields meaning perform
execute_found insn none size m = traps Exception.invalid m
execute_found insn (some op) size m = perform (meaning op (fields insn) size m) m

-- One instruction, in a machine with `size` bytes.
unfoldable pub isa_step : ℕ → Machine → Result
unfolding execute_found opcode_of
isa_step size m =
    let insn = word_in m.mem m.pc in
    if allowed size m.pc 4
    then execute_found insn (opcode_of (field_opcode insn)) size m
    else traps Exception.address m

unfoldable pub continue : Result → (Machine → Result) → Result
continue (steps m) k = k m
continue (traps e m) k = traps e m
continue unpredictable k = unpredictable

-- At most `n` instructions.
unfoldable pub isa_run : ℕ → ℕ → Machine → Result
unfolding isa_step continue
isa_run zero size m = steps m
isa_run (suc n) size m = continue (isa_step size m) (isa_run n size)
