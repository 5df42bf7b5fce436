-- ===== src/Isa.antt =====
-- The MIPS I machine that vm/cpuemu.c and vm/opcodes.c emulate, as a specification that does not
-- follow the code: the memory is an array of bytes, the program counter stands beside the address
-- of the instruction that comes next, an instruction is read by division into its fields, and each
-- opcode denotes an action. The signed quotients are those of `Arith`, whose law
-- stands in Arith.Division.
pub mod Meaning
pub mod Operands
pub mod View
pub mod Finish
pub mod Shift
pub mod Alu
pub mod Region
pub mod Control
pub mod DivMult
pub mod Unaligned
pub mod Bytes
pub mod Merge
pub mod LoadStore
pub mod Refines
pub mod Run
use cspim.Base.{
  ℕ, zero, suc, ◌+◌, ◌-◌, ◌*◌, ◌/◌, ◌%◌, ◌^◌, bit_and, bit_or, bit_xor, ◌==◌, if◌then◌else◌, ltb,
  leb, u32, sub32, Bool, true, false, ◌&&◌, ◌||◌, not, Option, none, some,
}
use cspim.Opcodes.{
  Opcode, special, regimm, j, jal, beq, bne, blez, bgtz, addi, addiu, slti, sltiu, andi, ori, xori,
  lui, lb, lh, lwl, lw, lbu, lhu, lwr, sb, sh, swl, sw, swr, sll, srl, sra, sllv, srlv, srav, jr,
  jalr, syscall, break, mfhi, mthi, mflo, mtlo, mult, multu, div, divu, add, addu, sub, subu, and,
  or, xor, nor, slt, sltu, bltz, bgez, bltzal, bgezal, opcode_of,
}
use cspim.Opcodes.Decode.{field_opcode}
use cspim.Cpu.{Exception, lowbase, update}
use cspim.Arith
use cspim.Arith.{divide_signed, divide_unsigned, quotient_overflows}
use cspim.Arith.Overflow.{sign, same_sign}
use cspim.Memory.Flat.{flat_write}

pub record Machine : Type 0 where
  pub reg : ℕ → ℕ
  pub hi : ℕ
  pub lo : ℕ
  pub pc : ℕ
  pub npc : ℕ
  -- whether the instruction at `pc` stands in the delay slot of a jump that is made
  pub in_slot : Bool
  pub mem : ℕ → ℕ

-- The fields of an instruction. `signed_imm` and `offset` are patterns of 32 bits, the offset in
-- bytes; the last two are the bits 6 to 15 and 6 to 20.
pub record Fields : Type 0 where
  pub rs : ℕ
  pub rt : ℕ
  pub rd : ℕ
  pub sa : ℕ
  pub imm : ℕ
  pub signed_imm : ℕ
  pub offset : ℕ
  pub index : ℕ
  pub rd_sa : ℕ
  pub rt_rd_sa : ℕ

-- The pattern of 32 bits of a signed half, and of a signed byte.
abbrev pub extend_half : ℕ → ℕ
extend_half h = if ltb h (2 ^ 15) then h else h + (2 ^ 32 - 2 ^ 16)

abbrev pub extend_byte : ℕ → ℕ
extend_byte b = if ltb b (2 ^ 7) then b else b + (2 ^ 32 - 2 ^ 8)

unfoldable pub fields : ℕ → Fields
fields insn = record {
  rs = insn / 2 ^ 21 % 32;
  rt = insn / 2 ^ 16 % 32;
  rd = insn / 2 ^ 11 % 32;
  sa = insn / 2 ^ 6 % 32;
  imm = insn % 2 ^ 16;
  signed_imm = extend_half (insn % 2 ^ 16);
  offset = u32 (4 * extend_half (insn % 2 ^ 16));
  index = insn % 2 ^ 26;
  rd_sa = insn / 2 ^ 6 % 2 ^ 10;
  rt_rd_sa = insn / 2 ^ 6 % 2 ^ 15;
}

-- What an instruction computes for a register: a word, or a trap.
pub data Computed : Type 0 where
  gives : ℕ → Computed
  faults : Exception → Computed

-- What an instruction does. A write to $0 is skipped with the computation and its trap. A store
-- says whether the access is allowed, and a transfer gives the registers and the target, if the
-- branch is taken.
pub data Action : Type 0 where
  write : ℕ → Computed → Action
  write_hi_lo : ℕ → ℕ → Action
  store : Bool → (ℕ → ℕ) → Action
  transfer : (ℕ → ℕ) → Option ℕ → Action
  trap : Exception → Action
  unspecified : Action

-- An access to `n` bytes, in a machine with `size` bytes.
abbrev pub allowed : ℕ → ℕ → ℕ → Bool
allowed size a n = leb lowbase a && ltb a size && (a % n == 0)

abbrev pub half_in : (ℕ → ℕ) → ℕ → ℕ
half_in mem a = mem a + mem (a + 1) * 2 ^ 8

abbrev pub word_in : (ℕ → ℕ) → ℕ → ℕ
word_in mem a = half_in mem a + half_in mem (a + 2) * 2 ^ 16

abbrev pub load : Bool → ℕ → Computed
load ok v = if ok then gives v else faults Exception.address

-- The bytes of a word, the lowest one first.
abbrev pub byte_of : ℕ → ℕ → ℕ
byte_of w i = w / 2 ^ (8 * i) % 2 ^ 8

abbrev pub of_bytes : (ℕ → ℕ) → ℕ
of_bytes f = f 0 + f 1 * 2 ^ 8 + f 2 * 2 ^ 16 + f 3 * 2 ^ 24

-- LWL and LWR: the bytes of the register that the part of the word in memory does not reach stay.
abbrev pub left_byte : (ℕ → ℕ) → ℕ → ℕ → ℕ → ℕ
left_byte mem a rt i = if leb 3 (i + a % 4) then mem (a + i - 3) else byte_of rt i

abbrev pub right_byte : (ℕ → ℕ) → ℕ → ℕ → ℕ → ℕ
right_byte mem a rt i = if leb (i + a % 4) 3 then mem (a + i) else byte_of rt i

unfoldable pub left_word : (ℕ → ℕ) → ℕ → ℕ → ℕ
left_word mem a rt = of_bytes (left_byte mem a rt)

unfoldable pub right_word : (ℕ → ℕ) → ℕ → ℕ → ℕ
right_word mem a rt = of_bytes (right_byte mem a rt)

-- SWL and SWR: the bytes of the word from its start up to the address, or from the address on.
unfoldable pub write_left : (ℕ → ℕ) → ℕ → ℕ → ℕ → ℕ
write_left mem a rt k = if leb (a - a % 4) k && leb k a then byte_of rt (k + 3 - a) else mem k

unfoldable pub write_right : (ℕ → ℕ) → ℕ → ℕ → ℕ → ℕ
write_right mem a rt k = if leb a k && ltb k (a - a % 4 + 4) then byte_of rt (k - a) else mem k

-- The rule on sign bits for the overflow of a sum and of a difference.
abbrev pub checked_sum : ℕ → ℕ → Computed
checked_sum x y =
    if same_sign x y && not (same_sign x (u32 (x + y)))
    then faults Exception.overflow
    else gives (u32 (x + y))

abbrev pub checked_difference : ℕ → ℕ → Computed
checked_difference x y =
    if not (same_sign x y) && not (same_sign x (sub32 x y))
    then faults Exception.overflow
    else gives (sub32 x y)

-- The order of signed words, by the patterns with the sign bit flipped.
abbrev pub below_signed : ℕ → ℕ → Bool
below_signed x y = ltb (u32 (x + 2 ^ 31)) (u32 (y + 2 ^ 31))

abbrev pub flag : Bool → Computed
flag b = gives (if b then 1 else 0)

-- A shift to the right that fills with the sign bit.
unfoldable pub shift_arithmetic : ℕ → ℕ → ℕ
shift_arithmetic x k = x / 2 ^ k + (if sign x then 2 ^ 32 - 2 ^ (32 - k) else 0)

-- A field that must be 0.
abbrev pub expect_zero : ℕ → Action → Action
expect_zero n a = if n == 0 then a else trap Exception.invalid

abbrev pub taken : Bool → ℕ → Option ℕ
taken b target = if b then some target else none
