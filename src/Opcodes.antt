-- ===== src/Opcodes.antt =====
-- vm/opcodes.h and vm/opcodes.c: the MIPS I opcodes, the table of valid ones that `mips_init`
-- fills, and the instruction decoder. An instruction is its 32-bit pattern.
pub mod Table
pub mod Decode
use cspim.Base.{
  ℕ, zero, suc, ◌+◌, ◌^◌, ◌%◌, bit_and, bit_or, ◌==◌, if◌then◌else◌, ◌<<◌, ◌>>>◌, get_or, set,
  replicate, List, [], ◌∷◌, Option, none, some,
}

-- enum mips_opcode
pub data Opcode : Type 0 where
  special regimm j jal beq bne blez bgtz : Opcode
  addi addiu slti sltiu andi ori xori lui : Opcode
  lb lh lwl lw lbu lhu lwr : Opcode
  sb sh swl sw swr : Opcode
  sll srl sra sllv srlv srav : Opcode
  jr jalr syscall break : Opcode
  mfhi mthi mflo mtlo : Opcode
  mult multu div divu : Opcode
  add addu sub subu and or xor nor slt sltu : Opcode
  bltz bgez bltzal bgezal : Opcode

-- The values of the enumeration.
abbrev pub code : Opcode → ℕ
code special = 0o0
code regimm = 0o1
code j = 0o2
code jal = 0o3
code beq = 0o4
code bne = 0o5
code blez = 0o6
code bgtz = 0o7
code addi = 0o10
code addiu = 0o11
code slti = 0o12
code sltiu = 0o13
code andi = 0o14
code ori = 0o15
code xori = 0o16
code lui = 0o17
code lb = 0o40
code lh = 0o41
code lwl = 0o42
code lw = 0o43
code lbu = 0o44
code lhu = 0o45
code lwr = 0o46
code sb = 0o50
code sh = 0o51
code swl = 0o52
code sw = 0o53
code swr = 0o56
code sll = 0o100
code srl = 0o102
code sra = 0o103
code sllv = 0o104
code srlv = 0o106
code srav = 0o107
code jr = 0o110
code jalr = 0o111
code syscall = 0o114
code break = 0o115
code mfhi = 0o120
code mthi = 0o121
code mflo = 0o122
code mtlo = 0o123
code mult = 0o130
code multu = 0o131
code div = 0o132
code divu = 0o133
code add = 0o140
code addu = 0o141
code sub = 0o142
code subu = 0o143
code and = 0o144
code or = 0o145
code xor = 0o146
code nor = 0o147
code slt = 0o152
code sltu = 0o153
code bltz = 0o200
code bgez = 0o201
code bltzal = 0o220
code bgezal = 0o221

-- Gopcode_list
abbrev pub opcode_list : List Opcode
opcode_list =
    special ∷ regimm ∷ j ∷ jal ∷ beq ∷ bne ∷ blez ∷ bgtz ∷ addi ∷ addiu ∷ slti ∷ sltiu ∷ andi ∷ ori
    ∷ xori ∷ lui ∷ lb ∷ lh ∷ lwl ∷ lw ∷ lbu ∷ lhu ∷ lwr ∷ sb ∷ sh ∷ swl ∷ sw ∷ swr ∷ sll ∷ srl ∷ sra
    ∷ sllv ∷ srlv ∷ srav ∷ jr ∷ jalr ∷ syscall ∷ break ∷ mfhi ∷ mthi ∷ mflo ∷ mtlo ∷ mult ∷ multu
    ∷ div ∷ divu ∷ add ∷ addu ∷ sub ∷ subu ∷ and ∷ or ∷ xor ∷ nor ∷ slt ∷ sltu ∷ bltz ∷ bgez
    ∷ bltzal ∷ bgezal ∷ []

-- SETBIT and GETBIT: bit `n` of an array of 32-bit words.
unfoldable pub set_bit : List ℕ → ℕ → List ℕ
set_bit v n = set v (n >>> 5) (bit_or (get_or v (n >>> 5) 0) (1 << bit_and n 31))

unfoldable pub get_bit : List ℕ → ℕ → ℕ
get_bit v n = bit_and (get_or v (n >>> 5) 0) (1 << bit_and n 31)

-- The second loop of `mips_init`, over the opcodes left.
set_bits : List ℕ → List Opcode → List ℕ
set_bits v [] = v
set_bits v (op ∷ ops) = set_bits (set_bit v (code op)) ops

-- Gvalid_opcodes after `mips_init`.
unfoldable pub mips_init : List ℕ
unfolding set_bits set_bit
mips_init = set_bits (replicate 8 0) opcode_list

-- fOPCODE, fFUNCTION and fRT of an instruction.
unfoldable pub f_opcode : ℕ → ℕ
f_opcode insn = insn >>> 26

unfoldable pub f_function : ℕ → ℕ
f_function insn = bit_and insn 0x3f

unfoldable pub f_rt : ℕ → ℕ
f_rt insn = bit_and (insn >>> 16) 0x1f

-- The opcode that is looked up: that of the group for SPECIAL and REGIMM.
unfoldable pub group_opcode : ℕ → ℕ
unfolding f_opcode f_function f_rt
group_opcode insn =
    if f_opcode insn == code special
    then bit_or (f_function insn) 0o100
    else if f_opcode insn == code regimm
    then bit_or (f_rt insn) 0o200
    else f_opcode insn

-- `mips_decode` with the table that `mips_init` filled; `none` is -1.
unfoldable pub mips_decode : ℕ → Option ℕ
unfolding group_opcode get_bit mips_init
mips_decode insn =
    if get_bit mips_init (group_opcode insn) == 0 then none else some (group_opcode insn)

-- The members of the enumeration in the order of opcodes.h, whatever the table lists.
abbrev pub members : List Opcode
members =
    special ∷ regimm ∷ j ∷ jal ∷ beq ∷ bne ∷ blez ∷ bgtz ∷ addi ∷ addiu ∷ slti ∷ sltiu ∷ andi ∷ ori
    ∷ xori ∷ lui ∷ lb ∷ lh ∷ lwl ∷ lw ∷ lbu ∷ lhu ∷ lwr ∷ sb ∷ sh ∷ swl ∷ sw ∷ swr ∷ sll ∷ srl ∷ sra
    ∷ sllv ∷ srlv ∷ srav ∷ jr ∷ jalr ∷ syscall ∷ break ∷ mfhi ∷ mthi ∷ mflo ∷ mtlo ∷ mult ∷ multu
    ∷ div ∷ divu ∷ add ∷ addu ∷ sub ∷ subu ∷ and ∷ or ∷ xor ∷ nor ∷ slt ∷ sltu ∷ bltz ∷ bgez
    ∷ bltzal ∷ bgezal ∷ []

-- The member of the enumeration that an `int` opcode is, as a `switch` finds it.
find_code : ℕ → List Opcode → Option Opcode
find_code n [] = none
find_code n (op ∷ ops) = let rest = find_code n ops in if code op == n then some op else rest

unfoldable pub opcode_of : ℕ → Option Opcode
unfolding find_code
opcode_of n = find_code n members
