-- ===== src/Opcodes/Decode.antt =====
-- The decoder of vm/opcodes.c against an arithmetic description of the instruction format.
use cspim.Base.{
  ℕ, ◌+◌, ◌-◌, ◌*◌, ◌/◌, ◌%◌, ◌^◌, ◌<◌, ◌==◌, ◌≡◌, ◌≢◌, ◌⊎◌, inl, inr, refl, sym, ap, ◌∙◌, Option,
  none, some, arith, if◌then◌else◌, ltb, IsWord,
}
use cspim.Base.Bits.{bit_and_mask, bit_or_fields_swapped}
use cspim.Opcodes.{Opcode, special, regimm, code, group_opcode, mips_decode, opcode_of}
use cspim.Opcodes.Table.{is_none, get_bit-mips_init, opcode_of-code, opcode_of-some}

-- The opcode field, or the function field or the RT field counted from 64 or 128.
abbrev pub field_opcode : ℕ → ℕ
field_opcode insn =
    if insn / 2 ^ 26 == 0
    then 64 + insn % 64
    else if insn / 2 ^ 26 == 1
    then 128 + insn / 2 ^ 16 % 32
    else insn / 2 ^ 26

abbrev pub value : Option Opcode → Option ℕ
value none = none
value (some op) = some (code op)

pub group_opcode-eq : (insn : ℕ) → group_opcode insn ≡ field_opcode insn
unfolding group_opcode
group_opcode-eq insn = ground (
  arith,
  bit_and_mask 6 insn,
  bit_and_mask 5 (insn / 2 ^ 16),
  bit_or_fields_swapped 6 1 (insn % 64),
  bit_or_fields_swapped 7 1 (insn / 2 ^ 16 % 32),
)

group_opcode-lt : (insn : ℕ) → IsWord insn → group_opcode insn < 256
group_opcode-lt insn h = rw (group_opcode-eq insn) (ground arith)

value-is_none :
    (o : Option Opcode) (n : ℕ)
    → ((op : Opcode) → o ≡ some op → code op ≡ n)
    → (if is_none o then none else some n) ≡ value o
value-is_none none n h = refl
value-is_none (some op) n h = rw (h op refl)

pub mips_decode-opcode_of :
    (insn : ℕ) → IsWord insn → mips_decode insn ≡ value (opcode_of (field_opcode insn))
unfolding mips_decode
mips_decode-opcode_of insn h = rw (get_bit-mips_init (group_opcode insn) (group_opcode-lt insn h)) (
    value-is_none (opcode_of (group_opcode insn)) (group_opcode insn)
      (opcode_of-some (group_opcode insn))
    ∙ ap (λ n. value (opcode_of n)) (group_opcode-eq insn))

-- The result of the decoder for the number `n`: `n` itself for a member of the enumeration, and -1
-- for a number that is none.
abbrev pub Decodes : ℕ → Option ℕ → Type 0
Decodes n r =
    ((op : Opcode) × (code op ≡ n) × (r ≡ some n)) ⊎ (((op : Opcode) → code op ≢ n) × (r ≡ none))

opcode_of-Decodes : (n : ℕ) (o : Option Opcode) → opcode_of n ≡ o → Decodes n (value o)
opcode_of-Decodes n none e = inr ((λ op same. not_found op (ap opcode_of same ∙ e)), refl)
  where
    not_found : (op : Opcode) → opcode_of (code op) ≢ none
    not_found op h = let found = opcode_of-code op in cc
opcode_of-Decodes n (some op) e = let same = opcode_of-some n op e in inl (op, same, ap some same)

-- For a 32-bit word, mips_decode with the bit table that mips_init fills returns the number in the
-- opcode field, or 64 plus the function field, or 128 plus the RT field, if that is a member of
-- enum mips_opcode, and -1 if it is none.
pub mips_decode-field_opcode :
    (insn : ℕ) → IsWord insn → Decodes (field_opcode insn) (mips_decode insn)
mips_decode-field_opcode insn h =
    rw (mips_decode-opcode_of insn h)
      (opcode_of-Decodes (field_opcode insn) (opcode_of (field_opcode insn)) refl)

-- The instruction word of an opcode in the MIPS I format, with the operand bits of `x`.
abbrev pub encode : Opcode → ℕ → ℕ
encode op x =
    if ltb (code op) 64
    then code op * 2 ^ 26 + x % 2 ^ 26
    else if ltb (code op) 128
    then x % 2 ^ 20 * 64 + (code op - 64)
    else 2 ^ 26 + x / 2 ^ 16 % 32 * 2 ^ 21 + (code op - 128) * 2 ^ 16 + x % 2 ^ 16

-- Not one of the two numbers that only announce a group.
abbrev pub IsInstruction : Opcode → Type 0
IsInstruction op = 1 < code op

field_opcode-encode :
    (op : Opcode) (x : ℕ) → IsInstruction op → field_opcode (encode op x) ≡ code op
field_opcode-encode special x h = absurd (omega arith)
field_opcode-encode regimm x h = absurd (omega arith)
field_opcode-encode _ x h = ground arith

encode-IsWord : (op : Opcode) (x : ℕ) → IsWord (encode op x)
encode-IsWord special x = ground arith
encode-IsWord _ x = ground arith

-- The instruction word of an opcode, with any operand bits, decodes to that opcode; the opcode is
-- not SPECIAL or REGIMM.
pub mips_decode-encode :
    (op : Opcode) (x : ℕ) → IsInstruction op → mips_decode (encode op x) ≡ some (code op)
mips_decode-encode op x h =
    mips_decode-opcode_of (encode op x) (encode-IsWord op x)
    ∙ ap (λ n. value (opcode_of n)) (field_opcode-encode op x h)
    ∙ ap value (opcode_of-code op)

value-some :
    (o : Option Opcode) (n : ℕ) → value o ≡ some n → (op : Opcode) × (o ≡ some op) × (code op ≡ n)
value-some none n h = cc
value-some (some op) n h = (op, refl, cc)

-- A number that the decoder returns is an opcode, and not one that only announces a group.
pub mips_decode-some :
    (insn n : ℕ)
    → IsWord insn
    → mips_decode insn ≡ some n
    → (op : Opcode) × (opcode_of n ≡ some op) × (1 < n) × (code op ≡ n)
mips_decode-some insn n h e =
    let (op, found, same) =
      value-some (opcode_of (field_opcode insn)) n (sym (mips_decode-opcode_of insn h) ∙ e) in
    let at_field = opcode_of-some (field_opcode insn) op found in
    let large : 1 < field_opcode insn = ground arith in
    (op, ap opcode_of (sym same ∙ at_field) ∙ found, rw (sym same ∙ at_field) large, same)
