-- ===== src/Opcodes/Table.antt =====
-- The table of valid opcodes of vm/opcodes.c: its bits are set for the members of the enumeration
-- and for no other number below 256.
use cspim.Base.{
  ℕ, ◌<◌, ◌==◌, ◌≡◌, refl, Bool, true, false, Option, none, some, arith, not, each_below,
  each_below-at, Bool-cases, inl, inr, List, [], ◌∷◌,
}
use cspim.Opcodes.{Opcode, special, code, members, get_bit, mips_init, find_code, opcode_of}

abbrev pub is_none : Option Opcode → Bool
is_none none = true
is_none (some _) = false

abbrev both : Bool → Bool → Bool
both true b = b
both false b = not b

abbrev agrees : ℕ → Bool
agrees n = both (get_bit mips_init n == 0) (is_none (opcode_of n))

table_check : each_below agrees 256 ≡ true
unfolding each_below get_bit mips_init opcode_of
table_check = refl

-- A bit of the table is clear exactly when its number is no opcode.
pub get_bit-mips_init : (n : ℕ) → n < 256 → (get_bit mips_init n == 0) ≡ is_none (opcode_of n)
get_bit-mips_init n h = same _ _ (each_below-at agrees 256 n table_check h)
  where
    same : (a b : Bool) → both a b ≡ true → a ≡ b
    same a b e = ground arith

-- Every member of the enumeration is found under its value.
pub opcode_of-code : (op : Opcode) → opcode_of (code op) ≡ some op
unfolding opcode_of
opcode_of-code special = refl
opcode_of-code _ = refl

find_code-some : (n : ℕ) (ops : List Opcode) (op : Opcode) → find_code n ops ≡ some op → code op ≡ n
unfolding find_code
find_code-some n [] op h = cc
find_code-some n (o ∷ ops) op h = elim (Bool-cases (code o == n)) [
  | inl e ↦ ground (arith, code op)
  | inr e ↦ find_code-some n ops op (rw e at h)
]

-- What is found under a number has that value.
pub opcode_of-some : (n : ℕ) (op : Opcode) → opcode_of n ≡ some op → code op ≡ n
unfolding opcode_of
opcode_of-some n op h = find_code-some n members op h
