-- ===== src/Isa/Region.antt =====
-- The target that `do_jump` of vm/cpuemu.c makes from the address of the delay slot and the index in
-- the instruction. The format keeps the upper four bits of the address, and the mask of the code
-- keeps five.
use cspim.Base.{
  ℕ, zero, suc, ◌+◌, ◌*◌, ◌/◌, ◌%◌, ◌^◌, ◌<◌, ◌≤◌, ◌≡◌, ◌↔◌, ap₂, ◌∙◌, bit_and, bit_or, ◌<<◌, arith,
  IsWord,
}
use cspim.Base.Bits.{
  bit_and_mask, bit_and_split, bit_and-zero, bit_or_split, bit_or-zero, zero-bit_or,
}
use cspim.Instruction.Control.{jump_target}

-- The region of 256 MB that holds `nds`, and the index in words.
abbrev pub format_target : ℕ → ℕ → ℕ
format_target nds insn = nds / 2 ^ 28 * 2 ^ 28 + 4 * (insn % 2 ^ 26)

or_bit : (m n : ℕ) → m < 2 → n < 2 → (bit_or m n ≡ n) ↔ (m ≤ n)
or_bit zero zero h k = (λ e. omega arith, λ e. omega arith)
or_bit zero (suc zero) h k = (λ e. omega arith, λ e. omega arith)
or_bit (suc zero) zero h k = (λ e. omega arith, λ e. omega arith)
or_bit (suc zero) (suc zero) h k = (λ e. omega arith, λ e. omega arith)
or_bit (suc (suc m)) n h k = absurd (omega arith)
or_bit m (suc (suc n)) h k = absurd (omega arith)

-- The target by its fields: four bits of the address, the bit that both sides give, and the rest of
-- the index.
target_parts :
    (nds insn : ℕ)
    → IsWord nds
    → jump_target nds insn
      ≡ nds / 2 ^ 28 * 2 ^ 28
        + bit_or (nds / 2 ^ 27 % 2) (insn / 2 ^ 25 % 2) * 2 ^ 27
        + 4 * (insn % 2 ^ 25)
unfolding jump_target
target_parts nds insn h =
    let n = nds / 2 ^ 27 in
    let t = insn / 2 ^ 25 % 2 in
    let r = 4 * (insn % 2 ^ 25) in
    let nds_parts : nds ≡ n * 2 ^ 27 + nds % 2 ^ 27 = omega arith in
    let mask : 0xf800_0000 ≡ 31 * 2 ^ 27 + 0 = omega arith in
    let kept : bit_and nds 0xf800_0000 ≡ n * 2 ^ 27 + 0 =
      ap₂ bit_and nds_parts mask
      ∙ bit_and_split 27 n 31 (nds % 2 ^ 27) 0 (omega arith) (omega arith)
      ∙ omega (arith, bit_and_mask 5 n, bit_and-zero (nds % 2 ^ 27)) in
    let index : (bit_and insn 0x03ff_ffff << 2) ≡ t * 2 ^ 27 + r =
      omega (arith, bit_and_mask 26 insn) in
    let n_parts : n ≡ n / 2 * 2 ^ 1 + n % 2 = omega arith in
    let t_parts : t ≡ 0 * 2 ^ 1 + t = omega arith in
    ap₂ bit_or kept index
    ∙ bit_or_split 27 n t 0 r (omega arith) (omega arith)
    ∙ omega (
      arith,
      ap₂ bit_or n_parts t_parts,
      bit_or_split 1 (n / 2) 0 (n % 2) t (omega arith) (omega arith),
      bit_or-zero (n / 2),
      zero-bit_or r,
    )

-- For a 32-bit address of the delay slot, the target that do_jump makes is the one of the MIPS I
-- format, with the upper four bits of the address, exactly if bit 27 of the address is 0 or bit 25
-- of the instruction is 1.
pub jump_target-format_target :
    (nds insn : ℕ)
    → IsWord nds
    → (jump_target nds insn ≡ format_target nds insn) ↔ (nds / 2 ^ 27 % 2 ≤ insn / 2 ^ 25 % 2)
jump_target-format_target nds insn h =
    let parts = target_parts nds insn h in
    let (to, from) = or_bit (nds / 2 ^ 27 % 2) (insn / 2 ^ 25 % 2) (omega arith) (omega arith) in
    (λ e. to (omega (arith, parts)), λ e. omega (arith, parts, from e))

pub jump_target-region :
    (nds insn : ℕ)
    → nds < 2 ^ 27
    → jump_target nds insn ≡ nds / 2 ^ 28 * 2 ^ 28 + 4 * bit_and insn 0x03ff_ffff
jump_target-region nds insn h =
    (jump_target-format_target nds insn (omega arith)).1 (omega arith)
    ∙ omega (arith, bit_and_mask 26 insn)
