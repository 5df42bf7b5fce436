-- ===== src/Elf/Placed.antt =====
-- `copy_segment` of vm/elfload.c, for a segment that fits.
use cspim.Base.{ℕ, zero, suc, ◌+◌, ◌*◌, ◌%◌, ◌^◌, ◌≤◌, ◌<◌, ◌≡◌, ◌∙◌, refl, arith, u32}
use cspim.Cpu.{MipsCpu, done, lowbase}
use cspim.Memory.{mips_identity_peek_uw, mips_identity_poke_uw, mips_poke_uw}
use cspim.Memory.Checked.{IsSafe}
use cspim.Memory.Store.{stored, stored-IsSafe, mips_poke_uw-stored}
use cspim.Memory.Flat.{with_base}
use cspim.Elf.{read_word}
use cspim.Elf.Segments.{identity_poke, copy_loop, clear_loop}
use cspim.Elf.Contents.{copied, cleared}

pub read_word_inside :
    (c : MipsCpu) (off : ℕ)
    → off + 4 ≤ c.elfsz
    → read_word off c ≡ done (mips_identity_peek_uw c.elf off) c
unfolding mips_identity_peek_uw
read_word_inside c off h = ground arith

identity_poke_inside :
    (c : MipsCpu) (a w : ℕ)
    → lowbase ≤ a
    → a + 4 ≤ c.memsz
    → identity_poke a w c ≡ done tt (with_base c (mips_identity_poke_uw c.base a w))
unfolding identity_poke
identity_poke_inside c a w l h = ground arith

mips_poke_uw_inside :
    (c : MipsCpu) (a w : ℕ)
    → IsSafe c
    → lowbase ≤ a
    → a + 4 ≤ c.memsz
    → a % 4 ≡ 0
    → mips_poke_uw a w c ≡ done tt (with_base c (c.poke_uw c.base a w))
mips_poke_uw_inside c a w safe l h e =
    mips_poke_uw-stored safe a w (omega (arith, safe.address_space)) ∙ ground arith

module _ (vaddr offset : ℕ) (low : lowbase ≤ vaddr) where
  pub copy_loop-copied :
      (n i : ℕ) (c : MipsCpu)
      → c.memsz < 2 ^ 32
      → vaddr + i + n * 4 ≤ c.memsz
      → offset + i + n * 4 ≤ c.elfsz
      → copy_loop vaddr offset n i c ≡ done tt (with_base c (copied vaddr c.elf offset n i c.base))
  unfolding copy_loop copied
  copy_loop-copied zero i c size inside file = refl
  copy_loop-copied (suc n) i c size inside file =
      let e : u32 (vaddr + i) ≡ vaddr + i = omega arith in
      rw
        (
          read_word_inside c (offset + i) (omega arith),
          e,
          identity_poke_inside c (vaddr + i) (mips_identity_peek_uw c.elf (offset + i))
              (omega arith) (omega arith),
        )
        (copy_loop-copied n (i + 4)
          (with_base c
            (mips_identity_poke_uw c.base (vaddr + i) (mips_identity_peek_uw c.elf (offset + i))))
          size (omega arith) (omega arith))

  pub clear_loop-cleared :
      (n i : ℕ) (c : MipsCpu)
      → IsSafe c
      → vaddr % 4 ≡ 0
      → i % 4 ≡ 0
      → vaddr + i + n * 4 ≤ c.memsz
      → clear_loop vaddr n i c ≡ done tt (with_base c (cleared vaddr c.poke_uw n i c.base))
  unfolding clear_loop cleared
  clear_loop-cleared zero i c safe aligned even inside = refl
  clear_loop-cleared (suc n) i c safe aligned even inside =
      let e : u32 (vaddr + i) ≡ vaddr + i = omega (arith, safe.address_space) in
      rw (e, mips_poke_uw_inside c (vaddr + i) 0 safe (omega arith) (omega arith) (omega arith))
        (clear_loop-cleared n (i + 4) (stored c (vaddr + i) 0)
          (stored-IsSafe safe (vaddr + i) 0 (omega arith)) aligned (omega arith) (omega arith))
