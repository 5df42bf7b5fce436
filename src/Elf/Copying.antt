-- ===== src/Elf/Copying.antt =====
-- The loops of `load_segment` of vm/elfload.c stay inside the block, where C defines what they do.
use cspim.Base.{
  ℕ, zero, suc, ◌+◌, ◌≤◌, ◌<◌, ◌≡◌, ◌∙◌, ◌⊎◌, Bool-cases, inl, inr, arith, IsWord, u32,
}
use cspim.Cpu.{Memory, MipsCpu, lowbase}
use cspim.Memory.{outside, mips_identity_poke_uw, mips_poke_uw}
use cspim.Memory.Access.{IsMemory, identity-IsAccess}
use cspim.Memory.View.{accessible}
use cspim.Memory.Store.{mips_poke_uw-stored}
use cspim.Memory.Flat.{with_base}
use cspim.Execute.Effect.{IsWellFormed}
use cspim.Execute.Safety.{IsForbidden, IsIsolated}
use cspim.Elf.Segments.{identity_poke, copy_loop, clear_loop}
use cspim.Elf.Ensures.{
  Ensures, returns, jumps, breaks, and_then-Ensures, look_first-Ensures, IsImage, read_word-Looks,
}

-- What holds of the state while the image is loaded into `c0`.
pub record Loading (c0 c : MipsCpu) : Type 0 where
  pub well_formed : IsWellFormed c
  pub isolated : IsIsolated c0 c
  pub image : IsImage c

module _ {c0 c : MipsCpu} (l : Loading c0 c) where
  -- Other bytes are put between `lowbase` and the end.
  pub Loading-with_base :
      (base : Memory)
      → IsMemory base
      → ((j : ℕ) → IsForbidden c j → base j ≡ c.base j)
      → Loading c0 (with_base c base)
  Loading-with_base base h same = record {
    well_formed = record {
      safe = record {
        access = l.well_formed.safe.access;
        bytes = h;
        whole_words = l.well_formed.safe.whole_words;
        address_space = l.well_formed.safe.address_space;
      };
      registers = l.well_formed.registers;
      hi_word = l.well_formed.hi_word;
      lo_word = l.well_formed.lo_word;
      pc_word = l.well_formed.pc_word;
      delay_slot_word = l.well_formed.delay_slot_word;
    };
    isolated = record {
      forbidden = λ j f. same j (rw l.isolated.same_size.0 f) ∙ l.isolated.forbidden j f;
      same_size = l.isolated.same_size;
      same_image = l.isolated.same_image;
      same_access = l.isolated.same_access;
      same_fds = l.isolated.same_fds;
    };
    image = l.image;
  }

  apart : (a j : ℕ) → lowbase ≤ a → a + 4 ≤ c.memsz → IsForbidden c j → (j < a) ⊎ (a + 4 ≤ j)
  apart a j low high f = grind arith

  pub identity_poke-Loading :
      (a w : ℕ) → IsWord w → Ensures (λ _. Loading c0) (Loading c0) (identity_poke a w c)
  unfolding identity_poke
  identity_poke-Loading a w h = elim (Bool-cases (outside c a)) [
    | inl e ↦ rw e breaks
    | inr e ↦ rw e (
        returns tt _ (
          Loading-with_base (mips_identity_poke_uw c.base a w)
            (identity-IsAccess.poke-IsMemory c.base a w l.well_formed.safe.bytes h)
            λ j f.
              identity-IsAccess.poke_outside c.base a w j
                (apart a j (ground arith) (ground arith) f)))
  ]

  pub mips_poke_uw-Loading :
      (a w : ℕ) → IsWord a → IsWord w → Ensures (λ _. Loading c0) (Loading c0) (mips_poke_uw a w c)
  mips_poke_uw-Loading a w ha h =
      let safe = l.well_formed.safe in
      rw (mips_poke_uw-stored safe a w ha) (elim (Bool-cases (accessible c a 4)) [
        | inl e ↦ rw e (
            returns tt _ (
              Loading-with_base (c.poke_uw c.base a w)
                (safe.access.poke-IsMemory c.base a w safe.bytes h)
                λ j f.
                  safe.access.poke_outside c.base a w j
                    (apart a j (ground arith) (ground (arith, safe.whole_words)) f)))
        | inr e ↦ rw e (jumps _ c l)
      ])

module _ {c0 : MipsCpu} (vaddr offset : ℕ) where
  pub copy_loop-Loading :
      (n i : ℕ) {c : MipsCpu}
      → Loading c0 c
      → Ensures (λ _. Loading c0) (Loading c0) (copy_loop vaddr offset n i c)
  unfolding copy_loop
  copy_loop-Loading zero i {c} l = returns tt c l
  copy_loop-Loading (suc n) i {c} l =
      look_first-Ensures _ _ (read_word-Looks c l.image (offset + i)) λ w h.
        and_then-Ensures _ _ (identity_poke-Loading l (u32 (vaddr + i)) w h)
          λ _ c'. copy_loop-Loading n (i + 4)

  pub clear_loop-Loading :
      (n i : ℕ) {c : MipsCpu}
      → Loading c0 c
      → Ensures (λ _. Loading c0) (Loading c0) (clear_loop vaddr n i c)
  unfolding clear_loop
  clear_loop-Loading zero i {c} l = returns tt c l
  clear_loop-Loading (suc n) i {c} l =
      and_then-Ensures _ _ (mips_poke_uw-Loading l (u32 (vaddr + i)) 0 (omega arith) (omega arith))
        λ _ c'. clear_loop-Loading n (i + 4)
