-- ===== src/Elf/Contents.antt =====
-- What `load_segment` of vm/elfload.c leaves in the memory: the words of the file as they stand in
-- it, and behind them zeros that are written through the access function of the CPU.
use cspim.Base.{ℕ, zero, suc, ◌+◌, ◌*◌, ◌≤◌, ◌<◌, ◌≡◌, ◌∙◌, ◌⊎◌, inl, refl, arith}
use cspim.Cpu.{Memory}
use cspim.Memory.{mips_identity_peek_uw, mips_identity_poke_uw}
use cspim.Memory.Access.{IsAccess, IsMemory, identity-IsAccess}

module _ (vaddr : ℕ) where
  -- The block after `copy_loop` and after `clear_loop`.
  unfoldable pub copied : (ℕ → ℕ) → ℕ → ℕ → ℕ → Memory → Memory
  copied elf offset zero i m = m
  copied elf offset (suc n) i m =
      copied elf offset n (i + 4)
        (mips_identity_poke_uw m (vaddr + i) (mips_identity_peek_uw elf (offset + i)))

  unfoldable pub cleared : (Memory → ℕ → ℕ → Memory) → ℕ → ℕ → Memory → Memory
  cleared poke zero i m = m
  cleared poke (suc n) i m = cleared poke n (i + 4) (poke m (vaddr + i) 0)

  module _ (elf : ℕ → ℕ) (image : IsMemory elf) (offset : ℕ) where
    pub copied-IsMemory : (n i : ℕ) (m : Memory) → IsMemory m → IsMemory (copied elf offset n i m)
    unfolding copied
    copied-IsMemory zero i m h = h
    copied-IsMemory (suc n) i m h = copied-IsMemory n (i + 4) _ (
        identity-IsAccess.poke-IsMemory m (vaddr + i) _ h
          (identity-IsAccess.peek-IsWord elf (offset + i) image))

    pub copied_outside :
        (n i : ℕ) (m : Memory) (j : ℕ)
        → (j < vaddr + i) ⊎ (vaddr + i + n * 4 ≤ j)
        → copied elf offset n i m j ≡ m j
    unfolding copied
    copied_outside zero i m j h = refl
    copied_outside (suc n) i m j h =
        copied_outside n (i + 4) _ j (ground arith)
        ∙ identity-IsAccess.poke_outside m (vaddr + i) _ j (ground arith)

    pub copied_word :
        (n i : ℕ) (m : Memory) (k : ℕ)
        → k < n
        → mips_identity_peek_uw (copied elf offset n i m) (vaddr + i + k * 4)
          ≡ mips_identity_peek_uw elf (offset + i + k * 4)
    unfolding copied
    copied_word zero i m k lt = absurd (omega arith)
    copied_word (suc n) i m zero lt =
        let e : vaddr + i + 0 * 4 ≡ vaddr + i = omega arith in
        let e' : offset + i + 0 * 4 ≡ offset + i = omega arith in
        let w = mips_identity_peek_uw elf (offset + i) in
        let m' = mips_identity_poke_uw m (vaddr + i) w in
        rw (e, e')
          (identity-IsAccess.peek_local _ m' (vaddr + i)
              (λ j l u. copied_outside n (i + 4) m' j (inl (omega (arith, u))))
            ∙ identity-IsAccess.peek-poke m (vaddr + i) w
                (identity-IsAccess.peek-IsWord elf (offset + i) image))
    copied_word (suc n) i m (suc k) lt =
        let e : vaddr + i + suc k * 4 ≡ vaddr + (i + 4) + k * 4 = omega arith in
        let e' : offset + i + suc k * 4 ≡ offset + (i + 4) + k * 4 = omega arith in
        rw (e, e') (copied_word n (i + 4) _ k (omega (arith, lt)))

  module _ {peek : Memory → ℕ → ℕ} {poke : Memory → ℕ → ℕ → Memory}
      (access : IsAccess peek poke) where
    pub cleared_outside :
        (n i : ℕ) (m : Memory) (j : ℕ)
        → (j < vaddr + i) ⊎ (vaddr + i + n * 4 ≤ j)
        → cleared poke n i m j ≡ m j
    unfolding cleared
    cleared_outside zero i m j h = refl
    cleared_outside (suc n) i m j h =
        cleared_outside n (i + 4) _ j (ground arith)
        ∙ access.poke_outside m (vaddr + i) 0 j (ground arith)

    pub cleared_word :
        (n i : ℕ) (m : Memory) (k : ℕ) → k < n → peek (cleared poke n i m) (vaddr + i + k * 4) ≡ 0
    unfolding cleared
    cleared_word zero i m k lt = absurd (omega arith)
    cleared_word (suc n) i m zero lt =
        let e : vaddr + i + 0 * 4 ≡ vaddr + i = omega arith in
        let m' = poke m (vaddr + i) 0 in
        rw e (
          access.peek_local _ m' (vaddr + i)
            (λ j l u. cleared_outside n (i + 4) m' j (inl (omega (arith, u))))
          ∙ access.peek-poke m (vaddr + i) 0 (omega arith))
    cleared_word (suc n) i m (suc k) lt =
        let e : vaddr + i + suc k * 4 ≡ vaddr + (i + 4) + k * 4 = omega arith in
        rw e (cleared_word n (i + 4) _ k (omega (arith, lt)))
