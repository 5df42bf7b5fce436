-- ===== src/Elfcrypt/Blocks.antt =====
-- What the loop of `crypt_segment` of hostapps/elfcrypt.c leaves in the file.
use cspim.Base.{
  ℕ, zero, suc, ◌+◌, ◌*◌, ◌^◌, ◌≤◌, ◌<◌, ◌≡◌, ◌∙◌, ◌⊎◌, inl, inr, refl, ap, arith, u32, ltb, true,
  false,
}
use cspim.Cpu.{Memory}
use cspim.Memory.{mips_identity_peek_uw}
use cspim.Memory.Access.{IsMemory, identity-IsAccess}
use cspim.Rc5.{Block, block, block_of, word_of_block, rc5_ecb_encrypt, rc5_ecb_decrypt, rc5_peek}
use cspim.Rc5.Inverse.{IsTable, AreBytes, rc5_ecb_encrypt-AreBytes, rc5_ecb_decrypt-rc5_ecb_encrypt}
use cspim.Rc5.Encrypted.{word_of_block-IsWord, block_of-word_of_block, rc5-IsAccess}
use cspim.Elfcrypt.{value, word_at, encrypt_at, crypt_blocks, crypt_loop}

module _ (s : ℕ → ℕ) (table : IsTable s) where
  abbrev block_at : Memory → ℕ → Block
  block_at m a = block (m a) (m (a + 1)) (m (a + 2)) (m (a + 3))

  block_at-AreBytes : (m : Memory) (a : ℕ) → IsMemory m → AreBytes (block_at m a)
  block_at-AreBytes m a h = ((h a, h (a + 1)), h (a + 2), h (a + 3))

  abbrev encrypted_at : Memory → ℕ → Block
  encrypted_at m a = rc5_ecb_encrypt s (block_at m a)

  encrypted_at-AreBytes : (m : Memory) (a : ℕ) → IsMemory m → AreBytes (encrypted_at m a)
  encrypted_at-AreBytes m a h =
      rc5_ecb_encrypt-AreBytes s table (block_at m a) (block_at-AreBytes m a h)

  encrypt_at-IsMemory : (m : Memory) (a : ℕ) → IsMemory m → IsMemory (encrypt_at s m a)
  unfolding encrypt_at
  encrypt_at-IsMemory m a h =
      identity-IsAccess.poke-IsMemory m a _ h
        (word_of_block-IsWord (encrypted_at m a) (encrypted_at-AreBytes m a h))

  encrypt_at_outside : (m : Memory) (a j : ℕ) → (j < a) ⊎ (a + 4 ≤ j) → encrypt_at s m a j ≡ m j
  unfolding encrypt_at
  encrypt_at_outside m a j h = identity-IsAccess.poke_outside m a _ j h

  rc5_peek-encrypt_at :
      (m : Memory) (a : ℕ)
      → IsMemory m
      → rc5_peek s (encrypt_at s m a) a ≡ mips_identity_peek_uw m a
  unfolding encrypt_at rc5_peek mips_identity_peek_uw
  rc5_peek-encrypt_at m a h =
      let encrypted = encrypted_at-AreBytes m a h in
      ap (λ (w : ℕ). word_of_block (rc5_ecb_decrypt s (block_of w)))
        (identity-IsAccess.peek-poke m a _ (word_of_block-IsWord (encrypted_at m a) encrypted))
      ∙ ap (λ (x : Block). word_of_block (rc5_ecb_decrypt s x))
          (block_of-word_of_block (encrypted_at m a) encrypted)
      ∙ ap word_of_block
          (rc5_ecb_decrypt-rc5_ecb_encrypt s table (block_at m a) (block_at-AreBytes m a h))

  pub crypt_blocks-IsMemory : (n a : ℕ) (m : Memory) → IsMemory m → IsMemory (crypt_blocks s n a m)
  unfolding crypt_blocks
  crypt_blocks-IsMemory zero a m h = h
  crypt_blocks-IsMemory (suc n) a m h =
      crypt_blocks-IsMemory n (a + 4) _ (encrypt_at-IsMemory m a h)

  pub crypt_blocks_outside :
      (n a : ℕ) (m : Memory) (j : ℕ) → (j < a) ⊎ (a + n * 4 ≤ j) → crypt_blocks s n a m j ≡ m j
  unfolding crypt_blocks
  crypt_blocks_outside zero a m j h = refl
  crypt_blocks_outside (suc n) a m j h =
      crypt_blocks_outside n (a + 4) _ j (ground arith) ∙ encrypt_at_outside m a j (ground arith)

  rc5_peek_same :
      (m m' : Memory) (a : ℕ)
      → ((j : ℕ) → a ≤ j → j < a + 4 → m j ≡ m' j)
      → rc5_peek s m a ≡ rc5_peek s m' a
  rc5_peek_same = (rc5-IsAccess s table).peek_local

  pub rc5_peek-crypt_blocks :
      (n a : ℕ) (m : Memory) (k : ℕ)
      → IsMemory m
      → k < n
      → rc5_peek s (crypt_blocks s n a m) (a + k * 4) ≡ mips_identity_peek_uw m (a + k * 4)
  unfolding crypt_blocks
  rc5_peek-crypt_blocks zero a m k h lt = absurd (omega arith)
  rc5_peek-crypt_blocks (suc n) a m zero h lt =
      let e : a + 0 * 4 ≡ a = omega arith in
      rw e (
        rc5_peek_same _ _ a
          (λ j l u. crypt_blocks_outside n (a + 4) (encrypt_at s m a) j (inl (omega (arith, u))))
        ∙ rc5_peek-encrypt_at m a h)
  rc5_peek-crypt_blocks (suc n) a m (suc k) h lt =
      let e : a + suc k * 4 ≡ a + 4 + k * 4 = omega arith in
      let m' = encrypt_at s m a in
      rw e (
        rc5_peek-crypt_blocks n (a + 4) m' k (encrypt_at-IsMemory m a h) (omega (arith, lt))
        ∙ identity-IsAccess.peek_local m' m (a + 4 + k * 4)
            (λ j l u. encrypt_at_outside m a j (inr (omega (arith, l)))))

  module _ (elfsz ph p filesz : ℕ) (inside : p + filesz ≤ elfsz)
      (apart : (ph + 32 ≤ p) ⊎ (p + filesz ≤ ph)) where
    abbrev HoldsSize : Memory → Type 0
    HoldsSize m = word_at m elfsz (ph + 16) ≡ value filesz

    encrypt_at-HoldsSize :
        (m : Memory) (i : ℕ) → i + 4 ≤ filesz → HoldsSize m → HoldsSize (encrypt_at s m (p + i))
    encrypt_at-HoldsSize m i h e =
        let same : (j : ℕ) → j < 4 → encrypt_at s m (p + i) (ph + 16 + j) ≡ m (ph + 16 + j) =
          λ j l. encrypt_at_outside m (p + i) (ph + 16 + j) (grind arith) in
        let s0 : encrypt_at s m (p + i) (ph + 16) ≡ m (ph + 16) =
          encrypt_at_outside m (p + i) (ph + 16) (grind arith) in
        rw (s0, same 1 (omega arith), same 2 (omega arith), same 3 (omega arith)) e

    -- While the header lies outside of the segment, the loop encrypts the blocks of the segment.
    pub crypt_loop-crypt_blocks :
        (k n i : ℕ) (m : Memory)
        → k ≤ n
        → i + k * 4 ≡ filesz
        → filesz < 2 ^ 32
        → HoldsSize m
        → crypt_loop s elfsz ph p (suc n) i m ≡ value (crypt_blocks s k (p + i) m)
    unfolding crypt_loop crypt_blocks
    crypt_loop-crypt_blocks zero n i m le e h w =
        let f : ltb i filesz ≡ false = ground arith in rw (w, f) refl
    crypt_loop-crypt_blocks (suc k) zero i m le e h w = absurd (omega (arith, le))
    crypt_loop-crypt_blocks (suc k) (suc n) i m le e h w =
        let f : ltb i filesz ≡ true = ground arith in
        let f' : ltb elfsz (p + i + 4) ≡ false = ground arith in
        let at : u32 (i + 4) ≡ i + 4 = ground arith in
        let next : p + (i + 4) ≡ p + i + 4 = omega arith in
        let m' = encrypt_at s m (p + i) in
        rw (w, f, f', at)
          (crypt_loop-crypt_blocks k n (i + 4) m' (omega (arith, le)) (omega (arith, e)) h
              (encrypt_at-HoldsSize m i (omega (arith, e)) w)
            ∙ ap (λ (a : ℕ). value (crypt_blocks s k a m')) next)
