-- ===== src/Rc5/Encrypted.antt =====
-- The encrypted memory of hostapps/util.c meets what the simulator relies on from access functions.
use cspim.Base.{ℕ, ◌+◌, ◌/◌, ◌%◌, ◌^◌, ◌<◌, ◌≤◌, ◌≡◌, ◌∙◌, ap, refl, arith, IsWord}
use cspim.Cpu.{Memory}
use cspim.Memory.{mips_identity_peek_uw}
use cspim.Memory.Access.{IsAccess, identity-IsAccess}
use cspim.Rc5.{
  Block, block, block_of, word_of_block, rc5_ecb_encrypt, rc5_ecb_decrypt, rc5_peek, rc5_poke,
}
use cspim.Rc5.Inverse.{
  IsTable, AreBytes, rc5_ecb_encrypt-AreBytes, rc5_ecb_decrypt-AreBytes,
  rc5_ecb_decrypt-rc5_ecb_encrypt,
}

block_of-AreBytes : (w : ℕ) → AreBytes (block_of w)
block_of-AreBytes w = ((omega arith, omega arith), omega arith, omega arith)

pub word_of_block-IsWord : (x : Block) → AreBytes x → IsWord (word_of_block x)
word_of_block-IsWord (block x0 x1 x2 x3) ((h0, h1), h2, h3) = omega arith

word_of_block-block_of : (w : ℕ) → IsWord w → word_of_block (block_of w) ≡ w
word_of_block-block_of w h = omega arith

pub block_of-word_of_block : (x : Block) → AreBytes x → block_of (word_of_block x) ≡ x
block_of-word_of_block (block x0 x1 x2 x3) ((h0, h1), h2, h3) =
    let w = word_of_block (block x0 x1 x2 x3) in
    rw
      (
        let e : w % 2 ^ 8 ≡ x0 = omega arith in e,
        let e : w / 2 ^ 8 % 2 ^ 8 ≡ x1 = omega arith in e,
        let e : w / 2 ^ 16 % 2 ^ 8 ≡ x2 = omega arith in e,
        let e : w / 2 ^ 24 % 2 ^ 8 ≡ x3 = omega arith in e,
      )
      refl

module _ (s : ℕ → ℕ) (table : IsTable s) where
  encrypted-IsWord : (w : ℕ) → IsWord (word_of_block (rc5_ecb_encrypt s (block_of w)))
  encrypted-IsWord w =
      word_of_block-IsWord _ (rc5_ecb_encrypt-AreBytes s table _ (block_of-AreBytes w))

  decrypted-IsWord : (w : ℕ) → IsWord (word_of_block (rc5_ecb_decrypt s (block_of w)))
  decrypted-IsWord w =
      word_of_block-IsWord _ (rc5_ecb_decrypt-AreBytes s table _ (block_of-AreBytes w))

  decrypted-encrypted :
      (w : ℕ)
      → IsWord w
      → word_of_block
          (rc5_ecb_decrypt s (block_of (word_of_block (rc5_ecb_encrypt s (block_of w)))))
        ≡ w
  decrypted-encrypted w h =
      let bytes = block_of-AreBytes w in
      ap (λ (x : Block). word_of_block (rc5_ecb_decrypt s x))
        (block_of-word_of_block _ (rc5_ecb_encrypt-AreBytes s table _ bytes))
      ∙ ap word_of_block (rc5_ecb_decrypt-rc5_ecb_encrypt s table _ bytes)
      ∙ word_of_block-block_of w h

  rc5_peek_local :
      (m n : Memory) (a : ℕ)
      → ((j : ℕ) → a ≤ j → j < a + 4 → m j ≡ n j)
      → rc5_peek s m a ≡ rc5_peek s n a
  unfolding rc5_peek
  rc5_peek_local m n a h =
      ap (λ (w : ℕ). word_of_block (rc5_ecb_decrypt s (block_of w)))
        (identity-IsAccess.peek_local m n a h)

  rc5_peek-rc5_poke : (m : Memory) (a w : ℕ) → IsWord w → rc5_peek s (rc5_poke s m a w) a ≡ w
  unfolding rc5_peek rc5_poke
  rc5_peek-rc5_poke m a w h =
      ap (λ (w : ℕ). word_of_block (rc5_ecb_decrypt s (block_of w)))
        (identity-IsAccess.peek-poke m a _ (encrypted-IsWord w))
      ∙ decrypted-encrypted w h

  -- With a table of 16-bit words, the access functions of util.c that encrypt the memory meet what
  -- the simulator relies on: each acts on its word only, keeps bytes and words in range, and reads
  -- back the word that was written.
  pub rc5-IsAccess : IsAccess (rc5_peek s) (rc5_poke s)
  unfolding rc5_peek rc5_poke
  rc5-IsAccess = record {
    peek-IsWord = λ m a h. decrypted-IsWord (mips_identity_peek_uw m a);
    peek_local = rc5_peek_local;
    poke-IsMemory = λ m a w h hw. identity-IsAccess.poke-IsMemory m a _ h (encrypted-IsWord w);
    poke_outside = λ m a w j h. identity-IsAccess.poke_outside m a _ j h;
    peek-poke = rc5_peek-rc5_poke;
  }
