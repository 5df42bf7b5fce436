-- ===== src/Memory/View.antt =====
-- The memory that the simulated program sees: bytes by their address, whatever the access functions
-- keep in the block. The checked reads of vm/cpuemu.c give its bytes, in little-endian order.
use cspim.Base.{
  ℕ, zero, suc, ◌+◌, ◌*◌, ◌/◌, ◌%◌, ◌^◌, ◌<◌, ◌≡◌, refl, ◌∙◌, ◌==◌, if◌then◌else◌, ltb, leb, ◌&&◌,
  Bool, arith, IsWord,
}
use cspim.Base.Bits.{bit_and_mask, bit_and-zero}
use cspim.Base.Int.{sign_extend}
use cspim.Cpu.{MipsCpu, Command, Exception, done, thrown, lowbase}
use cspim.Memory.{
  validate_address, mips_peek_sb, mips_peek_sh, mips_peek_ub, mips_peek_uh, mips_peek_uw,
}
use cspim.Memory.Checked.{IsSafe, word_of}

-- The byte at an address, as a part of the word that holds it.
abbrev pub guest_byte : MipsCpu → ℕ → ℕ
guest_byte c addr = c.peek_uw c.base (word_of addr) / 2 ^ (8 * (addr % 4)) % 2 ^ 8

abbrev pub guest_half : MipsCpu → ℕ → ℕ
guest_half c addr = guest_byte c addr + guest_byte c (addr + 1) * 2 ^ 8

abbrev pub guest_word : MipsCpu → ℕ → ℕ
guest_word c addr = guest_half c addr + guest_half c (addr + 2) * 2 ^ 16

-- Above the CPU state, inside the block, and aligned at `size`.
abbrev pub accessible : MipsCpu → ℕ → ℕ → Bool
accessible c addr size = leb lowbase addr && ltb addr c.memsz && (addr % size == 0)

abbrev pub address_error : {A : Type 0} → Command A
address_error c = thrown Exception.address c

-- Two bytes of a word at an even place, and the four bytes of a word.
half_bytes :
    (w s : ℕ)
    → s < 4
    → s % 2 ≡ 0
    → w / 2 ^ (8 * s) % 2 ^ 16 ≡ w / 2 ^ (8 * s) % 2 ^ 8 + w / 2 ^ (8 * (s + 1)) % 2 ^ 8 * 2 ^ 8
half_bytes w zero h e = omega arith
half_bytes w (suc zero) h e = absurd (omega arith)
half_bytes w (suc (suc zero)) h e = omega arith
half_bytes w (suc (suc (suc s))) h e = absurd (omega arith)

word_bytes :
    (w : ℕ)
    → IsWord w
    → w
      ≡ w % 2 ^ 8
        + w / 2 ^ 8 % 2 ^ 8 * 2 ^ 8
        + (w / 2 ^ 16 % 2 ^ 8 + w / 2 ^ 24 % 2 ^ 8 * 2 ^ 8) * 2 ^ 16
word_bytes w h = omega arith

-- A byte further on in the word that holds the byte at `a`.
pub guest_byte_at :
    (c : MipsCpu) (a k j : ℕ)
    → j ≡ a + k
    → a % 4 + k < 4
    → guest_byte c j ≡ c.peek_uw c.base (word_of a) / 2 ^ (8 * (a % 4 + k)) % 2 ^ 8
guest_byte_at c a k j e h =
    let p : word_of j ≡ word_of a = omega arith in
    let q : j % 4 ≡ a % 4 + k = omega arith in rw (p, q)

-- The bytes of the aligned word at `a`.
pub guest_byte_aligned :
    (c : MipsCpu) (a k j : ℕ)
    → a % 4 ≡ 0
    → k < 4
    → j ≡ a + k
    → guest_byte c j ≡ c.peek_uw c.base a / 2 ^ (8 * k) % 2 ^ 8
guest_byte_aligned c a k j e h f =
    let p : word_of j ≡ a = omega arith in let q : j % 4 ≡ k = omega arith in rw (p, q)

guest_half-eq :
    (c : MipsCpu) (a : ℕ)
    → a % 2 ≡ 0
    → c.peek_uw c.base (word_of a) / 2 ^ (8 * (a % 4)) % 2 ^ 16 ≡ guest_half c a
guest_half-eq c a e =
    half_bytes (c.peek_uw c.base (word_of a)) (a % 4) (omega arith) (omega arith)
    ∙ omega (arith, guest_byte_at c a 1 (a + 1) refl (omega arith))

pub guest_word-eq :
    (c : MipsCpu) (a : ℕ) → IsSafe c → a % 4 ≡ 0 → c.peek_uw c.base a ≡ guest_word c a
guest_word-eq c a safe e = omega (
  arith,
  word_bytes (c.peek_uw c.base a) (safe.access.peek-IsWord c.base a safe.bytes),
  guest_byte_aligned c a 0 a e (omega arith) (omega arith),
  guest_byte_aligned c a 1 (a + 1) e (omega arith) refl,
  guest_byte_aligned c a 2 (a + 2) e (omega arith) refl,
  guest_byte_aligned c a 3 (a + 2 + 1) e (omega arith) (omega arith),
)

module _ (c : MipsCpu) (addr : ℕ) (safe : IsSafe c) (word : IsWord addr) where
  validate_byte :
      validate_address addr 0 c
      ≡ (if accessible c addr 1 then done tt c else thrown Exception.address c)
  unfolding validate_address
  validate_byte = ground (arith, bit_and-zero addr)

  validate_half :
      validate_address addr 1 c
      ≡ (if accessible c addr 2 then done tt c else thrown Exception.address c)
  unfolding validate_address
  validate_half = ground (arith, bit_and_mask 1 addr)

  validate_word :
      validate_address addr 3 c
      ≡ (if accessible c addr 4 then done tt c else thrown Exception.address c)
  unfolding validate_address
  validate_word = ground (arith, bit_and_mask 2 addr)

  pub mips_peek_ub-guest_byte :
      mips_peek_ub addr c
      ≡ (if accessible c addr 1 then done (guest_byte c addr) c else thrown Exception.address c)
  unfolding mips_peek_ub
  mips_peek_ub-guest_byte = ground (arith, bit_and-zero addr, bit_and_mask 2 addr, safe.whole_words)

  pub mips_peek_sb-guest_byte : mips_peek_sb addr c ≡ (
      if accessible c addr 1
      then done (sign_extend 8 (guest_byte c addr)) c
      else thrown Exception.address c)
  unfolding mips_peek_sb
  mips_peek_sb-guest_byte = ground (arith, bit_and-zero addr, bit_and_mask 2 addr, safe.whole_words)

  pub mips_peek_uh-guest_half :
      mips_peek_uh addr c
      ≡ (if accessible c addr 2 then done (guest_half c addr) c else thrown Exception.address c)
  unfolding mips_peek_uh
  mips_peek_uh-guest_half =
      ground
        (arith, bit_and_mask 1 addr, bit_and_mask 2 addr, safe.whole_words, guest_half-eq c addr)

  pub mips_peek_sh-guest_half : mips_peek_sh addr c ≡ (
      if accessible c addr 2
      then done (sign_extend 16 (guest_half c addr)) c
      else thrown Exception.address c)
  unfolding mips_peek_sh
  mips_peek_sh-guest_half =
      ground
        (arith, bit_and_mask 1 addr, bit_and_mask 2 addr, safe.whole_words, guest_half-eq c addr)

  pub mips_peek_uw-guest_word :
      mips_peek_uw addr c
      ≡ (if accessible c addr 4 then done (guest_word c addr) c else thrown Exception.address c)
  unfolding mips_peek_uw
  mips_peek_uw-guest_word =
      ground (arith, bit_and_mask 2 addr, safe.whole_words, guest_word-eq c addr safe)
