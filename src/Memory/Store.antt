-- ===== src/Memory/Store.antt =====
-- The checked writes of vm/cpuemu.c on the memory that the simulated program sees.
use cspim.Base.{
  ℕ, ◌+◌, ◌*◌, ◌/◌, ◌%◌, ◌^◌, ◌≤◌, ◌<◌, ◌≡◌, ◌≢◌, ap, ◌⊎◌, ◌==◌, if◌then◌else◌, arith, IsWord, u8,
}
use cspim.Base.Bits.{bit_and_mask, bit_and-zero}
use cspim.Cpu.{MipsCpu, Exception, done, thrown}
use cspim.Memory.{mips_poke_ub, mips_poke_uh, mips_poke_uw}
use cspim.Memory.Checked.{IsSafe, word_of}
use cspim.Memory.View.{guest_byte, accessible}
use cspim.Memory.Insert.{
  byte_word, half_word, byte_word-IsWord, half_word-IsWord, byte_word_at, half_word_at,
}

-- The state after a word has been written.
abbrev pub stored : MipsCpu → ℕ → ℕ → MipsCpu
stored c a w = record c { base = c.poke_uw c.base a w }

module _ {c : MipsCpu} (safe : IsSafe c) (a w : ℕ) (word : IsWord w) where
  pub stored-IsSafe : IsSafe (stored c a w)
  stored-IsSafe = record {
    access = safe.access;
    bytes = safe.access.poke-IsMemory c.base a w safe.bytes word;
    whole_words = safe.whole_words;
    address_space = safe.address_space;
  }

  other_word :
      (b : ℕ)
      → a % 4 ≡ 0
      → b % 4 ≡ 0
      → b ≢ a
      → c.peek_uw (c.poke_uw c.base a w) b ≡ c.peek_uw c.base b
  other_word b ha hb ne =
      safe.access.peek_local (c.poke_uw c.base a w) c.base b
        λ j p q. safe.access.poke_outside c.base a w j (apart j p q)
    where
      apart : (j : ℕ) → b ≤ j → j < b + 4 → (j < a) ⊎ (a + 4 ≤ j)
      apart j p q = grind arith

  -- The bytes of the word are the new ones, and all others stay.
  pub stored-guest_byte :
      (j : ℕ)
      → a % 4 ≡ 0
      → guest_byte (stored c a w) j
        ≡ (if word_of j == a then w / 2 ^ (8 * (j % 4)) % 2 ^ 8 else guest_byte c j)
  stored-guest_byte j ha = ground (
    arith,
    other_word (word_of j) ha (omega arith),
    ap (λ (t : ℕ). c.peek_uw (c.poke_uw c.base a w) t / 2 ^ (8 * (j % 4)) % 2 ^ 8) {x = word_of j}
        {y = a},
    safe.access.peek-poke c.base a w word,
  )

-- The state after each checked write, where the access is allowed.
abbrev pub stored_byte : MipsCpu → ℕ → ℕ → MipsCpu
stored_byte c addr v =
    stored c (word_of addr) (byte_word (c.peek_uw c.base (word_of addr)) (addr % 4) v)

abbrev pub stored_half : MipsCpu → ℕ → ℕ → MipsCpu
stored_half c addr v =
    stored c (word_of addr) (half_word (c.peek_uw c.base (word_of addr)) (addr % 4) v)

module _ {c : MipsCpu} (safe : IsSafe c) (addr v : ℕ) (word : IsWord addr) where
  old_word : IsWord (c.peek_uw c.base (word_of addr))
  old_word = safe.access.peek-IsWord c.base (word_of addr) safe.bytes

  pub mips_poke_ub-stored :
      mips_poke_ub addr v c
      ≡ (if accessible c addr 1 then done tt (stored_byte c addr v) else thrown Exception.address c)
  unfolding mips_poke_ub
  mips_poke_ub-stored = ground (arith, bit_and-zero addr, bit_and_mask 2 addr, safe.whole_words)

  pub mips_poke_uh-stored :
      mips_poke_uh addr v c
      ≡ (if accessible c addr 2 then done tt (stored_half c addr v) else thrown Exception.address c)
  unfolding mips_poke_uh
  mips_poke_uh-stored = ground (arith, bit_and_mask 1 addr, bit_and_mask 2 addr, safe.whole_words)

  pub mips_poke_uw-stored :
      mips_poke_uw addr v c
      ≡ (if accessible c addr 4 then done tt (stored c addr v) else thrown Exception.address c)
  unfolding mips_poke_uw
  mips_poke_uw-stored = ground (arith, bit_and_mask 2 addr, safe.whole_words)

  pub stored_byte-IsSafe : IsSafe (stored_byte c addr v)
  stored_byte-IsSafe =
      stored-IsSafe safe (word_of addr) _ (byte_word-IsWord _ (addr % 4) v old_word (omega arith))

  pub stored_half-IsSafe : addr % 2 ≡ 0 → IsSafe (stored_half c addr v)
  stored_half-IsSafe e =
      stored-IsSafe safe (word_of addr) _
        (half_word-IsWord _ (addr % 4) v old_word (omega arith) (omega arith))

  -- A byte write changes the byte at its address and no other.
  pub stored_byte-guest_byte :
      (j : ℕ) → guest_byte (stored_byte c addr v) j ≡ (if j == addr then u8 v else guest_byte c j)
  stored_byte-guest_byte j = ground (
    arith,
    stored-guest_byte safe (word_of addr) (byte_word (c.peek_uw c.base (word_of addr)) (addr % 4) v)
        (byte_word-IsWord _ (addr % 4) v old_word (omega arith)) j (omega arith),
    byte_word_at (c.peek_uw c.base (word_of addr)) (addr % 4) v (j % 4) old_word (omega arith)
        (omega arith),
    ap (λ (t : ℕ). c.peek_uw c.base t / 2 ^ (8 * (j % 4)) % 2 ^ 8) {x = word_of j}
        {y = word_of addr},
  )

  pub stored_half-guest_byte :
      (j : ℕ)
      → addr % 2 ≡ 0
      → guest_byte (stored_half c addr v) j ≡ (
          if j == addr
          then v % 2 ^ 8
          else if j == addr + 1
          then v / 2 ^ 8 % 2 ^ 8
          else guest_byte c j)
  stored_half-guest_byte j e = ground (
    arith,
    stored-guest_byte safe (word_of addr) (half_word (c.peek_uw c.base (word_of addr)) (addr % 4) v)
        (half_word-IsWord _ (addr % 4) v old_word (omega arith) (omega arith)) j (omega arith),
    half_word_at (c.peek_uw c.base (word_of addr)) (addr % 4) v (j % 4) old_word (omega arith)
        (omega arith) (omega arith),
    ap (λ (t : ℕ). c.peek_uw c.base t / 2 ^ (8 * (j % 4)) % 2 ^ 8) {x = word_of j}
        {y = word_of addr},
  )
