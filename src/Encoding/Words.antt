-- ===== src/Encoding/Words.antt =====
-- The checked accesses and `do_loadstore` do the same under every encoding.
use cspim.Base.{
  ℕ, ◌+◌, ◌*◌, ◌/◌, ◌%◌, ◌^◌, ◌≤◌, ◌<◌, ◌≡◌, ◌≢◌, refl, sym, ap, ◌∙◌, ◌⊎◌, inl, inr, ◌==◌,
  if◌then◌else◌, Bool, arith, IsWord, true, false, Bool-cases,
}
use cspim.Base.Int.{sign_extend}
use cspim.Cpu.{Memory, MipsCpu, Exception, done, thrown}
use cspim.Memory.{
  mips_peek_ub, mips_peek_sb, mips_peek_uh, mips_peek_sh, mips_peek_uw, mips_poke_ub, mips_poke_uh,
  mips_poke_uw,
}
use cspim.Memory.Checked.{Inside, word_of}
use cspim.Memory.View.{
  guest_byte, guest_half, guest_word, accessible, mips_peek_ub-guest_byte, mips_peek_sb-guest_byte,
  mips_peek_uh-guest_half, mips_peek_sh-guest_half, mips_peek_uw-guest_word,
}
use cspim.Memory.Insert.{byte_word, half_word, byte_word-IsWord, half_word-IsWord}
use cspim.Memory.Store.{
  stored, stored-IsSafe, mips_poke_ub-stored, mips_poke_uh-stored, mips_poke_uw-stored,
}
use cspim.Instruction.LoadStore.{}
use cspim.Encoding.{Access, recoded, SameWords, Agree, returns, jumps}

module _ {f : Access} {c : MipsCpu} {b : Memory} (s : SameWords f c b) where
  Inside-byte : (a : ℕ) → accessible c a 1 ≡ true → Inside c (word_of a)
  Inside-byte a e = ground (arith, s.safe.whole_words)

  aligned_word : (a n : ℕ) → accessible c a n ≡ true → a % 4 ≡ 0 → Inside c a
  aligned_word a n e h = ground (arith, s.safe.whole_words)

  same_byte : (a : ℕ) → accessible c a 1 ≡ true → guest_byte c a ≡ guest_byte (recoded f c b) a
  same_byte a e =
      ap (λ (w : ℕ). w / 2 ^ (8 * (a % 4)) % 2 ^ 8) (s.words (word_of a) (Inside-byte a e))

  same_half : (a : ℕ) → accessible c a 2 ≡ true → guest_half c a ≡ guest_half (recoded f c b) a
  same_half a e =
      omega
        (arith, same_byte a (ground arith), same_byte (a + 1) (ground (arith, s.safe.whole_words)))

  pub same_word : (a : ℕ) → accessible c a 4 ≡ true → guest_word c a ≡ guest_word (recoded f c b) a
  same_word a e = omega (
    arith,
    same_byte a (ground arith),
    same_byte (a + 1) (ground (arith, s.safe.whole_words)),
    same_byte (a + 2) (ground (arith, s.safe.whole_words)),
    same_byte (a + 2 + 1) (ground (arith, s.safe.whole_words)),
  )

  -- A checked read of equal values.
  read-Agree :
      (t : Bool) (v v' : ℕ)
      → (t ≡ true → v ≡ v')
      → Agree f
          (if t then done v c else thrown Exception.address c)
          (if t then done v' (recoded f c b) else thrown Exception.address (recoded f c b))
  read-Agree true v v' h = rw (← h refl) (returns v c b s)
  read-Agree false v v' h = jumps Exception.address c b s

  module _ (a : ℕ) (word : IsWord a) where
    pub peek_ub-Agree : Agree f (mips_peek_ub a c) (mips_peek_ub a (recoded f c b))
    peek_ub-Agree =
        rw
          (
            mips_peek_ub-guest_byte c a s.safe word,
            mips_peek_ub-guest_byte (recoded f c b) a s.safe' word,
          )
          (read-Agree (accessible c a 1) _ _ (same_byte a))

    pub peek_sb-Agree : Agree f (mips_peek_sb a c) (mips_peek_sb a (recoded f c b))
    peek_sb-Agree =
        rw
          (
            mips_peek_sb-guest_byte c a s.safe word,
            mips_peek_sb-guest_byte (recoded f c b) a s.safe' word,
          )
          (read-Agree (accessible c a 1) _ _ λ e. ap (sign_extend 8) (same_byte a e))

    pub peek_uh-Agree : Agree f (mips_peek_uh a c) (mips_peek_uh a (recoded f c b))
    peek_uh-Agree =
        rw
          (
            mips_peek_uh-guest_half c a s.safe word,
            mips_peek_uh-guest_half (recoded f c b) a s.safe' word,
          )
          (read-Agree (accessible c a 2) _ _ (same_half a))

    pub peek_sh-Agree : Agree f (mips_peek_sh a c) (mips_peek_sh a (recoded f c b))
    peek_sh-Agree =
        rw
          (
            mips_peek_sh-guest_half c a s.safe word,
            mips_peek_sh-guest_half (recoded f c b) a s.safe' word,
          )
          (read-Agree (accessible c a 2) _ _ λ e. ap (sign_extend 16) (same_half a e))

    pub peek_uw-Agree : Agree f (mips_peek_uw a c) (mips_peek_uw a (recoded f c b))
    peek_uw-Agree =
        rw
          (
            mips_peek_uw-guest_word c a s.safe word,
            mips_peek_uw-guest_word (recoded f c b) a s.safe' word,
          )
          (read-Agree (accessible c a 4) _ _ (same_word a))

  -- A word that both encodings store.
  stored-SameWords : (a w : ℕ) → IsWord w → a % 4 ≡ 0 → SameWords f (stored c a w) (f.poke b a w)
  stored-SameWords a w hw ha = record {
    safe = stored-IsSafe s.safe a w hw;
    safe' = stored-IsSafe s.safe' a w hw;
    words = λ k i. elim (Bool-cases (k == a)) [
      | inl e ↦ at_word k (ground arith)
      | inr e ↦ elsewhere k i (ground arith)
    ];
  }
    where
      at_word : (k : ℕ) → k ≡ a → c.peek_uw (c.poke_uw c.base a w) k ≡ f.peek (f.poke b a w) k
      at_word k e =
          rw e (s.safe.access.peek-poke c.base a w hw ∙ sym (s.safe'.access.peek-poke b a w hw))

      apart : (k j : ℕ) → k % 4 ≡ 0 → k ≢ a → k ≤ j → j < k + 4 → (j < a) ⊎ (a + 4 ≤ j)
      apart k j h ne p q = grind arith

      elsewhere :
          (k : ℕ)
          → Inside c k
          → k ≢ a
          → c.peek_uw (c.poke_uw c.base a w) k ≡ f.peek (f.poke b a w) k
      elsewhere k i ne =
          s.safe.access.peek_local _ c.base k
            (λ j p q. s.safe.access.poke_outside c.base a w j (apart k j i.0 ne p q))
          ∙ s.words k i
          ∙ sym (
              s.safe'.access.peek_local _ b k
                (λ j p q. s.safe'.access.poke_outside b a w j (apart k j i.0 ne p q)))

  -- A checked write of equal words.
  write-Agree :
      (t : Bool) (a w w' : ℕ)
      → (t ≡ true → w ≡ w')
      → (t ≡ true → IsWord w)
      → (t ≡ true → a % 4 ≡ 0)
      → Agree f (if t then done tt (stored c a w) else thrown Exception.address c) (
          if t
          then done tt (stored (recoded f c b) a w')
          else thrown Exception.address (recoded f c b))
  write-Agree true a w w' h hw ha =
      rw (← h refl)
        (returns tt (stored c a w) (f.poke b a w) (stored-SameWords a w (hw refl) (ha refl)))
  write-Agree false a w w' h hw ha = jumps Exception.address c b s

  old_word : (a : ℕ) → IsWord (c.peek_uw c.base a)
  old_word a = s.safe.access.peek-IsWord c.base a s.safe.bytes

  module _ (a v : ℕ) (word : IsWord a) where
    pub poke_ub-Agree : Agree f (mips_poke_ub a v c) (mips_poke_ub a v (recoded f c b))
    poke_ub-Agree =
        rw (mips_poke_ub-stored s.safe a v word, mips_poke_ub-stored s.safe' a v word)
          (write-Agree (accessible c a 1) (word_of a) _ _
            (λ e. ap (λ (t : ℕ). byte_word t (a % 4) v) (s.words (word_of a) (Inside-byte a e)))
            (λ e. byte_word-IsWord _ (a % 4) v (old_word (word_of a)) (omega arith))
            (λ e. omega arith))

    pub poke_uh-Agree : Agree f (mips_poke_uh a v c) (mips_poke_uh a v (recoded f c b))
    poke_uh-Agree =
        rw (mips_poke_uh-stored s.safe a v word, mips_poke_uh-stored s.safe' a v word)
          (write-Agree (accessible c a 2) (word_of a) _ _
            (λ e.
              ap (λ (t : ℕ). half_word t (a % 4) v)
                (s.words (word_of a) (Inside-byte a (ground arith))))
            (λ e. half_word-IsWord _ (a % 4) v (old_word (word_of a)) (omega arith) (even e))
            (λ e. omega arith))
      where
        even : accessible c a 2 ≡ true → a % 4 % 2 ≡ 0
        even h = ground arith

    pub poke_uw-Agree : IsWord v → Agree f (mips_poke_uw a v c) (mips_poke_uw a v (recoded f c b))
    poke_uw-Agree hv =
        rw (mips_poke_uw-stored s.safe a v word, mips_poke_uw-stored s.safe' a v word)
          (write-Agree (accessible c a 4) a v v (λ _. refl) (λ _. hv) (λ e. ground arith))
