-- ===== src/Isa/Merge.antt =====
-- LWL, LWR, SWL and SWR as commands of vm/cpuemu.c: the word that holds the byte at the address is
-- loaded, and the combined word goes to the register or back to the memory.
use cspim.Base.{
  ℕ, ◌+◌, ◌-◌, ◌%◌, ◌<◌, ◌≡◌, refl, sym, ap, ◌∙◌, inl, inr, ◌==◌, if◌then◌else◌, bit_and, sub32,
  Bool, true, false, Bool-cases, arith, IsWord,
}
use cspim.Base.Bits.{bit_and_mask}
use cspim.Cpu.{MipsCpu, Exception, Outcome, done, and_then, write_reg}
use cspim.Memory.{mips_peek_uw, mips_poke_uw, pure}
use cspim.Memory.Checked.{IsSafe}
use cspim.Memory.View.{guest_byte, guest_word, accessible, mips_peek_uw-guest_word}
use cspim.Memory.Flat.{flat_write, Writes, wrote, refused, mips_poke-Writes}
use cspim.Instruction.LoadStore.{lwl_word, lwr_word, swl_word, swr_word}
use cspim.Execute.Effect.{IsWellFormed}
use cspim.Isa.{gives, write, store, byte_of, left_word, right_word, write_left, write_right}
use cspim.Isa.Meaning.{unaligned}
use cspim.Isa.Bytes.{
  byte_of-of_bytes, word_in-of_bytes, swl_word-whole, swr_word-whole, left_word-lwl, right_word-lwr,
  write_left-swl, write_right-swr,
}
use cspim.Execute.LoadStoreEffect.{swl_word-IsWord, swr_word-IsWord}
use cspim.Isa.View
use cspim.Isa.View.{view, Yields, value, fault, Does, trapped, write_reg-Does, expect_zero-Does}

-- A write of the memory model is a store.
pub Writes-Does :
    {c : MipsCpu} {addr size v : ℕ} {o : Outcome (Unit {0})} (mem : ℕ → ℕ)
    → ((k : ℕ) → flat_write (guest_byte c) addr size v k ≡ mem k)
    → Writes c addr size v o
    → Does c (store (accessible c addr size) mem) o
Writes-Does mem h (wrote base e safe bytes) = rw e (View.stored base mem (λ k. bytes k ∙ h k))
Writes-Does mem h (refused e) = rw e (View.refused mem)

-- The bytes of the word at `a`.
guest_word-byte :
    (c : MipsCpu) (a k b : ℕ) → b ≡ a + k → k < 4 → byte_of (guest_word c a) k ≡ guest_byte c b
guest_word-byte c a k b e h =
    ap (λ (t : ℕ). byte_of t k) (word_in-of_bytes (guest_byte c) a)
    ∙ byte_of-of_bytes (λ i. guest_byte c (a + i)) k (λ i. omega arith) h
    ∙ ap (guest_byte c) (sym e)

-- A byte is accessible exactly if the aligned word that holds it is.
accessible-word_of :
    {c : MipsCpu} → IsSafe c → (a : ℕ) → accessible c (a - a % 4) 4 ≡ accessible c a 1
accessible-word_of safe a = ground (arith, safe.whole_words)

module _ {c : MipsCpu} (wf : IsWellFormed c) where
  poke_uw-Does :
      (a v : ℕ) (mem : ℕ → ℕ)
      → IsWord a
      → IsWord v
      → ((k : ℕ) → flat_write (guest_byte c) a 4 v k ≡ mem k)
      → Does c (store (accessible c a 4) mem) (mips_poke_uw a v c)
  poke_uw-Does a v mem ha hv h = Writes-Does mem h (mips_poke-Writes wf.safe a v ha hv).2

  -- A part of a word is loaded into register `r`.
  peeked-Does :
      (a r v : ℕ) (word : ℕ → ℕ → ℕ)
      → IsWord a
      → word (guest_word c a) (c.ur r) ≡ v
      → Does c
          (unaligned (accessible c a 4) (write r (gives v)))
          (and_then (mips_peek_uw a c) (λ w c. write_reg r (done (word w (c.ur r))) c))
  peeked-Does a r v word ha h =
      rw (mips_peek_uw-guest_word c a wf.safe ha) (elim (Bool-cases (accessible c a 4)) [
        | inl e ↦ rw (e, h) (write_reg-Does r (value v))
        | inr e ↦ rw e (trapped Exception.address tt)
      ])

  -- A part of register `r` is stored. The old word is loaded unless all of it is replaced.
  merged-Does :
      (b : Bool) (a r : ℕ) (word : ℕ → ℕ → ℕ) (mem : ℕ → ℕ)
      → IsWord a
      → ((w : ℕ) → IsWord w → IsWord (word w (c.ur r)))
      → ((k : ℕ) → flat_write (guest_byte c) a 4 (word (guest_word c a) (c.ur r)) k ≡ mem k)
      → (b ≡ true → word 0 (c.ur r) ≡ word (guest_word c a) (c.ur r))
      → Does c (store (accessible c a 4) mem) (
          and_then
            ((if b then pure 0 else mips_peek_uw a) c)
            (λ w c. mips_poke_uw a (word w (c.ur r)) c))
  merged-Does true a r word mem ha hw h same =
      poke_uw-Does a (word 0 (c.ur r)) mem ha (hw 0 (omega arith)) λ k. rw (same refl) (h k)
  merged-Does false a r word mem ha hw h same =
      let d =
        poke_uw-Does a (word (guest_word c a) (c.ur r)) mem ha (hw (guest_word c a) (omega arith))
          h in
      rw (mips_peek_uw-guest_word c a wf.safe ha) (elim (Bool-cases (accessible c a 4)) [
        | inl e ↦ rw e (rw e at d)
        | inr e ↦ rw e (View.refused mem)
      ])

  -- The register `r` at the effective address `ea`.
  module _ (r ea : ℕ) (h : IsWord ea) where
    word_base : sub32 ea (ea % 4) ≡ ea - ea % 4
    word_base = omega arith

    pub lwl-Does :
        Does c
          (unaligned (accessible c ea 1) (write r (gives (left_word (guest_byte c) ea (c.ur r)))))
          (and_then
            (mips_peek_uw (sub32 ea (bit_and ea 3)) c)
            (λ w c. write_reg r (done (lwl_word (bit_and ea 3) w (c.ur r))) c))
    lwl-Does =
        rw (bit_and_mask 2 ea, word_base, ← accessible-word_of wf.safe ea)
          (peeked-Does (ea - ea % 4) r _ (lwl_word (ea % 4)) (omega arith) (
            left_word-lwl (guest_byte c) (ea - ea % 4) (ea % 4) ea _ (c.ur r) refl (omega arith)
              (omega arith) (wf.registers.words r) (guest_word-byte c (ea - ea % 4))))

    pub lwr-Does :
        Does c
          (unaligned (accessible c ea 1) (write r (gives (right_word (guest_byte c) ea (c.ur r)))))
          (and_then
            (mips_peek_uw (sub32 ea (bit_and ea 3)) c)
            (λ w c. write_reg r (done (lwr_word (bit_and ea 3) w (c.ur r))) c))
    lwr-Does =
        rw (bit_and_mask 2 ea, word_base, ← accessible-word_of wf.safe ea)
          (peeked-Does (ea - ea % 4) r _ (lwr_word (ea % 4)) (omega arith) (
            right_word-lwr (guest_byte c) (ea - ea % 4) (ea % 4) ea _ (c.ur r) refl (omega arith)
              (omega arith) (wf.registers.words r) (guest_word-byte c (ea - ea % 4))))

    pub swl-Does : Does c (store (accessible c ea 1) (write_left (guest_byte c) ea (c.ur r))) (
        and_then
          ((if bit_and ea 3 == 3 then pure 0 else mips_peek_uw (sub32 ea (bit_and ea 3))) c)
          (λ w c. mips_poke_uw (sub32 ea (bit_and ea 3)) (swl_word (bit_and ea 3) w (c.ur r)) c))
    swl-Does =
        rw (bit_and_mask 2 ea, word_base, ← accessible-word_of wf.safe ea)
          (merged-Does (ea % 4 == 3) (ea - ea % 4) r (swl_word (ea % 4))
            (write_left (guest_byte c) ea (c.ur r)) (omega arith)
            (λ w hw. swl_word-IsWord (ea % 4) w (c.ur r) hw (wf.registers.words r))
            (write_left-swl (guest_byte c) (ea - ea % 4) (ea % 4) ea _ (c.ur r) refl (omega arith)
              (omega arith) (wf.registers.words r) (guest_word-byte c (ea - ea % 4)))
            (λ e. swl_word-whole (ea % 4) 0 _ (c.ur r) (ground arith)))

    pub swr-Does : Does c (store (accessible c ea 1) (write_right (guest_byte c) ea (c.ur r))) (
        and_then
          ((if bit_and ea 3 == 0 then pure 0 else mips_peek_uw (sub32 ea (bit_and ea 3))) c)
          (λ w c. mips_poke_uw (sub32 ea (bit_and ea 3)) (swr_word (bit_and ea 3) w (c.ur r)) c))
    swr-Does =
        rw (bit_and_mask 2 ea, word_base, ← accessible-word_of wf.safe ea)
          (merged-Does (ea % 4 == 0) (ea - ea % 4) r (swr_word (ea % 4))
            (write_right (guest_byte c) ea (c.ur r)) (omega arith)
            (λ w hw. swr_word-IsWord (ea % 4) w (c.ur r) hw (wf.registers.words r))
            (write_right-swr (guest_byte c) (ea - ea % 4) (ea % 4) ea _ (c.ur r) refl (omega arith)
              (omega arith) (wf.registers.words r) (guest_word-byte c (ea - ea % 4)))
            (λ e. swr_word-whole (ea % 4) 0 _ (c.ur r) (ground arith)))
