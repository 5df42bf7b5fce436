-- ===== src/Execute/LoadStoreEffect.antt =====
-- The effects of `do_loadstore`.
use cspim.Base.{
  ℕ, ◌%◌, ◌≡◌, refl, inl, inr, ◌==◌, if◌then◌else◌, Bool, arith, IsWord, true, false, bit_and, not,
  sub32, ◌<<◌, ◌>>>◌, Bool-cases,
}
use cspim.Base.Bits.{bit_and-lt, bit_or-lt}
use cspim.Opcodes.{Opcode, lui, lb, lh, lwl, lw, lbu, lhu, lwr, sb, sh, swl, sw, swr, f_rt}
use cspim.Cpu.{MipsCpu, Command, Exception, done, thrown, and_then, write_reg}
use cspim.Instruction.{f_rs, z_imm}
use cspim.Execute.{Group, group}
use cspim.Execute.Effect.{
  IsWellFormed, Effect, memory, Value, value, fault, write_reg-Effect, throw_if-Effect,
  pattern_of-IsWord,
}
use cspim.Memory.{mips_peek_uw, mips_poke_ub, mips_poke_uh, mips_poke_uw, pure}
use cspim.Memory.Checked.{IsSafe, Inside, word_of}
use cspim.Memory.View.{
  guest_byte, guest_half, guest_word, accessible, mips_peek_ub-guest_byte, mips_peek_sb-guest_byte,
  mips_peek_uh-guest_half, mips_peek_sh-guest_half, mips_peek_uw-guest_word,
}
use cspim.Memory.Insert.{byte_word-IsWord, half_word-IsWord}
use cspim.Memory.Store.{stored, mips_poke_ub-stored, mips_poke_uh-stored, mips_poke_uw-stored}
use cspim.Instruction.LoadStore.{
  lwl_word, lwr_word, swl_word, swr_word, load_store_switch, do_loadstore,
}
use cspim.Execute.AluEffect.{u32-IsWord, div-IsWord}

if-IsWord : (b : Bool) {v : ℕ} → IsWord v → IsWord (if b then 0 else v)
if-IsWord true h = omega arith
if-IsWord false h = h

masked : (m : ℕ) {v : ℕ} → IsWord v → IsWord m → IsWord (bit_and v m)
masked m h k = bit_and-lt 32 _ m h k

mask : (k : ℕ) → IsWord (0xffff_ffff >>> k)
mask k = div-IsWord 0xffff_ffff k (omega arith)

module _ (s mem rt : ℕ) (hm : IsWord mem) (ht : IsWord rt) where
  pub lwl_word-IsWord : IsWord (lwl_word s mem rt)
  unfolding lwl_word
  lwl_word-IsWord = bit_or-lt 32 _ _ (u32-IsWord _) (if-IsWord (s == 3) (masked _ ht (mask _)))

  pub lwr_word-IsWord : IsWord (lwr_word s mem rt)
  unfolding lwr_word
  lwr_word-IsWord =
      bit_or-lt 32 _ _ (div-IsWord _ _ hm) (if-IsWord (s == 0) (masked _ ht (u32-IsWord _)))

  pub swl_word-IsWord : IsWord (swl_word s mem rt)
  unfolding swl_word
  swl_word-IsWord =
      bit_or-lt 32 _ _ (if-IsWord (s == 3) (masked _ hm (u32-IsWord _))) (div-IsWord _ _ ht)

  pub swr_word-IsWord : IsWord (swr_word s mem rt)
  unfolding swr_word
  swr_word-IsWord = bit_or-lt 32 _ _ (if-IsWord (s == 0) (masked _ hm (mask _))) (u32-IsWord _)

guest_word-IsWord : (c : MipsCpu) (a : ℕ) → IsWord (guest_word c a)
guest_word-IsWord c a = omega arith

guest_byte-IsWord : (c : MipsCpu) (a : ℕ) → IsWord (guest_byte c a)
guest_byte-IsWord c a = omega arith

guest_half-IsWord : (c : MipsCpu) (a : ℕ) → IsWord (guest_half c a)
guest_half-IsWord c a = omega arith

read-Value :
    {c : MipsCpu} (b : Bool) {v : ℕ}
    → IsWord v
    → Value c (if b then done v c else thrown Exception.address c)
read-Value true w = value _ w
read-Value false w = fault Exception.address tt

module _ {c : MipsCpu} (safe : IsSafe c) (a : ℕ) where
  Inside-byte : accessible c a 1 ≡ true → Inside c (word_of a)
  Inside-byte h = ground (arith, safe.whole_words)

  Inside-half : accessible c a 2 ≡ true → Inside c (word_of a)
  Inside-half h = ground (arith, safe.whole_words)

  Inside-word : accessible c a 4 ≡ true → Inside c a
  Inside-word h = ground (arith, safe.whole_words)

rt : {c : MipsCpu} → IsWellFormed c → (insn : ℕ) → IsWord (c.ur (f_rt insn))
rt wf insn = wf.registers.words (f_rt insn)

module _ {P : Type 0} {c : MipsCpu} (wf : IsWellFormed c) where
  store-Effect :
      (b : Bool) (a w : ℕ)
      → (b ≡ true → IsWord w)
      → (b ≡ true → Inside c a)
      → Effect P c (if b then done tt (stored c a w) else thrown Exception.address c)
  store-Effect true a w h i = memory a w (h refl) (i refl)
  store-Effect false a w h i = fault Exception.address tt

  poke_uw-Effect : (a w : ℕ) → IsWord a → IsWord w → Effect P c (mips_poke_uw a w c)
  poke_uw-Effect a w ha hw =
      rw (mips_poke_uw-stored wf.safe a w ha)
        (store-Effect (accessible c a 4) a w (λ _. hw) (Inside-word wf.safe a))

  poke_ub-Effect : (a v : ℕ) → IsWord a → Effect P c (mips_poke_ub a v c)
  poke_ub-Effect a v ha = rw (mips_poke_ub-stored wf.safe a v ha) (
      store-Effect (accessible c a 1) (word_of a) _
        (λ _.
          byte_word-IsWord _ (a % 4) v (wf.safe.access.peek-IsWord c.base (word_of a) wf.safe.bytes)
            (omega arith))
        (Inside-byte wf.safe a))

  poke_uh-Effect : (a v : ℕ) → IsWord a → Effect P c (mips_poke_uh a v c)
  poke_uh-Effect a v ha = rw (mips_poke_uh-stored wf.safe a v ha) (
      store-Effect (accessible c a 2) (word_of a) _
        (λ h.
          half_word-IsWord _ (a % 4) v (wf.safe.access.peek-IsWord c.base (word_of a) wf.safe.bytes)
            (omega arith) (even h))
        (Inside-half wf.safe a))
    where
      even : accessible c a 2 ≡ true → a % 4 % 2 ≡ 0
      even h = ground arith

  -- A word is loaded, and `k` goes on with it.
  peek_uw-Effect :
      (a : ℕ) (k : ℕ → Command (Unit {0}))
      → IsWord a
      → ((v : ℕ) → IsWord v → Effect P c (k v c))
      → Effect P c (and_then (mips_peek_uw a c) k)
  peek_uw-Effect a k ha rest = elim (Bool-cases (accessible c a 4)) [
    | inl e ↦
        rw (mips_peek_uw-guest_word c a wf.safe ha, e)
          (rest (guest_word c a) (guest_word-IsWord c a))
    | inr e ↦ rw (mips_peek_uw-guest_word c a wf.safe ha, e) (fault Exception.address tt)
  ]

  -- SWL and SWR load only where a part of the old word is kept.
  optional_peek-Effect :
      (b : Bool) (a : ℕ) (k : ℕ → Command (Unit {0}))
      → IsWord a
      → ((v : ℕ) → IsWord v → Effect P c (k v c))
      → Effect P c (and_then ((if b then pure 0 else mips_peek_uw a) c) k)
  optional_peek-Effect true a k ha rest = rest 0 (omega arith)
  optional_peek-Effect false a k ha rest = peek_uw-Effect a k ha rest

  pub load_store_switch-Effect :
      (insn : ℕ) (op : Opcode) (ea : ℕ)
      → group op ≡ Group.load_store
      → IsWord ea
      → Effect P c (load_store_switch insn op ea c)
  unfolding load_store_switch
  load_store_switch-Effect insn lb ea g h =
      rw (mips_peek_sb-guest_byte c ea wf.safe h)
        (write_reg-Effect wf (f_rt insn) (read-Value (accessible c ea 1) (pattern_of-IsWord _)))
  load_store_switch-Effect insn lbu ea g h =
      rw (mips_peek_ub-guest_byte c ea wf.safe h)
        (write_reg-Effect wf (f_rt insn) (read-Value (accessible c ea 1) (guest_byte-IsWord c ea)))
  load_store_switch-Effect insn lh ea g h =
      rw (mips_peek_sh-guest_half c ea wf.safe h)
        (write_reg-Effect wf (f_rt insn) (read-Value (accessible c ea 2) (pattern_of-IsWord _)))
  load_store_switch-Effect insn lhu ea g h =
      rw (mips_peek_uh-guest_half c ea wf.safe h)
        (write_reg-Effect wf (f_rt insn) (read-Value (accessible c ea 2) (guest_half-IsWord c ea)))
  load_store_switch-Effect insn lw ea g h =
      rw (mips_peek_uw-guest_word c ea wf.safe h)
        (write_reg-Effect wf (f_rt insn) (read-Value (accessible c ea 4) (guest_word-IsWord c ea)))
  load_store_switch-Effect insn sb ea g h = poke_ub-Effect ea (c.ur (f_rt insn)) h
  load_store_switch-Effect insn sh ea g h = poke_uh-Effect ea (c.ur (f_rt insn)) h
  load_store_switch-Effect insn sw ea g h = poke_uw-Effect ea (c.ur (f_rt insn)) h (rt wf insn)
  load_store_switch-Effect insn lui ea g h =
      throw_if-Effect wf (not (f_rs insn == 0)) Exception.invalid
        (λ _ c. write_reg (f_rt insn) (done (z_imm insn << 16)) c) tt
        (write_reg-Effect wf (f_rt insn) (value _ (u32-IsWord _)))
  load_store_switch-Effect insn lwl ea g h =
      peek_uw-Effect (sub32 ea (bit_and ea 3))
        (λ w c. write_reg (f_rt insn) (done (lwl_word (bit_and ea 3) w (c.ur (f_rt insn)))) c)
        (u32-IsWord _)
        λ v hv.
          write_reg-Effect wf (f_rt insn)
            (value _ (lwl_word-IsWord (bit_and ea 3) v (c.ur (f_rt insn)) hv (rt wf insn)))
  load_store_switch-Effect insn lwr ea g h =
      peek_uw-Effect (sub32 ea (bit_and ea 3))
        (λ w c. write_reg (f_rt insn) (done (lwr_word (bit_and ea 3) w (c.ur (f_rt insn)))) c)
        (u32-IsWord _)
        λ v hv.
          write_reg-Effect wf (f_rt insn)
            (value _ (lwr_word-IsWord (bit_and ea 3) v (c.ur (f_rt insn)) hv (rt wf insn)))
  load_store_switch-Effect insn swl ea g h =
      optional_peek-Effect (bit_and ea 3 == 3) (sub32 ea (bit_and ea 3))
        (λ w c.
          mips_poke_uw (sub32 ea (bit_and ea 3)) (swl_word (bit_and ea 3) w (c.ur (f_rt insn))) c)
        (u32-IsWord _)
        λ v hv.
          poke_uw-Effect _ _ (u32-IsWord _)
            (swl_word-IsWord (bit_and ea 3) v (c.ur (f_rt insn)) hv (rt wf insn))
  load_store_switch-Effect insn swr ea g h =
      optional_peek-Effect (bit_and ea 3 == 0) (sub32 ea (bit_and ea 3))
        (λ w c.
          mips_poke_uw (sub32 ea (bit_and ea 3)) (swr_word (bit_and ea 3) w (c.ur (f_rt insn))) c)
        (u32-IsWord _)
        λ v hv.
          poke_uw-Effect _ _ (u32-IsWord _)
            (swr_word-IsWord (bit_and ea 3) v (c.ur (f_rt insn)) hv (rt wf insn))
  load_store_switch-Effect insn _ ea g h = cc

  pub do_loadstore-Effect :
      (insn : ℕ) (op : Opcode) → group op ≡ Group.load_store → Effect P c (do_loadstore insn op c)
  unfolding do_loadstore
  do_loadstore-Effect insn op g = load_store_switch-Effect insn op _ g (u32-IsWord _)
