-- ===== src/Execute/Effect.antt =====
-- What one instruction can do to the state of vm/cpuemu.c's CPU, as a family over the outcomes: the
-- handlers have some sixty cases, and every invariant is proved from the six of this family.
use cspim.Base.{
  ℕ, zero, suc, ◌+◌, ◌≡◌, ◌≢◌, ◌==◌, if◌then◌else◌, Bool, arith, IsWord, u32, true, false, ne→==,
}
use cspim.Base.Int.{ℤ, pos, negsuc, pattern_of}
use cspim.Cpu.{
  MipsCpu, Command, Exception, Outcome, done, thrown, undefined, and_then, set_ur, update, throw_if,
}
use cspim.Memory.Checked.{IsSafe, Inside}
use cspim.Memory.Store.{stored}

-- The registers hold words, and $0 holds 0.
pub record IsRegisters (ur : ℕ → ℕ) : Type 0 where
  pub words : (i : ℕ) → IsWord (ur i)
  pub zero_register : ur 0 ≡ 0

pub record IsWellFormed (c : MipsCpu) : Type 0 where
  pub safe : IsSafe c
  pub registers : IsRegisters c.ur
  pub hi_word : IsWord c.hi
  pub lo_word : IsWord c.lo
  pub pc_word : IsWord c.pc
  pub delay_slot_word : IsWord c.delay_slot

-- An exception that an instruction may raise: not an internal error of the emulator.
abbrev pub IsFault : Exception → Type 0
IsFault Exception.ok = ⊥
IsFault Exception.abort = ⊥
IsFault _ = Unit {0}

-- The outcomes of an instruction in state `c`. `crash` is for a division that C leaves undefined,
-- which takes the condition `P`.
pub data Effect (P : Type 0) (c : MipsCpu) : Outcome (Unit {0}) → Type 0 where
  registers :
      (ur : ℕ → ℕ) (hi lo : ℕ)
      → IsRegisters ur
      → IsWord hi
      → IsWord lo
      → Effect P c (done tt (record c { ur = ur; hi = hi; lo = lo }))
  jump :
      (ur : ℕ → ℕ) (npc : ℕ)
      → IsRegisters ur
      → IsWord npc
      → c.delay_slot ≡ 0
      → Effect P c (done tt (record c { ur = ur; delay_slot = u32 (c.pc + 4); pc = npc }))
  memory : (a w : ℕ) → IsWord w → Inside c a → Effect P c (done tt (stored c a w))
  fault : (e : Exception) → IsFault e → Effect P c (thrown e c)
  crash : P → Effect P c undefined

-- The outcomes of an expression.
pub data Value (c : MipsCpu) : Outcome ℕ → Type 0 where
  value : (v : ℕ) → IsWord v → Value c (done v c)
  fault : (e : Exception) → IsFault e → Value c (thrown e c)

pub set_ur-IsRegisters :
    {ur : ℕ → ℕ} (i v : ℕ) → IsRegisters ur → i ≢ 0 → IsWord v → IsRegisters (update ur i v)
set_ur-IsRegisters i v r ne w = record {
  words = λ k. ground (arith, r.words k);
  zero_register = ground (arith, r.zero_register);
}

module _ {P : Type 0} {c : MipsCpu} (wf : IsWellFormed c) where
  pub unchanged : Effect P c (done tt c)
  unchanged = registers c.ur c.hi c.lo wf.registers wf.hi_word wf.lo_word

  written :
      (r : ℕ) (o : Outcome ℕ)
      → r ≢ 0
      → Value c o
      → Effect P c (and_then o (λ v c'. done tt (set_ur r v c')))
  written r o ne (value v w) =
      registers (update c.ur r v) c.hi c.lo (set_ur-IsRegisters r v wf.registers ne w) wf.hi_word
        wf.lo_word
  written r o ne (fault e h) = fault e h

  -- uW and sW, on the outcome `o` of the expression.
  pub write_reg-Effect :
      (r : ℕ) {o : Outcome ℕ}
      → Value c o
      → Effect P c (if r == 0 then done tt c else and_then o (λ v c'. done tt (set_ur r v c')))
  write_reg-Effect zero v = unchanged
  write_reg-Effect (suc r) {o} v =
      rw (ne→== (suc r) 0 (omega arith)) (written (suc r) o (omega arith) v)

  pub throw_if-Effect :
      (b : Bool) (e : Exception) (k : Unit {0} → Command (Unit {0}))
      → IsFault e
      → Effect P c (k tt c)
      → Effect P c (and_then (throw_if b e c) k)
  throw_if-Effect true e k h s = fault e h
  throw_if-Effect false e k h s = s

pub pattern_of-IsWord : (z : ℤ) → IsWord (pattern_of 32 z)
pattern_of-IsWord (pos n) = omega arith
pattern_of-IsWord (negsuc n) = omega arith
