-- ===== src/Execute/Step.antt =====
-- One step of `mips_execute` of vm/cpuemu.c, as a family over its outcomes: the effect of the
-- instruction, and what becomes of the program counter and the delay slot.
use cspim.Base.{
  ℕ, ◌+◌, ◌≤◌, ◌≡◌, ◌≢◌, refl, sym, ap, ◌∙◌, inl, inr, ◌==◌, if◌then◌else◌, Bool, arith, IsWord,
  u32, true, false, Bool-cases, not, eq→==, ne→==, Option, none, some,
}
use cspim.Opcodes.{Opcode, code, special, regimm, div, mips_decode, opcode_of}
use cspim.Opcodes.Decode.{mips_decode-some, IsInstruction}
use cspim.Cpu.{MipsCpu, Command, Exception, Outcome, done, thrown, undefined, and_then}
use cspim.Memory.Checked.{Inside}
use cspim.Memory.View.{guest_word, accessible, mips_peek_uw-guest_word}
use cspim.Memory.Store.{stored}
use cspim.Execute.{do_dispatch, dispatch_code, check_zero, check_opcode, advance, execute_body}
use cspim.Execute.Effect.{IsRegisters, IsWellFormed, IsFault, Effect}
use cspim.Execute.DivMultEffect.{OverflowingDivision}
use cspim.Execute.DispatchEffect.{do_dispatch-Effect}

-- Where the next instruction is fetched, and the instruction.
abbrev pub fetch_address : MipsCpu → ℕ
fetch_address c = if not (c.delay_slot == 0) then c.delay_slot else c.pc

abbrev pub fetched : MipsCpu → ℕ
fetched c = guest_word c (fetch_address c)

-- The next instruction divides the least integer by -1.
pub record NextOverflows (c : MipsCpu) : Type 0 where
  pub is_div : mips_decode (fetched c) ≡ some (code div)
  pub overflows : OverflowingDivision (fetched c) div c

pub data Step (c : MipsCpu) : Outcome (Unit {0}) → Type 0 where
  next :
      (ur : ℕ → ℕ) (hi lo : ℕ)
      → IsRegisters ur
      → IsWord hi
      → IsWord lo
      → c.delay_slot ≡ 0
      → Step c (done tt (record c { ur = ur; hi = hi; lo = lo; pc = u32 (c.pc + 4) }))
  delayed :
      (ur : ℕ → ℕ) (hi lo : ℕ)
      → IsRegisters ur
      → IsWord hi
      → IsWord lo
      → c.delay_slot ≢ 0
      → Step c (done tt (record c { ur = ur; hi = hi; lo = lo; delay_slot = 0 }))
  next_store :
      (a w : ℕ)
      → IsWord w
      → Inside c a
      → c.delay_slot ≡ 0
      → Step c (done tt (record (stored c a w) { pc = u32 (c.pc + 4) }))
  delayed_store :
      (a w : ℕ)
      → IsWord w
      → Inside c a
      → c.delay_slot ≢ 0
      → Step c (done tt (record (stored c a w) { delay_slot = 0 }))
  jump :
      (ur : ℕ → ℕ) (npc : ℕ)
      → IsRegisters ur
      → IsWord npc
      → c.delay_slot ≡ 0
      → c.pc + 4 ≤ c.memsz
      → Step c (done tt (record c { ur = ur; delay_slot = c.pc + 4; pc = npc }))
  fault : (e : Exception) → IsFault e → Step c (thrown e c)
  crash : NextOverflows c → Step c undefined

-- What stands behind the dispatcher in `mips_execute`.
abbrev pub finish : Bool → Unit {0} → Command (Unit {0})
finish fdelay _ c = and_then (check_zero c) (λ _. advance fdelay)

-- What stands behind the decoder in `mips_execute`.
abbrev pub behind_decoder : MipsCpu → ℕ → Command (Unit {0})
behind_decoder c opcode c' =
    and_then (check_zero c')
      (λ _ c''. and_then (dispatch_code (fetched c) opcode c'') (finish (not (c.delay_slot == 0))))

pub dispatch_code-found :
    (c : MipsCpu) (insn n : ℕ) (op : Opcode)
    → opcode_of n ≡ some op
    → dispatch_code insn n c ≡ do_dispatch insn op c
unfolding dispatch_code
dispatch_code-found c insn n op e = rw e

module _ {c : MipsCpu} (wf : IsWellFormed c) where
  pub zero_ok : {ur : ℕ → ℕ} → IsRegisters ur → (ur 0 == 0) ≡ true
  zero_ok r = eq→== _ 0 r.zero_register

  plain-Step :
      (ur : ℕ → ℕ) (hi lo : ℕ)
      → IsRegisters ur
      → IsWord hi
      → IsWord lo
      → Step c (finish (not (c.delay_slot == 0)) tt (record c { ur = ur; hi = hi; lo = lo }))
  unfolding advance
  plain-Step ur hi lo r h l = elim (Bool-cases (c.delay_slot == 0)) [
    | inl e ↦ rw (zero_ok r, e, advance, e) (next ur hi lo r h l (ground arith))
    | inr e ↦ rw (zero_ok r, e) (delayed ur hi lo r h l (ground arith))
  ]

  store-Step :
      (a w : ℕ)
      → IsWord w
      → Inside c a
      → Step c (finish (not (c.delay_slot == 0)) tt (stored c a w))
  unfolding advance
  store-Step a w h i = elim (Bool-cases (c.delay_slot == 0)) [
    | inl e ↦ rw (zero_ok wf.registers, e, advance, e) (next_store a w h i (ground arith))
    | inr e ↦ rw (zero_ok wf.registers, e) (delayed_store a w h i (ground arith))
  ]

  jump-Step :
      (ur : ℕ → ℕ) (npc : ℕ)
      → IsRegisters ur
      → IsWord npc
      → c.delay_slot ≡ 0
      → c.pc + 4 ≤ c.memsz
      → Step c (
          finish
            (not (c.delay_slot == 0))
            tt
            (record c { ur = ur; delay_slot = u32 (c.pc + 4); pc = npc }))
  unfolding advance
  jump-Step ur npc r h e p =
      let same : u32 (c.pc + 4) ≡ c.pc + 4 = omega (arith, wf.safe.address_space) in
      rw (zero_ok r, eq→== c.delay_slot 0 e, same, ne→== (c.pc + 4) 0 (omega arith))
        (jump ur npc r h e p)

  -- An effect of the handler, with what stands behind the dispatcher.
  finish-Step :
      {P : Type 0} (o : Outcome (Unit {0}))
      → (P → NextOverflows c)
      → (c.delay_slot ≡ 0 → c.pc + 4 ≤ c.memsz)
      → Effect P c o
      → Step c (and_then o (finish (not (c.delay_slot == 0))))
  finish-Step o p inside (Effect.registers ur hi lo r h l) = plain-Step ur hi lo r h l
  finish-Step o p inside (Effect.jump ur npc r h e) = jump-Step ur npc r h e (inside e)
  finish-Step o p inside (Effect.memory a w h i) = store-Step a w h i
  finish-Step o p inside (Effect.fault e h) = fault e h
  finish-Step o p inside (Effect.crash q) = crash (p q)

  -- The opcode is dispatched. `n` is its number.
  dispatched-Step :
      (n : ℕ) (op : Opcode)
      → opcode_of n ≡ some op
      → IsInstruction op
      → (OverflowingDivision (fetched c) op c → NextOverflows c)
      → (c.delay_slot ≡ 0 → c.pc + 4 ≤ c.memsz)
      → Step c (and_then (dispatch_code (fetched c) n c) (finish (not (c.delay_slot == 0))))
  dispatched-Step n op found i p inside =
      rw (dispatch_code-found c (fetched c) n op found) (
        finish-Step (do_dispatch (fetched c) op c) p inside
          (do_dispatch-Effect wf (fetched c) op i))

  -- The instruction is decoded; `d` is what the decoder returns.
  decoded-Step :
      (d : Option ℕ)
      → mips_decode (fetched c) ≡ d
      → (c.delay_slot ≡ 0 → c.pc + 4 ≤ c.memsz)
      → Step c (and_then (check_opcode d c) (behind_decoder c))
  unfolding check_opcode
  decoded-Step none e inside = fault Exception.invalid tt
  decoded-Step (some n) e inside =
      let (op, found, large, same) = mips_decode-some (fetched c) n (omega arith) e in
      let q : (n == code special) ≡ false = ne→== n 0 (omega arith) in
      let r : (n == code regimm) ≡ false = ne→== n 1 (omega arith) in
      rw (q, r, zero_ok wf.registers)
        (dispatched-Step n op found (rw same large)
          (λ o. record {
            is_div = e ∙ ap some (sym same ∙ ap code o.is_div);
            overflows = record { is_div = refl; overflows = o.overflows };
          })
          inside)

  -- Every run of `mips_execute` from a well-formed state is one of the steps.
  pub execute_body-Step : Step c (execute_body c)
  unfolding execute_body
  execute_body-Step = elim (Bool-cases (accessible c (fetch_address c) 4)) [
    | inl e ↦
        rw (mips_peek_uw-guest_word c (fetch_address c) wf.safe fetch-IsWord, e)
          (decoded-Step (mips_decode (fetched c)) refl (inside e))
    | inr e ↦
        rw (mips_peek_uw-guest_word c (fetch_address c) wf.safe fetch-IsWord, e)
          (fault Exception.address tt)
  ]
    where
      fetch-IsWord : IsWord (fetch_address c)
      fetch-IsWord = ground (arith, wf.pc_word, wf.delay_slot_word)

      inside : accessible c (fetch_address c) 4 ≡ true → c.delay_slot ≡ 0 → c.pc + 4 ≤ c.memsz
      inside e h = ground (arith, wf.safe.whole_words)
