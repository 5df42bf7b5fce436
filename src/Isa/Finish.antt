-- ===== src/Isa/Finish.antt =====
-- What stands behind the dispatcher in `mips_execute` of vm/cpuemu.c retires the instruction as the
-- specification does.
use cspim.Base.{
  ℕ, ◌+◌, ◌≤◌, ◌≡◌, ◌≢◌, refl, ap, ◌∙◌, inl, inr, ◌==◌, true, false, Bool-cases, not, u32, fun_ext,
  some, arith, eq→==, ne→==,
}
use cspim.Cpu.{MipsCpu, Outcome, and_then, set_ur, update}
use cspim.Memory.Flat.{with_base}
use cspim.Execute.{caught, advance}
use cspim.Execute.Effect.{IsWellFormed}
use cspim.Execute.Step.{finish}
use cspim.Isa.{Action, transfer}
use cspim.Isa.Meaning.{steps, retire, perform}
use cspim.Isa.View.{
  view, shown, shown-thrown, Does, skipped, written, faulted, hi_lo, stored, refused, stays, goes,
  slot, trapped, crashed,
}

-- An instruction that does not jump, from the state `c'` that its handler leaves.
retired :
    (c c' : MipsCpu)
    → c'.delay_slot ≡ c.delay_slot
    → c'.ur 0 ≡ 0
    → shown (caught (finish (not (c.delay_slot == 0)) tt c')) ≡ steps (retire (view c'))
unfolding advance
retired c c' same zero_register = elim (Bool-cases (c.delay_slot == 0)) [
  | inl e ↦
      let slot : (c'.delay_slot == 0) ≡ true = ground arith in
      rw (eq→== (c'.ur 0) 0 zero_register, e, advance, slot, slot) refl
  | inr e ↦
      let slot : (c'.delay_slot == 0) ≡ false = ground arith in
      rw (eq→== (c'.ur 0) 0 zero_register, e, slot) refl
]

module _ {c : MipsCpu} (wf : IsWellFormed c) where
  write-zero : (r v : ℕ) → r ≢ 0 → update c.ur r v 0 ≡ 0
  write-zero r v ne = ground (arith, wf.registers.zero_register)

  jumped :
      (ur : ℕ → ℕ) (target : ℕ)
      → ur 0 ≡ 0
      → c.delay_slot ≡ 0
      → c.pc + 4 ≤ c.memsz
      → shown (
          caught (
            finish
              (not (c.delay_slot == 0))
              tt
              (record c { ur = ur; delay_slot = u32 (c.pc + 4); pc = target })))
        ≡ perform (transfer ur (some target)) (view c)
  unfolding perform advance
  jumped ur target zero_register e p =
      let same : u32 (c.pc + 4) ≡ c.pc + 4 = omega (arith, wf.safe.address_space) in
      let ne : (c.pc + 4 == 0) ≡ false = ne→== (c.pc + 4) 0 (omega arith) in
      rw (eq→== (ur 0) 0 zero_register, eq→== c.delay_slot 0 e, same, ne, view, ne) refl

  -- The step of the specification, from what the handler has done.
  pub finish-perform :
      {a : Action} {o : Outcome (Unit {0})}
      → (c.delay_slot ≡ 0 → c.pc + 4 ≤ c.memsz)
      → Does c a o
      → shown (caught (and_then o (finish (not (c.delay_slot == 0))))) ≡ perform a (view c)
  unfolding perform
  finish-perform inside (skipped x) = retired c c refl wf.registers.zero_register
  finish-perform inside (written r v ne) =
      rw (ne→== r 0 ne) (retired c (set_ur r v c) refl (write-zero r v ne))
  finish-perform inside (faulted r e ne t) = rw (ne→== r 0 ne) (shown-thrown c e t)
  finish-perform inside (hi_lo h l) =
      retired c (record c { hi = h; lo = l }) refl wf.registers.zero_register
  finish-perform inside (stored base mem same) =
      retired c (with_base c base) refl wf.registers.zero_register
      ∙ ap (λ (m : ℕ → ℕ). steps (record (retire (view c)) { mem = m })) (fun_ext same)
  finish-perform inside (refused mem) = refl
  finish-perform inside (stays ur zero_register e) =
      retired c (record c { ur = ur }) refl zero_register ∙ rw (eq→== c.delay_slot 0 e) refl
  finish-perform inside (goes ur target zero_register e) =
      jumped ur target zero_register e (inside e)
  finish-perform inside (slot ur target ne) = rw (ne→== c.delay_slot 0 ne) refl
  finish-perform inside (trapped e t) = shown-thrown c e t
  finish-perform inside crashed = refl
