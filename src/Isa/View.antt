-- ===== src/Isa/View.antt =====
-- The machine of the specification that a state of vm/cpuemu.c stands for, and the family that
-- relates the outcome of a handler to the action that the instruction denotes: the handlers have
-- some sixty cases, and the step is proved once for the eight of this family.
use cspim.Base.{
  ℕ, ◌+◌, ◌≡◌, ◌≢◌, refl, inl, inr, ◌==◌, if◌then◌else◌, true, false, Bool-cases, not, u32, Option,
  none, some, arith,
}
use cspim.Cpu.{
  MipsCpu, Exception, Outcome, done, thrown, undefined, Command, and_then, set_ur, throw_if,
}
use cspim.Memory.View.{guest_byte}
use cspim.Memory.Flat.{with_base}
use cspim.Isa.{
  Machine, Computed, gives, faults, Action, write, write_hi_lo, store, transfer, trap, unspecified,
  expect_zero,
}
use cspim.Isa.Meaning.{Result, steps, traps, unpredictable}

-- With a delay slot the next instruction is there, and `pc` is where the jump goes.
abbrev pub view : MipsCpu → Machine
view c = record {
  reg = c.ur;
  hi = c.hi;
  lo = c.lo;
  pc = if c.delay_slot == 0 then c.pc else c.delay_slot;
  npc = if c.delay_slot == 0 then u32 (c.pc + 4) else c.pc;
  in_slot = not (c.delay_slot == 0);
  mem = guest_byte c;
}

-- What `mips_execute` returns, as a result of the specification.
abbrev pub shown : Option (Exception × MipsCpu) → Result
shown none = unpredictable
shown (some (Exception.ok, c)) = steps (view c)
shown (some (e, c)) = traps e (view c)

abbrev pub IsTrap : Exception → Type 0
IsTrap Exception.ok = ⊥
IsTrap _ = Unit {0}

pub data Yields (c : MipsCpu) : Computed → Outcome ℕ → Type 0 where
  value : (v : ℕ) → Yields c (gives v) (done v c)
  fault : (e : Exception) → IsTrap e → Yields c (faults e) (thrown e c)

pub data Does (c : MipsCpu) : Action → Outcome (Unit {0}) → Type 0 where
  skipped : (x : Computed) → Does c (write 0 x) (done tt c)
  written : (r v : ℕ) → r ≢ 0 → Does c (write r (gives v)) (done tt (set_ur r v c))
  faulted : (r : ℕ) (e : Exception) → r ≢ 0 → IsTrap e → Does c (write r (faults e)) (thrown e c)
  hi_lo : (h l : ℕ) → Does c (write_hi_lo h l) (done tt (record c { hi = h; lo = l }))
  stored :
      (base mem : ℕ → ℕ)
      → ((k : ℕ) → guest_byte (with_base c base) k ≡ mem k)
      → Does c (store true mem) (done tt (with_base c base))
  refused : (mem : ℕ → ℕ) → Does c (store false mem) (thrown Exception.address c)
  stays :
      (ur : ℕ → ℕ)
      → ur 0 ≡ 0
      → c.delay_slot ≡ 0
      → Does c (transfer ur none) (done tt (record c { ur = ur }))
  goes :
      (ur : ℕ → ℕ) (target : ℕ)
      → ur 0 ≡ 0
      → c.delay_slot ≡ 0
      → Does c
          (transfer ur (some target))
          (done tt (record c { ur = ur; delay_slot = u32 (c.pc + 4); pc = target }))
  slot :
      (ur : ℕ → ℕ) (target : Option ℕ)
      → c.delay_slot ≢ 0
      → Does c (transfer ur target) (thrown Exception.invalid c)
  trapped : (e : Exception) → IsTrap e → Does c (trap e) (thrown e c)
  crashed : Does c unspecified undefined

module _ {c : MipsCpu} where
  -- uW and sW, on the outcome of the expression.
  pub write_reg-Does :
      (r : ℕ) {x : Computed} {o : Outcome ℕ}
      → Yields c x o
      → Does c
          (write r x)
          (if r == 0 then done tt c else and_then o (λ v c'. done tt (set_ur r v c')))
  write_reg-Does r {x} {o} y = elim (Bool-cases (r == 0)) [
    | inl e ↦ let same : r ≡ 0 = ground arith in rw (e, same) (skipped x)
    | inr e ↦ rw e (chosen y (ground arith))
  ]
    where
      chosen :
          {x : Computed} {o : Outcome ℕ}
          → Yields c x o
          → r ≢ 0
          → Does c (write r x) (and_then o (λ v c'. done tt (set_ur r v c')))
      chosen (value v) ne = written r v ne
      chosen (fault e t) ne = faulted r e ne t

  -- The macros Z_, on the number that must be 0.
  pub expect_zero-Does :
      (n : ℕ) (a : Action) (k : Unit {0} → Command (Unit {0}))
      → Does c a (k tt c)
      → Does c (expect_zero n a) (and_then (throw_if (not (n == 0)) Exception.invalid c) k)
  expect_zero-Does n a k d = elim (Bool-cases (n == 0)) [
    | inl e ↦ rw e d
    | inr e ↦ rw e (trapped Exception.invalid tt)
  ]

pub shown-thrown : (c : MipsCpu) (e : Exception) → IsTrap e → shown (some (e, c)) ≡ traps e (view c)
shown-thrown c Exception.ok h = absurd h
shown-thrown c _ h = refl
