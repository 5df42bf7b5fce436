-- ===== src/Execute/Safety.antt =====
-- What holds of every run of `mips_execute` of vm/cpuemu.c from a well-formed state.
use cspim.Base.{ℕ, ◌+◌, ◌≤◌, ◌<◌, ◌≡◌, ◌≢◌, refl, ◌⊎◌, arith, IsWord, u32, Option, none, some}
use cspim.Cpu.{MipsCpu, Exception, Outcome, lowbase}
use cspim.Memory.Checked.{IsSafe, Inside}
use cspim.Memory.Store.{stored, stored-IsSafe}
use cspim.Execute.{execute_body, mips_execute, caught}
use cspim.Execute.Effect.{IsRegisters, IsWellFormed, IsFault}
use cspim.Execute.Step.{
  Step, next, delayed, next_store, delayed_store, jump, fault, crash, NextOverflows,
  execute_body-Step,
}

-- The bytes of the block that no program may touch: the CPU state, and what lies behind the end.
abbrev pub IsForbidden : MipsCpu → ℕ → Type 0
IsForbidden c j = (j < lowbase) ⊎ (c.memsz ≤ j)

-- What an instruction must leave alone.
pub record IsIsolated (c c' : MipsCpu) : Type 0 where
  pub forbidden : (j : ℕ) → IsForbidden c j → c'.base j ≡ c.base j
  pub same_size : (c'.memsz ≡ c.memsz) × (c'.stksz ≡ c.stksz) × (c'.brk ≡ c.brk)
  pub same_image : (c'.elf ≡ c.elf) × (c'.elfsz ≡ c.elfsz)
  pub same_access : (c'.peek_uw ≡ c.peek_uw) × (c'.poke_uw ≡ c.poke_uw)
  pub same_fds : c'.fds ≡ c.fds

-- The verdict on one run: the exception and the state that it ends with.
pub record Verdict (c : MipsCpu) (e : Exception) (c' : MipsCpu) : Type 0 where
  pub well_formed : IsWellFormed c'
  pub isolated : IsIsolated c c'
  pub on_error : e ≢ Exception.ok → c' ≡ c
  pub no_abort : e ≢ Exception.abort

abbrev pub Judged : MipsCpu → Option (Exception × MipsCpu) → Type 0
Judged c none = NextOverflows c
Judged c (some (e, c')) = Verdict c e c'

-- The registers of the CPU may be given anew.
pub with_registers :
    {c : MipsCpu} (ur : ℕ → ℕ) (hi lo pc ds : ℕ)
    → IsSafe c
    → IsRegisters ur
    → (IsWord hi × IsWord lo × IsWord pc × IsWord ds)
    → IsWellFormed (record c { ur = ur; hi = hi; lo = lo; pc = pc; delay_slot = ds })
with_registers ur hi lo pc ds s r w = record {
  safe = record {
    access = s.access;
    bytes = s.bytes;
    whole_words = s.whole_words;
    address_space = s.address_space;
  };
  registers = r;
  hi_word = w.0;
  lo_word = w.1;
  pc_word = w.2;
  delay_slot_word = w.3;
}

module _ {c : MipsCpu} (wf : IsWellFormed c) where
  faults_only : (e : Exception) → IsFault e → e ≢ Exception.abort
  faults_only Exception.abort h = absurd h
  faults_only _ h = λ p. cc

  untouched : IsIsolated c c
  untouched = record {
    forbidden = λ j h. refl;
    same_size = (refl, refl, refl);
    same_image = (refl, refl);
    same_access = (refl, refl);
    same_fds = refl;
  }

  plain : (c' : MipsCpu) → IsWellFormed c' → IsIsolated c c' → Verdict c Exception.ok c'
  plain c' w i = record {
    well_formed = w;
    isolated = i;
    on_error = λ h. absurd (h refl);
    no_abort = λ e. cc;
  }

  store-IsIsolated : (a w : ℕ) → Inside c a → IsIsolated c (stored c a w)
  store-IsIsolated a w (aligned, low, high) = record {
    forbidden = λ j h. wf.safe.access.poke_outside c.base a w j (away j h);
    same_size = (refl, refl, refl);
    same_image = (refl, refl);
    same_access = (refl, refl);
    same_fds = refl;
  }
    where
      away : (j : ℕ) → IsForbidden c j → (j < a) ⊎ (a + 4 ≤ j)
      away j h = grind arith

  -- Only registers are given anew.
  moved :
      (ur : ℕ → ℕ) (hi lo pc ds : ℕ)
      → IsIsolated c (record c { ur = ur; hi = hi; lo = lo; pc = pc; delay_slot = ds })
  moved ur hi lo pc ds = record {
    forbidden = λ j h. refl;
    same_size = (refl, refl, refl);
    same_image = (refl, refl);
    same_access = (refl, refl);
    same_fds = refl;
  }

  relocated :
      (a w pc ds : ℕ)
      → Inside c a
      → IsIsolated c (record (stored c a w) { pc = pc; delay_slot = ds })
  relocated a w pc ds h =
      let i = store-IsIsolated a w h in
      record {
        forbidden = i.forbidden;
        same_size = i.same_size;
        same_image = i.same_image;
        same_access = i.same_access;
        same_fds = i.same_fds;
      }

  judge : (o : Outcome (Unit {0})) → Step c o → Judged c (caught o)
  judge o (next ur hi lo r h l e) =
      plain _
        (with_registers ur hi lo (u32 (c.pc + 4)) c.delay_slot wf.safe r
          (h, l, omega arith, wf.delay_slot_word))
        (moved ur hi lo (u32 (c.pc + 4)) c.delay_slot)
  judge o (delayed ur hi lo r h l e) =
      plain _ (with_registers ur hi lo c.pc 0 wf.safe r (h, l, wf.pc_word, omega arith))
        (moved ur hi lo c.pc 0)
  judge o (next_store a w h i e) =
      plain _
        (with_registers c.ur c.hi c.lo (u32 (c.pc + 4)) c.delay_slot (stored-IsSafe wf.safe a w h)
          wf.registers (wf.hi_word, wf.lo_word, omega arith, wf.delay_slot_word))
        (relocated a w (u32 (c.pc + 4)) c.delay_slot i)
  judge o (delayed_store a w h i e) =
      plain _
        (with_registers c.ur c.hi c.lo c.pc 0 (stored-IsSafe wf.safe a w h) wf.registers
          (wf.hi_word, wf.lo_word, wf.pc_word, omega arith))
        (relocated a w c.pc 0 i)
  judge o (jump ur npc r h e i) =
      plain _
        (with_registers ur c.hi c.lo npc (c.pc + 4) wf.safe r
          (wf.hi_word, wf.lo_word, h, omega (arith, wf.safe.address_space)))
        (moved ur c.hi c.lo npc (c.pc + 4))
  judge o (fault e h) = record {
    well_formed = wf;
    isolated = untouched;
    on_error = λ _. refl;
    no_abort = faults_only e h;
  }
  judge o (crash h) = h

  -- The verdict on the result of `mips_execute`.
  pub mips_execute-Judged : Judged c (mips_execute c)
  unfolding mips_execute
  mips_execute-Judged = judge (execute_body c) (execute_body-Step wf)

module _ {c : MipsCpu} (wf : IsWellFormed c) {e : Exception} {c' : MipsCpu}
    (runs : mips_execute c ≡ some (e, c')) where
  verdict : Verdict c e c'
  verdict = rw runs at (mips_execute-Judged wf)

  -- Mips_execute keeps a state well-formed: registers, counters and memory cells hold values of
  -- their widths, $0 holds 0, and the access functions and the memory size stay sound.
  pub mips_execute-IsWellFormed : IsWellFormed c'
  mips_execute-IsWellFormed = verdict.well_formed

  -- From a well-formed state, one call of mips_execute changes no byte of the memory block below
  -- MIPS_LOWBASE (the CPU state) or behind its end, and leaves the sizes, the break, the ELF
  -- image, the access functions and the descriptors as they are.
  pub mips_execute-IsIsolated : IsIsolated c c'
  mips_execute-IsIsolated = verdict.isolated

  -- From a well-formed state, if mips_execute returns an exception, the state is the one from
  -- before the call.
  pub mips_execute_unchanged : e ≢ Exception.ok → c' ≡ c
  mips_execute_unchanged = verdict.on_error

  -- From a well-formed state, mips_execute never returns MIPS_E_ABORT, the internal error of the
  -- emulator.
  pub mips_execute-ne-abort : e ≢ Exception.abort
  mips_execute-ne-abort = verdict.no_abort

-- From a well-formed state, mips_execute runs into behaviour that C leaves undefined only if the
-- next instruction divides the least integer by -1; in particular it accesses nothing outside its
-- block.
pub mips_execute_defined : {c : MipsCpu} → IsWellFormed c → mips_execute c ≡ none → NextOverflows c
mips_execute_defined wf h = rw h at (mips_execute-Judged wf)
