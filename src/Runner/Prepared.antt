-- ===== src/Runner/Prepared.antt =====
-- A program that `prepare_cpu` of hostapps/util.c has prepared, plain or encrypted, and its runs.
use cspim.Base.{ℕ, ◌+◌, ◌≤◌, ◌≡◌, ◌≢◌, ◌∙◌, inl, inr, Option, none, some, IsByte}
use cspim.Cpu.{MipsCpu, Exception, Memory, Outcome}
use cspim.Execute.Effect.{IsWellFormed}
use cspim.Execute.Safety.{IsForbidden}
use cspim.Elf.Load.{mips_elf_load}
use cspim.Elf.Boot.{InProgram, Started, given, mips_elf_load-LoadResult, LoadResult}
use cspim.Elf.Copying.{Loading}
use cspim.Elf.Ensures.{AllOf, IsImage, Ensures, returns, jumps, breaks}
use cspim.Rc5.{rc5_setup, rc5_peek, rc5_poke}
use cspim.Rc5.Schedule.{rc5_setup-IsTable}
use cspim.Rc5.Encrypted.{rc5-IsAccess}
use cspim.Runner.{
  run, rc5_convert_key, AscKey, with_key, install_key, prepare_cpu, loaded, load_into,
  with_converted,
}
use cspim.Runner.Runs.{Overflowing, RunJudged, run-RunJudged}

with_key-IsWellFormed :
    {c : MipsCpu} (key : ℕ → ℕ) → IsWellFormed c → IsWellFormed (with_key (rc5_setup key) c)
with_key-IsWellFormed key wf = record {
  safe = record {
    access = rc5-IsAccess (rc5_setup key) (rc5_setup-IsTable key);
    bytes = wf.safe.bytes;
    whole_words = wf.safe.whole_words;
    address_space = wf.safe.address_space;
  };
  registers = wf.registers;
  hi_word = wf.hi_word;
  lo_word = wf.lo_word;
  pc_word = wf.pc_word;
  delay_slot_word = wf.delay_slot_word;
}

-- A state that a program starts in, prepared from `c`.
pub record Prepared (c c' : MipsCpu) : Type 0 where
  pub well_formed : IsWellFormed c'
  pub forbidden : (j : ℕ) → IsForbidden c j → c'.base j ≡ c.base j
  pub entry_point : InProgram c c'.pc
  pub stack_pointer : c'.ur 29 + 4 ≡ c.memsz
  pub same_size : (c'.memsz ≡ c.memsz) × (c'.stksz ≡ c.stksz)
  pub break_start : InProgram c c'.brk
  pub same_fds : c'.fds ≡ c.fds
  pub same_image : (c'.elf ≡ c.elf) × (c'.elfsz ≡ c.elfsz)
  pub image : IsImage c'

-- The state behind a result of `prepare_cpu`.
abbrev pub Ready : MipsCpu → Option (Unit {0}) → MipsCpu → Type 0
Ready c r c' = AllOf (λ _. Prepared c c') r

-- The state with other functions for the access to the memory.
abbrev keyed : (Memory → ℕ → ℕ) → (Memory → ℕ → ℕ → Memory) → MipsCpu → MipsCpu
keyed peek poke c = record c { peek_uw = peek; poke_uw = poke }

module _ (elf : ℕ → ℕ) (elfsz : ℕ) (c : MipsCpu) (bytes : (j : ℕ) → IsByte (elf j))
    (fits : c.stksz ≤ c.memsz) (stack : 4 ≤ c.memsz) where
  -- The program is loaded into `c` with other functions for the access to the memory.
  module _ (peek : Memory → ℕ → ℕ) (poke : Memory → ℕ → ℕ → Memory) where
    started :
        {c' : MipsCpu}
        → Started (given elf elfsz (keyed peek poke c)) c'
        → Prepared (given elf elfsz c) c'
    started s = record {
      well_formed = s.well_formed;
      forbidden = s.forbidden;
      entry_point = s.entry_point;
      stack_pointer = s.stack_pointer;
      same_size = s.same_size;
      break_start = s.break_start;
      same_fds = s.same_fds;
      same_image = s.same_image;
      image = s.image;
    }

    loaded-Ready :
        {o : Outcome ℕ}
        → Ensures
            (LoadResult (given elf elfsz (keyed peek poke c)))
            (Loading (given elf elfsz (keyed peek poke c)))
            o
        → Ensures (Ready (given elf elfsz c)) (λ _. Unit {0}) (loaded o)
    loaded-Ready (returns a c1 (inl (e, s))) = rw e (returns (some tt) c1 (started s))
    loaded-Ready (returns a c1 (inr (e, l))) = rw e (returns none c1 tt)
    loaded-Ready (jumps x c1 r) = jumps x c1 tt
    loaded-Ready breaks = breaks

    mips_elf_load-Ready :
        IsWellFormed (keyed peek poke c)
        → Ensures
            (Ready (given elf elfsz c))
            (λ _. Unit {0})
            (loaded (mips_elf_load elf elfsz (keyed peek poke c)))
    mips_elf_load-Ready wf = loaded-Ready (mips_elf_load-LoadResult elf elfsz wf bytes fits stack)

  with_converted-Ready :
      (key : Option (ℕ → ℕ))
      → IsWellFormed c
      → Ensures
          (Ready (given elf elfsz c))
          (λ _. Unit {0})
          (load_into elf elfsz c (with_converted key c))
  with_converted-Ready none wf = returns none c tt
  with_converted-Ready (some key) wf =
      mips_elf_load-Ready (rc5_peek (rc5_setup key)) (rc5_poke (rc5_setup key))
        (with_key-IsWellFormed key wf)

  -- For a well-formed CPU whose memory holds its stack and at least one word, any bytes as the
  -- image and any text as the key: if prepare_cpu does not exit, it leaves a well-formed state
  -- whose entry point lies in the part of the memory below the stack, with $sp at the last word,
  -- the sizes as they were, the image in place, and no byte changed below MIPS_LOWBASE or behind
  -- the end, where the loader does not jump out of it and C defines what it does.
  pub prepare_cpu-Ready :
      (asckey : Option AscKey)
      → IsWellFormed c
      → Ensures (Ready (given elf elfsz c)) (λ _. Unit {0}) (prepare_cpu elf elfsz asckey c)
  unfolding prepare_cpu install_key
  prepare_cpu-Ready none wf = mips_elf_load-Ready c.peek_uw c.poke_uw wf
  prepare_cpu-Ready (some (hex_length, scan)) wf =
      with_converted-Ready (rc5_convert_key hex_length scan (λ _. 0)) wf

-- A run of the program in `c1` has left alone what no program may touch in `c`, before it was loaded.
abbrev pub LeftAlone : MipsCpu → MipsCpu → Option (Exception × MipsCpu) → Type 0
LeftAlone c c1 none = Overflowing c1
LeftAlone c c1 (some (e, c')) =
    IsWellFormed c' × ((j : ℕ) → IsForbidden c j → c'.base j ≡ c.base j) × (e ≢ Exception.abort)

left_alone :
    {c c1 : MipsCpu} (o : Option (Exception × MipsCpu))
    → Prepared c c1
    → RunJudged c1 o
    → LeftAlone c c1 o
left_alone none p r = r
left_alone (some (e, c')) p r = (
  r.well_formed,
  (λ j h. r.isolated.forbidden j (rw p.same_size.0 h) ∙ p.forbidden j h),
  r.no_abort,
)

Ready-run :
    {c : MipsCpu} (n : ℕ) {o : Outcome (Option (Unit {0}))}
    → Ensures (Ready c) (λ _. Unit {0}) o
    → Ensures (λ r c1. AllOf (λ _. LeftAlone c c1 (run n c1)) r) (λ _. Unit {0}) o
Ready-run n (returns none c1 h) = returns none c1 tt
Ready-run n (returns (some a) c1 h) =
    returns (some a) c1 (left_alone (run n c1) h (run-RunJudged n c1 h.well_formed))
Ready-run n (jumps e c1 h) = jumps e c1 h
Ready-run n breaks = breaks

-- For a well-formed CPU whose memory holds its stack and at least one word, any bytes as the image
-- and any text as the key: where prepare_cpu returns and has not found an error, then after any
-- number of calls of mips_execute the state is well-formed, no byte below MIPS_LOWBASE or behind
-- the end differs from before the loading, and the result is not MIPS_E_ABORT, or the run has come
-- to a division of the least integer by -1; nothing is claimed where the loader jumps out of
-- prepare_cpu or C leaves undefined what it does.
pub run-prepare_cpu-LeftAlone :
    (elf : ℕ → ℕ) (elfsz : ℕ) {c : MipsCpu}
    → ((j : ℕ) → IsByte (elf j))
    → c.stksz ≤ c.memsz
    → 4 ≤ c.memsz
    → (asckey : Option AscKey) → IsWellFormed c
    → (n : ℕ)
    → Ensures
        (λ r c1. AllOf (λ _. LeftAlone c c1 (run n c1)) r)
        (λ _. Unit {0})
        (prepare_cpu elf elfsz asckey c)
run-prepare_cpu-LeftAlone elf elfsz {c} bytes fits stack asckey wf n =
    Ready-run n (prepare_cpu-Ready elf elfsz c bytes fits stack asckey wf)
