-- ===== src/Runner/Nested.antt =====
-- What holds of every run of mipsapps/run-lvl1.c, the simulator inside the simulator.
use cspim.Base.{
  ℕ, zero, suc, ◌+◌, ◌≡◌, ◌≢◌, ◌⊎◌, inl, inr, refl, if◌then◌else◌, ◌==◌, Bool, false, Bool-cases,
  Option, none, some, List, [], ◌∷◌, arith, IsByte,
}
use cspim.Elf.Boot.{given}
use cspim.Cpu.{
  minus_one, Memory, MipsCpu, Exception, Outcome, done, thrown, undefined, mips_init_cpu, Command,
}
use cspim.Memory.Access.{IsMemory, identity-IsAccess}
use cspim.Execute.{mips_execute}
use cspim.Execute.Effect.{IsWellFormed}
use cspim.Execute.Safety.{Judged, IsIsolated, mips_execute-Judged}
use cspim.Elf.Ensures.{
  Ensures, returns, IsImage, OnlyLooks, looks_at, crashes, and_then-Looks, null_check-Looks,
  read_byte-Looks,
}
use cspim.Syscalls.{is_negative}
use cspim.Runner.{prepare_cpu, loaded}
use cspim.Runner.Runs.{SafeRun}
use cspim.Runner.Prepared.{Prepared, Ready, prepare_cpu-Ready}
use cspim.Runner.Torture.{Printed, Torture, finished, append, noted, skip_break, go_on}
use cspim.Runner.Tortured.{
  SoundUntil, goes, ends, name_at-OnlyLooks, label-OnlyLooks, same_image, later, start-SafeRun,
  stopped-Sound, labelled-Sound,
}
use cspim.Runner.Level1.{
  at_end, beginswith, is_tolerated, exn_prefix, after, level1_loop, Level1, broke, ran, lost,
  behind_load, fresh, level1_main,
}

-- The loop ends at a BREAK, and at an exception that is not tolerated.
abbrev pub Ended : Exception → MipsCpu → Type 0
Ended e c = (e ≡ Exception.break) ⊎ (is_tolerated c.pc c ≡ done false c)

module _ (c : MipsCpu) (image : IsImage c) where
  at_end-OnlyLooks : (pfx : List ℕ) → OnlyLooks c (at_end pfx c)
  at_end-OnlyLooks [] = crashes
  at_end-OnlyLooks (p ∷ pfx) = looks_at _

  beginswith-OnlyLooks : (str : ℕ) (pfx : List ℕ) → OnlyLooks c (beginswith str pfx c)
  unfolding beginswith
  beginswith-OnlyLooks str [] = crashes
  beginswith-OnlyLooks str (p ∷ pfx) = and_then-Looks _ _ (read_byte-Looks c image str) λ b _.
      chosen b p (beginswith (str + 1) pfx) (at_end pfx) (beginswith-OnlyLooks (str + 1) pfx)
        (at_end-OnlyLooks pfx)
    where
      chosen :
          (b p : ℕ) (m n : Command Bool)
          → OnlyLooks c (m c)
          → OnlyLooks c (n c)
          → OnlyLooks c ((if b == p then m else n) c)
      chosen b p m n hm hn = elim (Bool-cases (b == p)) [ inl e ↦ rw e hm | inr e ↦ rw e hn ]

  is_tolerated-OnlyLooks : (addr : ℕ) → OnlyLooks c (is_tolerated addr c)
  unfolding is_tolerated
  is_tolerated-OnlyLooks addr = and_then-Looks _ _ (name_at-OnlyLooks c image addr) λ found _.
      null_check-Looks _ _ _ tt
        λ name. and_then-Looks _ _ (beginswith-OnlyLooks name exn_prefix) λ matches _. looks_at _

module _ (c0 : MipsCpu) (image : IsImage c0) where
  module _ (out : List Printed) (last : ℕ) (k : MipsCpu → Torture)
      (next : (c : MipsCpu) → SafeRun c0 Exception.ok c → SoundUntil Ended c0 (k c)) where
    after_error :
        (e : Exception) (c : MipsCpu)
        → e ≢ Exception.ok
        → SafeRun c0 e c
        → SoundUntil Ended c0 (
            go_on
              (is_tolerated c.pc c)
              λ tolerated c'. if tolerated then k (skip_break c') else finished e out last c')
    after_error e c ne r =
        stopped-Sound out last k e c (is_tolerated c.pc c) next (λ q. inr q)
          (is_tolerated-OnlyLooks c (same_image image r.isolated) c.pc) ne r

    after-SoundUntil :
        {c : MipsCpu} (o : Option (Exception × MipsCpu))
        → IsIsolated c0 c
        → Judged c o
        → SoundUntil Ended c0 (after o out last k)
    unfolding after
    after-SoundUntil none i j = SoundUntil.breaks
    after-SoundUntil (some (Exception.ok, c')) i j = next c' (later i j)
    after-SoundUntil (some (Exception.overflow, c')) i j = after_error _ c' (λ e. cc) (later i j)
    after-SoundUntil (some (Exception.address, c')) i j = after_error _ c' (λ e. cc) (later i j)
    after-SoundUntil (some (Exception.invalid, c')) i j = after_error _ c' (λ e. cc) (later i j)
    after-SoundUntil (some (Exception.syscall, c')) i j = after_error _ c' (λ e. cc) (later i j)
    after-SoundUntil (some (Exception.break, c')) i j =
        ends Exception.break out last c' (λ e. cc) (inl refl) (later i j)
    after-SoundUntil (some (Exception.abort, c')) i j = after_error _ c' (λ e. cc) (later i j)

  level1_loop-SoundUntil :
      (n : ℕ) (out : List Printed) (last : ℕ) (c : MipsCpu)
      → SafeRun c0 Exception.ok c
      → SoundUntil Ended c0 (level1_loop n out last c)
  unfolding level1_loop
  level1_loop-SoundUntil zero out last c r = goes out last c r
  level1_loop-SoundUntil (suc n) out last c r =
      labelled-Sound _ (label-OnlyLooks c (same_image image r.isolated) (noted last c)) λ lines.
        after-SoundUntil (append lines out) (noted last c)
          (level1_loop n (append lines out) (noted last c))
          (level1_loop-SoundUntil n (append lines out) (noted last c)) (mips_execute c) r.isolated
          (mips_execute-Judged r.well_formed)

-- What `main` comes to, from a CPU that is set up and has the image.
pub data SafeLevel1 (c0 : MipsCpu) : Level1 → Type 0 where
  stops : (k : ℕ) → SafeLevel1 c0 (broke k)
  runs : (c : MipsCpu) (t : Torture) → Prepared c0 c → SoundUntil Ended c t → SafeLevel1 c0 (ran t)
  open_end : SafeLevel1 c0 lost

fresh-IsWellFormed : (base : Memory) → IsMemory base → IsWellFormed (fresh base)
unfolding fresh mips_init_cpu
fresh-IsWellFormed base bytes = record {
  safe = record {
    access = identity-IsAccess;
    bytes = bytes;
    whole_words = refl;
    address_space = omega arith;
  };
  registers = record { words = λ i. omega arith; zero_register = refl };
  hi_word = omega arith;
  lo_word = omega arith;
  pc_word = omega arith;
  delay_slot_word = omega arith;
}

returned :
    {A : Type 0} {q : A → MipsCpu → Type 0} {r : MipsCpu → Type 0} {a : A} {c : MipsCpu}
    → Ensures q r (done a c)
    → q a c
returned (returns a c h) = h

module _ (n : ℕ) (c0 : MipsCpu) where
  behind_load-SafeLevel1 :
      (o : Outcome ℕ)
      → Ensures (Ready c0) (λ _. Unit {0}) (loaded o)
      → SafeLevel1 c0 (behind_load o (level1_loop n [] 0))
  behind_load-SafeLevel1 (done r c) e = elim (Bool-cases (is_negative r)) [
    | inl f ↦ rw f (stops 2)
    | inr f ↦
        let p : Prepared c0 c = returned (rw f at e) in
        rw f (runs c _ p (level1_loop-SoundUntil c p.image n [] 0 c (start-SafeRun p.well_formed)))
  ]
  behind_load-SafeLevel1 (thrown x c) e = open_end
  behind_load-SafeLevel1 undefined e = open_end

-- With any result of sbrk and any bytes in the block behind it and in the image, main of
-- run-lvl1.c stops at one of its two BREAKs, or loads the program and gets through any number of
-- turns of its loop with a well-formed state in which nothing has changed that no program may
-- touch; where the loop has ended, the exception is MIPS_E_BREAK or one that is_tolerated does not
-- accept at the program counter; this leaves out the runs in which C leaves what main does
-- undefined, with a block at -1 or in the loader with a size_t of 64 bits.
pub level1_main-SafeLevel1 :
    (n l2_memory : ℕ) (block : Memory) (l2_elf : ℕ → ℕ) (l2_elf_size : ℕ)
    → IsMemory block
    → ((j : ℕ) → IsByte (l2_elf j))
    → SafeLevel1
        (given l2_elf l2_elf_size (fresh block))
        (level1_main n l2_memory block l2_elf l2_elf_size)
unfolding level1_main prepare_cpu fresh mips_init_cpu
level1_main-SafeLevel1 n l2_memory block l2_elf l2_elf_size bytes image =
    elim (Bool-cases (l2_memory == 0)) [
      | inl z ↦ rw z (stops 1)
      | inr z ↦ rw z (elim (Bool-cases (l2_memory == minus_one)) [
        | inl f ↦ rw f open_end
        | inr f ↦ rw f (
            behind_load-SafeLevel1 n (given l2_elf l2_elf_size (fresh block)) _ (
              prepare_cpu-Ready l2_elf l2_elf_size (fresh block) image (omega arith) (omega arith)
                none (fresh-IsWellFormed block bytes)))
      ])
    ]
