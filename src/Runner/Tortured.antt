-- ===== src/Runner/Tortured.antt =====
-- What holds of every run of hostapps/runtorture.c, over expected exceptions too.
use cspim.Base.{
  ℕ, zero, suc, ◌+◌, if◌then◌else◌, u32, ◌≡◌, ◌≢◌, ◌==◌, ◌≤◌, ltb, refl, Option, none, some, Bool,
  true, false, List, [], arith,
}
use cspim.Cpu.{MipsCpu, Exception, Outcome, done}
use cspim.Execute.{mips_execute}
use cspim.Execute.Effect.{IsWellFormed}
use cspim.Execute.Safety.{Judged, Verdict, IsIsolated, mips_execute-Judged, with_registers}
use cspim.Elf.Ensures.{
  IsImage, sees, crashes, OnlyLooks, looks_at, and_then-Looks, fail_if-Looks, null_check-Looks,
  or_else-OnlyLooks, differs_byte, read_word-Looks,
}
use cspim.Elf.{st_value}
use cspim.Elf.Symbols.{mips_elf_find_address, mips_elf_get_symname}
use cspim.Elf.Nearest.{mips_elf_find_address-OnlyLooks, mips_elf_get_symname-OnlyLooks}
use cspim.Runner.Runs.{SafeRun, IsIsolated-refl, IsIsolated-trans}
use cspim.Runner.Torture.{
  Printed, name_near, name_at, is_exn, is_expected, label, Torture, finished, running, crashed,
  append, noted, skip_break, go_on, after, execute,
}

module _ (c : MipsCpu) (image : IsImage c) where
  name_near-OnlyLooks : (addr : ℕ) → OnlyLooks c (name_near addr c)
  unfolding name_near
  name_near-OnlyLooks addr =
      and_then-Looks _ _ (mips_elf_find_address-OnlyLooks c image addr)
        λ found _. null_check-Looks _ _ _ tt (mips_elf_get_symname-OnlyLooks c image)

  pub name_at-OnlyLooks : (addr : ℕ) → OnlyLooks c (name_at addr c)
  unfolding name_at
  name_at-OnlyLooks addr =
      and_then-Looks _ _ (mips_elf_find_address-OnlyLooks c image addr) λ found _.
        null_check-Looks _ _ _ tt λ sym.
          and_then-Looks _ _ (read_word-Looks c image (sym + 4))
            λ at _. fail_if-Looks _ _ _ tt (mips_elf_get_symname-OnlyLooks c image sym)

  is_exn-OnlyLooks : (name : ℕ) → OnlyLooks c (is_exn name c)
  unfolding is_exn
  is_exn-OnlyLooks name = and_then-Looks _ _ (differs_byte c image name 0x45) λ d0 _.
      and_then-Looks _ _ (or_else-OnlyLooks c d0 _ (differs_byte c image (name + 1) 0x58)) λ d1 _.
        and_then-Looks _ _ (or_else-OnlyLooks c d1 _ (differs_byte c image (name + 2) 0x4e))
          λ d2 _. looks_at _

  is_expected-OnlyLooks : (addr : ℕ) → OnlyLooks c (is_expected addr c)
  unfolding is_expected
  is_expected-OnlyLooks addr =
      and_then-Looks _ _ (name_at-OnlyLooks addr)
        λ found _. null_check-Looks _ _ _ tt is_exn-OnlyLooks

  pub label-OnlyLooks : (last : ℕ) → OnlyLooks c (label last c)
  unfolding label
  label-OnlyLooks last = and_then-Looks _ _ (name_at-OnlyLooks c.pc) λ found _.
      null_check-Looks _ _ _ tt λ name.
        and_then-Looks _ _ (name_near-OnlyLooks c.pc)
          λ at_pc _. and_then-Looks _ _ (name_near-OnlyLooks last) λ at_last _. looks_at _

-- The run has ended at an exception that ends the loop, or goes on, in a sound state.
pub data SoundUntil (Ends : Exception → MipsCpu → Type 0) (c0 : MipsCpu) : Torture → Type 0 where
  ends :
      (e : Exception) (out : List Printed) (last : ℕ) (c : MipsCpu)
      → e ≢ Exception.ok
      → Ends e c
      → SafeRun c0 e c
      → SoundUntil Ends c0 (finished e out last c)
  goes :
      (out : List Printed) (last : ℕ) (c : MipsCpu)
      → SafeRun c0 Exception.ok c
      → SoundUntil Ends c0 (running out last c)
  breaks : SoundUntil Ends c0 crashed

-- The symbol that is found for the address stands at it, and its name starts with "EXN".
pub record IsExn (c : MipsCpu) (addr : ℕ) : Type 0 where
  pub sym : ℕ
  pub name : ℕ
  pub found : mips_elf_find_address addr c ≡ done (some sym) c
  pub stands : st_value sym c ≡ done addr c
  pub read_name : mips_elf_get_symname sym c ≡ done (some name) c
  pub inside : name + 3 ≤ c.elfsz
  pub letters : (c.elf name ≡ 0x45) × (c.elf (name + 1) ≡ 0x58) × (c.elf (name + 2) ≡ 0x4e)

is_expected-IsExn : (c : MipsCpu) (addr : ℕ) → IsExn c addr → is_expected addr c ≡ done true c
unfolding is_expected name_at is_exn cspim.Elf.null_check cspim.Elf.fail_if
is_expected-IsExn c addr x =
    let e0 : ltb x.name c.elfsz ≡ true = ground (arith, x.inside) in
    let e1 : ltb (x.name + 1) c.elfsz ≡ true = ground (arith, x.inside) in
    let e2 : ltb (x.name + 2) c.elfsz ≡ true = ground (arith, x.inside) in
    let same : (addr == addr) ≡ true = ground arith in
    rw (x.found, x.stands, same, x.read_name, e0, x.letters.0, e1, x.letters.1, e2, x.letters.2)
      refl

-- The loop of runtorture.c ends at an exception that the test program does not expect.
abbrev pub Unexpected : Exception → MipsCpu → Type 0
Unexpected e c = ¬ IsExn c c.pc

ends-Unexpected : (e : Exception) (c : MipsCpu) → is_expected c.pc c ≡ done false c → Unexpected e c
ends-Unexpected e c q x = let p = is_expected-IsExn c c.pc x in cc

abbrev pub Sound : MipsCpu → Torture → Type 0
Sound = SoundUntil Unexpected

-- The start of a run.
pub start-SafeRun : {c : MipsCpu} → IsWellFormed c → SafeRun c Exception.ok c
start-SafeRun {c} wf = record { well_formed = wf; isolated = IsIsolated-refl c; no_abort = λ e. cc }

module _ {c0 : MipsCpu} where
  -- A later state of the run.
  pub same_image : {c : MipsCpu} → IsImage c0 → IsIsolated c0 c → IsImage c
  same_image image i j = rw i.same_image.0 (image j)

  skip_break-SafeRun :
      {e : Exception} {c : MipsCpu} → SafeRun c0 e c → SafeRun c0 Exception.ok (skip_break c)
  skip_break-SafeRun {c = c} r = record {
    well_formed =
        let wf = r.well_formed in
        with_registers c.ur c.hi c.lo (u32 (c.pc + 8)) c.delay_slot wf.safe wf.registers
          (wf.hi_word, wf.lo_word, omega arith, wf.delay_slot_word);
    isolated = record {
      forbidden = r.isolated.forbidden;
      same_size = r.isolated.same_size;
      same_image = r.isolated.same_image;
      same_access = r.isolated.same_access;
      same_fds = r.isolated.same_fds;
    };
    no_abort = λ e. cc;
  }

  pub later :
      {c : MipsCpu} {e : Exception} {c' : MipsCpu}
      → IsIsolated c0 c
      → Verdict c e c'
      → SafeRun c0 e c'
  later i v = record {
    well_formed = v.well_formed;
    isolated = IsIsolated-trans i v.isolated;
    no_abort = v.no_abort;
  }

  module _ {Ends : Exception → MipsCpu → Type 0} where
    -- The end of a turn, where `o` tells whether the exception is one to go on from.
    pub stopped-Sound :
        (out : List Printed) (last : ℕ) (k : MipsCpu → Torture) (e : Exception) (c : MipsCpu)
        (o : Outcome Bool)
        → ((c : MipsCpu) → SafeRun c0 Exception.ok c → SoundUntil Ends c0 (k c))
        → (o ≡ done false c → Ends e c)
        → OnlyLooks c o
        → e ≢ Exception.ok
        → SafeRun c0 e c
        → SoundUntil Ends c0
            (go_on o λ expected c'. if expected then k (skip_break c') else finished e out last c')
    unfolding go_on
    stopped-Sound out last k e c o next q (sees true h) ne r =
        next (skip_break c) (skip_break-SafeRun r)
    stopped-Sound out last k e c o next q (sees false h) ne r = ends e out last c ne (q refl) r
    stopped-Sound out last k e c o next q crashes ne r = breaks

    pub labelled-Sound :
        {c : MipsCpu} {o : Outcome (List Printed)} (k : List Printed → MipsCpu → Torture)
        → OnlyLooks c o
        → ((lines : List Printed) → SoundUntil Ends c0 (k lines c))
        → SoundUntil Ends c0 (go_on o k)
    unfolding go_on
    labelled-Sound k (sees lines h) f = f lines
    labelled-Sound k crashes f = breaks

module _ (c0 : MipsCpu) (image : IsImage c0) where
  module _ (out : List Printed) (last : ℕ) (k : MipsCpu → Torture)
      (next : (c : MipsCpu) → SafeRun c0 Exception.ok c → Sound c0 (k c)) where
    after_error :
        (e : Exception) (c : MipsCpu)
        → e ≢ Exception.ok
        → SafeRun c0 e c
        → Sound c0 (
            go_on
              (is_expected c.pc c)
              λ expected c'. if expected then k (skip_break c') else finished e out last c')
    after_error e c ne r =
        stopped-Sound out last k e c (is_expected c.pc c) next (ends-Unexpected e c)
          (is_expected-OnlyLooks c (same_image image r.isolated) c.pc) ne r

    after-Sound :
        {c : MipsCpu} (o : Option (Exception × MipsCpu))
        → IsIsolated c0 c
        → Judged c o
        → Sound c0 (after o out last k)
    unfolding after
    after-Sound none i j = breaks
    after-Sound (some (Exception.ok, c')) i j = next c' (later i j)
    after-Sound (some (Exception.overflow, c')) i j = after_error _ c' (λ e. cc) (later i j)
    after-Sound (some (Exception.address, c')) i j = after_error _ c' (λ e. cc) (later i j)
    after-Sound (some (Exception.invalid, c')) i j = after_error _ c' (λ e. cc) (later i j)
    after-Sound (some (Exception.syscall, c')) i j = after_error _ c' (λ e. cc) (later i j)
    after-Sound (some (Exception.break, c')) i j = after_error _ c' (λ e. cc) (later i j)
    after-Sound (some (Exception.abort, c')) i j = after_error _ c' (λ e. cc) (later i j)

  execute_from-Sound :
      (n : ℕ) (out : List Printed) (last : ℕ) (c : MipsCpu)
      → SafeRun c0 Exception.ok c
      → Sound c0 (execute n out last c)
  unfolding execute
  execute_from-Sound zero out last c r = goes out last c r
  execute_from-Sound (suc n) out last c r =
      labelled-Sound _ (label-OnlyLooks c (same_image image r.isolated) (noted last c)) λ lines.
        after-Sound (append lines out) (noted last c) (execute n (append lines out) (noted last c))
          (execute_from-Sound n (append lines out) (noted last c)) (mips_execute c) r.isolated
          (mips_execute-Judged r.well_formed)

-- From a well-formed state with any image, wherever the loop of runtorture.c has ended, the
-- exception is neither MIPS_E_OK nor MIPS_E_ABORT, and the symbol that mips_elf_find_address
-- returns for the program counter does not stand there with a name that starts with EXN; and
-- wherever the loop is after any number of turns, the state is well-formed and nothing has changed
-- that no program may touch, unless C leaves the turn undefined.
pub execute-Sound : (n : ℕ) (c : MipsCpu) → IsWellFormed c → IsImage c → Sound c (execute n [] 0 c)
execute-Sound n c wf image = execute_from-Sound c image n [] 0 c (start-SafeRun wf)
