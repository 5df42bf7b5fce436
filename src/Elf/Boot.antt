-- ===== src/Elf/Boot.antt =====
-- The end of `mips_elf_load` of vm/elfload.c, and the whole: a program that was loaded can be run.
use cspim.Base.{
  ℕ, ◌+◌, ◌-◌, ◌%◌, ◌^◌, ◌≤◌, ◌<◌, ◌≡◌, ◌⊎◌, refl, ◌||◌, leb, ltb, Bool-cases, inl, inr, List,
  arith, IsByte, IsWord,
}
use cspim.Cpu.{MipsCpu, done, lowbase, minus_one}
use cspim.Execute.Effect.{set_ur-IsRegisters, IsWellFormed}
use cspim.Execute.Safety.{IsForbidden}
use cspim.Elf.Segments.{sub64}
use cspim.Elf.Load.{
  in_program, program_symbol, set_up, load_image, mips_elf_load, gp_name, end_name, start_state,
}
use cspim.Elf.Ensures.{
  Ensures, IsImage, returns, and_then-Ensures, look_first-Ensures, fail_if-Ensures,
  checked_value-Ensures, AllOf, Looks, sees, and_then-Looks, fail_if-Looks, null_check-Looks,
  read_half-Looks, read_word-Looks,
}
use cspim.Elf.Lookup.{check_eh_limits-OnlyLooks, mips_elf_find_symbol-OnlyLooks}
use cspim.Elf.Copying.{Loading}
use cspim.Elf.Loading.{load_segments-Keeps, get_symtab-Keeps}

-- An address in the part of the memory that the program has for itself.
abbrev pub InProgram : MipsCpu → ℕ → Type 0
InProgram c a = (lowbase ≤ a) × (a + c.stksz < c.memsz)

-- The state that a program starts in, loaded into the CPU `c0`.
pub record Started (c0 c : MipsCpu) : Type 0 where
  pub well_formed : IsWellFormed c
  pub forbidden : (j : ℕ) → IsForbidden c0 j → c.base j ≡ c0.base j
  pub entry_point : InProgram c0 c.pc
  pub break_start : InProgram c0 c.brk
  pub global_pointer : InProgram c0 (c.ur 28)
  pub stack_pointer : c.ur 29 + 4 ≡ c0.memsz
  pub link : c.ur 31 ≡ 0
  pub same_size : (c.memsz ≡ c0.memsz) × (c.stksz ≡ c0.stksz)
  pub same_access : (c.peek_uw ≡ c0.peek_uw) × (c.poke_uw ≡ c0.poke_uw)
  pub same_fds : c.fds ≡ c0.fds
  pub same_image : (c.elf ≡ c0.elf) × (c.elfsz ≡ c0.elfsz)
  pub image : IsImage c

-- The results of `mips_elf_load`: 0 and a program that is ready, or -1 and a sound state.
abbrev pub LoadResult : MipsCpu → ℕ → MipsCpu → Type 0
LoadResult c0 r c = ((r ≡ 0) × Started c0 c) ⊎ ((r ≡ minus_one) × Loading c0 c)

loaded : {c0 c : MipsCpu} → Started c0 c → LoadResult c0 0 c
loaded s = inl (refl, s)

rejected : {c0 c : MipsCpu} → Loading c0 c → LoadResult c0 minus_one c
rejected l = inr (refl, l)

module _ {c0 : MipsCpu} (fits : c0.stksz ≤ c0.memsz) (stack : 4 ≤ c0.memsz) where
  in_program-Looks :
      {c : MipsCpu} (a : ℕ)
      → Loading c0 c
      → IsWord a
      → Looks c (AllOf (InProgram c0)) (in_program a c)
  unfolding in_program
  in_program-Looks {c} a l h =
      sees _ (elim (Bool-cases (leb (sub64 c.memsz c.stksz) a || ltb a lowbase)) [
        | inl e ↦ rw e tt
        | inr e ↦ rw e (
          ground arith,
          ground (
            arith, l.isolated.same_size.0, l.isolated.same_size.1, l.well_formed.safe.address_space,
          ),
        )
      ])

  program_symbol-Looks :
      {c : MipsCpu} (name : List ℕ)
      → Loading c0 c
      → Looks c (AllOf (InProgram c0)) (program_symbol name c)
  unfolding program_symbol
  program_symbol-Looks {c} name l =
      and_then-Looks _ _ (mips_elf_find_symbol-OnlyLooks c l.image name) λ found _.
        null_check-Looks _ _ _ tt λ sym.
          and_then-Looks _ _ (read_half-Looks c l.image (sym + 14)) λ shndx _.
            fail_if-Looks _ _ _ tt (
              and_then-Looks _ _ (read_word-Looks c l.image (sym + 4))
                λ value h. in_program-Looks value l h)

  start_state-Started :
      {c : MipsCpu} (gp end entry : ℕ)
      → Loading c0 c
      → InProgram c0 gp
      → InProgram c0 end
      → InProgram c0 entry
      → Started c0 (start_state gp end entry c)
  start_state-Started {c} gp end entry l hg he hp =
      let wf = l.well_formed in
      let top : (c.memsz + 2 ^ 32 - 4) % 2 ^ 32 + 4 ≡ c0.memsz =
        omega (arith, wf.safe.address_space, l.isolated.same_size.0) in
      record {
        well_formed = record {
          safe = record {
            access = wf.safe.access;
            bytes = wf.safe.bytes;
            whole_words = wf.safe.whole_words;
            address_space = wf.safe.address_space;
          };
          registers =
              set_ur-IsRegisters 31 0
                (set_ur-IsRegisters 29 _
                  (set_ur-IsRegisters 28 gp wf.registers (omega arith) (word gp hg)) (omega arith)
                  (omega arith))
                (omega arith) (omega arith);
          hi_word = wf.hi_word;
          lo_word = wf.lo_word;
          pc_word = word entry hp;
          delay_slot_word = wf.delay_slot_word;
        };
        forbidden = l.isolated.forbidden;
        entry_point = hp;
        break_start = he;
        global_pointer = hg;
        stack_pointer = top;
        link = refl;
        same_size = (l.isolated.same_size.0, l.isolated.same_size.1);
        same_access = l.isolated.same_access;
        same_fds = l.isolated.same_fds;
        same_image = l.isolated.same_image;
        image = l.image;
      }
    where
      word : (a : ℕ) → InProgram c0 a → IsWord a
      word a (low, high) =
          omega (arith, high, l.isolated.same_size.0, l.well_formed.safe.address_space)

  set_up-Results : {c : MipsCpu} → Loading c0 c → Ensures (LoadResult c0) (Loading c0) (set_up c)
  unfolding set_up
  set_up-Results {c} l = look_first-Ensures _ _ (program_symbol-Looks gp_name l) λ gp hg.
      checked_value-Ensures _ _ _ hg (rejected l) λ symgp g.
        look_first-Ensures _ _ (program_symbol-Looks end_name l) λ end he.
          checked_value-Ensures _ _ _ he (rejected l) λ symend e.
            look_first-Ensures _ _ (read_word-Looks c l.image 24) λ start hs.
              look_first-Ensures _ _ (in_program-Looks start l hs) λ allowed ha.
                checked_value-Ensures _ _ _ ha (rejected l)
                  λ entry p. returns 0 _ (loaded (start_state-Started symgp symend entry l g e p))

  load_image-Results :
      {c : MipsCpu} → Loading c0 c → Ensures (LoadResult c0) (Loading c0) (load_image c)
  unfolding load_image
  load_image-Results {c} l =
      look_first-Ensures _ _ (check_eh_limits-OnlyLooks c l.image c.elfsz) λ limits _.
        fail_if-Ensures _ _ _ (rejected l) (
          and_then-Ensures _ _ (load_segments-Keeps l) λ segments c1 l1.
            fail_if-Ensures _ _ _ (rejected l1) (
              and_then-Ensures _ _ (get_symtab-Keeps l1) λ symtab c2 l2.
                fail_if-Ensures _ _ _ (rejected l2) (
                  look_first-Ensures _ _ (read_word-Looks c2 l2.image 24)
                    λ entry _. fail_if-Ensures _ _ _ (rejected l2) (set_up-Results l2))))

-- The state with the image in place.
abbrev pub given : (ℕ → ℕ) → ℕ → MipsCpu → MipsCpu
given elf elfsz c = record c { elf = elf; elfsz = elfsz }

given-Loading :
    (elf : ℕ → ℕ) (elfsz : ℕ) {c : MipsCpu}
    → IsWellFormed c
    → ((j : ℕ) → IsByte (elf j))
    → Loading (given elf elfsz c) (given elf elfsz c)
given-Loading elf elfsz {c} wf bytes = record {
  well_formed = record {
    safe = record {
      access = wf.safe.access;
      bytes = wf.safe.bytes;
      whole_words = wf.safe.whole_words;
      address_space = wf.safe.address_space;
    };
    registers = wf.registers;
    hi_word = wf.hi_word;
    lo_word = wf.lo_word;
    pc_word = wf.pc_word;
    delay_slot_word = wf.delay_slot_word;
  };
  isolated = record {
    forbidden = λ j f. refl;
    same_size = (refl, refl, refl);
    same_image = (refl, refl);
    same_access = (refl, refl);
    same_fds = refl;
  };
  image = bytes;
}

-- Whatever the image, where C defines what `mips_elf_load` does.
pub mips_elf_load-LoadResult :
    (elf : ℕ → ℕ) (elfsz : ℕ) {c : MipsCpu}
    → IsWellFormed c
    → ((j : ℕ) → IsByte (elf j))
    → c.stksz ≤ c.memsz
    → 4 ≤ c.memsz
    → Ensures
        (LoadResult (given elf elfsz c))
        (Loading (given elf elfsz c))
        (mips_elf_load elf elfsz c)
unfolding mips_elf_load
mips_elf_load-LoadResult elf elfsz wf bytes fits stack =
    load_image-Results fits stack (given-Loading elf elfsz wf bytes)

started :
    {c0 c : MipsCpu} {r : MipsCpu → Type 0} → Ensures (LoadResult c0) r (done 0 c) → Started c0 c
started (returns a c (inl (e, s))) = s
started (returns a c (inr (e, l))) = absurd (omega (arith, e))

-- For a well-formed CPU whose memory holds its stack and at least one word, and any image, if
-- mips_elf_load returns 0, then the state is well-formed, nothing below MIPS_LOWBASE or behind the
-- end has changed, the entry point, the break and $gp lie in the part of the memory below the
-- stack, $sp is the last word, $ra is 0, and the image is the one given.
pub mips_elf_load-Started :
    (elf : ℕ → ℕ) (elfsz : ℕ) {c c' : MipsCpu}
    → IsWellFormed c
    → ((j : ℕ) → IsByte (elf j))
    → c.stksz ≤ c.memsz
    → 4 ≤ c.memsz
    → mips_elf_load elf elfsz c ≡ done 0 c'
    → Started (given elf elfsz c) c'
mips_elf_load-Started elf elfsz wf bytes fits stack e =
    started (rw e at (mips_elf_load-LoadResult elf elfsz wf bytes fits stack))
