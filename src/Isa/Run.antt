-- ===== src/Isa/Run.antt =====
-- A run of `mips_execute` of vm/cpuemu.c is a run of the specification: what one call does, and the
-- loop of hostapps/util.c around it.
use cspim.Base.{ℕ, zero, suc, ◌^◌, ◌<◌, ◌≡◌, refl, ap, ◌∙◌, Option, none, some}
use cspim.Cpu.{MipsCpu, Exception}
use cspim.Execute.{mips_execute}
use cspim.Execute.Effect.{IsWellFormed}
use cspim.Execute.Safety.{Judged, mips_execute-Judged}
use cspim.Runner.{proceed, run}
use cspim.Isa.Meaning.{Result, continue, isa_run}
use cspim.Isa.View.{view, shown}
use cspim.Isa.Refines.{mips_execute-isa_step}

-- The rest of a run, behind the first instruction `o`.
proceed-continue :
    (c : MipsCpu) (n : ℕ) (o : Option (Exception × MipsCpu))
    → Judged c o
    → ((c' : MipsCpu)
        → IsWellFormed c'
        → c'.memsz ≡ c.memsz
        → shown (run n c') ≡ isa_run n c.memsz (view c'))
    → shown (proceed o (run n)) ≡ continue (shown o) (isa_run n c.memsz)
unfolding proceed continue
proceed-continue c n none j k = refl
proceed-continue c n (some (Exception.ok, c')) j k = k c' j.well_formed j.isolated.same_size.0
proceed-continue c n (some (Exception.overflow, c')) j k = refl
proceed-continue c n (some (Exception.address, c')) j k = refl
proceed-continue c n (some (Exception.invalid, c')) j k = refl
proceed-continue c n (some (Exception.syscall, c')) j k = refl
proceed-continue c n (some (Exception.break, c')) j k = refl
proceed-continue c n (some (Exception.abort, c')) j k = refl

-- From a well-formed state with a memory smaller than 2 ^ 27 bytes, any number of calls of
-- mips_execute is the run of as many instructions of the MIPS I machine of Isa, which keeps its
-- memory as bytes and the address of the next instruction beside the program counter: it ends in
-- the same machine, or with the same exception on the same machine, or is undefined where the
-- specification leaves it open.
pub run-isa_run :
    (n : ℕ) (c : MipsCpu)
    → IsWellFormed c
    → c.memsz < 2 ^ 27
    → shown (run n c) ≡ isa_run n c.memsz (view c)
unfolding run isa_run
run-isa_run zero c wf low = refl
run-isa_run (suc n) c wf low =
    proceed-continue c n (mips_execute c) (mips_execute-Judged wf) (λ c' wf' same.
      run-isa_run n c' wf' (rw same low) ∙ ap (λ (size : ℕ). isa_run n size (view c')) same)
    ∙ ap (λ (r : Result). continue r (isa_run n c.memsz)) (mips_execute-isa_step wf low)
