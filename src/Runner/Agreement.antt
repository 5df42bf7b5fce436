-- ===== src/Runner/Agreement.antt =====
-- Whole runs under two encodings of the memory.
use cspim.Base.{ℕ, zero, suc, ◌≡◌, refl, Option, some}
use cspim.Cpu.{Memory, MipsCpu, Exception}
use cspim.Execute.Effect.{IsWellFormed}
use cspim.Execute.Safety.{mips_execute-IsWellFormed}
use cspim.Encoding.{Access, recoded, SameWords}
use cspim.Encoding.Execution.{AgreeResult, both, neither, mips_execute-AgreeResult}
use cspim.Runner.{proceed, run}

proceed-AgreeResult :
    {f : Access} (n : ℕ) {o o' : Option (Exception × MipsCpu)}
    → AgreeResult f o o'
    → ((c : MipsCpu) → o ≡ some (Exception.ok, c) → IsWellFormed c)
    → ((c : MipsCpu) (b : Memory)
        → SameWords f c b
        → IsWellFormed c
        → AgreeResult f (run n c) (run n (recoded f c b)))
    → AgreeResult f (proceed o (run n)) (proceed o' (run n))
unfolding proceed
proceed-AgreeResult n (both Exception.ok c b s) wf k = k c b s (wf c refl)
proceed-AgreeResult n (both Exception.overflow c b s) wf k = both _ c b s
proceed-AgreeResult n (both Exception.address c b s) wf k = both _ c b s
proceed-AgreeResult n (both Exception.invalid c b s) wf k = both _ c b s
proceed-AgreeResult n (both Exception.syscall c b s) wf k = both _ c b s
proceed-AgreeResult n (both Exception.break c b s) wf k = both _ c b s
proceed-AgreeResult n (both Exception.abort c b s) wf k = both _ c b s
proceed-AgreeResult n neither wf k = neither

-- If two sound CPUs differ in their blocks and access functions only and read the same words in
-- the part of the memory that the program may access, and the first is well-formed, then any
-- number of calls of mips_execute gives the same exception on both and states of the same kind, or
-- is undefined on both.
pub run-AgreeResult :
    {f : Access} (n : ℕ) (c : MipsCpu) (b : Memory)
    → SameWords f c b
    → IsWellFormed c
    → AgreeResult f (run n c) (run n (recoded f c b))
unfolding run
run-AgreeResult zero c b s wf = both Exception.ok c b s
run-AgreeResult (suc n) c b s wf =
    proceed-AgreeResult n (mips_execute-AgreeResult s wf) (λ c' e. mips_execute-IsWellFormed wf e)
      (run-AgreeResult n)
