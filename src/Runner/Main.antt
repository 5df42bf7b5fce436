-- ===== src/Runner/Main.antt =====
-- The whole of hostapps/run.c: any file, any key and any host.
use cspim.Cpu.{Memory, MipsCpu}
use cspim.Elf.Ensures.{Ensures}
use cspim.Syscalls.Guarded.{Guarded}
use cspim.Runner.Prepared.{Prepared}
use cspim.Runner.Programs.{Main, exits, returned, working, undefined_main}

-- Where `main` returns, it leaves a state that a program from `c0` may go on in.
pub data GuardedMain {W : Type 0} (c0 : MipsCpu) : Main (W × MipsCpu) → Type 0 where
  leaves : GuardedMain c0 exits
  ran : (w : W) (c : MipsCpu) → Guarded c0 c → GuardedMain c0 (returned (w, c))
  works : GuardedMain c0 working
  open_end : GuardedMain c0 undefined_main
