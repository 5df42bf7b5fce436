-- ===== src/Runner/Serviced.antt =====
-- `execute_loop` of hostapps/util.c: a program and the system calls that it makes.
use cspim.Cpu.{MipsCpu}
use cspim.Syscalls.Guarded.{Guarded}
use cspim.Runner.{Ending, Loop, ended, running, crashed}

-- The loop has ended or is running in a state that a program from `c0` may go on in.
pub data GuardedLoop {W : Type 0} (c0 : MipsCpu) : Loop W → Type 0 where
  over :
      (message : Ending) (w : W) (c : MipsCpu) → Guarded c0 c → GuardedLoop c0 (ended message w c)
  goes : (w : W) (c : MipsCpu) → Guarded c0 c → GuardedLoop c0 (running w c)
  broken : GuardedLoop c0 crashed
