-- ===== src/Syscalls/Dispatch.antt =====
-- `mips_spim_syscall` of vm/hosted/syscalls.c.
use cspim.Base.{ℕ, if◌then◌else◌, ◌==◌, Option, none, some}
use cspim.Opcodes.{code, syscall}
use cspim.Cpu.{minus_one}
use cspim.Execute.{mips_break_code, BreakCode, decoded}
use cspim.Syscalls.{Host, Handler}
use cspim.Syscalls.Console.{
  do_print_int, do_gettime, do_print_string, do_read_int, do_read_string, do_sbrk, do_print_char,
  do_read_char,
}
use cspim.Syscalls.Files.{do_lseek, do_open, do_read, do_write, do_close}

module _ {W : Type 0} (host : Host W) where
  -- `sys_dispatch`
  unfoldable pub sys_dispatch : ℕ → Option (Handler W)
  unfolding do_print_int do_lseek do_gettime do_print_string do_read_int do_read_string do_sbrk
      do_print_char do_read_char do_open do_read do_write do_close
  sys_dispatch service =
      if service == 1
      then some (do_print_int host)
      else if service == 2
      then some (do_lseek host)
      else if service == 3
      then some (do_gettime host)
      else if service == 4
      then some (do_print_string host)
      else if service == 5
      then some (do_read_int host)
      else if service == 8
      then some (do_read_string host)
      else if service == 9
      then some (do_sbrk host)
      else if service == 11
      then some (do_print_char host)
      else if service == 12
      then some (do_read_char host)
      else if service == 13
      then some (do_open host)
      else if service == 14
      then some (do_read host)
      else if service == 15
      then some (do_write host)
      else if service == 16
      then some (do_close host)
      else none

  abbrev pub run_service : Option (Handler W) → Handler W
  run_service none w c = some (minus_one, w, c)
  run_service (some h) w c = h w c

  abbrev pub serve : Option BreakCode → Handler W
  serve none w c = none
  serve (some (decoded opcode _)) w c =
      if opcode == code syscall
      then run_service (sys_dispatch (c.ur 2)) w c
      else some (minus_one, w, c)
  serve (some _) w c = some (minus_one, w, c)

  unfoldable pub mips_spim_syscall : Handler W
  unfolding sys_dispatch mips_break_code
  mips_spim_syscall w c = serve (mips_break_code c) w c
