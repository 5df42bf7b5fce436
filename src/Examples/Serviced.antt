-- ===== src/Examples/Serviced.antt =====
-- The theorems about the system calls, at a host that prints and does nothing else.
use cspim.Base.{ℕ, ◌+◌, refl, arith, [], none, some, ◌≡◌, Bool}
use cspim.Cpu.{MipsCpu, set_ur, minus_one, mips_init_cpu}
use cspim.Runner.Encrypted.{}
use cspim.Syscalls.{Host}
use cspim.Syscalls.Console.{do_print_char}
use cspim.Syscalls.Dispatch.{sys_dispatch, mips_spim_syscall}
use cspim.Syscalls.Guarded.{Guarded, IsHost, Keeps, set_ur-Guarded}
use cspim.Syscalls.Kept.{mips_spim_syscall-Keeps}
use cspim.Examples.Image.{image}
use cspim.Examples.Engine.{booted, booted-IsWellFormed}
use cspim.Execute.{mips_break_code}
use cspim.Memory.{mips_identity_peek_uw, mips_identity_poke_uw}

-- A host that counts the characters that it prints, and whose other calls fail.
abbrev counting : Host ℕ
counting = record {
  print_int = λ n w. w;
  putchar = λ ch w. w + 1;
  flush = λ w. w;
  getchar = λ w. (minus_one, w);
  read_line = λ w. (none, w);
  scan_int = λ line. none;
  clock = λ w. (none, w);
  open_file = λ name flags mode w. (minus_one, w);
  close = λ fd w. (minus_one, w);
  read = λ fd n w. ((minus_one, []), w);
  write = λ fd bytes w. (minus_one, w);
  lseek = λ fd offset origin w. (minus_one, w);
  malloc = λ n w. Bool.true;
  read_flags = 0;
  create_flags = 0x241;
  update_flags = 0x42;
  rw_mode = 0x180;
  seek_set = 0;
  seek_cur = 1;
  seek_end = 2;
}

counting-IsHost : IsHost counting
counting-IsHost = record {
  getchar-IsWord = λ w. omega arith;
  scan-IsWord = λ line. tt;
  close-IsWord = λ fd w. omega arith;
  read-IsWord = λ fd n w. omega arith;
  write-IsWord = λ fd bytes w. omega arith;
  lseek-IsWord = λ fd offset origin w. omega arith;
}

-- A CPU at a SYSCALL, with the service that prints a character in $v0 and "A" in $a0.
abbrev caller : MipsCpu
caller = set_ur 4 0x41 (set_ur 2 11 (booted 12))

booted-Guarded : Guarded caller (booted 12)
unfolding mips_init_cpu
booted-Guarded = record {
  well_formed = booted-IsWellFormed 12 (omega arith);
  forbidden = λ j h. refl;
  same_size = (refl, refl);
  brk_word = omega arith;
  stdio = λ j h. ground arith;
  same_image = (refl, refl);
  image = λ j. omega arith;
}

caller-Guarded : Guarded caller caller
caller-Guarded =
    set_ur-Guarded (set_ur-Guarded booted-Guarded 2 11 (omega arith) (omega arith)) 4 0x41
      (omega arith) (omega arith)

-- The host has counted the character.
caller_prints : mips_spim_syscall counting 0 caller ≡ some (0, 1, caller)
unfolding mips_spim_syscall mips_break_code sys_dispatch mips_init_cpu do_print_char
    mips_identity_peek_uw mips_identity_poke_uw
caller_prints = refl

mips_spim_syscall-Keeps_example : Keeps caller (mips_spim_syscall counting 0 caller)
mips_spim_syscall-Keeps_example = mips_spim_syscall-Keeps counting counting-IsHost 0 caller-Guarded
