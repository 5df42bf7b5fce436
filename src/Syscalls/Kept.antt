-- ===== src/Syscalls/Kept.antt =====
-- `mips_spim_syscall` of vm/hosted/syscalls.c leaves a state that the program may go on in.
use cspim.Base.{ℕ, ◌==◌, if◌then◌else◌, Bool, true, false, Bool-cases, inl, inr, Option, none, some}
use cspim.Opcodes.{code, syscall}
use cspim.Cpu.{MipsCpu}
use cspim.Execute.{mips_break_code, BreakCode, decoded, faulted, not_valid}
use cspim.Syscalls.{Host, Handler}
use cspim.Syscalls.Dispatch.{sys_dispatch, run_service, serve, mips_spim_syscall}
use cspim.Syscalls.Guarded.{Guarded, IsHost, Keeps, keeps, stuck}
use cspim.Syscalls.Services.{
  do_print_int-Keeps, do_print_string-Keeps, do_read_int-Keeps, do_read_string-Keeps, do_sbrk-Keeps,
  do_print_char-Keeps, do_read_char-Keeps, do_gettime-Keeps,
}
use cspim.Syscalls.FileServices.{
  do_open-Keeps, do_read-Keeps, do_write-Keeps, do_close-Keeps, do_lseek-Keeps,
}

module _ {W : Type 0} (host : Host W) (h : IsHost host) {c0 : MipsCpu} (w : W) {c : MipsCpu}
    (g : Guarded c0 c) where
  service-Keeps :
      (b : Bool) (m : Handler W) (o : Option (Handler W))
      → Keeps c0 (m w c)
      → Keeps c0 (run_service host o w c)
      → Keeps c0 (run_service host (if b then some m else o) w c)
  service-Keeps true m o k rest = k
  service-Keeps false m o k rest = rest

  run_service-Keeps : (v : ℕ) → Keeps c0 (run_service host (sys_dispatch host v) w c)
  unfolding sys_dispatch
  run_service-Keeps v = service-Keeps (v == 1) _ _ (do_print_int-Keeps host h w g) (
      service-Keeps (v == 2) _ _ (do_lseek-Keeps host h w g) (
        service-Keeps (v == 3) _ _ (do_gettime-Keeps host h w g) (
          service-Keeps (v == 4) _ _ (do_print_string-Keeps host h w g) (
            service-Keeps (v == 5) _ _ (do_read_int-Keeps host h w g) (
              service-Keeps (v == 8) _ _ (do_read_string-Keeps host h w g) (
                service-Keeps (v == 9) _ _ (do_sbrk-Keeps host h w g) (
                  service-Keeps (v == 11) _ _ (do_print_char-Keeps host h w g) (
                    service-Keeps (v == 12) _ _ (do_read_char-Keeps host h w g) (
                      service-Keeps (v == 13) _ _ (do_open-Keeps host h w g) (
                        service-Keeps (v == 14) _ _ (do_read-Keeps host h w g) (
                          service-Keeps (v == 15) _ _ (do_write-Keeps host h w g) (
                            service-Keeps (v == 16) _ _ (do_close-Keeps host h w g)
                              (keeps _ w c g)))))))))))))

  serve-Keeps : (b : Option BreakCode) → Keeps c0 (serve host b w c)
  serve-Keeps none = stuck
  serve-Keeps (some faulted) = keeps _ w c g
  serve-Keeps (some not_valid) = keeps _ w c g
  serve-Keeps (some (decoded opcode _)) = elim (Bool-cases (opcode == code syscall)) [
    | inl e ↦ rw e (run_service-Keeps (c.ur 2))
    | inr e ↦ rw e (keeps _ w c g)
  ]

  -- With a host whose int results are patterns of 32 bits, every system call that returns from a
  -- well-formed state with its descriptors 0 to 2 in place leaves such a state, the errors
  -- included: no byte changes below MIPS_LOWBASE or behind the end, the sizes, the bytes of the
  -- image and its size stay as they are, the break is a 32-bit word, and the descriptors 0 to 2
  -- are neither closed nor given to a file.
  pub mips_spim_syscall-Keeps : Keeps c0 (mips_spim_syscall host w c)
  unfolding mips_spim_syscall
  mips_spim_syscall-Keeps = serve-Keeps (mips_break_code c)
