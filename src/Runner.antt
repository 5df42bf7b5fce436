-- ===== src/Runner.antt =====
-- hostapps/util.c: the loop that runs a program, and the preparation of the CPU for it.
pub mod Agreement
pub mod Runs
pub mod Prepared
pub mod Serviced
pub mod Torture
pub mod Tortured
pub mod Programs
pub mod Main
pub mod Level1
pub mod Nested
pub mod Encrypted
use cspim.Base.{
  ℕ, zero, suc, ◌+◌, ◌*◌, ◌/◌, ◌%◌, if◌then◌else◌, ◌==◌, ltb, leb, not, ◌&&◌, ◌||◌, Bool, true,
  false, Option, none, some, List, [], ◌∷◌, length, get_or, u8,
}
use cspim.Opcodes.{code, break, syscall}
use cspim.Cpu.{
  MipsCpu, Exception, Outcome, done, thrown, undefined, minus_one, spim_syscall, update,
}
use cspim.Execute.{
  mips_execute, mips_break_code, mips_resume, BreakCode, faulted, not_valid, decoded,
}
use cspim.Elf.Symbols.{mips_elf_find_address, mips_elf_get_symname}
use cspim.Elf.Load.{mips_elf_load}
use cspim.Rc5.{rc5_setup, rc5_peek, rc5_poke, key_length}
use cspim.Syscalls.{Host, Handler, is_negative}
use cspim.Syscalls.Dispatch.{mips_spim_syscall}

-- A call of `mips_execute`, and what follows it if it returns MIPS_E_OK.
unfoldable pub proceed :
    Option (Exception × MipsCpu)
    → (MipsCpu → Option (Exception × MipsCpu))
    → Option (Exception × MipsCpu)
proceed none k = none
proceed (some (Exception.ok, c)) k = k c
proceed (some (e, c)) k = some (e, c)

-- `while((err = mips_execute(pcpu)) == MIPS_E_OK);`, seen after at most `n` calls: `ok` when all of
-- them returned MIPS_E_OK, and `none` where C leaves a call undefined.
unfoldable pub run : ℕ → MipsCpu → Option (Exception × MipsCpu)
unfolding mips_execute proceed
run zero c = some (Exception.ok, c)
run (suc n) c = proceed (mips_execute c) (run n)

-- The messages that `execute_loop` prints when it ends.
pub data Ending : Type 0 where
  break_code : ℕ → Ending
  invalid_syscall : ℕ → Ending
  service_faulted : (service err : ℕ) → Ending
  exception_at : Exception → ℕ → Option ℕ → Ending

-- What `execute_loop` comes to: it has ended, is still running after the calls that it was given, or
-- has reached behaviour that C leaves undefined.
pub data Loop (W : Type 0) : Type 0 where
  ended : Ending → W → MipsCpu → Loop W
  running : W → MipsCpu → Loop W
  crashed : Loop W

-- A lookup, which does not change the state: a null pointer for one that finds nothing.
abbrev pub looked_up : {W : Type 0} → Outcome (Option ℕ) → (Option ℕ → Loop W) → Loop W
looked_up (done r c) k = k r
looked_up (thrown e c) k = crashed
looked_up undefined k = crashed

abbrev pub named : {W : Type 0} → MipsCpu → Option ℕ → (Option ℕ → Loop W) → Loop W
named c none k = k none
named c (some sym) k = looked_up (mips_elf_get_symname sym c) k

-- The `default` case: the exception, the program counter and the symbol near it.
unfoldable pub report : {W : Type 0} → Exception → W → MipsCpu → Loop W
unfolding mips_elf_find_address mips_elf_get_symname
report err w c =
    looked_up (mips_elf_find_address c.pc c)
      λ sym. named c sym λ name. ended (exception_at err c.pc name) w c

module _ {W : Type 0} (host : Host W) where
  -- `mips_resume`, and the loop behind `goto execute`.
  abbrev pub resumed : Option (ℕ × MipsCpu) → W → (W → MipsCpu → Loop W) → Loop W
  resumed none w k = crashed
  resumed (some (r, c)) w k = k w c

  -- The result of a service.
  abbrev pub serviced : Option (ℕ × W × MipsCpu) → (W → MipsCpu → Loop W) → Loop W
  serviced none k = crashed
  serviced (some (err, w, c)) k =
      if not (err == 0)
      then ended (service_faulted (c.ur 2) err) w c
      else resumed (mips_resume c) w k

  -- The `switch` on the opcode; it is read although `mips_break_code` may not have stored it.
  abbrev pub stopped : Option BreakCode → Exception → W → MipsCpu → (W → MipsCpu → Loop W) → Loop W
  stopped none err w c k = crashed
  stopped (some faulted) err w c k = crashed
  stopped (some not_valid) err w c k = report err w c
  stopped (some (decoded opcode code_)) err w c k =
      if opcode == code break
      then ended (break_code code_) w c
      else if opcode == code syscall
      then if not (code_ == spim_syscall)
        then ended (invalid_syscall code_) w c
        else serviced (mips_spim_syscall host w c) k
      else report err w c

  -- What follows a call of `mips_execute`.
  unfoldable pub after_execute : Option (Exception × MipsCpu) → W → (W → MipsCpu → Loop W) → Loop W
  unfolding mips_break_code mips_resume mips_spim_syscall report
  after_execute none w k = crashed
  after_execute (some (Exception.ok, c)) w k = k w c
  after_execute (some (err, c)) w k = stopped (mips_break_code c) err w c k

  -- `execute_loop`, for at most `n` calls of `mips_execute`.
  unfoldable pub execute_loop : ℕ → W → MipsCpu → Loop W
  unfolding mips_execute after_execute
  execute_loop zero w c = running w c
  execute_loop (suc n) w c = after_execute (mips_execute c) w (execute_loop n)

-- The loop of `rc5_convert_key` over `n` bytes from the index `i` on. `scan` is `sscanf` with "%2x"
-- on the text from an index on: the value, or `none` if it returns another number than 1.
unfoldable pub key_loop : (ℕ → Option ℕ) → ℕ → ℕ → (ℕ → ℕ) → Option (ℕ → ℕ)
key_loop scan zero i key = some key
key_loop scan (suc n) i key = elim (scan (2 * i)) [
  | none ↦ none
  | some v ↦ key_loop scan n (i + 1) (update key i (u8 v))
]

-- `hex_length` is the length of the text; the key starts as `key`.
unfoldable pub rc5_convert_key : ℕ → (ℕ → Option ℕ) → (ℕ → ℕ) → Option (ℕ → ℕ)
unfolding key_loop
rc5_convert_key hex_length scan key =
    if hex_length == 32 then key_loop scan key_length 0 key else none

-- The key of the command line: the length of its text and `scan` on it.
abbrev pub AscKey : Type 0
AscKey = ℕ × (ℕ → Option ℕ)

abbrev pub with_key : (ℕ → ℕ) → MipsCpu → MipsCpu
with_key s c = record c { peek_uw = rc5_peek s; poke_uw = rc5_poke s }

-- The state with the access functions for the key; `none` is `exit(1)`.
abbrev pub with_converted : Option (ℕ → ℕ) → MipsCpu → Option MipsCpu
with_converted none c = none
with_converted (some key) c = some (with_key (rc5_setup key) c)

unfoldable pub install_key : Option AscKey → MipsCpu → Option MipsCpu
unfolding rc5_convert_key rc5_setup
install_key none c = some c
install_key (some (hex_length, scan)) c =
    with_converted (rc5_convert_key hex_length scan (λ _. 0)) c

-- `prepare_cpu` on an image that was read; `thrown` and `undefined` are those of the loader, and
-- `done none` is `exit(1)`.
abbrev pub loaded : Outcome ℕ → Outcome (Option (Unit {0}))
loaded (done r c) = done (if is_negative r then none else some tt) c
loaded (thrown e c) = thrown e c
loaded undefined = undefined

abbrev pub load_into : (ℕ → ℕ) → ℕ → MipsCpu → Option MipsCpu → Outcome (Option (Unit {0}))
load_into elf elfsz c none = done none c
load_into elf elfsz c (some c') = loaded (mips_elf_load elf elfsz c')

unfoldable pub prepare_cpu : (ℕ → ℕ) → ℕ → Option AscKey → MipsCpu → Outcome (Option (Unit {0}))
unfolding install_key mips_elf_load
prepare_cpu elf elfsz asckey c = load_into elf elfsz c (install_key asckey c)
