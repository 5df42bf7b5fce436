-- ===== src/Syscalls.antt =====
-- vm/hosted/syscalls.c: the SPIM system calls. The C library and the operating system are a
-- parameter, with a state of their own.
pub mod Console
pub mod Files
pub mod Dispatch
pub mod Break
pub mod Terminates
pub mod Guarded
pub mod Services
pub mod Descriptors
pub mod FileServices
pub mod Kept
use cspim.Base.{
  ℕ, zero, suc, ◌+◌, ◌-◌, ◌/◌, ◌%◌, ◌^◌, bit_and, if◌then◌else◌, leb, ◌==◌, ◌||◌, not, Bool, Option,
  none, some, List, [], ◌∷◌, u32,
}
use cspim.Opcodes.{code, syscall}
use cspim.Cpu.{
  MipsCpu, Exception, Outcome, done, thrown, undefined, minus_one, max_fds, set_ur, update,
}
use cspim.Memory.{mips_peek_ub, mips_poke_ub, mips_copyin, mips_copyout}
use cspim.Execute.{mips_break_code, BreakCode, decoded}

-- What the handlers call outside of this repository. An `int` is a pattern of 32 bits, and EOF is
-- the pattern of -1.
pub record Host (W : Type 0) : Type 0 where
  pub print_int : ℕ → W → W
  pub putchar : ℕ → W → W
  pub flush : W → W
  pub getchar : W → ℕ × W
  -- `fgets` on stdin, `none` for NULL, and `sscanf` with "%d"
  pub read_line : W → Option (List ℕ) × W
  pub scan_int : List ℕ → Option ℕ
  -- `clock_gettime`: the time in nanoseconds, `none` for an error
  pub clock : W → Option ℕ × W
  pub open_file : List ℕ → ℕ → ℕ → W → ℕ × W
  pub close : ℕ → W → ℕ × W
  -- `read` returns the bytes that it stores, too.
  pub read : ℕ → ℕ → W → (ℕ × List ℕ) × W
  pub write : ℕ → List ℕ → W → ℕ × W
  pub lseek : ℕ → ℕ → ℕ → W → ℕ × W
  -- whether `malloc` gives that many bytes
  pub malloc : ℕ → W → Bool
  -- O_RDONLY, O_WRONLY | O_CREAT | O_TRUNC, and O_RDWR | O_CREAT, with O_BINARY; S_RW
  pub read_flags : ℕ
  pub create_flags : ℕ
  pub update_flags : ℕ
  pub rw_mode : ℕ
  -- SEEK_SET, SEEK_CUR and SEEK_END
  pub seek_set : ℕ
  pub seek_cur : ℕ
  pub seek_end : ℕ

-- The numbers of enum mips_exception.
abbrev pub exception_code : Exception → ℕ
exception_code Exception.ok = 0
exception_code Exception.overflow = 1
exception_code Exception.address = 2
exception_code Exception.invalid = 3
exception_code Exception.syscall = 4
exception_code Exception.break = 5
exception_code Exception.abort = 6

-- An `int` that is less than 0.
abbrev pub is_negative : ℕ → Bool
is_negative n = leb (2 ^ 31) n

-- The test of a descriptor of the simulated program.
abbrev pub is_bad_fd : ℕ → MipsCpu → Bool
is_bad_fd fd c = is_negative fd || leb max_fds fd || is_negative (c.fds fd)

-- `fd <= 2` as `int`
abbrev pub is_stdio : ℕ → Bool
is_stdio fd = is_negative fd || leb fd 2

-- What a handler comes to: the returned `int` and both states, or `none` where an assertion fails
-- or C leaves its behaviour undefined.
abbrev pub Handler : Type 0 → Type 0
Handler W = W → MipsCpu → Option (ℕ × W × MipsCpu)

module _ {W : Type 0} where
  abbrev pub returned : Handler W
  returned w c = some (0, w, c)

  abbrev pub returned_with : ℕ → W → MipsCpu → Option (ℕ × W × MipsCpu)
  returned_with v w c = some (0, w, set_ur 2 v c)

  -- What follows a command under the `TRY` of a handler; an exception ends the handler with its code.
  abbrev pub on_outcome : {A : Type 0} → Outcome A → W → (A → Handler W) → Option (ℕ × W × MipsCpu)
  on_outcome (done a c) w k = k a w c
  on_outcome (thrown e c) w k = some (exception_code e, w, c)
  on_outcome undefined w k = none
