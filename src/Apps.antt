-- ===== src/Apps.antt =====
-- The C programs of mipsapps that run inside the simulator. What a program prints is a list, and
-- what the system calls of mipsapps/spim.c read for it is an argument.
pub mod Hanoi
pub mod Fact
pub mod Digits
pub mod Matrix
use Prim.Native.String.{String}
use cspim.Base.{ℕ}

-- A call of `print_int`, `print_string` or `print_char`.
pub data Output : Type 0 where
  int : ℕ → Output
  text : String → Output
  char : ℕ → Output
