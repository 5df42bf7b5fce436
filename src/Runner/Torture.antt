-- ===== src/Runner/Torture.antt =====
-- hostapps/runtorture.c: the run of a test program that raises exceptions on purpose.
use cspim.Base.{
  ℕ, zero, suc, ◌+◌, ◌-◌, ◌%◌, ◌^◌, if◌then◌else◌, ◌==◌, not, Bool, false, u32, Option, none, some,
  List, [], ◌∷◌,
}
use cspim.Cpu.{minus_one, MipsCpu, Command, Exception, Outcome, done, thrown, undefined, ◌>>=◌}
use cspim.Memory.{pure}
use cspim.Execute.{mips_execute, mips_break_code, BreakCode, faulted, not_valid, decoded}
use cspim.Elf.{fail_if, null_check, read_byte, or_else, differs, st_value}
use cspim.Elf.Symbols.{mips_elf_find_address, mips_elf_get_symname}

-- What the program prints on the way: an address behind a label, with the name of the symbol near it.
pub data Printed : Type 0 where
  pc : ℕ → Option ℕ → Printed
  last_branch : ℕ → Option ℕ → Printed

-- The symbol near an address, and its name.
unfoldable pub name_near : ℕ → Command (Option ℕ)
unfolding mips_elf_find_address mips_elf_get_symname
name_near addr = do
  found ← mips_elf_find_address addr
  null_check found none λ sym. mips_elf_get_symname sym

-- The name of the symbol at an address exactly.
unfoldable pub name_at : ℕ → Command (Option ℕ)
unfolding mips_elf_find_address mips_elf_get_symname
name_at addr = do
  found ← mips_elf_find_address addr
  null_check found none
      λ sym. (do at ← st_value sym; fail_if (not (at == addr)) none (mips_elf_get_symname sym))

-- `strncmp(symname, "EXN", 3) == 0`
unfoldable pub is_exn : ℕ → Command Bool
is_exn name = do
  d0 ← differs (read_byte name) 0x45
  d1 ← or_else d0 (differs (read_byte (name + 1)) 0x58)
  d2 ← or_else d1 (differs (read_byte (name + 2)) 0x4e)
  pure (not d2)

-- Whether the exception at the program counter is one that the test program expects.
unfoldable pub is_expected : ℕ → Command Bool
unfolding name_at is_exn
is_expected addr = do found ← name_at addr; null_check found false is_exn

-- The two lines that stand for a label that has been reached, if one has.
unfoldable pub label : ℕ → Command (List Printed)
unfolding name_at name_near
label last c =
    (do
      found ← name_at c.pc
      null_check found [] λ name. (do
        at_pc ← name_near c.pc
        at_last ← name_near last
        pure (last_branch last at_last ∷ pc c.pc at_pc ∷ [])))
      c

-- What the loop of `execute` comes to: its end with an exception, or the calls that it was given are
-- used up, or C leaves what it does undefined. The lines printed last come first.
pub data Torture : Type 0 where
  finished : Exception → List Printed → (last : ℕ) → MipsCpu → Torture
  running : List Printed → (last : ℕ) → MipsCpu → Torture
  crashed : Torture

abbrev pub append : List Printed → List Printed → List Printed
append [] out = out
append (x ∷ xs) out = x ∷ append xs out

-- The delay slot is behind the branch, which the loop notes before it goes on.
abbrev pub noted : ℕ → MipsCpu → ℕ
noted last c = if c.delay_slot == 0 then last else (c.delay_slot + 2 ^ 32 - 4) % 2 ^ 32

-- Past the `break` that stands behind an instruction with an expected exception.
abbrev pub skip_break : MipsCpu → MipsCpu
skip_break c = record c { pc = u32 (c.pc + 8) }

-- The continuation of the loop after a command of it.
unfoldable pub go_on : {A : Type 0} → Outcome A → (A → MipsCpu → Torture) → Torture
go_on (done a c) k = k a c
go_on (thrown e c) k = crashed
go_on undefined k = crashed

-- The end of a turn: the loop goes on after MIPS_E_OK and after an expected exception.
unfoldable pub after :
    Option (Exception × MipsCpu) → List Printed → ℕ → (MipsCpu → Torture) → Torture
unfolding is_expected go_on
after none out last k = crashed
after (some (Exception.ok, c)) out last k = k c
after (some (e, c)) out last k =
    go_on (is_expected c.pc c)
      λ expected c'. if expected then k (skip_break c') else finished e out last c'

-- The loop of `execute`, for at most `n` turns.
unfoldable pub execute : ℕ → List Printed → ℕ → MipsCpu → Torture
unfolding label mips_execute after go_on
execute zero out last c = running out last c
execute (suc n) out last c = go_on (label (noted last c) c) λ lines c'.
    after (mips_execute c') (append lines out) (noted last c)
      (execute n (append lines out) (noted last c))

-- The last messages of the program: the exception, what `mips_break_code` returns, the address of
-- the last branch, and the names near it and near the program counter.
pub record Report : Type 0 where
  pub exception : Exception
  pub break_result : ℕ
  pub branch : ℕ
  pub near_branch : Option ℕ
  pub near_pc : Option ℕ

abbrev pub code_result : BreakCode → ℕ
code_result faulted = minus_one
code_result not_valid = minus_one
code_result (decoded opcode result) = result

abbrev pub code_at_break : Command ℕ
code_at_break c = elim (mips_break_code c) [ none ↦ undefined | some b ↦ done (code_result b) c ]

unfoldable pub last_report : Exception → ℕ → Command Report
unfolding mips_break_code name_near
last_report err last = do
  break_result ← code_at_break
  near_branch ← name_near last
  near_pc ← λ c. name_near c.pc c
  pure (record {
    exception = err;
    break_result = break_result;
    branch = last;
    near_branch = near_branch;
    near_pc = near_pc;
  })
