-- ===== src/Syscalls/Console.antt =====
-- The system calls of vm/hosted/syscalls.c on the console, the break and the clock.
use cspim.Base.{
  ℕ, zero, suc, ◌+◌, ◌-◌, ◌/◌, ◌%◌, ◌^◌, bit_and, if◌then◌else◌, leb, ◌==◌, Option, none, some,
  List, u32,
}
use cspim.Cpu.{MipsCpu, Exception, minus_one, set_ur}
use cspim.Memory.{mips_peek_ub, mips_poke_ub}
use cspim.Syscalls.{Host, Handler, exception_code, returned, returned_with, on_outcome}

-- `do_sbrk`, behind its assertion that the break is a multiple of 4.
unfoldable pub rounded : ℕ → ℕ
rounded amount = if bit_and amount 3 == 0 then amount else u32 (amount + (4 - bit_and amount 3))

unfoldable pub move_break : MipsCpu → MipsCpu
unfolding rounded
move_break c =
    let newbrk = u32 (c.brk + rounded (c.ur 2)) in
    if leb ((c.memsz + 2 ^ 64 - c.stksz) % 2 ^ 64) newbrk
    then set_ur 2 minus_one c
    else set_ur 2 c.brk (record c { brk = newbrk })

module _ {W : Type 0} (host : Host W) where
  unfoldable pub do_print_int : Handler W
  do_print_int w c = some (0, host.flush (host.print_int (c.ur 4) w), c)

  -- The loop of `do_print_string`; `n` bounds its turns.
  unfoldable pub print_loop : ℕ → ℕ → Handler W
  unfolding mips_peek_ub
  print_loop zero ptr w c = none
  print_loop (suc n) ptr w c = on_outcome (mips_peek_ub ptr c) w λ ch w1 c1.
      let rest = print_loop n (u32 (ptr + 1)) (host.putchar ch w1) c1 in
      if ch == 0 then some (0, host.flush w1, c1) else rest

  unfoldable pub do_print_string : Handler W
  unfolding print_loop
  do_print_string w c = print_loop (c.memsz + 1) (c.ur 4) w c

  -- The line that was read, and the number in it, if there is one.
  abbrev pub scanned : Option ℕ → Handler W
  scanned none w c = returned w c
  scanned (some x) w c = returned_with x w c

  abbrev pub after_line : Option (List ℕ) → Handler W
  after_line none w c = none
  after_line (some l) w c = scanned (host.scan_int l) w c

  unfoldable pub do_read_int : Handler W
  do_read_int w c = let (line, w') = host.read_line w in after_line line w' c

  -- A byte is stored, and then the rest runs.
  abbrev pub poke_then : ℕ → ℕ → W → MipsCpu → Handler W → Option (ℕ × W × MipsCpu)
  poke_then addr v w c k = on_outcome (mips_poke_ub addr v c) w (λ _. k)

  -- The loop of `do_read_string`, with `n` more characters wanted, at the address `addr`.
  unfoldable pub read_loop : ℕ → ℕ → Handler W
  unfolding mips_poke_ub
  read_loop zero addr w c = poke_then addr 0 w c returned
  read_loop (suc n) addr w c =
      let (ch, w') = host.getchar w in
      if ch == minus_one
      then poke_then (u32 (addr + 1)) 0 w' c returned
      else if ch == 0xa
      then poke_then addr ch w' c (λ w2 c2. poke_then (u32 (addr + 1)) 0 w2 c2 returned)
      else poke_then addr ch w' c (read_loop n (u32 (addr + 1)))

  unfoldable pub do_read_string : Handler W
  unfolding read_loop
  do_read_string w c = read_loop (c.ur 5 - 1) (c.ur 4) w c

  unfoldable pub do_sbrk : Handler W
  unfolding move_break
  do_sbrk w c = if c.brk % 4 == 0 then some (0, w, move_break c) else none

  unfoldable pub do_print_char : Handler W
  do_print_char w c = returned (host.flush (host.putchar (c.ur 4) w)) c

  unfoldable pub do_read_char : Handler W
  do_read_char w c = let (ch, w') = host.getchar w in returned_with ch w' c

  -- The low word of the time in $v0 and the high word in $v1.
  abbrev pub after_clock : Option ℕ → Handler W
  after_clock none w c = some (exception_code Exception.abort, w, c)
  after_clock (some ns) w c =
      some (0, w, set_ur 3 (ns / 2 ^ 32 % 2 ^ 32) (set_ur 2 (ns % 2 ^ 32) c))

  -- `clock_gettime`
  unfoldable pub do_gettime : Handler W
  do_gettime w c = let (time, w') = host.clock w in after_clock time w' c
