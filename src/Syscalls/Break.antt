-- ===== src/Syscalls/Break.antt =====
-- `do_sbrk` of vm/hosted/syscalls.c: the break stays below the stack, and moves by 12 bytes.
use cspim.Base.{ℕ, ◌+◌, ◌-◌, ◌%◌, ◌^◌, ◌≤◌, ◌<◌, ◌≡◌, inl, inr, Bool-cases, arith, u32, leb}
use cspim.Base.Bits.{bit_and_mask}
use cspim.Cpu.{MipsCpu}
use cspim.Syscalls.Console.{rounded, move_break}

-- The break is a multiple of 4 below the stack.
abbrev pub IsBreak : MipsCpu → Type 0
IsBreak c = (c.brk % 4 ≡ 0) × (c.brk + c.stksz < c.memsz)

rounded-mod : (amount : ℕ) → rounded amount % 4 ≡ 0
unfolding rounded
rounded-mod amount = ground (arith, bit_and_mask 2 amount)

-- With a memory smaller than 4 GB that holds its stack, do_sbrk keeps the break a multiple of 4
-- that lies below the stack.
pub move_break-IsBreak :
    (c : MipsCpu) → c.memsz < 2 ^ 32 → c.stksz ≤ c.memsz → IsBreak c → IsBreak (move_break c)
unfolding move_break
move_break-IsBreak c small fits (aligned, below) =
    elim (Bool-cases
      (leb ((c.memsz + 2 ^ 64 - c.stksz) % 2 ^ 64) (u32 (c.brk + rounded (c.ur 2))))) [
        | inl e ↦ rw e (aligned, below)
        | inr e ↦ rw e (omega (arith, aligned, rounded-mod (c.ur 2)), ground arith)
      ]
