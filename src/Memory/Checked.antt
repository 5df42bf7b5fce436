-- ===== src/Memory/Checked.antt =====
-- The checked accesses stay inside the block: with a memory size that is a multiple of 4 below 2 ^ 32, an access
-- either throws with the state unchanged or acts on a word between `lowbase` and the end.
use cspim.Base.{ℕ, ◌+◌, ◌-◌, ◌%◌, ◌^◌, ◌≤◌, ◌<◌, ◌≡◌}
use cspim.Cpu.{MipsCpu, lowbase}
use cspim.Memory.{}
use cspim.Memory.Access.{IsMemory, IsAccess}

-- What does not change while a program runs, and makes its memory accesses safe.
pub record IsSafe (c : MipsCpu) : Type 0 where
  pub access : IsAccess c.peek_uw c.poke_uw
  pub bytes : IsMemory c.base
  pub whole_words : c.memsz % 4 ≡ 0
  pub address_space : c.memsz < 2 ^ 32

-- A word that may be accessed.
abbrev pub Inside : MipsCpu → ℕ → Type 0
Inside c a = (a % 4 ≡ 0) × (lowbase ≤ a) × (a + 4 ≤ c.memsz)

-- The address of the word that holds the byte at `addr`.
abbrev pub word_of : ℕ → ℕ
word_of addr = addr - addr % 4
