-- ===== src/Memory/Access.antt =====
-- What the simulator relies on from the functions behind `peek_uw` and `poke_uw`, and the identity
-- functions of vm/cpuemu.c as an instance.
use cspim.Base.{ℕ, ◌+◌, ◌≤◌, ◌<◌, ◌≡◌, ◌⊎◌, arith, IsByte, IsWord}
use cspim.Cpu.{Memory}
use cspim.Memory.{mips_identity_peek_uw, mips_identity_poke_uw}

abbrev pub IsMemory : Memory → Type 0
IsMemory base = (j : ℕ) → IsByte (base j)

-- Each function acts on the four bytes of its word and on nothing else, and a word that was
-- written is read back.
pub record IsAccess (peek : Memory → ℕ → ℕ) (poke : Memory → ℕ → ℕ → Memory) : Type 0 where
  pub peek-IsWord : (m : Memory) (a : ℕ) → IsMemory m → IsWord (peek m a)
  pub peek_local :
      (m n : Memory) (a : ℕ) → ((j : ℕ) → a ≤ j → j < a + 4 → m j ≡ n j) → peek m a ≡ peek n a
  pub poke-IsMemory : (m : Memory) (a w : ℕ) → IsMemory m → IsWord w → IsMemory (poke m a w)
  pub poke_outside : (m : Memory) (a w j : ℕ) → (j < a) ⊎ (a + 4 ≤ j) → poke m a w j ≡ m j
  pub peek-poke : (m : Memory) (a w : ℕ) → IsWord w → peek (poke m a w) a ≡ w

identity_peek-IsWord : (m : Memory) (a : ℕ) → IsMemory m → IsWord (mips_identity_peek_uw m a)
unfolding mips_identity_peek_uw
identity_peek-IsWord m a h = omega (arith, h a, h (a + 1), h (a + 2), h (a + 3))

identity_peek_local :
    (m n : Memory) (a : ℕ)
    → ((j : ℕ) → a ≤ j → j < a + 4 → m j ≡ n j)
    → mips_identity_peek_uw m a ≡ mips_identity_peek_uw n a
unfolding mips_identity_peek_uw
identity_peek_local m n a h = omega (
  arith,
  h a (omega arith) (omega arith),
  h (a + 1) (omega arith) (omega arith),
  h (a + 2) (omega arith) (omega arith),
  h (a + 3) (omega arith) (omega arith),
)

identity_poke-IsMemory :
    (m : Memory) (a w : ℕ) → IsMemory m → IsWord w → IsMemory (mips_identity_poke_uw m a w)
unfolding mips_identity_poke_uw
identity_poke-IsMemory m a w h hw j = ground (arith, h j)

identity_poke_outside :
    (m : Memory) (a w j : ℕ) → (j < a) ⊎ (a + 4 ≤ j) → mips_identity_poke_uw m a w j ≡ m j
unfolding mips_identity_poke_uw
identity_poke_outside m a w j h = ground arith

identity_peek-poke :
    (m : Memory) (a w : ℕ) → IsWord w → mips_identity_peek_uw (mips_identity_poke_uw m a w) a ≡ w
unfolding mips_identity_peek_uw mips_identity_poke_uw
identity_peek-poke m a w h = ground arith

pub identity-IsAccess : IsAccess mips_identity_peek_uw mips_identity_poke_uw
identity-IsAccess = record {
  peek-IsWord = identity_peek-IsWord;
  peek_local = identity_peek_local;
  poke-IsMemory = identity_poke-IsMemory;
  poke_outside = identity_poke_outside;
  peek-poke = identity_peek-poke;
}
