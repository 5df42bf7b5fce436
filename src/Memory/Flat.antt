-- ===== src/Memory/Flat.antt =====
-- The specification of the checked writes of vm/cpuemu.c: a flat array of bytes, whatever the access
-- functions keep in the block.
use cspim.Base.{
  ℕ, ◌+◌, ◌-◌, ◌*◌, ◌/◌, ◌%◌, ◌^◌, ◌≡◌, ◌∙◌, if◌then◌else◌, ltb, leb, ◌&&◌, true, false, Bool-cases,
  inl, inr, arith, IsWord,
}
use cspim.Cpu.{MipsCpu, Outcome, Exception, done, thrown}
use cspim.Memory.{mips_poke_ub, mips_poke_uh, mips_poke_uw}
use cspim.Memory.Checked.{IsSafe}
use cspim.Memory.View.{guest_byte, accessible}
use cspim.Memory.Store.{
  stored, stored-IsSafe, stored-guest_byte, stored_byte, stored_half, stored_byte-IsSafe,
  stored_half-IsSafe, stored_byte-guest_byte, stored_half-guest_byte, mips_poke_ub-stored,
  mips_poke_uh-stored, mips_poke_uw-stored,
}

-- The array after the low `size` bytes of `v` have been put at `addr`, the lowest one first.
abbrev pub flat_write : (ℕ → ℕ) → ℕ → ℕ → ℕ → ℕ → ℕ
flat_write m addr size v j =
    if leb addr j && ltb j (addr + size) then v / 2 ^ (8 * (j - addr)) % 2 ^ 8 else m j

-- `c'` is `c` with other bytes in its block.
abbrev pub with_base : MipsCpu → (ℕ → ℕ) → MipsCpu
with_base c base = record c { base = base }

-- The outcomes that the specification allows for a write.
pub data Writes (c : MipsCpu) (addr size v : ℕ) : Outcome (Unit {0}) → Type 0 where
  wrote :
      (base : ℕ → ℕ)
      → accessible c addr size ≡ true
      → IsSafe (with_base c base)
      → ((j : ℕ) → guest_byte (with_base c base) j ≡ flat_write (guest_byte c) addr size v j)
      → Writes c addr size v (done tt (with_base c base))
  refused : accessible c addr size ≡ false → Writes c addr size v (thrown Exception.address c)

module _ {c : MipsCpu} (safe : IsSafe c) (addr v : ℕ) (word : IsWord addr) where
  poke_ub-Writes : Writes c addr 1 v (mips_poke_ub addr v c)
  poke_ub-Writes =
      rw (mips_poke_ub-stored safe addr v word) (elim (Bool-cases (accessible c addr 1)) [
        | inl e ↦ rw e (wrote _ e (stored_byte-IsSafe safe addr v word) bytes)
        | inr e ↦ rw e (refused e)
      ])
    where
      bytes : (j : ℕ) → guest_byte (stored_byte c addr v) j ≡ flat_write (guest_byte c) addr 1 v j
      bytes j = stored_byte-guest_byte safe addr v word j ∙ ground arith

  poke_uh-Writes : Writes c addr 2 v (mips_poke_uh addr v c)
  poke_uh-Writes =
      rw (mips_poke_uh-stored safe addr v word) (elim (Bool-cases (accessible c addr 2)) [
        | inl e ↦ rw e (wrote _ e (stored_half-IsSafe safe addr v word (even e)) (bytes (even e)))
        | inr e ↦ rw e (refused e)
      ])
    where
      even : accessible c addr 2 ≡ true → addr % 2 ≡ 0
      even e = ground arith

      bytes :
          addr % 2 ≡ 0
          → (j : ℕ) → guest_byte (stored_half c addr v) j ≡ flat_write (guest_byte c) addr 2 v j
      bytes h j = stored_half-guest_byte safe addr v word j h ∙ ground arith

  poke_uw-Writes : IsWord v → Writes c addr 4 v (mips_poke_uw addr v c)
  poke_uw-Writes hv =
      rw (mips_poke_uw-stored safe addr v word) (elim (Bool-cases (accessible c addr 4)) [
        | inl e ↦ rw e (wrote _ e (stored-IsSafe safe addr v hv) (bytes (aligned e)))
        | inr e ↦ rw e (refused e)
      ])
    where
      aligned : accessible c addr 4 ≡ true → addr % 4 ≡ 0
      aligned e = ground arith

      bytes :
          addr % 4 ≡ 0
          → (j : ℕ) → guest_byte (stored c addr v) j ≡ flat_write (guest_byte c) addr 4 v j
      bytes h j = stored-guest_byte safe addr v hv j h ∙ ground arith

  -- In a safe state, for a 32-bit address and value, each of mips_poke_ub, mips_poke_uh and
  -- mips_poke_uw either writes the bytes of the value at the address in the flat memory of the
  -- program, lowest first, and changes nothing else of it, or throws an address error with the
  -- state unchanged when the access is out of bounds or not aligned.
  pub mips_poke-Writes :
      IsWord v
      → Writes c addr 1 v (mips_poke_ub addr v c)
        × Writes c addr 2 v (mips_poke_uh addr v c)
        × Writes c addr 4 v (mips_poke_uw addr v c)
  mips_poke-Writes hv = (poke_ub-Writes, poke_uh-Writes, poke_uw-Writes hv)
