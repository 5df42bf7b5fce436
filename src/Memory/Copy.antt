-- ===== src/Memory/Copy.antt =====
-- The block copies of vm/cpuemu.c, between the host's buffers and the flat array of bytes.
use cspim.Base.{
  ℕ, zero, suc, ◌+◌, ◌-◌, ◌≤◌, ◌<◌, ◌≡◌, refl, ◌∙◌, if◌then◌else◌, ltb, leb, ◌==◌, ◌&&◌, true,
  false, arith, IsWord, u8, u32, length, get_or, List, [], ◌∷◌,
}
use cspim.Cpu.{MipsCpu, Outcome, done, lowbase}
use cspim.Memory.{mips_poke_ub, mips_peek_ub, copyout_loop, copyin_loop, mips_copyout, mips_copyin}
use cspim.Memory.Checked.{IsSafe}
use cspim.Memory.View.{guest_byte, accessible, mips_peek_ub-guest_byte}
use cspim.Memory.Store.{
  stored_byte, stored_byte-IsSafe, stored_byte-guest_byte, mips_poke_ub-stored,
}
use cspim.Memory.Flat.{with_base}

-- The array after a list of bytes has been put at `dst`.
abbrev pub block_write : (ℕ → ℕ) → ℕ → List ℕ → ℕ → ℕ
block_write m dst src j =
    if leb dst j && ltb j (dst + length src) then u8 (get_or src (j - dst) 0) else m j

-- The bytes from `src` on.
abbrev pub guest_bytes : MipsCpu → ℕ → ℕ → List ℕ
guest_bytes c src zero = []
guest_bytes c src (suc n) = guest_byte c src ∷ guest_bytes c (src + 1) n

-- A state in which the bytes have been copied.
pub record Copied (c : MipsCpu) (dst : ℕ) (src : List ℕ) {A : Type 0} (r : A) (o : Outcome A)
    : Type 0 where
  pub base : ℕ → ℕ
  pub outcome : o ≡ done r (with_base c base)
  pub safe : IsSafe (with_base c base)
  pub bytes : (j : ℕ) → guest_byte (with_base c base) j ≡ block_write (guest_byte c) dst src j

module _ {c : MipsCpu} (safe : IsSafe c) where
  poke_ub_inside :
      (addr v : ℕ)
      → lowbase ≤ addr
      → addr < c.memsz
      → mips_poke_ub addr v c ≡ done tt (stored_byte c addr v)
  poke_ub_inside addr v low high =
      mips_poke_ub-stored safe addr v (omega (arith, safe.address_space))
      ∙ (let e : accessible c addr 1 ≡ true = ground arith in rw e refl)

  peek_ub_inside :
      (addr : ℕ)
      → lowbase ≤ addr
      → addr < c.memsz
      → mips_peek_ub addr c ≡ done (guest_byte c addr) c
  peek_ub_inside addr low high =
      mips_peek_ub-guest_byte c addr safe (omega (arith, safe.address_space))
      ∙ (let e : accessible c addr 1 ≡ true = ground arith in rw e refl)

  copyin_loop-guest_bytes :
      (n src : ℕ)
      → lowbase ≤ src
      → src + n < c.memsz
      → copyin_loop src n c ≡ done (guest_bytes c src n) c
  unfolding copyin_loop
  copyin_loop-guest_bytes zero src low high = refl
  copyin_loop-guest_bytes (suc n) src low high =
      let same : u32 (src + 1) ≡ src + 1 = omega (arith, safe.address_space) in
      rw
        (
          peek_ub_inside src low (omega arith),
          same,
          copyin_loop-guest_bytes n (src + 1) (omega arith) (omega arith),
        )
        refl

  -- In a safe state, for a source not below MIPS_LOWBASE from which the bytes end before the last
  -- byte of the memory, mips_copyin returns 0 and the bytes of the program from there on, and
  -- leaves the state as it is.
  pub mips_copyin-guest_bytes :
      (src n : ℕ)
      → lowbase ≤ src
      → src + n < c.memsz
      → mips_copyin src n c ≡ done (0, guest_bytes c src n) c
  unfolding mips_copyin
  mips_copyin-guest_bytes src n low high =
      let e : leb c.memsz (u32 (src + n)) ≡ false = ground (arith, safe.address_space) in
      rw (e, copyin_loop-guest_bytes n src low high) refl

  copyout_loop-cons :
      (b : ℕ) (src : List ℕ) (dst : ℕ)
      → lowbase ≤ dst
      → dst + suc (length src) < c.memsz
      → copyout_loop dst (b ∷ src) c ≡ copyout_loop (dst + 1) src (stored_byte c dst b)
  unfolding copyout_loop
  copyout_loop-cons b src dst low high =
      let same : u32 (dst + 1) ≡ dst + 1 = omega (arith, safe.address_space) in
      rw (poke_ub_inside dst b low (omega arith), same) refl

get_or-cons : (b : ℕ) (src : List ℕ) (k i : ℕ) → k ≡ suc i → get_or (b ∷ src) k 0 ≡ get_or src i 0
get_or-cons b src k i e = rw e refl

get_or-first : (b : ℕ) (src : List ℕ) (k : ℕ) → k ≡ 0 → get_or (b ∷ src) k 0 ≡ b
get_or-first b src k e = rw e refl

-- One byte, and then the others.
block_write-cons :
    (m m' : ℕ → ℕ) (dst b : ℕ) (src : List ℕ) (j : ℕ)
    → m' j ≡ (if j == dst then u8 b else m j)
    → block_write m' (dst + 1) src j ≡ block_write m dst (b ∷ src) j
block_write-cons m m' dst b src j h =
    ground (arith, h, get_or-first b src (j - dst), get_or-cons b src (j - dst) (j - (dst + 1)))

copyout_loop-Copied :
    (src : List ℕ) {c : MipsCpu} (dst : ℕ)
    → IsSafe c
    → lowbase ≤ dst
    → dst + length src < c.memsz
    → Copied c dst src tt (copyout_loop dst src c)
unfolding copyout_loop
copyout_loop-Copied [] {c = c} dst safe low high = record {
  base = c.base;
  outcome = refl;
  safe = safe;
  bytes = λ j. ground arith;
}
copyout_loop-Copied (b ∷ src) {c = c} dst safe low high =
    let word : IsWord dst = omega (arith, safe.address_space) in
    let rest =
      copyout_loop-Copied src {c = stored_byte c dst b} (dst + 1)
        (stored_byte-IsSafe safe dst b word) (omega arith) (omega arith) in
    record {
      base = rest.base;
      outcome = copyout_loop-cons safe b src dst low high ∙ rest.outcome;
      safe = rest.safe;
      bytes = λ j.
          rest.bytes j
          ∙ block_write-cons (guest_byte c) (guest_byte (stored_byte c dst b)) dst b src j
              (stored_byte-guest_byte safe dst b word j);
    }

-- In a safe state, for a destination not below MIPS_LOWBASE from which the bytes end before the
-- last byte of the memory, mips_copyout returns 0, writes the bytes there and changes no other
-- byte.
pub mips_copyout-Copied :
    {c : MipsCpu} (dst : ℕ) (src : List ℕ)
    → IsSafe c
    → lowbase ≤ dst
    → dst + length src < c.memsz
    → Copied c dst src 0 (mips_copyout dst src c)
unfolding mips_copyout
mips_copyout-Copied {c} dst src safe low high =
    let copied = copyout_loop-Copied src dst safe low high in
    let e : leb c.memsz (u32 (dst + length src)) ≡ false = ground (arith, safe.address_space) in
    record {
      base = copied.base;
      outcome = rw (e, copied.outcome) refl;
      safe = copied.safe;
      bytes = copied.bytes;
    }
