-- ===== src/Memory.antt =====
-- Access to the memory of the simulated CPU (vm/cpuemu.c): the identity access functions, the
-- checked accesses to bytes, halves and words, and the block copies.
pub mod Access
pub mod Checked
pub mod View
pub mod Insert
pub mod Store
pub mod Flat
pub mod Copy
use cspim.Base.{
  ℕ, zero, suc, ◌+◌, ◌*◌, ◌/◌, ◌^◌, ◌%◌, bit_and, bit_or, ◌==◌, if◌then◌else◌, ltb, leb, ◌<<◌,
  ◌>>>◌, u8, u16, u32, sub32, not32, Bool, ◌||◌, not, List, [], ◌∷◌, length,
}
use cspim.Base.Int.{sign_extend}
use cspim.Cpu.{
  lowbase, minus_one, Memory, MipsCpu, Exception, Outcome, done, thrown, undefined, Command, ◌>>=◌,
  ◌>>◌, throw_if,
}

-- `*(mips_uword*)(base + addr)` on a little-endian host.
unfoldable pub mips_identity_peek_uw : Memory → ℕ → ℕ
mips_identity_peek_uw base addr =
    base addr + base (addr + 1) * 2 ^ 8 + base (addr + 2) * 2 ^ 16 + base (addr + 3) * 2 ^ 24

unfoldable pub mips_identity_poke_uw : Memory → ℕ → ℕ → Memory
mips_identity_poke_uw base addr w j =
    if j == addr
    then w % 2 ^ 8
    else if j == addr + 1
    then w / 2 ^ 8 % 2 ^ 8
    else if j == addr + 2
    then w / 2 ^ 16 % 2 ^ 8
    else if j == addr + 3
    then w / 2 ^ 24 % 2 ^ 8
    else base j

-- A word outside the part of the block that follows the CPU state: C does not define the access.
abbrev pub outside : MipsCpu → ℕ → Bool
outside c addr = ltb addr lowbase || ltb c.memsz (addr + 4)

-- `pcpu->peek_uw(pcpu, addr)` and `pcpu->poke_uw(pcpu, addr, w)`
unfoldable pub call_peek_uw : ℕ → Command ℕ
call_peek_uw addr c = if outside c addr then undefined else done (c.peek_uw c.base addr) c

unfoldable pub call_poke_uw : ℕ → ℕ → Command (Unit {0})
call_poke_uw addr w c =
    if outside c addr then undefined else done tt (record c { base = c.poke_uw c.base addr w })

unfoldable pub validate_address : ℕ → ℕ → Command (Unit {0})
validate_address addr align c =
    throw_if (ltb addr lowbase || leb c.memsz addr || not (bit_and addr align == 0))
      Exception.address c

abbrev pub pure : {A : Type 0} → A → Command A
pure = done

-- The signed accesses return the pattern of 32 bits that the result is converted to.
unfoldable pub mips_peek_sb : ℕ → Command ℕ
unfolding validate_address call_peek_uw
mips_peek_sb addr = do
  let s = bit_and addr 3
  validate_address addr 0
  w ← call_peek_uw (sub32 addr s)
  pure (sign_extend 8 (u8 (w >>> (8 * s))))

unfoldable pub mips_peek_sh : ℕ → Command ℕ
unfolding validate_address call_peek_uw
mips_peek_sh addr = do
  let s = bit_and addr 3
  validate_address addr 1
  w ← call_peek_uw (sub32 addr s)
  pure (sign_extend 16 (u16 (w >>> (8 * s))))

unfoldable pub mips_peek_ub : ℕ → Command ℕ
unfolding validate_address call_peek_uw
mips_peek_ub addr = do
  let s = bit_and addr 3
  validate_address addr 0
  w ← call_peek_uw (sub32 addr s)
  pure (u8 (w >>> (8 * s)))

unfoldable pub mips_peek_uh : ℕ → Command ℕ
unfolding validate_address call_peek_uw
mips_peek_uh addr = do
  let s = bit_and addr 3
  validate_address addr 1
  w ← call_peek_uw (sub32 addr s)
  pure (u16 (w >>> (8 * s)))

unfoldable pub mips_peek_uw : ℕ → Command ℕ
unfolding validate_address call_peek_uw
mips_peek_uw addr = do validate_address addr 3; call_peek_uw addr

-- `v` is converted to the type of the parameter, a byte or a half.
unfoldable pub mips_poke_ub : ℕ → ℕ → Command (Unit {0})
unfolding validate_address call_peek_uw call_poke_uw
mips_poke_ub addr v = do
  let s = bit_and addr 3
  validate_address addr 0
  w ← call_peek_uw (sub32 addr s)
  let m = not32 (0xff << (8 * s))
  call_poke_uw (sub32 addr s) (bit_or (bit_and w m) (u8 v << (8 * s)))

unfoldable pub mips_poke_uh : ℕ → ℕ → Command (Unit {0})
unfolding validate_address call_peek_uw call_poke_uw
mips_poke_uh addr v = do
  let s = bit_and addr 3
  validate_address addr 1
  w ← call_peek_uw (sub32 addr s)
  let m = not32 (0xffff << (8 * s))
  call_poke_uw (sub32 addr s) (bit_or (bit_and w m) (u16 v << (8 * s)))

unfoldable pub mips_poke_uw : ℕ → ℕ → Command (Unit {0})
unfolding validate_address call_poke_uw
mips_poke_uw addr v = do validate_address addr 3; call_poke_uw addr v

-- The loop of `mips_copyout`, over the bytes of the host's buffer that are left.
unfoldable pub copyout_loop : ℕ → List ℕ → Command (Unit {0})
unfolding mips_poke_ub
copyout_loop dst [] = pure tt
copyout_loop dst (b ∷ src) = do mips_poke_ub dst b; copyout_loop (u32 (dst + 1)) src

-- `src` holds the `n` bytes to copy; the result is the returned `int`.
unfoldable pub mips_copyout : ℕ → List ℕ → Command ℕ
unfolding copyout_loop
mips_copyout dst src c =
    if leb c.memsz (u32 (dst + length src))
    then done minus_one c
    else (do copyout_loop dst src; pure 0) c

-- The loop of `mips_copyin`, which returns the bytes that it stores.
unfoldable pub copyin_loop : ℕ → ℕ → Command (List ℕ)
unfolding mips_peek_ub
copyin_loop src zero = pure []
copyin_loop src (suc n) = do b ← mips_peek_ub src; bs ← copyin_loop (u32 (src + 1)) n; pure (b ∷ bs)

-- The returned `int`, and the bytes stored at `dst`.
unfoldable pub mips_copyin : ℕ → ℕ → Command (ℕ × List ℕ)
unfolding copyin_loop
mips_copyin src n c =
    if leb c.memsz (u32 (src + n))
    then done (minus_one, []) c
    else (do bs ← copyin_loop src n; pure (0, bs)) c
