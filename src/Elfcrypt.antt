-- ===== src/Elfcrypt.antt =====
-- hostapps/elfcrypt.c: the tool that encrypts the segments of an ELF file.
pub mod Blocks
pub mod Headers
pub mod Loaded
use cspim.Base.{
  ℕ, zero, suc, ◌+◌, ◌*◌, ◌/◌, ◌%◌, ◌^◌, if◌then◌else◌, ltb, leb, ◌==◌, ◌||◌, not, Bool, u32,
  Option, none, some,
}
use cspim.Cpu.{Memory}
use cspim.Memory.{mips_identity_poke_uw}
use cspim.Rc5.{block, word_of_block, rc5_ecb_encrypt, rc5_setup}
use cspim.Elf.{et_exec, pt_load, ehdr_size}
use cspim.Runner.{AscKey, rc5_convert_key}

-- The messages behind which the tool exits with 1 or returns 1.
pub data Failure : Type 0 where
  bad_key : Failure
  no_magic : Failure
  not_lsb_32 : Failure
  structure_mismatch : Failure
  not_executable : Failure
  no_program_headers : Failure
  bad_table_bounds : Failure
  segment_out_of_bounds : ℕ → Failure
  size_not_multiple : Failure
  no_load_segments : Failure

-- What a part of the tool comes to.
pub data Tool (A : Type 0) : Type 0 where
  value : A → Tool A
  fails : Failure → Tool A
  crashed : Tool A

module _ {A B : Type 0} where
  infixl 5 ◌>>=◌
  abbrev pub ◌>>=◌ : Tool A → (A → Tool B) → Tool B
  value a >>= k = k a
  fails f >>= k = fails f
  crashed >>= k = crashed

abbrev pub fail_when : {A : Type 0} → Bool → Failure → Tool A → Tool A
fail_when b f m = if b then fails f else m

-- `continue` with the given state, unless the test holds.
abbrev skip_unless : {A : Type 0} → Bool → A → Tool A → Tool A
skip_unless b a m = if b then m else value a

-- Reads of the file in memory; C does not define one behind its end.
module _ (elf : Memory) (elfsz : ℕ) where
  abbrev pub half_at : ℕ → Tool ℕ
  half_at off = if ltb elfsz (off + 2) then crashed else value (elf off + elf (off + 1) * 2 ^ 8)

  abbrev pub word_at : ℕ → Tool ℕ
  word_at off =
      if ltb elfsz (off + 4)
      then crashed
      else value (elf off + elf (off + 1) * 2 ^ 8 + elf (off + 2) * 2 ^ 16 + elf (off + 3) * 2 ^ 24)

  abbrev pub byte_at : ℕ → Tool ℕ
  byte_at off = if ltb off elfsz then value (elf off) else crashed

  -- The last checks: the type, and the table of the program headers.
  unfoldable pub check_table : ℕ → Tool (Unit {0})
  check_table phentsize = do
    type ← half_at 16
    fail_when (not (type == et_exec)) not_executable (do
      phnum ← half_at 44
      fail_when (phnum == 0) no_program_headers (do
        phoff ← word_at 28
        fail_when (ltb elfsz (u32 (phoff + phnum * phentsize))) bad_table_bounds (value tt)))

  -- `check_eh_limits` of the tool. The right side of each `||` is read only when the left one fails.
  unfoldable pub check_eh_limits : Tool (Unit {0})
  unfolding check_table
  check_eh_limits = do
    magic ← word_at 0
    fail_when (not (magic == 0x464c_457f)) no_magic (do
      class ← byte_at 4
      fail_when (not (class == 1)) not_lsb_32 (do
        encoding ← byte_at 5
        fail_when (not (encoding == 1)) not_lsb_32 (do
          ehsize ← half_at 40
          fail_when (not (ehsize == ehdr_size)) structure_mismatch (do
            phentsize ← half_at 42
            fail_when (not (phentsize == 32)) structure_mismatch (check_table phentsize)))))

-- `rc5_ecb_encrypt(pk, p, p)` on the block at `a`.
unfoldable pub encrypt_at : (ℕ → ℕ) → Memory → ℕ → Memory
unfolding rc5_ecb_encrypt mips_identity_poke_uw
encrypt_at s m a =
    mips_identity_poke_uw m a
      (word_of_block (rc5_ecb_encrypt s (block (m a) (m (a + 1)) (m (a + 2)) (m (a + 3)))))

-- The loop of `crypt_segment` while the header stays as it is: `n` blocks from the address `a` on.
unfoldable pub crypt_blocks : (ℕ → ℕ) → ℕ → ℕ → Memory → Memory
unfolding encrypt_at
crypt_blocks s zero a m = m
crypt_blocks s (suc n) a m = crypt_blocks s n (a + 4) (encrypt_at s m a)

-- The loop of `crypt_segment`, for at most `n` turns from the index `i` on. `ph->p_filesz` is read
-- again in each turn, from the file as it is then; C does not define the access to a block behind
-- the end of the file.
unfoldable pub crypt_loop : (ℕ → ℕ) → ℕ → ℕ → ℕ → ℕ → ℕ → Memory → Tool Memory
unfolding encrypt_at
crypt_loop s elfsz ph p zero i m = crashed
crypt_loop s elfsz ph p (suc n) i m =
    let rest = crypt_loop s elfsz ph p n (u32 (i + 4)) (encrypt_at s m (p + i)) in
    (do
      filesz ← word_at m elfsz (ph + 16)
      (if ltb i filesz then if ltb elfsz (p + i + 4) then crashed else rest else value m))

-- Behind as many turns as a file below 4 GB has blocks, the next block lies behind its end.
abbrev pub segment_turns : ℕ → ℕ
segment_turns elfsz = suc (elfsz / 4)

-- `crypt_segment` for the header at `ph`.
unfoldable pub crypt_segment : (ℕ → ℕ) → ℕ → ℕ → Memory → Tool Memory
unfolding crypt_loop
crypt_segment s elfsz ph elf = do
  offset ← word_at elf elfsz (ph + 4)
  crypt_loop s elfsz ph offset (segment_turns elfsz) 0 elf

-- One turn of the loop of `main`: the test of the type and the bounds reads the header at `ph`,
-- which the loop does not move, and the segment is that of `ph + i`.
unfoldable pub crypt_header : (ℕ → ℕ) → ℕ → ℕ → ℕ → Memory × ℕ → Tool (Memory × ℕ)
unfolding crypt_segment
crypt_header s elfsz ph i (elf, cnt) = do
  type ← word_at elf elfsz ph
  skip_unless (type == pt_load) (elf, cnt)
      (do
        offset ← word_at elf elfsz (ph + 4)
        filesz ← word_at elf elfsz (ph + 16)
        memsz ← word_at elf elfsz (ph + 20)
        fail_when (leb elfsz (u32 (offset + filesz))) (segment_out_of_bounds i) (
            fail_when (not (filesz % 4 == 0) || not (memsz % 4 == 0)) size_not_multiple
              (do elf' ← crypt_segment s elfsz (ph + i * 32) elf; value (elf', cnt + 1))))

-- The loop, from the index `i` on and for at most `n` turns. The number of headers is read again in
-- each turn, from the file as it is then.
unfoldable pub headers_loop : (ℕ → ℕ) → ℕ → ℕ → ℕ → ℕ → Memory × ℕ → Tool (Memory × ℕ)
unfolding crypt_header
headers_loop s elfsz ph zero i state = value state
headers_loop s elfsz ph (suc n) i state =
    let rest = headers_loop s elfsz ph n (i + 1) in
    (do
      phnum ← half_at state.0 elfsz 44
      skip_unless (ltb i phnum) state (do state' ← crypt_header s elfsz ph i state; rest state'))

-- The expanded key, for the text of the command line.
abbrev pub converted : Option (ℕ → ℕ) → Tool (ℕ → ℕ)
converted none = fails bad_key
converted (some key) = value (rc5_setup key)

-- More turns than `e_phnum`, a number of 16 bits, allows.
abbrev pub header_turns : ℕ
header_turns = 2 ^ 16

-- The part of `main` behind the checks of the header, for at most `n` turns of the loop: the contents
-- of the file that it writes.
unfoldable pub crypt_headers : ℕ → (ℕ → ℕ) → Memory → ℕ → Tool Memory
unfolding headers_loop
crypt_headers n s elf elfsz = do
  ph ← word_at elf elfsz 28
  state ← headers_loop s elfsz ph n 0 (elf, 0)
  fail_when (state.1 == 0) no_load_segments (value state.0)

-- `main` behind the reading of the file. The key that `rc5_convert_key` fills is not initialised,
-- and starts as `key`.
unfoldable pub main : AscKey → (ℕ → ℕ) → Memory → ℕ → Tool Memory
unfolding rc5_convert_key rc5_setup check_eh_limits crypt_headers
main (hex_length, scan) key elf elfsz = do
  s ← converted (rc5_convert_key hex_length scan key)
  checked ← check_eh_limits elf elfsz
  crypt_headers header_turns s elf elfsz
