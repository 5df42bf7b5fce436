-- ===== src/Rc5.antt =====
-- hostapps/rc5-16.c: the cipher RC5 on words of 16 bits, and the access functions of
-- hostapps/util.c that keep the memory of the simulated CPU encrypted.
pub mod Rotate
pub mod Inverse
pub mod Schedule
pub mod Sequences
pub mod Encrypted
use cspim.Base.{
  ℕ, zero, suc, ◌+◌, ◌-◌, ◌*◌, ◌/◌, ◌%◌, ◌^◌, bit_and, bit_or, bit_xor, if◌then◌else◌, ltb, u16,
}
use cspim.Cpu.{Memory, update}
use cspim.Memory.{mips_identity_peek_uw, mips_identity_poke_uw}

-- RC5_KEYLEN and RC5_ROUNDS
abbrev pub key_length : ℕ
key_length = 16

abbrev pub rounds : ℕ
rounds = 12

-- T and LL: the lengths of the arrays `S` and `L`.
abbrev pub table_length : ℕ
table_length = 2 * (rounds + 1)

abbrev pub helper_length : ℕ
helper_length = (key_length + 2 - 1) / 2

-- P and Q
abbrev pub magic1 : ℕ
magic1 = 0xb7e1

abbrev pub magic2 : ℕ
magic2 = 0x9e37

-- `x << n` stays below 2 ^ 31, so the shift is exact in C's `int`.
unfoldable pub rol : ℕ → ℕ → ℕ
rol x n = let m = bit_and n 15 in u16 (bit_or (x * 2 ^ m) (x / 2 ^ (16 - m)))

unfoldable pub ror : ℕ → ℕ → ℕ
ror x n = let m = bit_and n 15 in u16 (bit_or (x / 2 ^ m) (x * 2 ^ (16 - m)))

-- The loop that packs the key: the array `L` after the first `n` bytes of the key.
unfoldable pub pack_key : (ℕ → ℕ) → ℕ → ℕ → ℕ
pack_key key zero = λ _. 0
pack_key key (suc i) =
    let l = pack_key key i in
    update l (i / 2) (u16 (bit_or (l (i / 2)) (key i * 2 ^ (8 * (i % 2)))))

-- The loop that fills `S`: the entries up to the index `n`.
unfoldable pub fill_table : ℕ → ℕ → ℕ
fill_table zero = update (λ _. 0) 0 magic1
fill_table (suc i) = let s = fill_table i in update s (suc i) (u16 (s i + magic2))

-- The variables of the loop that mixes the key into the table.
pub record Mixing : Type 0 where
  pub s : ℕ → ℕ
  pub l : ℕ → ℕ
  pub a : ℕ
  pub b : ℕ
  pub i : ℕ
  pub j : ℕ

unfoldable pub mix_step : Mixing → Mixing
unfolding rol
mix_step m =
    let a = rol (u16 (m.s m.i + m.a + m.b)) 3 in
    let b = rol (u16 (m.l m.j + a + m.b)) (u16 (a + m.b)) in
    record {
      s = update m.s m.i a;
      l = update m.l m.j b;
      a = a;
      b = b;
      i = (m.i + 1) % table_length;
      j = (m.j + 1) % helper_length;
    }

unfoldable pub mix : ℕ → Mixing → Mixing
unfolding mix_step
mix zero m = m
mix (suc k) m = mix k (mix_step m)

abbrev pub mix_count : ℕ
mix_count = if ltb table_length helper_length then 3 * helper_length else 3 * table_length

-- The variables before the mixing.
abbrev pub setup_start : (ℕ → ℕ) → Mixing
setup_start key = record {
  s = fill_table (table_length - 1);
  l = pack_key key key_length;
  a = 0;
  b = 0;
  i = 0;
  j = 0;
}

-- `ks->S` as `rc5_setup` leaves it, from `ks->key`.
unfoldable pub rc5_setup : (ℕ → ℕ) → ℕ → ℕ
unfolding pack_key fill_table mix
rc5_setup key = (mix mix_count (setup_start key)).s

-- One turn of each loop, on the pair of A and B.
unfoldable pub encrypt_round : (ℕ → ℕ) → ℕ → ℕ × ℕ → ℕ × ℕ
unfolding rol
encrypt_round s i (a, b) =
    let a' = u16 (rol (bit_xor a b) b + s (2 * i)) in
    (a', u16 (rol (bit_xor b a') a' + s (2 * i + 1)))

unfoldable pub decrypt_round : (ℕ → ℕ) → ℕ → ℕ × ℕ → ℕ × ℕ
unfolding ror
decrypt_round s i (a, b) =
    let b' = bit_xor (ror (u16 (b + 2 ^ 16 - s (2 * i + 1))) a) a in
    (bit_xor (ror (u16 (a + 2 ^ 16 - s (2 * i))) b') b', b')

-- The turns 1 to `i`, and the turns from `i` down to 1.
unfoldable pub encrypt_rounds : (ℕ → ℕ) → ℕ → ℕ × ℕ → ℕ × ℕ
unfolding encrypt_round
encrypt_rounds s zero ab = ab
encrypt_rounds s (suc i) ab = encrypt_round s (suc i) (encrypt_rounds s i ab)

unfoldable pub decrypt_rounds : (ℕ → ℕ) → ℕ → ℕ × ℕ → ℕ × ℕ
unfolding decrypt_round
decrypt_rounds s zero ab = ab
decrypt_rounds s (suc i) ab = decrypt_rounds s i (decrypt_round s (suc i) ab)

-- The four bytes of a block.
pub data Block : Type 0 where
  block : ℕ → ℕ → ℕ → ℕ → Block

-- The lines that store A and B.
abbrev pub write_block : ℕ × ℕ → Block
write_block (a, b) = block (bit_and a 0xff) (a / 2 ^ 8) (bit_and b 0xff) (b / 2 ^ 8)

unfoldable pub rc5_ecb_encrypt : (ℕ → ℕ) → Block → Block
unfolding encrypt_rounds
rc5_ecb_encrypt s (block x0 x1 x2 x3) = write_block (
    encrypt_rounds s rounds
      (u16 (bit_or x0 (x1 * 2 ^ 8) + s 0), u16 (bit_or x2 (x3 * 2 ^ 8) + s 1)))

unfoldable pub subtract_first : (ℕ → ℕ) → ℕ × ℕ → ℕ × ℕ
subtract_first s (a, b) = (u16 (a + 2 ^ 16 - s 0), u16 (b + 2 ^ 16 - s 1))

unfoldable pub rc5_ecb_decrypt : (ℕ → ℕ) → Block → Block
unfolding decrypt_rounds subtract_first
rc5_ecb_decrypt s (block x0 x1 x2 x3) =
    write_block
      (subtract_first s (decrypt_rounds s rounds (bit_or (x1 * 2 ^ 8) x0, bit_or (x3 * 2 ^ 8) x2)))

-- A word in memory as a block, on a little-endian host.
abbrev pub block_of : ℕ → Block
block_of w = block (w % 2 ^ 8) (w / 2 ^ 8 % 2 ^ 8) (w / 2 ^ 16 % 2 ^ 8) (w / 2 ^ 24 % 2 ^ 8)

abbrev pub word_of_block : Block → ℕ
word_of_block (block x0 x1 x2 x3) = x0 + x1 * 2 ^ 8 + x2 * 2 ^ 16 + x3 * 2 ^ 24

-- The access functions that util.c installs when a key is given; `Gkey.S` is a parameter.
unfoldable pub rc5_peek : (ℕ → ℕ) → Memory → ℕ → ℕ
unfolding rc5_ecb_decrypt mips_identity_peek_uw
rc5_peek s base addr =
    word_of_block (rc5_ecb_decrypt s (block_of (mips_identity_peek_uw base addr)))

unfoldable pub rc5_poke : (ℕ → ℕ) → Memory → ℕ → ℕ → Memory
unfolding rc5_ecb_encrypt mips_identity_poke_uw
rc5_poke s base addr w =
    mips_identity_poke_uw base addr (word_of_block (rc5_ecb_encrypt s (block_of w)))
