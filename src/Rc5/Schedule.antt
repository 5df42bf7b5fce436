-- ===== src/Rc5/Schedule.antt =====
-- The key schedule of hostapps/rc5-16.c: the packed key, the filled table, and the bounds of the
-- table that the mixing leaves.
use cspim.Base.{
  ℕ, zero, suc, ◌+◌, ◌-◌, ◌*◌, ◌/◌, ◌%◌, ◌^◌, ◌≤◌, ◌≡◌, ◌≢◌, ◌∙◌, ap, arith, u16, IsByte, IsHalf,
  if◌then◌else◌, ltb, bit_or,
}
use cspim.Base.Bits.{bit_or_fields_swapped, zero-bit_or}
use cspim.Cpu.{update}
use cspim.Rc5.{
  table_length, magic1, magic2, pack_key, fill_table, Mixing, mix_step, mix, rc5_setup, mix_count,
  setup_start,
}
use cspim.Rc5.Rotate.{rol-IsHalf}
use cspim.Rc5.Inverse.{IsTable}

update-IsTable : (s : ℕ → ℕ) (i v : ℕ) → IsTable s → IsHalf v → IsTable (update s i v)
update-IsTable s i v h hv j = ground (arith, h j)

fill_table-IsTable : (n : ℕ) → IsTable (fill_table n)
unfolding fill_table
fill_table-IsTable zero = update-IsTable _ _ _ (λ _. omega arith) (omega arith)
fill_table-IsTable (suc n) = update-IsTable _ _ _ (fill_table-IsTable n) (omega arith)

mix-IsTable : (k : ℕ) (m : Mixing) → IsTable m.s → IsTable (mix k m).s
unfolding mix mix_step
mix-IsTable zero m h = h
mix-IsTable (suc k) m h =
    mix-IsTable k (mix_step m) (update-IsTable _ _ _ h (rol-IsHalf _ 3 (omega arith)))

-- For every key, rc5_setup leaves a table of 16-bit words.
pub rc5_setup-IsTable : (key : ℕ → ℕ) → IsTable (rc5_setup key)
unfolding rc5_setup
rc5_setup-IsTable key =
    mix-IsTable mix_count (setup_start key) (fill_table-IsTable (table_length - 1))

-- Entry `i` of the table before the mixing is P + i * Q.
pub fill_table-at : (n i : ℕ) → i ≤ n → fill_table n i ≡ u16 (magic1 + i * magic2)
unfolding fill_table
fill_table-at zero i h = ground arith
fill_table-at (suc n) i h = ground (arith, fill_table-at n i, fill_table-at n n)

-- Entry `j` of the packed key holds the key's bytes 2j and 2j + 1 that have been read, the lower
-- one first.
abbrev pub packed : (ℕ → ℕ) → ℕ → ℕ → ℕ
packed key n j =
    (if ltb (2 * j) n then key (2 * j) else 0)
    + 2 ^ 8 * (if ltb (2 * j + 1) n then key (2 * j + 1) else 0)

module _ (key : ℕ → ℕ) (bytes : (i : ℕ) → IsByte (key i)) where
  -- Byte `i` is put into an entry that is empty, or that holds the byte before.
  put_byte :
      (i : ℕ)
      → u16 (bit_or (packed key i (i / 2)) (key i * 2 ^ (8 * (i % 2)))) ≡ packed key (suc i) (i / 2)
  put_byte i = ground (
    arith,
    zero-bit_or (key i),
    bit_or_fields_swapped 8 (key i) (key (2 * (i / 2))) (bytes _),
    bytes i,
    bytes (2 * (i / 2)),
    ap key {x = i} {y = 2 * (i / 2)},
    ap key {x = i} {y = 2 * (i / 2) + 1},
  )

  written :
      (i : ℕ)
      → pack_key key i (i / 2) ≡ packed key i (i / 2)
      → u16 (bit_or (pack_key key i (i / 2)) (key i * 2 ^ (8 * (i % 2))))
        ≡ packed key (suc i) (i / 2)
  written i e = ap (λ (t : ℕ). u16 (bit_or t (key i * 2 ^ (8 * (i % 2))))) e ∙ put_byte i

  untouched : (i j : ℕ) → j ≢ i / 2 → packed key i j ≡ packed key (suc i) j
  untouched i j ne = ground arith

  -- For a key of bytes, after n turns of the loop each entry j of L holds the bytes 2j and 2j + 1
  -- of the key that have been read, lower byte first.
  pub pack_key-at : (n j : ℕ) → pack_key key n j ≡ packed key n j
  unfolding pack_key
  pack_key-at zero j = ground arith
  pack_key-at (suc i) j = ground (
    arith,
    pack_key-at i j,
    written i (pack_key-at i (i / 2)),
    ap (packed key (suc i)) {x = j} {y = i / 2},
    untouched i j,
  )
