-- ===== src/Isa/Unaligned.antt =====
-- LWL, LWR, SWL and SWR of vm/cpuemu.c combine words by shifts and masks; byte by byte, they move
-- the part of an unaligned word that lies in one aligned word.
use native.Mathlib.Nat.{div-add-mod, one-le-pow, mod-eq_of_lt}
use cspim.Base.{
  ℕ, zero, suc, ◌+◌, ◌-◌, ◌*◌, ◌/◌, ◌%◌, ◌^◌, ◌<◌, ◌≡◌, refl, ap, ap₂, ◌∙◌, if◌then◌else◌, leb,
  bit_and, bit_or, ◌<<◌, ◌>>>◌, arith, IsWord,
}
use cspim.Base.Bits.{
  bit_and_mask, bit_and_split, bit_or_fields, bit_or_fields_swapped, bit_or-zero, zero-bit_or,
  bit_and-zero,
}
use cspim.Instruction.LoadStore.{lwl_word, lwr_word, swl_word, swr_word}
use cspim.Isa.{byte_of, of_bytes}

-- A word under a mask of `l` ones above `k` zeros.
high_part :
    (k l m b : ℕ) → m ≡ (2 ^ l - 1) * 2 ^ k → b / 2 ^ k < 2 ^ l → bit_and b m ≡ b / 2 ^ k * 2 ^ k
high_part k l m b e h =
    let parts : b ≡ b / 2 ^ k * 2 ^ k + b % 2 ^ k = omega (arith, div-add-mod b (2 ^ k)) in
    let mask : m ≡ (2 ^ l - 1) * 2 ^ k + 0 = omega arith in
    let pos : 0 < 2 ^ k = one-le-pow k 2 (omega arith) in
    ap₂ bit_and parts mask
    ∙ bit_and_split k (b / 2 ^ k) (2 ^ l - 1) (b % 2 ^ k) 0 (omega arith) pos
    ∙ omega (
      arith,
      ap (λ (t : ℕ). t * 2 ^ k) (bit_and_mask l (b / 2 ^ k)),
      ap (λ (t : ℕ). t * 2 ^ k) (mod-eq_of_lt h),
      bit_and-zero (b % 2 ^ k),
    )

-- `x | (b & m)` where `m` keeps the bits below 2 ^ k, and `x` has none of them; and the other way.
keep_low : (k a x b : ℕ) → x ≡ a * 2 ^ k → bit_or x (bit_and b (2 ^ k - 1)) ≡ a * 2 ^ k + b % 2 ^ k
keep_low k a x b e =
    ap₂ bit_or e (bit_and_mask k b) ∙ bit_or_fields k a (b % 2 ^ k) (omega (arith, one-le-pow k 2))

keep_high :
    (k l m x b : ℕ)
    → m ≡ (2 ^ l - 1) * 2 ^ k
    → b / 2 ^ k < 2 ^ l
    → x < 2 ^ k
    → bit_or x (bit_and b m) ≡ b / 2 ^ k * 2 ^ k + x
keep_high k l m x b e h hx =
    ap (bit_or x) (high_part k l m b e h) ∙ bit_or_fields_swapped k (b / 2 ^ k) x hx

keep_low_swapped :
    (k a x b : ℕ) → x ≡ a * 2 ^ k → bit_or (bit_and b (2 ^ k - 1)) x ≡ a * 2 ^ k + b % 2 ^ k
keep_low_swapped k a x b e =
    ap₂ bit_or (bit_and_mask k b) e
    ∙ bit_or_fields_swapped k a (b % 2 ^ k) (omega (arith, one-le-pow k 2))

keep_high_swapped :
    (k l m x b : ℕ)
    → m ≡ (2 ^ l - 1) * 2 ^ k
    → b / 2 ^ k < 2 ^ l
    → x < 2 ^ k
    → bit_or (bit_and b m) x ≡ b / 2 ^ k * 2 ^ k + x
keep_high_swapped k l m x b e h hx =
    ap (λ (t : ℕ). bit_or t x) (high_part k l m b e h) ∙ bit_or_fields k (b / 2 ^ k) x hx

module _ (w rt : ℕ) (hw : IsWord w) (ht : IsWord rt) where
  pub lwl_word-of_bytes :
      (s : ℕ)
      → s < 4
      → lwl_word s w rt
        ≡ of_bytes (λ i. if leb 3 (i + s) then byte_of w (i + s - 3) else byte_of rt i)
  unfolding lwl_word
  lwl_word-of_bytes zero h = keep_low 24 (w % 2 ^ 8) (w << 24) rt (omega arith) ∙ omega arith
  lwl_word-of_bytes (suc zero) h = keep_low 16 (w % 2 ^ 16) (w << 16) rt (omega arith) ∙ omega arith
  lwl_word-of_bytes (suc (suc zero)) h =
      keep_low 8 (w % 2 ^ 24) (w << 8) rt (omega arith) ∙ omega arith
  lwl_word-of_bytes (suc (suc (suc zero))) h = bit_or-zero (w << 0) ∙ omega arith
  lwl_word-of_bytes (suc (suc (suc (suc s)))) h = absurd (omega arith)

  pub lwr_word-of_bytes :
      (s : ℕ)
      → s < 4
      → lwr_word s w rt ≡ of_bytes (λ i. if leb (i + s) 3 then byte_of w (i + s) else byte_of rt i)
  unfolding lwr_word
  lwr_word-of_bytes zero h = bit_or-zero (w >>> 0) ∙ omega arith
  lwr_word-of_bytes (suc zero) h =
      keep_high 24 8 0xff00_0000 (w >>> 8) rt refl (omega arith) (omega arith) ∙ omega arith
  lwr_word-of_bytes (suc (suc zero)) h =
      keep_high 16 16 0xffff_0000 (w >>> 16) rt refl (omega arith) (omega arith) ∙ omega arith
  lwr_word-of_bytes (suc (suc (suc zero))) h =
      keep_high 8 24 0xffff_ff00 (w >>> 24) rt refl (omega arith) (omega arith) ∙ omega arith
  lwr_word-of_bytes (suc (suc (suc (suc s)))) h = absurd (omega arith)

  pub swl_word-of_bytes :
      (s : ℕ)
      → s < 4
      → swl_word s w rt ≡ of_bytes (λ i. if leb i s then byte_of rt (i + 3 - s) else byte_of w i)
  unfolding swl_word
  swl_word-of_bytes zero h =
      keep_high_swapped 8 24 0xffff_ff00 (rt >>> 24) w refl (omega arith) (omega arith)
      ∙ omega arith
  swl_word-of_bytes (suc zero) h =
      keep_high_swapped 16 16 0xffff_0000 (rt >>> 16) w refl (omega arith) (omega arith)
      ∙ omega arith
  swl_word-of_bytes (suc (suc zero)) h =
      keep_high_swapped 24 8 0xff00_0000 (rt >>> 8) w refl (omega arith) (omega arith) ∙ omega arith
  swl_word-of_bytes (suc (suc (suc zero))) h = zero-bit_or (rt >>> 0) ∙ omega arith
  swl_word-of_bytes (suc (suc (suc (suc s)))) h = absurd (omega arith)

  pub swr_word-of_bytes :
      (s : ℕ)
      → s < 4
      → swr_word s w rt ≡ of_bytes (λ i. if leb s i then byte_of rt (i - s) else byte_of w i)
  unfolding swr_word
  swr_word-of_bytes zero h = zero-bit_or (rt << 0) ∙ omega arith
  swr_word-of_bytes (suc zero) h =
      keep_low_swapped 8 (rt % 2 ^ 24) (rt << 8) w (omega arith) ∙ omega arith
  swr_word-of_bytes (suc (suc zero)) h =
      keep_low_swapped 16 (rt % 2 ^ 16) (rt << 16) w (omega arith) ∙ omega arith
  swr_word-of_bytes (suc (suc (suc zero))) h =
      keep_low_swapped 24 (rt % 2 ^ 8) (rt << 24) w (omega arith) ∙ omega arith
  swr_word-of_bytes (suc (suc (suc (suc s)))) h = absurd (omega arith)
