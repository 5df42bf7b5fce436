-- ===== src/Memory/Insert.antt =====
-- The word that `mips_poke_ub` and `mips_poke_uh` write back, byte by byte.
use cspim.Base.{
  ℕ, zero, suc, ◌+◌, ◌*◌, ◌/◌, ◌%◌, ◌^◌, ◌<◌, ◌≡◌, ap, ◌∙◌, ◌==◌, if◌then◌else◌, ◌<<◌, bit_and,
  bit_or, arith, IsWord, not32, u8, u16,
}
use cspim.Base.Bits.{bit_insert}

abbrev pub byte_word : ℕ → ℕ → ℕ → ℕ
byte_word w s v = bit_or (bit_and w (not32 (0xff << (8 * s)))) (u8 v << (8 * s))

abbrev pub half_word : ℕ → ℕ → ℕ → ℕ
half_word w s v = bit_or (bit_and w (not32 (0xffff << (8 * s)))) (u16 v << (8 * s))

-- The field at place `s` is replaced, and the bits above and below it are kept.
byte_word_sum :
    (w s v : ℕ)
    → IsWord w
    → s < 4
    → byte_word w s v ≡ w / 2 ^ (8 * s + 8) * 2 ^ (8 * s + 8) + u8 v * 2 ^ (8 * s) + w % 2 ^ (8 * s)
byte_word_sum w zero v hw h =
    let e : (u8 v << (8 * 0)) ≡ u8 v * 2 ^ 0 = omega arith in
    ap (bit_or (bit_and w (not32 (0xff << (8 * 0))))) e
    ∙ omega (arith, bit_insert 0 8 24 w (u8 v) (omega arith) (omega arith))
byte_word_sum w (suc zero) v hw h =
    let e : (u8 v << (8 * 1)) ≡ u8 v * 2 ^ 8 = omega arith in
    ap (bit_or (bit_and w (not32 (0xff << (8 * 1))))) e
    ∙ omega (arith, bit_insert 8 16 16 w (u8 v) (omega arith) (omega arith))
byte_word_sum w (suc (suc zero)) v hw h =
    let e : (u8 v << (8 * 2)) ≡ u8 v * 2 ^ 16 = omega arith in
    ap (bit_or (bit_and w (not32 (0xff << (8 * 2))))) e
    ∙ omega (arith, bit_insert 16 24 8 w (u8 v) (omega arith) (omega arith))
byte_word_sum w (suc (suc (suc zero))) v hw h =
    let e : (u8 v << (8 * 3)) ≡ u8 v * 2 ^ 24 = omega arith in
    ap (bit_or (bit_and w (not32 (0xff << (8 * 3))))) e
    ∙ omega (arith, bit_insert 24 32 0 w (u8 v) (omega arith) (omega arith))
byte_word_sum w (suc (suc (suc (suc s)))) v hw h = absurd (omega arith)

half_word_sum :
    (w s v : ℕ)
    → IsWord w
    → s < 4
    → s % 2 ≡ 0
    → half_word w s v
      ≡ w / 2 ^ (8 * s + 16) * 2 ^ (8 * s + 16) + u16 v * 2 ^ (8 * s) + w % 2 ^ (8 * s)
half_word_sum w zero v hw h e =
    let e : (u16 v << (8 * 0)) ≡ u16 v * 2 ^ 0 = omega arith in
    ap (bit_or (bit_and w (not32 (0xffff << (8 * 0))))) e
    ∙ omega (arith, bit_insert 0 16 16 w (u16 v) (omega arith) (omega arith))
half_word_sum w (suc zero) v hw h e = absurd (omega arith)
half_word_sum w (suc (suc zero)) v hw h e =
    let e : (u16 v << (8 * 2)) ≡ u16 v * 2 ^ 16 = omega arith in
    ap (bit_or (bit_and w (not32 (0xffff << (8 * 2))))) e
    ∙ omega (arith, bit_insert 16 32 0 w (u16 v) (omega arith) (omega arith))
half_word_sum w (suc (suc (suc zero))) v hw h e = absurd (omega arith)
half_word_sum w (suc (suc (suc (suc s)))) v hw h e = absurd (omega arith)

pub byte_word-IsWord : (w s v : ℕ) → IsWord w → s < 4 → IsWord (byte_word w s v)
byte_word-IsWord w zero v hw h = omega (arith, byte_word_sum w 0 v hw h)
byte_word-IsWord w (suc zero) v hw h = omega (arith, byte_word_sum w 1 v hw h)
byte_word-IsWord w (suc (suc zero)) v hw h = omega (arith, byte_word_sum w 2 v hw h)
byte_word-IsWord w (suc (suc (suc zero))) v hw h = omega (arith, byte_word_sum w 3 v hw h)
byte_word-IsWord w (suc (suc (suc (suc s)))) v hw h = absurd (omega arith)

pub half_word-IsWord : (w s v : ℕ) → IsWord w → s < 4 → s % 2 ≡ 0 → IsWord (half_word w s v)
half_word-IsWord w zero v hw h e = omega (arith, half_word_sum w 0 v hw h e)
half_word-IsWord w (suc zero) v hw h e = absurd (omega arith)
half_word-IsWord w (suc (suc zero)) v hw h e = omega (arith, half_word_sum w 2 v hw h e)
half_word-IsWord w (suc (suc (suc zero))) v hw h e = absurd (omega arith)
half_word-IsWord w (suc (suc (suc (suc s)))) v hw h e = absurd (omega arith)

-- Byte `t` of the word.
pub byte_word_at :
    (w s v t : ℕ)
    → IsWord w
    → s < 4
    → t < 4
    → byte_word w s v / 2 ^ (8 * t) % 2 ^ 8 ≡ (if t == s then u8 v else w / 2 ^ (8 * t) % 2 ^ 8)
byte_word_at w zero v zero hw h g = omega (arith, byte_word_sum w 0 v hw h)
byte_word_at w zero v (suc zero) hw h g = omega (arith, byte_word_sum w 0 v hw h)
byte_word_at w zero v (suc (suc zero)) hw h g = omega (arith, byte_word_sum w 0 v hw h)
byte_word_at w zero v (suc (suc (suc zero))) hw h g = omega (arith, byte_word_sum w 0 v hw h)
byte_word_at w zero v (suc (suc (suc (suc t)))) hw h g = absurd (omega arith)
byte_word_at w (suc zero) v zero hw h g = omega (arith, byte_word_sum w 1 v hw h)
byte_word_at w (suc zero) v (suc zero) hw h g = omega (arith, byte_word_sum w 1 v hw h)
byte_word_at w (suc zero) v (suc (suc zero)) hw h g = omega (arith, byte_word_sum w 1 v hw h)
byte_word_at w (suc zero) v (suc (suc (suc zero))) hw h g = omega (arith, byte_word_sum w 1 v hw h)
byte_word_at w (suc zero) v (suc (suc (suc (suc t)))) hw h g = absurd (omega arith)
byte_word_at w (suc (suc zero)) v zero hw h g = omega (arith, byte_word_sum w 2 v hw h)
byte_word_at w (suc (suc zero)) v (suc zero) hw h g = omega (arith, byte_word_sum w 2 v hw h)
byte_word_at w (suc (suc zero)) v (suc (suc zero)) hw h g = omega (arith, byte_word_sum w 2 v hw h)
byte_word_at w (suc (suc zero)) v (suc (suc (suc zero))) hw h g =
    omega (arith, byte_word_sum w 2 v hw h)
byte_word_at w (suc (suc zero)) v (suc (suc (suc (suc t)))) hw h g = absurd (omega arith)
byte_word_at w (suc (suc (suc zero))) v zero hw h g = omega (arith, byte_word_sum w 3 v hw h)
byte_word_at w (suc (suc (suc zero))) v (suc zero) hw h g = omega (arith, byte_word_sum w 3 v hw h)
byte_word_at w (suc (suc (suc zero))) v (suc (suc zero)) hw h g =
    omega (arith, byte_word_sum w 3 v hw h)
byte_word_at w (suc (suc (suc zero))) v (suc (suc (suc zero))) hw h g =
    omega (arith, byte_word_sum w 3 v hw h)
byte_word_at w (suc (suc (suc zero))) v (suc (suc (suc (suc t)))) hw h g = absurd (omega arith)
byte_word_at w (suc (suc (suc (suc s)))) v t hw h g = absurd (omega arith)

pub half_word_at :
    (w s v t : ℕ)
    → IsWord w
    → s < 4
    → s % 2 ≡ 0
    → t < 4
    → half_word w s v / 2 ^ (8 * t) % 2 ^ 8 ≡ (
        if t == s
        then v % 2 ^ 8
        else if t == s + 1
        then v / 2 ^ 8 % 2 ^ 8
        else w / 2 ^ (8 * t) % 2 ^ 8)
half_word_at w zero v zero hw h e g = omega (arith, half_word_sum w 0 v hw h e)
half_word_at w zero v (suc zero) hw h e g = omega (arith, half_word_sum w 0 v hw h e)
half_word_at w zero v (suc (suc zero)) hw h e g = omega (arith, half_word_sum w 0 v hw h e)
half_word_at w zero v (suc (suc (suc zero))) hw h e g = omega (arith, half_word_sum w 0 v hw h e)
half_word_at w zero v (suc (suc (suc (suc t)))) hw h e g = absurd (omega arith)
half_word_at w (suc zero) v t hw h e g = absurd (omega arith)
half_word_at w (suc (suc zero)) v zero hw h e g = omega (arith, half_word_sum w 2 v hw h e)
half_word_at w (suc (suc zero)) v (suc zero) hw h e g = omega (arith, half_word_sum w 2 v hw h e)
half_word_at w (suc (suc zero)) v (suc (suc zero)) hw h e g =
    omega (arith, half_word_sum w 2 v hw h e)
half_word_at w (suc (suc zero)) v (suc (suc (suc zero))) hw h e g =
    omega (arith, half_word_sum w 2 v hw h e)
half_word_at w (suc (suc zero)) v (suc (suc (suc (suc t)))) hw h e g = absurd (omega arith)
half_word_at w (suc (suc (suc zero))) v t hw h e g = absurd (omega arith)
half_word_at w (suc (suc (suc (suc s)))) v t hw h e g = absurd (omega arith)
