-- ===== src/Rc5/Inverse.antt =====
-- The cipher of hostapps/rc5-16.c can be undone: rounds, blocks and words.
use cspim.Base.{
  ℕ, zero, suc, ◌+◌, ◌-◌, ◌*◌, ◌/◌, ◌%◌, ◌^◌, ◌≡◌, ◌∙◌, ap, ap₂, refl, arith, u16, IsByte, IsHalf,
  bit_xor,
}
use cspim.Base.Bits.{
  bit_xor-bit_xor, bit_xor-lt, bit_and_mask, bit_or_fields, bit_or_fields_swapped,
}
use cspim.Rc5.{
  rounds, rol, ror, encrypt_round, decrypt_round, encrypt_rounds, decrypt_rounds, subtract_first,
  Block, block, write_block, rc5_ecb_encrypt, rc5_ecb_decrypt,
}
use cspim.Rc5.Rotate.{rol-IsHalf, ror-IsHalf, ror-rol, rol-ror}

-- Every entry of a key table is a word of 16 bits.
abbrev pub IsTable : (ℕ → ℕ) → Type 0
IsTable s = (i : ℕ) → IsHalf (s i)

abbrev AreHalves : ℕ × ℕ → Type 0
AreHalves (a, b) = IsHalf a × IsHalf b

-- The values of A and B that a block holds.
abbrev halves_of : Block → ℕ × ℕ
halves_of (block x0 x1 x2 x3) = (x1 * 2 ^ 8 + x0, x3 * 2 ^ 8 + x2)

abbrev pub AreBytes : Block → Type 0
AreBytes (block x0 x1 x2 x3) = (IsByte x0 × IsByte x1) × IsByte x2 × IsByte x3

halves_of-AreHalves : (x : Block) → AreBytes x → AreHalves (halves_of x)
halves_of-AreHalves (block x0 x1 x2 x3) ((h0, h1), h2, h3) = (omega arith, omega arith)

halves_of-write_block : (ab : ℕ × ℕ) → halves_of (write_block ab) ≡ ab
halves_of-write_block (a, b) =
    ap₂ (λ (x y : ℕ). (x, y)) (omega (arith, bit_and_mask 8 a)) (omega (arith, bit_and_mask 8 b))

write_block-halves_of : (x : Block) → AreBytes x → write_block (halves_of x) ≡ x
write_block-halves_of (block x0 x1 x2 x3) ((h0, h1), h2, h3) =
    rw (bit_and_mask 8 (x1 * 2 ^ 8 + x0), bit_and_mask 8 (x3 * 2 ^ 8 + x2))
      (rw
        (
          let e : (x1 * 2 ^ 8 + x0) % 2 ^ 8 ≡ x0 = omega arith in e,
          let e : (x3 * 2 ^ 8 + x2) % 2 ^ 8 ≡ x2 = omega arith in e,
          let e : (x1 * 2 ^ 8 + x0) / 2 ^ 8 ≡ x1 = omega arith in e,
          let e : (x3 * 2 ^ 8 + x2) / 2 ^ 8 ≡ x3 = omega arith in e,
        )
        refl)

write_block-AreBytes : (ab : ℕ × ℕ) → AreHalves ab → AreBytes (write_block ab)
write_block-AreBytes (a, b) (ha, hb) =
    ((omega (arith, bit_and_mask 8 a), omega arith), omega (arith, bit_and_mask 8 b), omega arith)

-- A table entry that is added is taken off again, and the other way round.
taken_off : (x k : ℕ) → IsHalf x → IsHalf k → u16 (u16 (x + k) + 2 ^ 16 - k) ≡ x
taken_off x k hx hk = omega arith

put_back : (x k : ℕ) → IsHalf x → IsHalf k → u16 (u16 (x + 2 ^ 16 - k) + k) ≡ x
put_back x k hx hk = omega arith

module _ (s : ℕ → ℕ) (table : IsTable s) where
  half : (n : ℕ) → IsHalf (u16 n)
  half n = omega arith

  -- One half of a round and its inverse.
  undo_half :
      (x y k : ℕ)
      → IsHalf x
      → IsHalf y
      → IsHalf k
      → bit_xor (ror (u16 (u16 (rol (bit_xor x y) y + k) + 2 ^ 16 - k)) y) y ≡ x
  undo_half x y k hx hy hk =
      let hz = bit_xor-lt 16 x y hx hy in
      ap (λ (t : ℕ). bit_xor (ror t y) y) (taken_off (rol (bit_xor x y) y) k (rol-IsHalf _ y hz) hk)
      ∙ ap (λ (t : ℕ). bit_xor t y) (ror-rol (bit_xor x y) y hz)
      ∙ bit_xor-bit_xor 16 x y hx hy

  redo_half :
      (x y k : ℕ)
      → IsHalf x
      → IsHalf y
      → IsHalf k
      → u16 (rol (bit_xor (bit_xor (ror (u16 (x + 2 ^ 16 - k)) y) y) y) y + k) ≡ x
  redo_half x y k hx hy hk =
      let hz = ror-IsHalf (u16 (x + 2 ^ 16 - k)) y (half _) in
      ap (λ (t : ℕ). u16 (rol t y + k)) (bit_xor-bit_xor 16 _ y hz hy)
      ∙ ap (λ (t : ℕ). u16 (t + k)) (rol-ror (u16 (x + 2 ^ 16 - k)) y (half _))
      ∙ put_back x k hx hk

  decrypt_round-encrypt_round :
      (i : ℕ) (ab : ℕ × ℕ) → AreHalves ab → decrypt_round s i (encrypt_round s i ab) ≡ ab
  unfolding decrypt_round encrypt_round
  decrypt_round-encrypt_round i (a, b) (ha, hb) =
      let a' = u16 (rol (bit_xor a b) b + s (2 * i)) in
      ap (λ (t : ℕ). (bit_xor (ror (u16 (a' + 2 ^ 16 - s (2 * i))) t) t, t))
        (undo_half b a' (s (2 * i + 1)) hb (half _) (table _))
      ∙ ap (λ (t : ℕ). (t, b)) (undo_half a b (s (2 * i)) ha hb (table _))

  encrypt_round-decrypt_round :
      (i : ℕ) (ab : ℕ × ℕ) → AreHalves ab → encrypt_round s i (decrypt_round s i ab) ≡ ab
  unfolding decrypt_round encrypt_round
  encrypt_round-decrypt_round i (a, b) (ha, hb) =
      let b' = bit_xor (ror (u16 (b + 2 ^ 16 - s (2 * i + 1))) a) a in
      let hb' = bit_xor-lt 16 _ a (ror-IsHalf _ a (half _)) ha in
      ap (λ (t : ℕ). (t, u16 (rol (bit_xor b' t) t + s (2 * i + 1))))
        (redo_half a b' (s (2 * i)) ha hb' (table _))
      ∙ ap (λ (t : ℕ). (a, t)) (redo_half b a (s (2 * i + 1)) hb ha (table _))

  encrypt_rounds-AreHalves : (i : ℕ) (ab : ℕ × ℕ) → AreHalves ab → AreHalves (encrypt_rounds s i ab)
  unfolding encrypt_rounds encrypt_round
  encrypt_rounds-AreHalves zero ab h = h
  encrypt_rounds-AreHalves (suc i) ab h = (half _, half _)

  decrypt_round-AreHalves : (i : ℕ) (ab : ℕ × ℕ) → AreHalves ab → AreHalves (decrypt_round s i ab)
  unfolding decrypt_round
  decrypt_round-AreHalves i (a, b) (ha, hb) =
      let hb' = bit_xor-lt 16 _ _ (ror-IsHalf _ a (half _)) ha in
      (bit_xor-lt 16 _ _ (ror-IsHalf _ _ (half _)) hb', hb')

  decrypt_rounds-AreHalves : (i : ℕ) (ab : ℕ × ℕ) → AreHalves ab → AreHalves (decrypt_rounds s i ab)
  unfolding decrypt_rounds
  decrypt_rounds-AreHalves zero ab h = h
  decrypt_rounds-AreHalves (suc i) ab h =
      decrypt_rounds-AreHalves i _ (decrypt_round-AreHalves (suc i) ab h)

  decrypt_rounds-encrypt_rounds :
      (i : ℕ) (ab : ℕ × ℕ) → AreHalves ab → decrypt_rounds s i (encrypt_rounds s i ab) ≡ ab
  unfolding decrypt_rounds encrypt_rounds
  decrypt_rounds-encrypt_rounds zero ab h = refl
  decrypt_rounds-encrypt_rounds (suc i) ab h =
      ap (decrypt_rounds s i)
        (decrypt_round-encrypt_round (suc i) _ (encrypt_rounds-AreHalves i ab h))
      ∙ decrypt_rounds-encrypt_rounds i ab h

  encrypt_rounds-decrypt_rounds :
      (i : ℕ) (ab : ℕ × ℕ) → AreHalves ab → encrypt_rounds s i (decrypt_rounds s i ab) ≡ ab
  unfolding decrypt_rounds encrypt_rounds
  encrypt_rounds-decrypt_rounds zero ab h = refl
  encrypt_rounds-decrypt_rounds (suc i) ab h =
      ap (encrypt_round s (suc i))
        (encrypt_rounds-decrypt_rounds i _ (decrypt_round-AreHalves (suc i) ab h))
      ∙ encrypt_round-decrypt_round (suc i) ab h

  abbrev add_first : ℕ × ℕ → ℕ × ℕ
  add_first (a, b) = (u16 (a + s 0), u16 (b + s 1))

  -- The block functions on the values of A and B.
  encrypt_halves :
      (x : Block)
      → AreBytes x
      → rc5_ecb_encrypt s x ≡ write_block (encrypt_rounds s rounds (add_first (halves_of x)))
  unfolding rc5_ecb_encrypt
  encrypt_halves (block x0 x1 x2 x3) ((h0, h1), h2, h3) =
      rw (bit_or_fields_swapped 8 x1 x0 h0, bit_or_fields_swapped 8 x3 x2 h2) refl

  decrypt_halves :
      (x : Block)
      → AreBytes x
      → rc5_ecb_decrypt s x ≡ write_block (subtract_first s (decrypt_rounds s rounds (halves_of x)))
  unfolding rc5_ecb_decrypt
  decrypt_halves (block x0 x1 x2 x3) ((h0, h1), h2, h3) =
      rw (bit_or_fields 8 x1 x0 h0, bit_or_fields 8 x3 x2 h2) refl

  subtract_first-add_first : (ab : ℕ × ℕ) → AreHalves ab → subtract_first s (add_first ab) ≡ ab
  unfolding subtract_first
  subtract_first-add_first (a, b) (ha, hb) =
      ap₂ (λ (x y : ℕ). (x, y)) (taken_off a (s 0) ha (table 0)) (taken_off b (s 1) hb (table 1))

  add_first-subtract_first : (ab : ℕ × ℕ) → AreHalves ab → add_first (subtract_first s ab) ≡ ab
  unfolding subtract_first
  add_first-subtract_first (a, b) (ha, hb) =
      ap₂ (λ (x y : ℕ). (x, y)) (put_back a (s 0) ha (table 0)) (put_back b (s 1) hb (table 1))

  subtract_first-AreHalves : (ab : ℕ × ℕ) → AreHalves (subtract_first s ab)
  unfolding subtract_first
  subtract_first-AreHalves (a, b) = (half _, half _)

  pub rc5_ecb_encrypt-AreBytes : (x : Block) → AreBytes x → AreBytes (rc5_ecb_encrypt s x)
  rc5_ecb_encrypt-AreBytes x h = rw (encrypt_halves x h) (
      write_block-AreBytes _
        (encrypt_rounds-AreHalves rounds (add_first (halves_of x)) (half _, half _)))

  pub rc5_ecb_decrypt-AreBytes : (x : Block) → AreBytes x → AreBytes (rc5_ecb_decrypt s x)
  rc5_ecb_decrypt-AreBytes x h =
      rw (decrypt_halves x h) (write_block-AreBytes _ (subtract_first-AreHalves _))

  -- For a table of 16-bit words, rc5_ecb_decrypt undoes rc5_ecb_encrypt on every block of bytes.
  pub rc5_ecb_decrypt-rc5_ecb_encrypt :
      (x : Block) → AreBytes x → rc5_ecb_decrypt s (rc5_ecb_encrypt s x) ≡ x
  rc5_ecb_decrypt-rc5_ecb_encrypt x h =
      let start = add_first (halves_of x) in
      decrypt_halves (rc5_ecb_encrypt s x) (rc5_ecb_encrypt-AreBytes x h)
      ∙ ap (λ (t : Block). write_block (subtract_first s (decrypt_rounds s rounds (halves_of t))))
          (encrypt_halves x h)
      ∙ ap (λ (t : ℕ × ℕ). write_block (subtract_first s (decrypt_rounds s rounds t)))
          (halves_of-write_block (encrypt_rounds s rounds start))
      ∙ ap (λ (t : ℕ × ℕ). write_block (subtract_first s t))
          (decrypt_rounds-encrypt_rounds rounds start (half _, half _))
      ∙ ap write_block (subtract_first-add_first (halves_of x) (halves_of-AreHalves x h))
      ∙ write_block-halves_of x h

  -- For a table of 16-bit words, rc5_ecb_encrypt undoes rc5_ecb_decrypt on every block of bytes.
  pub rc5_ecb_encrypt-rc5_ecb_decrypt :
      (x : Block) → AreBytes x → rc5_ecb_encrypt s (rc5_ecb_decrypt s x) ≡ x
  rc5_ecb_encrypt-rc5_ecb_decrypt x h =
      let last = decrypt_rounds s rounds (halves_of x) in
      let hx = halves_of-AreHalves x h in
      encrypt_halves (rc5_ecb_decrypt s x) (rc5_ecb_decrypt-AreBytes x h)
      ∙ ap (λ (t : Block). write_block (encrypt_rounds s rounds (add_first (halves_of t))))
          (decrypt_halves x h)
      ∙ ap (λ (t : ℕ × ℕ). write_block (encrypt_rounds s rounds (add_first t)))
          (halves_of-write_block (subtract_first s last))
      ∙ ap (λ (t : ℕ × ℕ). write_block (encrypt_rounds s rounds t))
          (add_first-subtract_first last (decrypt_rounds-AreHalves rounds _ hx))
      ∙ ap write_block (encrypt_rounds-decrypt_rounds rounds (halves_of x) hx)
      ∙ write_block-halves_of x h
