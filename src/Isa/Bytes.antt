-- ===== src/Isa/Bytes.antt =====
-- The combinations of words by LWL, LWR, SWL and SWR in vm/cpuemu.c, on an array of bytes.
use cspim.Base.{
  ℕ, zero, suc, ◌+◌, ◌-◌, ◌%◌, ◌^◌, ◌<◌, ◌≡◌, refl, ap, ◌∙◌, inl, inr, eq→==, if◌then◌else◌, ltb,
  leb, ◌&&◌, Bool, Bool-cases, arith, IsWord,
}
use cspim.Memory.Flat.{flat_write}
use cspim.Instruction.LoadStore.{lwl_word, lwr_word, swl_word, swr_word}
use cspim.Isa.{
  word_in, byte_of, of_bytes, left_byte, right_byte, left_word, right_word, write_left, write_right,
}
use cspim.Isa.Unaligned.{lwl_word-of_bytes, lwr_word-of_bytes, swl_word-of_bytes, swr_word-of_bytes}

of_bytes-cong : (f g : ℕ → ℕ) → ((i : ℕ) → i < 4 → f i ≡ g i) → of_bytes f ≡ of_bytes g
of_bytes-cong f g h =
    omega (arith, h 0 (omega arith), h 1 (omega arith), h 2 (omega arith), h 3 (omega arith))

pub byte_of-of_bytes :
    (f : ℕ → ℕ) (i : ℕ) → ((k : ℕ) → f k < 2 ^ 8) → i < 4 → byte_of (of_bytes f) i ≡ f i
byte_of-of_bytes f zero small h = omega (arith, small 0, small 1, small 2, small 3)
byte_of-of_bytes f (suc zero) small h = omega (arith, small 0, small 1, small 2, small 3)
byte_of-of_bytes f (suc (suc zero)) small h = omega (arith, small 0, small 1, small 2, small 3)
byte_of-of_bytes f (suc (suc (suc zero))) small h =
    omega (arith, small 0, small 1, small 2, small 3)
byte_of-of_bytes f (suc (suc (suc (suc i)))) small h = absurd (omega arith)

pub of_bytes-IsWord : (f : ℕ → ℕ) → ((k : ℕ) → f k < 2 ^ 8) → IsWord (of_bytes f)
of_bytes-IsWord f small = omega (arith, small 0, small 1, small 2, small 3)

pub word_in-of_bytes : (mem : ℕ → ℕ) (a : ℕ) → word_in mem a ≡ of_bytes (λ i. mem (a + i))
word_in-of_bytes mem a =
    let start : a + 0 ≡ a = omega arith in
    let last : a + 3 ≡ a + 2 + 1 = omega arith in omega (arith, ap mem start, ap mem last)

-- The old word does not count where all of it is replaced.
pub swl_word-whole : (s w w' rt : ℕ) → s ≡ 3 → swl_word s w rt ≡ swl_word s w' rt
unfolding swl_word
swl_word-whole s w w' rt e = rw (eq→== s 3 e)

pub swr_word-whole : (s w w' rt : ℕ) → s ≡ 0 → swr_word s w rt ≡ swr_word s w' rt
unfolding swr_word
swr_word-whole s w w' rt e = rw (eq→== s 0 e)

-- A word in place of the one at `b`, byte by byte.
replaced :
    (mem : ℕ → ℕ) (b : ℕ) (f : ℕ → ℕ) (k : ℕ)
    → ((i : ℕ) → f i < 2 ^ 8)
    → flat_write mem b 4 (of_bytes f) k ≡ (if leb b k && ltb k (b + 4) then f (k - b) else mem k)
replaced mem b f k small = elim (Bool-cases (leb b k && ltb k (b + 4))) [
  | inl e ↦ rw e (byte_of-of_bytes f (k - b) small (ground arith))
  | inr e ↦ rw e refl
]

abbrev Bytes : (ℕ → ℕ) → ℕ → ℕ → Type 0
Bytes mem b w = (k j : ℕ) → j ≡ b + k → k < 4 → byte_of w k ≡ mem j

chosen-lt : (c : Bool) (x y i j : ℕ) → (if c then byte_of x i else byte_of y j) < 2 ^ 8
chosen-lt c x y i j = ground arith

-- The address `a` at the place `s` of the word at `b`, which is `w`.
module _ (mem : ℕ → ℕ) (b s a w rt : ℕ) (place : a % 4 ≡ s) (at : a ≡ b + s) (hw : IsWord w)
    (ht : IsWord rt) where
  pub left_word-lwl : Bytes mem b w → lwl_word s w rt ≡ left_word mem a rt
  unfolding left_word
  left_word-lwl bytes =
      lwl_word-of_bytes w rt hw ht s (omega arith)
      ∙ of_bytes-cong (λ i. if leb 3 (i + s) then byte_of w (i + s - 3) else byte_of rt i)
          (left_byte mem a rt)
          λ i hi. elim (Bool-cases (leb 3 (i + s))) [
            | inl e ↦ rw (place, e) (bytes (i + s - 3) (a + i - 3) (ground arith) (ground arith))
            | inr e ↦ rw (place, e) refl
          ]

  pub right_word-lwr : Bytes mem b w → lwr_word s w rt ≡ right_word mem a rt
  unfolding right_word
  right_word-lwr bytes =
      lwr_word-of_bytes w rt hw ht s (omega arith)
      ∙ of_bytes-cong (λ i. if leb (i + s) 3 then byte_of w (i + s) else byte_of rt i)
          (right_byte mem a rt)
          λ i hi. elim (Bool-cases (leb (i + s) 3)) [
            | inl e ↦ rw (place, e) (bytes (i + s) (a + i) (omega arith) (ground arith))
            | inr e ↦ rw (place, e) refl
          ]

  pub write_left-swl :
      Bytes mem b w → (k : ℕ) → flat_write mem b 4 (swl_word s w rt) k ≡ write_left mem a rt k
  unfolding write_left
  write_left-swl bytes k =
      ap (λ (t : ℕ). flat_write mem b 4 t k) (swl_word-of_bytes w rt hw ht s (omega arith))
      ∙ replaced mem b (λ i. if leb i s then byte_of rt (i + 3 - s) else byte_of w i) k
          (λ i. chosen-lt (leb i s) rt w (i + 3 - s) i)
      ∙ ground (arith, bytes (k - b) k, ap (byte_of rt) {x = k - b + 3 - s} {y = k + 3 - a})

  pub write_right-swr :
      Bytes mem b w → (k : ℕ) → flat_write mem b 4 (swr_word s w rt) k ≡ write_right mem a rt k
  unfolding write_right
  write_right-swr bytes k =
      ap (λ (t : ℕ). flat_write mem b 4 t k) (swr_word-of_bytes w rt hw ht s (omega arith))
      ∙ replaced mem b (λ i. if leb s i then byte_of rt (i - s) else byte_of w i) k
          (λ i. chosen-lt (leb s i) rt w (i - s) i)
      ∙ ground (arith, bytes (k - b) k, ap (byte_of rt) {x = k - b - s} {y = k - a})
