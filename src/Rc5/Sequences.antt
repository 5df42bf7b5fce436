-- ===== src/Rc5/Sequences.antt =====
-- The loop of `rc5_setup` of hostapps/rc5-16.c that mixes the key into the table, against the
-- sequences of the key schedule, without arrays and without the indices that go round.
use cspim.Base.{
  ℕ, zero, suc, ◌+◌, ◌-◌, ◌*◌, ◌/◌, ◌%◌, ◌^◌, ◌<◌, ◌≤◌, ◌≡◌, ◌∙◌, refl, ap, sym, arith, u16, IsByte,
  if◌then◌else◌, ltb, ◌==◌, true, false, Bool-cases, inl, inr,
}
use cspim.Rc5.{Mixing, mix_step, mix, setup_start, rc5_setup, rol, mix_count}
use cspim.Rc5.Rotate.{rotated, rol-rotated}
use cspim.Rc5.Schedule.{fill_table-at, pack_key-at}

-- A 16-bit word rotated to the left.
abbrev pub rotate_left : ℕ → ℕ → ℕ
rotate_left x n = x % 2 ^ (16 - n % 16) * 2 ^ (n % 16) + x / 2 ^ (16 - n % 16)

-- What turn `k` finds in the table, where `a n` is the A after `n` turns: P + k * Q, or the A of the
-- turn that wrote the entry, 26 turns earlier.
abbrev pub old_entry : (ℕ → ℕ) → ℕ → ℕ
old_entry a k = if ltb k 26 then (0xb7e1 + k * 0x9e37) % 2 ^ 16 else a (k - 25)

-- What turn `k` finds in the words of the key, where `b n` is the B after `n` turns: two bytes of
-- the key, or the B of 8 turns earlier.
abbrev pub old_word : (ℕ → ℕ) → (ℕ → ℕ) → ℕ → ℕ
old_word key b k = if ltb k 8 then key (2 * k) + key (2 * k + 1) * 2 ^ 8 else b (k - 7)

-- The sequences of A and B.
pub record IsSchedule (key a b : ℕ → ℕ) : Type 0 where
  pub start : (a 0 ≡ 0) × (b 0 ≡ 0)
  pub next_a : (k : ℕ) → a (suc k) ≡ rotate_left ((old_entry a k + a k + b k) % 2 ^ 16) 3
  pub next_b :
      (k : ℕ)
      → b (suc k)
        ≡ rotate_left ((old_word key b k + a (suc k) + b k) % 2 ^ 16) ((a (suc k) + b k) % 2 ^ 16)

mix-last : (k : ℕ) (m : Mixing) → mix (suc k) m ≡ mix_step (mix k m)
unfolding mix
mix-last zero m = refl
mix-last (suc k) m = mix-last k (mix_step m)

rol-rotate_left : (x n : ℕ) → rol (u16 x) n ≡ rotate_left (x % 2 ^ 16) n
unfolding rotated
rol-rotate_left x n = rol-rotated (u16 x) n (omega arith)

module _ (key : ℕ → ℕ) (bytes : (i : ℕ) → IsByte (key i)) where
  after : ℕ → Mixing
  unfolding mix
  after k = mix k (setup_start key)

  abbrev a_after : ℕ → ℕ
  a_after k = (after k).a

  abbrev b_after : ℕ → ℕ
  b_after k = (after k).b

  after-suc : (k : ℕ) → after (suc k) ≡ mix_step (after k)
  unfolding after
  after-suc k = mix-last k (setup_start key)

  -- The indices go round, and the entries that the turns from `k` on find are those of the sequences.
  record Inv (k : ℕ) (m : Mixing) : Type 0 where
    index_i : m.i ≡ k % 26
    index_j : m.j ≡ k % 8
    entries : (t : ℕ) → t < 26 → m.s ((k + t) % 26) ≡ old_entry a_after (k + t)
    words : (t : ℕ) → t < 8 → m.l ((k + t) % 8) ≡ old_word key b_after (k + t)

  start-Inv : Inv zero (setup_start key)
  unfolding after mix
  start-Inv = record {
    index_i = refl;
    index_j = refl;
    entries = λ t h.
        let e : (0 + t) % 26 ≡ t = omega (arith, h) in
        let e' : 0 + t ≡ t = omega arith in
        let l : ltb t 26 ≡ true = ground (arith, h) in
        rw (e, e', l) (fill_table-at 25 t (omega (arith, h)));
    words = λ t h.
        let e : (0 + t) % 8 ≡ t = omega (arith, h) in
        let e' : 0 + t ≡ t = omega arith in
        let l : ltb t 8 ≡ true = ground (arith, h) in
        rw (e, e', l) (pack_key-at key bytes 16 t ∙ ground (arith, h));
  }

  module _ (k : ℕ) (m : Mixing) (inv : Inv k m) (at_a : a_after (suc k) ≡ (mix_step m).a)
      (at_b : b_after (suc k) ≡ (mix_step m).b) where
    later_entry :
        (t : ℕ) → t < 26 → (mix_step m).s ((k + suc t) % 26) ≡ old_entry a_after (k + suc t)
    unfolding mix_step
    later_entry t h = elim (Bool-cases (t == 25)) [
      | inl e ↦
          let hit : (k + suc t) % 26 ≡ m.i = ground (arith, inv.index_i) in
          let far : ltb (k + suc t) 26 ≡ false = ground arith in
          let turn : k + suc t - 25 ≡ suc k = ground arith in
          let same : (m.i == m.i) ≡ true = ground arith in rw (hit, far, turn, same) (sym at_a)
      | inr e ↦
          let miss : ((k + suc t) % 26 == m.i) ≡ false = ground (arith, inv.index_i) in
          rw miss (inv.entries (suc t) (ground arith))
    ]

    later_word :
        (t : ℕ) → t < 8 → (mix_step m).l ((k + suc t) % 8) ≡ old_word key b_after (k + suc t)
    unfolding mix_step
    later_word t h = elim (Bool-cases (t == 7)) [
      | inl e ↦
          let hit : (k + suc t) % 8 ≡ m.j = ground (arith, inv.index_j) in
          let far : ltb (k + suc t) 8 ≡ false = ground arith in
          let turn : k + suc t - 7 ≡ suc k = ground arith in
          let same : (m.j == m.j) ≡ true = ground arith in rw (hit, far, turn, same) (sym at_b)
      | inr e ↦
          let miss : ((k + suc t) % 8 == m.j) ≡ false = ground (arith, inv.index_j) in
          rw miss (inv.words (suc t) (ground arith))
    ]

    step-Inv : Inv (suc k) (mix_step m)
    unfolding mix_step
    step-Inv = record {
      index_i = omega (arith, inv.index_i);
      index_j = omega (arith, inv.index_j);
      entries = λ t h. let e : suc k + t ≡ k + suc t = omega arith in rw e (later_entry t h);
      words = λ t h. let e : suc k + t ≡ k + suc t = omega arith in rw e (later_word t h);
    }

  after-Inv : (k : ℕ) → Inv k (after k)
  unfolding after
  after-Inv zero = start-Inv
  after-Inv (suc k) = rw (after-suc k) (
      step-Inv k (after k) (after-Inv k) (ap (λ (m : Mixing). m.a) (after-suc k))
        (ap (λ (m : Mixing). m.b) (after-suc k)))

  found_entry : (k : ℕ) → (after k).s (after k).i ≡ old_entry a_after k
  found_entry k =
      let e : k + 0 ≡ k = omega arith in
      let inv = after-Inv k in
      let at : (after k).s ((k + 0) % 26) ≡ old_entry a_after (k + 0) =
        inv.entries 0 (omega arith) in
      let at' : (after k).s (k % 26) ≡ old_entry a_after k = rw e at at in rw inv.index_i at'

  found_word : (k : ℕ) → (after k).l (after k).j ≡ old_word key b_after k
  found_word k =
      let e : k + 0 ≡ k = omega arith in
      let inv = after-Inv k in
      let at : (after k).l ((k + 0) % 8) ≡ old_word key b_after (k + 0) =
        inv.words 0 (omega arith) in
      let at' : (after k).l (k % 8) ≡ old_word key b_after k = rw e at at in rw inv.index_j at'

  after-next_a :
      (k : ℕ)
      → a_after (suc k) ≡ rotate_left ((old_entry a_after k + a_after k + b_after k) % 2 ^ 16) 3
  unfolding mix_step
  after-next_a k =
      ap (λ (m : Mixing). m.a) (after-suc k)
      ∙ rol-rotate_left ((after k).s (after k).i + a_after k + b_after k) 3
      ∙ ap (λ (x : ℕ). rotate_left ((x + a_after k + b_after k) % 2 ^ 16) 3) (found_entry k)

  after-next_b :
      (k : ℕ)
      → b_after (suc k)
        ≡ rotate_left
            ((old_word key b_after k + a_after (suc k) + b_after k) % 2 ^ 16)
            ((a_after (suc k) + b_after k) % 2 ^ 16)
  unfolding mix_step
  after-next_b k =
      let m = after k in
      let a = (mix_step m).a in
      ap (λ (m : Mixing). m.b) (after-suc k)
      ∙ rol-rotate_left (m.l m.j + a + m.b) (u16 (a + m.b))
      ∙ ap (λ (x : ℕ). rotate_left ((x + a + m.b) % 2 ^ 16) ((a + m.b) % 2 ^ 16)) (found_word k)
      ∙ ap
          (λ (x : ℕ).
            rotate_left ((old_word key b_after k + x + m.b) % 2 ^ 16) ((x + m.b) % 2 ^ 16))
          (sym (ap (λ (m : Mixing). m.a) (after-suc k)))

  after-IsSchedule : IsSchedule key a_after b_after
  unfolding after mix
  after-IsSchedule = record { start = (refl, refl); next_a = after-next_a; next_b = after-next_b }

  entry_after :
      (n i j : ℕ) → i < 26 → n % 26 ≡ 0 → 26 ≤ n → j ≡ n + i - 25 → (after n).s i ≡ a_after j
  entry_after n i j h whole many e =
      let place : (n + i) % 26 ≡ i = omega (arith, h, whole) in
      let far : ltb (n + i) 26 ≡ false = ground arith in
      let at : (after n).s ((n + i) % 26) ≡ old_entry a_after (n + i) = (after-Inv n).entries i h in
      let at' : (after n).s i ≡ a_after (n + i - 25) = rw (place, far) at at in
      at' ∙ ap a_after (sym e)

  rc5_setup-after : (i : ℕ) → rc5_setup key i ≡ (after mix_count).s i
  unfolding rc5_setup after
  rc5_setup-after i = refl

  -- For every key of bytes, the table that rc5_setup leaves consists of the values A of the last
  -- 26 of 78 turns of the key schedule: A and B start at 0, each turn rotates the sum of the
  -- entry, A and B to the left by 3 bits into A, and the sum of the word of the key, the new A and
  -- B by the new A plus B bits into B, modulo 2 ^ 16, where entry and word are those that were
  -- written 26 and 8 turns before, or P + k * Q and two bytes of the key at first.
  pub rc5_setup-IsSchedule :
      (a : ℕ → ℕ) × (b : ℕ → ℕ) × IsSchedule key a b
      × ((i : ℕ) → rc5_setup key (i % 26) ≡ a (53 + i % 26))
  rc5_setup-IsSchedule = (
    a_after,
    b_after,
    after-IsSchedule,
    λ i.
        rc5_setup-after (i % 26)
        ∙ entry_after mix_count (i % 26) (53 + i % 26) (omega arith) refl (omega arith)
            (omega arith),
  )
