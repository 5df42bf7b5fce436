-- ===== src/Apps/Matrix/Product.antt =====
-- What the loops of mipsapps/mmult-bench.c leave in the arrays: the entries, and their product.
use cspim.Base.{
  ℕ, zero, suc, ◌+◌, ◌*◌, ◌<◌, ◌≤◌, ◌≡◌, refl, ◌∙◌, ◌==◌, if◌then◌else◌, ltb, leb, ◌&&◌, ◌||◌, u32,
  Bool, false, arith,
}
use cspim.Apps.Matrix.{
  Matrix, store, max_size, mult_k, mult_j, mult_i, mult, inner, Arrays, a_entry, b_entry, init_j,
  init_i, init, main,
}

mult_k-inner :
    (r k : ℕ) (a b : Matrix) (i j : ℕ) (c : Matrix) (s t : ℕ)
    → mult_k r k a b i j c s t ≡ (
        if s == i && t == j
        then (if r == 0 then c i j else u32 (c i j + inner r k a b i j))
        else c s t)
unfolding mult_k inner
mult_k-inner zero k a b i j c s t = ground arith
mult_k-inner (suc r) k a b i j c s t =
    ground
      (arith, mult_k-inner r (k + 1) a b i j (store c i j (u32 (c i j + u32 (a i k * b k j)))) s t)

mult_j-inner :
    (r j n : ℕ) (a b : Matrix) (i : ℕ) (c : Matrix) (s t : ℕ)
    → mult_j r j n a b i c s t ≡ (
        if s == i && (leb j t && ltb t (j + r))
        then (if n == 0 then c i t else u32 (c i t + inner n 0 a b i t))
        else c s t)
unfolding mult_j
mult_j-inner zero j n a b i c s t = ground arith
mult_j-inner (suc r) j n a b i c s t = ground (
  arith,
  mult_j-inner r (j + 1) n a b i (mult_k n 0 a b i j c) s t,
  mult_k-inner n 0 a b i j c s t,
  mult_k-inner n 0 a b i j c i t,
)

mult_i-inner :
    (r i n : ℕ) (a b : Matrix) (c : Matrix) (s t : ℕ)
    → mult_i r i n a b c s t
      ≡ (if leb i s && ltb s (i + r) && ltb t n then u32 (c s t + inner n 0 a b s t) else c s t)
unfolding mult_i
mult_i-inner zero i n a b c s t = ground arith
mult_i-inner (suc r) i n a b c s t =
    ground (
      arith,
      mult_i-inner r (i + 1) n a b (mult_j n 0 n a b i c) s t,
      mult_j-inner n 0 n a b i c s t,
    )

-- The rows from `i` to `i + r` and the columns from `j` to `j + q` hold the entries, and all else is
-- as in `old`.
record Filled (in_range : ℕ → ℕ → Bool) (old m : Arrays) : Type 0 where
  at_a : (s t : ℕ) → m.a s t ≡ (if in_range s t then a_entry s t else old.a s t)
  at_b : (s t : ℕ) → m.b s t ≡ (if in_range s t then b_entry s t else old.b s t)
  at_c : (s t : ℕ) → m.c s t ≡ (if in_range s t then 0 else old.c s t)

init_j-Filled :
    (r j i : ℕ) (m : Arrays)
    → Filled (λ s t. s == i && (leb j t && ltb t (j + r))) m (init_j r j i m)
unfolding init_j
init_j-Filled zero j i m = record {
  at_a = λ s t. ground arith;
  at_b = λ s t. ground arith;
  at_c = λ s t. ground arith;
}
init_j-Filled (suc r) j i m =
    let f = init_j-Filled r (j + 1) i (record {
      a = store m.a i j (a_entry i j);
      b = store m.b i j (b_entry i j);
      c = store m.c i j 0;
    }) in
    record {
      at_a = λ s t. ground (arith, f.at_a s t);
      at_b = λ s t. ground (arith, f.at_b s t);
      at_c = λ s t. ground (arith, f.at_c s t);
    }

init_i-Filled :
    (r i n : ℕ) (m : Arrays)
    → Filled (λ s t. leb i s && ltb s (i + r) && ltb t n) m (init_i r i n m)
unfolding init_i
init_i-Filled zero i n m = record {
  at_a = λ s t. ground arith;
  at_b = λ s t. ground arith;
  at_c = λ s t. ground arith;
}
init_i-Filled (suc r) i n m =
    let f = init_i-Filled r (i + 1) n (init_j n 0 i m) in
    let g = init_j-Filled n 0 i m in
    record {
      at_a = λ s t. ground (arith, f.at_a s t, g.at_a s t);
      at_b = λ s t. ground (arith, f.at_b s t, g.at_b s t);
      at_c = λ s t. ground (arith, f.at_c s t, g.at_c s t);
    }

inner-cong :
    (r k : ℕ) (a b a' b' : Matrix) (i j : ℕ)
    → ((s : ℕ) → k ≤ s → s < k + r → a i s ≡ a' i s)
    → ((s : ℕ) → k ≤ s → s < k + r → b s j ≡ b' s j)
    → inner r k a b i j ≡ inner r k a' b' i j
unfolding inner
inner-cong zero k a b a' b' i j p q = refl
inner-cong (suc r) k a b a' b' i j p q =
    rw
      (
        p k (omega arith) (omega arith),
        q k (omega arith) (omega arith),
        inner-cong r (k + 1) a b a' b' i j (λ s h l. p s (omega arith) (omega arith))
            (λ s h l. q s (omega arith) (omega arith)),
      )
      refl

-- The entries behind `init`, and the product of these.
module _ (n : ℕ) (m : Arrays) where
  filled : Filled (λ s t. leb 0 s && ltb s (0 + n) && ltb t n) m (init n m)
  unfolding init
  filled = init_i-Filled n 0 n m

  inner-init :
      (i j : ℕ)
      → i < n
      → j < n
      → inner n 0 (init n m).a (init n m).b i j ≡ inner n 0 a_entry b_entry i j
  inner-init i j hi hj =
      inner-cong n 0 (init n m).a (init n m).b a_entry b_entry i j
        (λ s h l. filled.at_a i s ∙ ground arith) (λ s h l. filled.at_b s j ∙ ground arith)

  mult-inner :
      (i j : ℕ)
      → i < n
      → j < n
      → mult n (init n m).a (init n m).b (init n m).c i j ≡ u32 (inner n 0 a_entry b_entry i j)
  unfolding mult
  mult-inner i j hi hj =
      mult_i-inner n 0 n (init n m).a (init n m).b (init n m).c i j
      ∙ ground (arith, filled.at_c i j, inner-init i j hi hj)

-- For a size from 1 to 1000, whatever the arrays hold and the clock says, main of mmult-bench.c
-- leaves in each entry of C the inner product modulo 2 ^ 32 of the row and the column of the
-- matrices with the entries i-j and (i-j+1)*(i+j-1).
pub main-inner :
    (n before after time : ℕ) (m : Arrays) (i j : ℕ)
    → 0 < n
    → n ≤ max_size
    → i < n
    → j < n
    → (main n before after time m).1.c i j ≡ u32 (inner n 0 a_entry b_entry i j)
unfolding main
main-inner n before after time m i j pos le hi hj =
    let e : (n == 0 || ltb max_size n) ≡ false = ground arith in rw e (mult-inner n m i j hi hj)
