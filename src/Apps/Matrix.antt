-- ===== src/Apps/Matrix.antt =====
-- mipsapps/mmult-bench.c: the product of two matrices of unsigned numbers. A matrix is a function of
-- the row and the column.
pub mod Product
use native.Mathlib.Nat.{mod-add-mod}
use cspim.Base.{
  ℕ, zero, suc, ◌+◌, ◌-◌, ◌*◌, ◌/◌, ◌%◌, ◌^◌, ◌<◌, ◌≤◌, ◌≡◌, refl, sym, ap, ◌∙◌, inl, inr, ◌==◌,
  if◌then◌else◌, ltb, leb, ◌&&◌, ◌||◌, u32, sub32, Bool, true, false, Bool-cases, Option, none,
  some, arith,
}

abbrev pub Matrix : Type 0
Matrix = ℕ → ℕ → ℕ

-- `m[i][j] = v`
abbrev pub store : Matrix → ℕ → ℕ → ℕ → Matrix
store m i j v r s = if r == i && s == j then v else m r s

abbrev pub max_size : ℕ
max_size = 1000

-- The three loops of `mult`, each over the rounds that are left.
unfoldable pub mult_k : ℕ → ℕ → Matrix → Matrix → ℕ → ℕ → Matrix → Matrix
mult_k zero k a b i j c = c
mult_k (suc r) k a b i j c =
    mult_k r (k + 1) a b i j (store c i j (u32 (c i j + u32 (a i k * b k j))))

unfoldable pub mult_j : ℕ → ℕ → ℕ → Matrix → Matrix → ℕ → Matrix → Matrix
unfolding mult_k
mult_j zero j n a b i c = c
mult_j (suc r) j n a b i c = mult_j r (j + 1) n a b i (mult_k n 0 a b i j c)

unfoldable pub mult_i : ℕ → ℕ → ℕ → Matrix → Matrix → Matrix → Matrix
unfolding mult_j
mult_i zero i n a b c = c
mult_i (suc r) i n a b c = mult_i r (i + 1) n a b (mult_j n 0 n a b i c)

unfoldable pub mult : ℕ → Matrix → Matrix → Matrix → Matrix
unfolding mult_i
mult n a b c = mult_i n 0 n a b c

-- The inner product of a row and a column, from entry `k` on.
unfoldable pub inner : ℕ → ℕ → Matrix → Matrix → ℕ → ℕ → ℕ
inner zero k a b i j = 0
inner (suc r) k a b i j = a i k * b k j + inner r (k + 1) a b i j

-- The static arrays of the program.
pub record Arrays : Type 0 where
  pub a : Matrix
  pub b : Matrix
  pub c : Matrix

-- `i-j` and `(i-j+1)*(i+j-1)` of unsigned numbers.
abbrev pub a_entry : ℕ → ℕ → ℕ
a_entry i j = sub32 i j

abbrev pub b_entry : ℕ → ℕ → ℕ
b_entry i j = u32 (u32 (sub32 i j + 1) * sub32 (u32 (i + j)) 1)

-- The loops of `init`, over the rounds that are left.
unfoldable pub init_j : ℕ → ℕ → ℕ → Arrays → Arrays
init_j zero j i m = m
init_j (suc r) j i m = init_j r (j + 1) i (record {
  a = store m.a i j (a_entry i j);
  b = store m.b i j (b_entry i j);
  c = store m.c i j 0;
})

unfoldable pub init_i : ℕ → ℕ → ℕ → Arrays → Arrays
unfolding init_j
init_i zero i n m = m
init_i (suc r) i n m = init_i r (i + 1) n (init_j n 0 i m)

unfoldable pub init : ℕ → Arrays → Arrays
unfolding init_i
init n m = init_i n 0 n m

-- `main`, with PARAMS[0] and the two values of `gettime`: what it returns, the arrays and TIME.
unfoldable pub main : ℕ → ℕ → ℕ → ℕ → Arrays → ℕ × Arrays × ℕ
unfolding init mult
main n before after time m =
    if n == 0 || ltb max_size n
    then (1, m, time)
    else let m' = init n m in
      (0, record m' { c = mult n m'.a m'.b m'.c }, (after + 2 ^ 64 - before) % 2 ^ 64)
