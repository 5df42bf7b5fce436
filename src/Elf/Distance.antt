-- ===== src/Elf/Distance.antt =====
-- `mips_elf_find_address` of vm/elfload.c finds the nearest symbol that is not above the address.
use cspim.Base.{
  ℕ, zero, suc, ◌+◌, ◌-◌, ◌/◌, ◌%◌, ◌^◌, ◌↔◌, ◌≡◌, ◌≤◌, ◌<◌, refl, ap, inl, inr, ◌==◌, ltb, leb,
  ◌&&◌, false, Bool-cases, Option, none, some, arith,
}
use cspim.Base.Bits.{bit_and_mask}
use cspim.Cpu.{MipsCpu, Outcome, Command, done, minus_one}
use cspim.Elf.{sh_size, sh_entsize, st_info, st_value, null_check}
use cspim.Elf.Symbols.{
  follow, get_sym, is_skipped, nearer, find_address_loop, mips_elf_find_address,
}
use cspim.Elf.Ensures.{
  IsImage, Looks, sees, crashes, AllOf, and_then-Looks, fail_if-Looks, read_byte-Looks,
  read_word-Looks,
}
use cspim.Elf.Lookup.{get_sym-OnlyLooks}

-- The symbol of index `j` is global, with the type NOTYPE, OBJECT or FUNC, and stands for the
-- address, at the distance `d` below it.
pub record Candidate (c : MipsCpu) (shsymtab addr j d sym : ℕ) : Type 0 where
  pub info : ℕ
  pub value : ℕ
  pub found : get_sym shsymtab j c ≡ done (some sym) c
  pub read_info : st_info sym c ≡ done info c
  pub read_value : st_value sym c ≡ done value c
  pub binding : info / 2 ^ 4 ≡ 1
  pub symbol_type : info % 2 ^ 4 < 3
  pub below : value ≤ addr
  pub distance : d ≡ addr - value

-- The symbol is the one of an index below `i`, at the distance `m`.
pub record LiesAt (c : MipsCpu) (shsymtab addr i m sym : ℕ) : Type 0 where
  pub index : ℕ
  pub inside : index < i
  pub candidate : Candidate c shsymtab addr index m sym

-- `min` and `ret` after the symbols below the index `i`.
pub record Best (c : MipsCpu) (shsymtab addr i m : ℕ) (ret : Option ℕ) : Type 0 where
  pub least : (j d sym : ℕ) → j < i → Candidate c shsymtab addr j d sym → m ≤ d
  pub source : AllOf (LiesAt c shsymtab addr i m) ret

-- The symbol is one of the `n` of the table, and none of them lies nearer.
pub record IsNearest (c : MipsCpu) (shsymtab addr n sym : ℕ) : Type 0 where
  pub at : ℕ
  pub lies : LiesAt c shsymtab addr n at sym
  pub least : (j d sym' : ℕ) → j < n → Candidate c shsymtab addr j d sym' → at ≤ d

not_skipped : (info : ℕ) → (is_skipped info ≡ false) ↔ ((info / 2 ^ 4 ≡ 1) × (info % 2 ^ 4 < 3))
not_skipped info = (
  (λ e. (ground (arith, bit_and_mask 4 info), ground (arith, bit_and_mask 4 info))),
  λ p. ground (arith, p.0, p.1, bit_and_mask 4 info),
)

later :
    (c : MipsCpu) (shsymtab addr i m k : ℕ) (ret : Option ℕ)
    → i ≤ k
    → AllOf (LiesAt c shsymtab addr i m) ret
    → AllOf (LiesAt c shsymtab addr k m) ret
later c shsymtab addr i m k none h s = tt
later c shsymtab addr i m k (some sym) h s = record {
  index = s.index;
  inside = omega (arith, s.inside);
  candidate = s.candidate;
}

remembered :
    {A : Type 0} {c : MipsCpu} {o : Outcome A} {p : A → Type 0}
    → Looks c p o
    → Looks c (λ a. o ≡ done a c) o
remembered (sees a h) = sees a refl
remembered crashes = crashes

some-Looks :
    {A B : Type 0} {c : MipsCpu} {p : B → Type 0} (o : Option A) (r : B) (k : A → Command B)
    → p r
    → ((a : A) → o ≡ some a → Looks c p (k a c))
    → Looks c p (null_check o r k c)
unfolding null_check
some-Looks none r k h g = sees r h
some-Looks (some a) r k h g = g a refl

module _ {c : MipsCpu} (shsymtab addr : ℕ) where
  module _ (i sym info value : ℕ) (found : get_sym shsymtab i c ≡ done (some sym) c)
      (read_info : st_info sym c ≡ done info c) (read_value : st_value sym c ≡ done value c) where
    same_distance :
        {j d sym' : ℕ}
        → j ≡ i
        → Candidate c shsymtab addr j d sym'
        → (is_skipped info ≡ false) × (value ≤ addr) × (d ≡ addr - value)
    same_distance {sym' = sym'} e k =
        let g : get_sym shsymtab i c ≡ done (some sym') c = rw e at k.found in
        let f : sym' ≡ sym = cc in
        let info_at : st_info sym c ≡ done k.info c = rw f at k.read_info in
        let value_at : st_value sym c ≡ done k.value c = rw f at k.read_value in
        let kept : is_skipped k.info ≡ false = (not_skipped k.info).1 (k.binding, k.symbol_type) in
        let f' : k.info ≡ info = cc in
        let f2 : k.value ≡ value = cc in (rw f' at kept, rw f2 at k.below, rw f2 at k.distance)

    extended :
        {m : ℕ} {ret : Option ℕ} (m' : ℕ)
        → Best c shsymtab addr i m ret
        → m' ≤ m
        → (is_skipped info ≡ false → value ≤ addr → m' ≤ addr - value)
        → (j d sym' : ℕ) → j < i + 1
        → Candidate c shsymtab addr j d sym'
        → m' ≤ d
    extended m' b le this j d sym' lt k = elim (Bool-cases (ltb j i)) [
      | inl e ↦ omega (arith, le, b.least j d sym' (ground arith) k)
      | inr e ↦
          let at = same_distance {j = j} {d = d} (ground arith) k in
          omega (arith, at.2, this at.0 at.1)
    ]

    nearer-Best :
        (m : ℕ) (ret : Option ℕ)
        → Best c shsymtab addr i m ret
        → let best = nearer addr sym info value (m, ret) in
          Best c shsymtab addr (i + 1) best.0 best.1
    unfolding nearer
    nearer-Best m ret b = elim (Bool-cases (is_skipped info)) [
      | inl s ↦ rw s record {
        least = extended m b (omega arith) (λ h. cc);
        source = later _ _ _ _ _ (i + 1) ret (omega arith) b.source;
      }
      | inr s ↦ rw s (elim (Bool-cases (leb value addr && ltb (addr - value) m)) [
        | inl e ↦ rw e record {
          least = extended (addr - value) b (ground arith) (λ h l. omega arith);
          source = record {
            index = i;
            inside = omega arith;
            candidate = record {
              info = info;
              value = value;
              found = found;
              read_info = read_info;
              read_value = read_value;
              binding = ((not_skipped info).0 s).0;
              symbol_type = ((not_skipped info).0 s).1;
              below = ground arith;
              distance = refl;
            };
          };
        }
        | inr e ↦ rw e record {
          least = extended m b (omega arith) (λ h l. ground arith);
          source = later _ _ _ _ _ (i + 1) ret (omega arith) b.source;
        }
      ])
    ]

  nearest :
      {n i m : ℕ} (ret : Option ℕ)
      → i ≤ n
      → Best c shsymtab addr i m ret
      → ((j d sym : ℕ) → j < n → Candidate c shsymtab addr j d sym → m ≤ d)
      → AllOf (IsNearest c shsymtab addr n) ret
  nearest none h b least = tt
  nearest {n = n} {m = m} (some sym) h b least = record {
    at = m;
    lies = later _ _ _ _ _ n (some sym) h b.source;
    least = least;
  }

  module _ (image : IsImage c) where
    find_address_loop-Nearest :
        (n k i m : ℕ) (ret : Option ℕ)
        → i + k ≡ n
        → Best c shsymtab addr i m ret
        → Looks c
            (AllOf (IsNearest c shsymtab addr n))
            (find_address_loop shsymtab addr k i (m, ret) c)
    unfolding find_address_loop
    find_address_loop-Nearest n zero i m ret e b =
        sees ret
          (nearest ret (omega (arith, e)) b λ j d sym lt. b.least j d sym (omega (arith, lt)))
    find_address_loop-Nearest n (suc k) i m ret e b =
        and_then-Looks _ _ (remembered (get_sym-OnlyLooks c image shsymtab i)) λ found at.
          some-Looks found none _ tt λ sym is_some.
            and_then-Looks _ _ (remembered (read_byte-Looks c image (sym + 12))) λ info at_info.
              and_then-Looks _ _ (remembered (read_word-Looks c image (sym + 4))) λ value at_value.
                let best = nearer addr sym info value (m, ret) in
                let b' = nearer-Best i sym info value (rw is_some at at) at_info at_value m ret b in
                elim (Bool-cases (best.0 == 0)) [
                  | inl z ↦ rw z (
                      sees best.1
                        (nearest best.1 (omega (arith, e)) b' λ j d sym' lt h. ground arith))
                  | inr z ↦
                      rw z
                        (find_address_loop-Nearest n k (i + 1) best.0 best.1 (omega (arith, e)) b')
                ]

  -- With a symbol table in place, whatever bytes the image holds, a symbol that
  -- mips_elf_find_address returns is a global one of the table with the type NOTYPE, OBJECT or
  -- FUNC and does not lie above the address, and no other such symbol of the table that is not
  -- above the address lies nearer; the call leaves the state as it is or is undefined in C.
  pub mips_elf_find_address-IsNearest :
      IsImage c
      → c.shsymtab ≡ some shsymtab
      → {size entsize : ℕ} → sh_size shsymtab c ≡ done size c
      → sh_entsize shsymtab c ≡ done entsize c
      → Looks c (AllOf (IsNearest c shsymtab addr (size / entsize))) (mips_elf_find_address addr c)
  unfolding mips_elf_find_address
  mips_elf_find_address-IsNearest image at_table {size} {entsize} at_size at_entsize =
      let start : Best c shsymtab addr 0 minus_one none = record {
        least = λ j d sym lt. absurd (omega (arith, lt));
        source = tt;
      } in
      let table : follow c.shsymtab c ≡ done shsymtab c =
        ap (λ (o : Option ℕ). follow o c) at_table in
      rw (table, at_size, at_entsize)
        (elim (Bool-cases (entsize == 0)) [
          | inl z ↦ rw z crashes
          | inr z ↦ rw z (
              and_then-Looks _ _ (read_word-Looks c image (shsymtab + 16)) λ offset _.
                fail_if-Looks _ _ _ tt (
                  find_address_loop-Nearest image (size / entsize) (size / entsize) 0 minus_one none
                    (omega arith) start))
        ])
