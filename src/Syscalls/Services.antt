-- ===== src/Syscalls/Services.antt =====
-- The system calls of vm/hosted/syscalls.c on the console, the break and the clock leave a state that
-- the program may go on in.
use cspim.Base.{
  ℕ, zero, suc, ◌+◌, ◌-◌, ◌/◌, ◌%◌, ◌^◌, inl, inr, arith, IsWord, Option, none, some, List,
  Bool-cases, u32, leb, ◌==◌,
}
use cspim.Cpu.{MipsCpu, Outcome, minus_one}
use cspim.Elf.Ensures.{Ensures, returns, jumps, breaks, AllOf}
use cspim.Syscalls.{Host, Handler, exception_code, returned, returned_with, on_outcome}
use cspim.Syscalls.Console.{
  rounded, move_break, do_print_int, do_print_string, after_line, scanned, do_read_int, poke_then,
  read_loop, do_read_string, do_sbrk, do_print_char, do_read_char, after_clock, do_gettime,
}
use cspim.Syscalls.Guarded.{
  Guarded, IsHost, Keeps, keeps, stuck, set_ur-Guarded, mips_poke_ub-Guarded,
}
use cspim.Syscalls.Terminates.{Answers, answers, do_print_string-Answers}

module _ {W : Type 0} {c0 : MipsCpu} where
  pub returned_with-Keeps :
      (v : ℕ) (w : W) {c : MipsCpu} → Guarded c0 c → IsWord v → Keeps c0 (returned_with v w c)
  returned_with-Keeps v w g h = keeps 0 w _ (set_ur-Guarded g 2 v (omega arith) h)

  pub on_outcome-Keeps :
      {A : Type 0} {o : Outcome A} (w : W) (k : A → Handler W)
      → Ensures (λ _. Guarded c0) (Guarded c0) o
      → ((a : A) (c : MipsCpu) → Guarded c0 c → Keeps c0 (k a w c))
      → Keeps c0 (on_outcome o w k)
  on_outcome-Keeps w k (returns a c g) h = h a c g
  on_outcome-Keeps w k (jumps e c g) h = keeps (exception_code e) w c g
  on_outcome-Keeps w k breaks h = stuck

  answers-Keeps :
      {c : MipsCpu} {o : Option (ℕ × W × MipsCpu)} → Guarded c0 c → Answers c o → Keeps c0 o
  answers-Keeps g (answers err w h) = keeps err w _ g

module _ {c0 : MipsCpu} where
  move_break-Guarded : {c : MipsCpu} → Guarded c0 c → Guarded c0 (move_break c)
  unfolding move_break
  move_break-Guarded {c} g =
      elim (Bool-cases
        (leb ((c.memsz + 2 ^ 64 - c.stksz) % 2 ^ 64) (u32 (c.brk + rounded (c.ur 2))))) [
          | inl e ↦ rw e (set_ur-Guarded g 2 minus_one (omega arith) (omega arith))
          | inr e ↦ rw e (
              set_ur-Guarded (grown (u32 (c.brk + rounded (c.ur 2))) (omega arith)) 2 c.brk
                (omega arith) g.brk_word)
        ]
    where
      grown : (b : ℕ) → IsWord b → Guarded c0 (record c { brk = b })
      grown b h =
          let wf = g.well_formed in
          record {
            well_formed = record {
              safe = record {
                access = wf.safe.access;
                bytes = wf.safe.bytes;
                whole_words = wf.safe.whole_words;
                address_space = wf.safe.address_space;
              };
              registers = wf.registers;
              hi_word = wf.hi_word;
              lo_word = wf.lo_word;
              pc_word = wf.pc_word;
              delay_slot_word = wf.delay_slot_word;
            };
            forbidden = g.forbidden;
            same_size = g.same_size;
            brk_word = h;
            stdio = g.stdio;
            same_image = g.same_image;
            image = g.image;
          }

module _ {W : Type 0} (host : Host W) (h : IsHost host) {c0 : MipsCpu} where
  scanned-Keeps :
      (o : Option ℕ)
      → AllOf IsWord o
      → (w : W) {c : MipsCpu} → Guarded c0 c
      → Keeps c0 (scanned host o w c)
  scanned-Keeps none a w {c} g = keeps 0 w c g
  scanned-Keeps (some x) a w g = returned_with-Keeps x w g a

  after_line-Keeps :
      (line : Option (List ℕ)) (w : W) {c : MipsCpu}
      → Guarded c0 c
      → Keeps c0 (after_line host line w c)
  after_line-Keeps none w g = stuck
  after_line-Keeps (some l) w g = scanned-Keeps (host.scan_int l) (h.scan-IsWord l) w g

  poke_then-Keeps :
      (addr v : ℕ) (w : W) {c : MipsCpu} (k : Handler W)
      → IsWord addr
      → Guarded c0 c
      → ((c' : MipsCpu) → Guarded c0 c' → Keeps c0 (k w c'))
      → Keeps c0 (poke_then host addr v w c k)
  poke_then-Keeps addr v w k word g next =
      on_outcome-Keeps w (λ _. k) (mips_poke_ub-Guarded g addr v word) λ _. next

  ended :
      (addr v : ℕ) (w : W) {c : MipsCpu}
      → Guarded c0 c
      → IsWord addr
      → Keeps c0 (poke_then host addr v w c returned)
  ended addr v w g word = poke_then-Keeps addr v w returned word g λ c' g'. keeps 0 w c' g'

  read_loop-Keeps :
      (n addr : ℕ) (w : W) {c : MipsCpu}
      → IsWord addr
      → Guarded c0 c
      → Keeps c0 (read_loop host n addr w c)
  unfolding read_loop
  read_loop-Keeps zero addr w word g = ended addr 0 w g word
  read_loop-Keeps (suc n) addr w {c} word g =
      let ch = (host.getchar w).0 in
      let w' = (host.getchar w).1 in
      elim (Bool-cases (ch == minus_one)) [
        | inl e ↦ rw e (ended (u32 (addr + 1)) 0 w' g (omega arith))
        | inr e ↦ rw e (elim (Bool-cases (ch == 0xa)) [
          | inl e' ↦ rw e' (
              poke_then-Keeps addr ch w' _ word g
                λ c' g'. ended (u32 (addr + 1)) 0 w' g' (omega arith))
          | inr e' ↦ rw e' (
              poke_then-Keeps addr ch w' (read_loop host n (u32 (addr + 1))) word g
                λ c' g'. read_loop-Keeps n (u32 (addr + 1)) w' (omega arith) g')
        ])
      ]

  module _ (w : W) {c : MipsCpu} (g : Guarded c0 c) where
    pub do_print_int-Keeps : Keeps c0 (do_print_int host w c)
    unfolding do_print_int
    do_print_int-Keeps = keeps 0 _ c g

    pub do_print_string-Keeps : Keeps c0 (do_print_string host w c)
    do_print_string-Keeps =
        answers-Keeps g
          (do_print_string-Answers host g.well_formed.safe w (g.well_formed.registers.words 4))

    pub do_read_int-Keeps : Keeps c0 (do_read_int host w c)
    unfolding do_read_int
    do_read_int-Keeps = after_line-Keeps (host.read_line w).0 (host.read_line w).1 g

    pub do_read_string-Keeps : Keeps c0 (do_read_string host w c)
    unfolding do_read_string
    do_read_string-Keeps =
        read_loop-Keeps (c.ur 5 - 1) (c.ur 4) w (g.well_formed.registers.words 4) g

    pub do_sbrk-Keeps : Keeps c0 (do_sbrk host w c)
    unfolding do_sbrk
    do_sbrk-Keeps = elim (Bool-cases (c.brk % 4 == 0)) [
      | inl e ↦ rw e (keeps 0 w _ (move_break-Guarded g))
      | inr e ↦ rw e stuck
    ]

    pub do_print_char-Keeps : Keeps c0 (do_print_char host w c)
    unfolding do_print_char
    do_print_char-Keeps = keeps 0 _ c g

    pub do_read_char-Keeps : Keeps c0 (do_read_char host w c)
    unfolding do_read_char
    do_read_char-Keeps =
        returned_with-Keeps (host.getchar w).0 (host.getchar w).1 g (h.getchar-IsWord w)

    after_clock-Keeps : (time : Option ℕ) (w' : W) → Keeps c0 (after_clock host time w' c)
    after_clock-Keeps none w' = keeps _ w' c g
    after_clock-Keeps (some ns) w' = keeps 0 w' _ (
        set_ur-Guarded (set_ur-Guarded g 2 (ns % 2 ^ 32) (omega arith) (omega arith)) 3
          (ns / 2 ^ 32 % 2 ^ 32) (omega arith) (omega arith))

    pub do_gettime-Keeps : Keeps c0 (do_gettime host w c)
    unfolding do_gettime
    do_gettime-Keeps = after_clock-Keeps (host.clock w).0 (host.clock w).1
