-- ===== src/Runner/Level1.antt =====
-- mipsapps/run-lvl1.c: the simulator as a program that runs on the simulator, and its test for the
-- exceptions that the nested program expects.
use cspim.Base.{
  ℕ, zero, suc, ◌+◌, ◌*◌, ◌^◌, if◌then◌else◌, ◌==◌, not, Bool, true, false, Option, none, some,
  List, [], ◌∷◌, ◌≡◌, arith, ◌&&◌, ltb, ◌≤◌, Bool-cases, inl, inr, refl,
}
use cspim.Cpu.{
  minus_one, Memory, MipsCpu, Command, Exception, Outcome, done, thrown, undefined, mips_init_cpu,
  ◌>>=◌,
}
use cspim.Memory.{pure, mips_identity_peek_uw, mips_identity_poke_uw}
use cspim.Elf.Load.{mips_elf_load}
use cspim.Syscalls.{is_negative}
use cspim.Execute.{mips_execute}
use cspim.Elf.{null_check, read_byte}
use cspim.Runner.Torture.{
  Printed, name_at, label, Torture, finished, running, crashed, append, noted, skip_break, go_on,
}

-- "EXN", with the zero at its end.
abbrev pub exn_prefix : List ℕ
exn_prefix = 0x45 ∷ 0x58 ∷ 0x4e ∷ 0 ∷ []

-- `*pfx == 0`; C does not define a read behind the literal.
abbrev pub at_end : List ℕ → Command Bool
at_end [] c = undefined
at_end (p ∷ pfx) c = done (p == 0) c

-- `beginswith`: both pointers move on even past the characters that differ.
unfoldable pub beginswith : ℕ → List ℕ → Command Bool
beginswith str [] c = undefined
beginswith str (p ∷ pfx) c =
    (do b ← read_byte str; let rest = beginswith (str + 1) pfx; if b == p then rest else at_end pfx)
      c

-- `beginswith(symname, "EXN") == 0` behind the two lookups.
unfoldable pub is_tolerated : ℕ → Command Bool
unfolding name_at beginswith
is_tolerated addr = do
  found ← name_at addr
  null_check found false λ name. (do matches ← beginswith name exn_prefix; pure (not matches))

-- The end of a turn of the loop of `main`.
unfoldable pub after :
    Option (Exception × MipsCpu) → List Printed → ℕ → (MipsCpu → Torture) → Torture
unfolding is_tolerated go_on
after none out last k = crashed
after (some (Exception.ok, c)) out last k = k c
after (some (Exception.break, c)) out last k = finished Exception.break out last c
after (some (e, c)) out last k =
    go_on (is_tolerated c.pc c)
      λ tolerated c'. if tolerated then k (skip_break c') else finished e out last c'

-- The loop of `main`, for at most `n` turns.
unfoldable pub level1_loop : ℕ → List Printed → ℕ → MipsCpu → Torture
unfolding label mips_execute after go_on
level1_loop zero out last c = running out last c
level1_loop (suc n) out last c = go_on (label (noted last c) c) λ lines c'.
    after (mips_execute c') (append lines out) (noted last c)
      (level1_loop n (append lines out) (noted last c))

-- `mips_init_cpu(l2_memory, MEMSZ, STKSZ)`
unfoldable pub fresh : Memory → MipsCpu
unfolding mips_init_cpu mips_identity_peek_uw mips_identity_poke_uw
fresh l2_memory =
    mips_init_cpu mips_identity_peek_uw mips_identity_poke_uw l2_memory (2 ^ 20) (16 * 2 ^ 10)

-- What `main` comes to. At a BREAK the host ends the program.
pub data Level1 : Type 0 where
  broke : ℕ → Level1
  ran : Torture → Level1
  lost : Level1

abbrev pub behind_load : Outcome ℕ → (MipsCpu → Torture) → Level1
behind_load (done r c) k = if is_negative r then broke 2 else ran (k c)
behind_load (thrown e c) k = lost
behind_load undefined k = lost

-- `main` up to the end of its loop, of at most `n` turns: `l2_memory` is what `sbrk` returns, `block`
-- the bytes behind that address, and `l2_elf` the image that the host has put in place. A failing
-- `sbrk` returns -1, which the test for NULL lets through; C does not define the accesses to a block
-- there. The loader is the one of Elf, whose `size_t` has 64 bits. Compiled for the 32 bits of this
-- program it does the same, but for an address in the image that passes 2 ^ 32 in `get_string`: it
-- wraps, where the model has an access behind the image, which C does not define, and says `lost`.
unfoldable pub level1_main : ℕ → ℕ → Memory → (ℕ → ℕ) → ℕ → Level1
unfolding fresh mips_elf_load level1_loop
level1_main n l2_memory block l2_elf l2_elf_size =
    if l2_memory == 0
    then broke 1
    else if l2_memory == minus_one
    then lost
    else behind_load (mips_elf_load l2_elf l2_elf_size (fresh block)) (level1_loop n [] 0)

-- For four bytes inside the image, beginswith with "EXN" returns 1 exactly for a text that starts
-- with EX and goes on with another character than N, returns 0 for a text that starts with another
-- pair than EX, and reads behind the literal for a text that starts with EXN.
pub beginswith_lem :
    (c : MipsCpu) (str : ℕ)
    → str + 4 ≤ c.elfsz
    → beginswith str exn_prefix c ≡ (
        if c.elf str == 0x45 && c.elf (str + 1) == 0x58
        then if c.elf (str + 1 + 1) == 0x4e then undefined else done true c
        else done false c)
unfolding beginswith
beginswith_lem c str h =
    let e0 : ltb str c.elfsz ≡ true = ground arith in
    let e1 : ltb (str + 1) c.elfsz ≡ true = ground arith in
    let e2 : ltb (str + 1 + 1) c.elfsz ≡ true = ground arith in
    let e3 : ltb (str + 1 + 1 + 1) c.elfsz ≡ true = ground arith in
    rw e0 (elim (Bool-cases (c.elf str == 0x45)) [
      | inr n0 ↦ rw n0 refl
      | inl y0 ↦
          rw (y0, e1)
            (elim (Bool-cases (c.elf (str + 1) == 0x58)) [
              | inr n1 ↦ rw n1 refl
              | inl y1 ↦
                  rw (y1, e2)
                    (elim (Bool-cases (c.elf (str + 1 + 1) == 0x4e)) [
                      | inr n2 ↦ rw n2 refl
                      | inl y2 ↦
                          rw (y2, e3)
                            (elim (Bool-cases (c.elf (str + 1 + 1 + 1) == 0)) [
                              | inr n3 ↦ rw n3 refl
                              | inl y3 ↦ rw y3 refl
                            ])
                    ])
            ])
    ])
