-- ===== src/Syscalls/FileServices.antt =====
-- The handlers of vm/hosted/syscalls.c on files leave a state that the program may go on in.
use cspim.Base.{
  ℕ, zero, suc, ◌+◌, inl, inr, arith, IsWord, Option, none, some, List, [], ◌∷◌, Bool-cases, u32,
  ◌==◌, ◌||◌, not, if◌then◌else◌, Bool, true, false,
}
use cspim.Cpu.{MipsCpu, Outcome, minus_one, max_fds}
use cspim.Elf.Ensures.{Ensures, returns, jumps, breaks, AllOf, and_then-Ensures}
use cspim.Syscalls.{Host, Handler, is_negative, is_bad_fd, is_stdio, returned, returned_with}
use cspim.Syscalls.Files.{
  find_fd_slot, open_flags, with_name, prefixed, name_loop, opened_at, open_in_slot, open_with,
  do_open, beyond, copied, do_read, do_write, do_close, seek_from, seek_origin, do_lseek,
}
use cspim.Syscalls.Guarded.{
  Guarded, IsHost, Keeps, keeps, stuck, set_ur-Guarded, mips_peek_ub-Guarded,
}
use cspim.Syscalls.Services.{returned_with-Keeps}
use cspim.Syscalls.Descriptors.{
  IsSlot, fd_slot_loop-IsSlot, fds-Guarded, mips_copyout-Guarded, mips_copyin-Guarded,
}

module _ {W : Type 0} (host : Host W) (h : IsHost host) {c0 : MipsCpu} where
  prefixed-Guarded :
      (ch : ℕ) {o : Outcome (Option (List ℕ))}
      → Ensures (λ _. Guarded c0) (Guarded c0) o
      → Ensures (λ _. Guarded c0) (Guarded c0) (prefixed host ch o)
  prefixed-Guarded ch (returns (some s) c g) = returns (some (ch ∷ s)) c g
  prefixed-Guarded ch (returns none c g) = returns none c g
  prefixed-Guarded ch (jumps e c g) = jumps e c g
  prefixed-Guarded ch breaks = breaks

  name_loop-Guarded :
      (n addr : ℕ) {c : MipsCpu}
      → IsWord addr
      → Guarded c0 c
      → Ensures (λ _. Guarded c0) (Guarded c0) (name_loop host n addr c)
  unfolding name_loop
  name_loop-Guarded zero addr {c} word g = returns none c g
  name_loop-Guarded (suc n) addr word g =
      and_then-Ensures _ _ (mips_peek_ub-Guarded g addr word) λ ch c' g'.
        elim (Bool-cases (ch == 0)) [
          | inl e ↦ rw e (returns (some []) c' g')
          | inr e ↦
              rw e (prefixed-Guarded ch (name_loop-Guarded n (u32 (addr + 1)) (omega arith) g'))
        ]

  with_name-Keeps :
      {o : Outcome (Option (List ℕ))} (w : W) (k : List ℕ → Handler W)
      → Ensures (λ _. Guarded c0) (Guarded c0) o
      → ((fname : List ℕ) (c : MipsCpu) → Guarded c0 c → Keeps c0 (k fname w c))
      → Keeps c0 (with_name host o w k)
  with_name-Keeps w k (returns (some fname) c g) next = next fname c g
  with_name-Keeps w k (returns none c g) next = keeps _ w c g
  with_name-Keeps w k (jumps e c g) next = keeps _ w c g
  with_name-Keeps w k breaks next = stuck

  opened_at-Keeps :
      (slot : Option ℕ)
      → AllOf IsSlot slot
      → (flags : ℕ) (fname : List ℕ) (w : W) {c : MipsCpu} → Guarded c0 c
      → Keeps c0 (opened_at host slot flags fname w c)
  opened_at-Keeps none s flags fname w g = returned_with-Keeps minus_one w g (omega arith)
  opened_at-Keeps (some fd) (behind, below) flags fname w {c} g =
      let hostfd = (host.open_file fname flags host.rw_mode w).0 in
      let w' = (host.open_file fname flags host.rw_mode w).1 in
      let g' = fds-Guarded g fd hostfd behind in
      elim (Bool-cases (is_negative hostfd || hostfd == 0)) [
        | inl e ↦ rw e (returned_with-Keeps minus_one w' g' (omega arith))
        | inr e ↦ rw e (returned_with-Keeps fd w' g' (omega (arith, below)))
      ]

  copied-Keeps :
      {A : Type 0} {o : Outcome A} (k : A → MipsCpu → Option (ℕ × W × MipsCpu))
      → Ensures (λ _. Guarded c0) (Guarded c0) o
      → ((a : A) (c : MipsCpu) → Guarded c0 c → Keeps c0 (k a c))
      → Keeps c0 (copied host o k)
  copied-Keeps k (returns a c g) next = next a c g
  copied-Keeps k (jumps e c g) next = stuck
  copied-Keeps k breaks next = stuck

  chosen-Keeps :
      {o o' : Option (ℕ × W × MipsCpu)} (b : Bool)
      → Keeps c0 o
      → Keeps c0 o'
      → Keeps c0 (if b then o else o')
  chosen-Keeps true p q = p
  chosen-Keeps false p q = q

  module _ (w : W) {c : MipsCpu} (g : Guarded c0 c) where
    register : (i : ℕ) → IsWord (c.ur i)
    register = g.well_formed.registers.words

    refused : Keeps c0 (returned_with minus_one w c)
    refused = returned_with-Keeps minus_one w g (omega arith)

    open_with-Keeps : (flags : Option ℕ) → Keeps c0 (open_with host flags w c)
    unfolding open_in_slot find_fd_slot
    open_with-Keeps none = refused
    open_with-Keeps (some flags) =
        with_name-Keeps w (open_in_slot host flags) (name_loop-Guarded 256 (c.ur 4) (register 4) g)
          λ fname c' g'.
            opened_at-Keeps (find_fd_slot c') (fd_slot_loop-IsSlot g' max_fds (omega arith)) flags
              fname w g'

    pub do_open-Keeps : Keeps c0 (do_open host w c)
    unfolding do_open
    do_open-Keeps = open_with-Keeps (open_flags host (c.ur 5))

    pub do_read-Keeps : Keeps c0 (do_read host w c)
    unfolding do_read
    do_read-Keeps =
        let r = host.read (c.fds (c.ur 4)) (c.ur 6) w in
        let g' =
          set_ur-Guarded g 2 r.0.0 (omega arith) (h.read-IsWord (c.fds (c.ur 4)) (c.ur 6) w) in
        chosen-Keeps (beyond host c) (keeps _ w c g) (
          chosen-Keeps (is_bad_fd (c.ur 4) c) refused (
            chosen-Keeps (not (host.malloc (c.ur 6) w)) (keeps _ w c g) (
              chosen-Keeps (is_negative r.0.0 || r.0.0 == 0) (keeps 0 r.1 _ g') (
                copied-Keeps (λ _ c2. returned r.1 c2)
                  (mips_copyout-Guarded (c.ur 5) r.0.1 (register 5) g')
                  λ _ c2 g2. keeps 0 r.1 c2 g2))))

    pub do_write-Keeps : Keeps c0 (do_write host w c)
    unfolding do_write
    do_write-Keeps = chosen-Keeps (beyond host c) (keeps _ w c g) (
        chosen-Keeps (is_bad_fd (c.ur 4) c) refused (
          chosen-Keeps (not (host.malloc (c.ur 6) w)) (keeps _ w c g) (
            copied-Keeps _ (mips_copyin-Guarded (c.ur 5) (c.ur 6) (register 5) g) λ r c' g'.
              let out = host.write (c'.fds (c.ur 4)) r.1 w in
              returned_with-Keeps out.0 out.1 g' (h.write-IsWord (c'.fds (c.ur 4)) r.1 w))))

    pub do_close-Keeps : Keeps c0 (do_close host w c)
    unfolding do_close
    do_close-Keeps =
        let fd = c.ur 4 in
        let r = host.close (c.fds fd) w in
        elim (Bool-cases (is_stdio fd || is_bad_fd fd c)) [
          | inl e ↦ rw e refused
          | inr e ↦ rw e (
              returned_with-Keeps r.0 r.1 (fds-Guarded g fd minus_one (ground arith))
                (h.close-IsWord (c.fds fd) w))
        ]

    seek_from-Keeps : (whence : Option ℕ) → Keeps c0 (seek_from host whence w c)
    seek_from-Keeps none = refused
    seek_from-Keeps (some whence) =
        let r = host.lseek (c.fds (c.ur 4)) (c.ur 5) whence w in
        chosen-Keeps (is_stdio (c.ur 4) || is_bad_fd (c.ur 4) c) refused
          (returned_with-Keeps r.0 r.1 g (h.lseek-IsWord (c.fds (c.ur 4)) (c.ur 5) whence w))

    pub do_lseek-Keeps : Keeps c0 (do_lseek host w c)
    unfolding do_lseek
    do_lseek-Keeps = seek_from-Keeps (seek_origin host (c.ur 6))
