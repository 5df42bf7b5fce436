-- ===== src/Syscalls/Terminates.antt =====
-- The loop of `do_print_string` of vm/hosted/syscalls.c comes to an end.
use cspim.Base.{
  ℕ, zero, suc, ◌+◌, ◌<◌, ◌≡◌, ◌⊎◌, inl, inr, refl, arith, Option, some, u32, IsWord, Bool-cases,
  ◌==◌,
}
use cspim.Cpu.{MipsCpu, Exception}
use cspim.Memory.Checked.{IsSafe}
use cspim.Memory.View.{accessible, guest_byte, mips_peek_ub-guest_byte}
use cspim.Syscalls.{Host, exception_code}
use cspim.Syscalls.Console.{print_loop, do_print_string}

-- A handler that has answered, and has left the CPU as it was.
pub data Answers {W : Type 0} (c : MipsCpu) : Option (ℕ × W × MipsCpu) → Type 0 where
  answers :
      (err : ℕ) (w : W)
      → (err ≡ 0) ⊎ (err ≡ exception_code Exception.address)
      → Answers c (some (err, w, c))

module _ {W : Type 0} (host : Host W) {c : MipsCpu} (safe : IsSafe c) where
  print_loop-Answers :
      (n ptr : ℕ) (w : W)
      → IsWord ptr
      → 0 < n
      → c.memsz < n + ptr
      → Answers c (print_loop host n ptr w c)
  unfolding print_loop
  print_loop-Answers zero ptr w word some_turn enough = absurd (omega arith)
  print_loop-Answers (suc n) ptr w word some_turn enough = elim (Bool-cases (accessible c ptr 1)) [
    | inr e ↦ rw (mips_peek_ub-guest_byte c ptr safe word, e) (answers _ w (inr refl))
    | inl e ↦
        let below : ptr < c.memsz = ground arith in
        rw (mips_peek_ub-guest_byte c ptr safe word, e)
          (elim (Bool-cases (guest_byte c ptr == 0)) [
            | inl z ↦ rw z (answers 0 (host.flush w) (inl refl))
            | inr z ↦ rw z (
                print_loop-Answers n (u32 (ptr + 1)) (host.putchar (guest_byte c ptr) w)
                  (omega arith) (omega arith) (omega (arith, safe.address_space)))
          ])
  ]

  pub do_print_string-Answers : (w : W) → IsWord (c.ur 4) → Answers c (do_print_string host w c)
  unfolding do_print_string
  do_print_string-Answers w word =
      print_loop-Answers (c.memsz + 1) (c.ur 4) w word (omega arith) (omega arith)
