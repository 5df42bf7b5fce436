-- ===== src/Examples/Data.antt =====
-- The theorems on the cipher, the memory and the break at concrete values.
use cspim.Base.{ℕ, ◌+◌, ◌%◌, ◌≡◌, refl, arith, List, [], ◌∷◌}
use cspim.Cpu.{MipsCpu, done, mips_init_cpu, set_ur}
use cspim.Memory.{
  mips_identity_peek_uw, mips_identity_poke_uw, mips_poke_ub, mips_poke_uh, mips_poke_uw,
  mips_copyin, mips_copyout,
}
use cspim.Memory.Access.{IsAccess, identity-IsAccess}
use cspim.Memory.Checked.{IsSafe}
use cspim.Memory.Flat.{Writes, mips_poke-Writes}
use cspim.Memory.Copy.{Copied, mips_copyout-Copied, mips_copyin-guest_bytes, guest_bytes}
use cspim.Rc5.{block, rc5_setup, rc5_ecb_encrypt, rc5_ecb_decrypt, rc5_peek, rc5_poke}
use cspim.Rc5.Inverse.{rc5_ecb_decrypt-rc5_ecb_encrypt, rc5_ecb_encrypt-rc5_ecb_decrypt}
use cspim.Rc5.Schedule.{rc5_setup-IsTable}
use cspim.Rc5.Sequences.{IsSchedule, rc5_setup-IsSchedule}
use cspim.Rc5.Encrypted.{rc5-IsAccess}
use cspim.Syscalls.Console.{move_break}
use cspim.Syscalls.Break.{IsBreak, move_break-IsBreak}

abbrev key : ℕ → ℕ
key _ = 7

abbrev table : ℕ → ℕ
table = rc5_setup key

rc5_setup-IsSchedule_example :
    (a : ℕ → ℕ) × (b : ℕ → ℕ) × IsSchedule key a b
    × ((i : ℕ) → rc5_setup key (i % 26) ≡ a (53 + i % 26))
rc5_setup-IsSchedule_example = rc5_setup-IsSchedule key (λ i. omega arith)

rc5_ecb_decrypt-rc5_ecb_encrypt_example :
    rc5_ecb_decrypt table (rc5_ecb_encrypt table (block 1 2 3 4)) ≡ block 1 2 3 4
rc5_ecb_decrypt-rc5_ecb_encrypt_example =
    rc5_ecb_decrypt-rc5_ecb_encrypt table (rc5_setup-IsTable key) (block 1 2 3 4)
      ((omega arith, omega arith), omega arith, omega arith)

rc5_ecb_encrypt-rc5_ecb_decrypt_example :
    rc5_ecb_encrypt table (rc5_ecb_decrypt table (block 1 2 3 4)) ≡ block 1 2 3 4
rc5_ecb_encrypt-rc5_ecb_decrypt_example =
    rc5_ecb_encrypt-rc5_ecb_decrypt table (rc5_setup-IsTable key) (block 1 2 3 4)
      ((omega arith, omega arith), omega arith, omega arith)

rc5-IsAccess_example : IsAccess (rc5_peek table) (rc5_poke table)
rc5-IsAccess_example = rc5-IsAccess table (rc5_setup-IsTable key)

abbrev cpu : MipsCpu
cpu = record (mips_init_cpu mips_identity_peek_uw mips_identity_poke_uw (λ _. 0) 0x2000 0x100) {
  brk = 0x1100;
}

cpu-IsSafe : IsSafe cpu
unfolding mips_init_cpu
cpu-IsSafe = record {
  access = identity-IsAccess;
  bytes = λ j. omega arith;
  whole_words = refl;
  address_space = omega arith;
}

mips_poke-Writes_example :
    Writes cpu 0x1004 1 0x1234 (mips_poke_ub 0x1004 0x1234 cpu)
    × Writes cpu 0x1004 2 0x1234 (mips_poke_uh 0x1004 0x1234 cpu)
    × Writes cpu 0x1004 4 0x1234 (mips_poke_uw 0x1004 0x1234 cpu)
mips_poke-Writes_example = mips_poke-Writes cpu-IsSafe 0x1004 0x1234 (omega arith) (omega arith)

abbrev message : List ℕ
message = 0x68 ∷ 0x69 ∷ 0x0a ∷ []

mips_copyout-Copied_example : Copied cpu 0x1005 message 0 (mips_copyout 0x1005 message cpu)
unfolding mips_init_cpu
mips_copyout-Copied_example =
    mips_copyout-Copied 0x1005 message cpu-IsSafe (omega arith) (omega arith)

mips_copyin-guest_bytes_example : mips_copyin 0x1005 3 cpu ≡ done (0, guest_bytes cpu 0x1005 3) cpu
unfolding mips_init_cpu
mips_copyin-guest_bytes_example =
    mips_copyin-guest_bytes cpu-IsSafe 0x1005 3 (omega arith) (omega arith)

move_break-IsBreak_example : IsBreak (move_break cpu)
unfolding mips_init_cpu
move_break-IsBreak_example = move_break-IsBreak cpu (omega arith) (omega arith) (refl, omega arith)

abbrev asking : MipsCpu
asking = set_ur 2 9 cpu
