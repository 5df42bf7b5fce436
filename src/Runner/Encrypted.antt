-- ===== src/Runner/Encrypted.antt =====
-- A program in encrypted memory runs as it does in plain memory: the functions of hostapps/util.c
-- that access the memory, on a block whose words hostapps/elfcrypt.c has encrypted.
use cspim.Base.{ℕ, ◌+◌, ◌*◌, ◌/◌, ◌≡◌, arith}
use cspim.Cpu.{Memory, MipsCpu}
use cspim.Memory.{mips_identity_peek_uw, mips_identity_poke_uw}
use cspim.Memory.Checked.{Inside}
use cspim.Execute.Effect.{IsWellFormed}
use cspim.Rc5.{rc5_peek, rc5_poke, rc5_setup}
use cspim.Rc5.Schedule.{rc5_setup-IsTable}
use cspim.Rc5.Encrypted.{rc5-IsAccess}
use cspim.Elfcrypt.{crypt_blocks}
use cspim.Elfcrypt.Blocks.{crypt_blocks-IsMemory, rc5_peek-crypt_blocks}
use cspim.Encoding.{Access, recoded, SameWords}
use cspim.Encoding.Execution.{AgreeResult}
use cspim.Runner.{run}
use cspim.Runner.Agreement.{run-AgreeResult}

-- The access functions of hostapps/util.c for the expanded key `s`.
abbrev pub rc5_access : (ℕ → ℕ) → Access
rc5_access s = record { peek = rc5_peek s; poke = rc5_poke s }

-- A CPU whose memory is not encrypted.
abbrev pub plain : MipsCpu → MipsCpu
plain c = record c { peek_uw = mips_identity_peek_uw; poke_uw = mips_identity_poke_uw }

-- The block with each of its words encrypted.
abbrev pub encrypted : (ℕ → ℕ) → MipsCpu → Memory
encrypted s c = crypt_blocks s (c.memsz / 4) 0 c.base

module _ (key : ℕ → ℕ) where
  pub crypt_blocks-SameWords :
      (c : MipsCpu)
      → IsWellFormed (plain c)
      → SameWords (rc5_access (rc5_setup key)) (plain c) (encrypted (rc5_setup key) c)
  crypt_blocks-SameWords c wf =
      let h = rc5_setup-IsTable key in
      record {
        safe = wf.safe;
        safe' = record {
          access = rc5-IsAccess (rc5_setup key) h;
          bytes = crypt_blocks-IsMemory (rc5_setup key) h (c.memsz / 4) 0 c.base wf.safe.bytes;
          whole_words = wf.safe.whole_words;
          address_space = wf.safe.address_space;
        };
        words = λ a inside. same a inside;
      }
    where
      same :
          (a : ℕ)
          → Inside c a
          → mips_identity_peek_uw c.base a
            ≡ rc5_peek (rc5_setup key) (encrypted (rc5_setup key) c) a
      same a (aligned, low, high) =
          let e : 0 + a / 4 * 4 ≡ a = omega arith in
          let decrypted =
            rc5_peek-crypt_blocks (rc5_setup key) (rc5_setup-IsTable key) (c.memsz / 4) 0 c.base
              (a / 4) wf.safe.bytes (omega (arith, high)) in
          cc

  -- For every key and every well-formed CPU with plain memory, however many calls of mips_execute
  -- are made, the run on the same memory with each word encrypted by the loop of crypt_segment,
  -- behind the access functions of util.c, gives the same exception, the same registers and the
  -- same words of memory as the run on the plain one, and is undefined exactly when that is.
  pub run-encrypted-AgreeResult :
      (n : ℕ) (c : MipsCpu)
      → IsWellFormed (plain c)
      → AgreeResult
          (rc5_access (rc5_setup key))
          (run n (plain c))
          (run n (recoded (rc5_access (rc5_setup key)) (plain c) (encrypted (rc5_setup key) c)))
  run-encrypted-AgreeResult n c wf =
      run-AgreeResult n (plain c) (encrypted (rc5_setup key) c) (crypt_blocks-SameWords c wf) wf
