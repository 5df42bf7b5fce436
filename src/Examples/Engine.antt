-- ===== src/Examples/Engine.antt =====
-- A small CPU with one instruction in its memory, and the theorems about `mips_execute` at it.
use cspim.Base.{ℕ, ◌^◌, ◌<◌, ◌≡◌, ◌≢◌, refl, arith, none, some}
use cspim.Opcodes.{mips_decode, code, ori}
use cspim.Opcodes.Decode.{
  field_opcode, Decodes, encode, mips_decode-field_opcode, mips_decode-encode,
}
use cspim.Cpu.{Memory, MipsCpu, Exception, mips_init_cpu, set_ur}
use cspim.Memory.{mips_identity_peek_uw, mips_identity_poke_uw}
use cspim.Memory.Access.{identity-IsAccess}
use cspim.Instruction.Alu.{do_alui}
use cspim.Instruction.LoadStore.{do_loadstore}
use cspim.Instruction.DivMult.{do_divmult}
use cspim.Execute.{mips_execute}
use cspim.Execute.Effect.{IsWellFormed}
use cspim.Execute.Step.{NextOverflows}
use cspim.Execute.Safety.{
  IsIsolated, mips_execute-IsWellFormed, mips_execute-IsIsolated, mips_execute_unchanged,
  mips_execute-ne-abort, mips_execute_defined,
}

abbrev pub blank : Memory
blank _ = 0

-- One instruction at the start of the program's memory of 4 KB.
abbrev loaded : ℕ → Memory
loaded w = mips_identity_poke_uw blank 0x1000 w

abbrev pub booted : ℕ → MipsCpu
booted w =
    record (mips_init_cpu mips_identity_peek_uw mips_identity_poke_uw (loaded w) 0x2000 0x100) {
      pc = 0x1000;
    }

pub booted-IsWellFormed : (w : ℕ) → w < 2 ^ 32 → IsWellFormed (booted w)
unfolding mips_init_cpu
booted-IsWellFormed w h = record {
  safe = record {
    access = identity-IsAccess;
    bytes = identity-IsAccess.poke-IsMemory blank 0x1000 w (λ j. omega arith) h;
    whole_words = refl;
    address_space = omega arith;
  };
  registers = record { words = λ i. omega arith; zero_register = refl };
  hi_word = omega arith;
  lo_word = omega arith;
  pc_word = omega arith;
  delay_slot_word = omega arith;
}

-- addiu $1, $0, 5
abbrev pub add_five : ℕ
add_five = 0x2401_0005

abbrev added : MipsCpu
added = record (set_ur 1 5 (booted add_five)) { pc = 0x1004 }

add_five_runs : mips_execute (booted add_five) ≡ some (Exception.ok, added)
unfolding mips_execute mips_init_cpu mips_identity_peek_uw mips_identity_poke_uw do_alui
add_five_runs = refl

-- lw $1, 2($0): the address lies below the program's memory.
abbrev low_load : ℕ
low_load = 0x8c01_0002

low_load_faults : mips_execute (booted low_load) ≡ some (Exception.address, booted low_load)
unfolding mips_execute mips_init_cpu mips_identity_peek_uw mips_identity_poke_uw do_loadstore
low_load_faults = refl

mips_execute-IsWellFormed_example : IsWellFormed added
mips_execute-IsWellFormed_example =
    mips_execute-IsWellFormed (booted-IsWellFormed add_five (omega arith)) add_five_runs

mips_execute-IsIsolated_example : IsIsolated (booted add_five) added
mips_execute-IsIsolated_example =
    mips_execute-IsIsolated (booted-IsWellFormed add_five (omega arith)) add_five_runs

mips_execute_unchanged_example : booted low_load ≡ booted low_load
mips_execute_unchanged_example =
    mips_execute_unchanged (booted-IsWellFormed low_load (omega arith)) low_load_faults (λ e. cc)

mips_execute-ne-abort_example : Exception.address ≢ Exception.abort
mips_execute-ne-abort_example =
    mips_execute-ne-abort (booted-IsWellFormed low_load (omega arith)) low_load_faults

-- div $1, $2 with the least integer in $1 and -1 in $2.
abbrev overflowing : MipsCpu
overflowing = set_ur 1 0x8000_0000 (set_ur 2 0xffff_ffff (booted 0x0022_001a))

overflowing-IsWellFormed : IsWellFormed overflowing
unfolding mips_init_cpu
overflowing-IsWellFormed =
    let wf = booted-IsWellFormed 0x0022_001a (omega arith) in
    record {
      safe = record {
        access = wf.safe.access;
        bytes = wf.safe.bytes;
        whole_words = wf.safe.whole_words;
        address_space = wf.safe.address_space;
      };
      registers = record { words = λ i. ground arith; zero_register = refl };
      hi_word = wf.hi_word;
      lo_word = wf.lo_word;
      pc_word = wf.pc_word;
      delay_slot_word = wf.delay_slot_word;
    }

overflowing_runs : mips_execute overflowing ≡ none
unfolding mips_execute mips_init_cpu mips_identity_peek_uw mips_identity_poke_uw do_divmult
overflowing_runs = refl

mips_execute_defined_example : NextOverflows overflowing
mips_execute_defined_example = mips_execute_defined overflowing-IsWellFormed overflowing_runs

mips_decode-field_opcode_example : Decodes (field_opcode 0x2401_0005) (mips_decode 0x2401_0005)
mips_decode-field_opcode_example = mips_decode-field_opcode 0x2401_0005 (omega arith)

mips_decode-encode_example : mips_decode (encode ori 0x41_ffff) ≡ some (code ori)
mips_decode-encode_example = mips_decode-encode ori 0x41_ffff (omega arith)
