-- ===== src/Examples/Runs.antt =====
-- The theorems about whole runs, at small programs.
use cspim.Base.{
  ℕ, ◌≡◌, inl, refl, arith, some, if◌then◌else◌, List, [], ◌∷◌, Option, none, get_or, ◌==◌, Bool,
}
use cspim.Cpu.{MipsCpu, Exception, done, thrown, mips_init_cpu}
use cspim.Memory.{mips_identity_peek_uw}
use cspim.Execute.Effect.{IsWellFormed}
use cspim.Memory.Checked.{IsSafe}
use cspim.Arith.{add_ovf}
use cspim.Arith.Overflow.{add_ovf-same_sign}
use cspim.Elf.Ensures.{Ensures, AllOf}
use cspim.Elf.Boot.{given}
use cspim.Elf.Segments.{load_segment}
use cspim.Elf.Segment.{Header, Fits, Loads, load_segment-Loads}
use cspim.Elfcrypt.{fails, no_load_segments, check_eh_limits, main, crypt_segment}
use cspim.Elfcrypt.Headers.{main-no_load_segments}
use cspim.Elfcrypt.Loaded.{Succeeds, LoadsAs, with_image, crypt_segment-load_segment}
use cspim.Rc5.{rc5_setup}
use cspim.Encoding.{recoded}
use cspim.Encoding.Execution.{AgreeResult}
use cspim.Runner.{run, prepare_cpu, rc5_convert_key}
use cspim.Runner.Agreement.{run-AgreeResult}
use cspim.Runner.Encrypted.{
  rc5_access, plain, encrypted, crypt_blocks-SameWords, run-encrypted-AgreeResult,
}
use cspim.Runner.Prepared.{LeftAlone, run-prepare_cpu-LeftAlone}
use cspim.Runner.Torture.{execute}
use cspim.Runner.Tortured.{Sound, execute-Sound}
use cspim.Runner.Level1.{beginswith, exn_prefix, beginswith_lem, fresh, level1_main}
use cspim.Runner.Nested.{SafeLevel1, level1_main-SafeLevel1}
use cspim.Examples.Engine.{booted, booted-IsWellFormed, add_five}
use cspim.Examples.Image.{image, image_byte, empty, empty-IsWellFormed, small}

abbrev pub adder : MipsCpu
adder = booted add_five

pub adder-IsWellFormed : IsWellFormed adder
adder-IsWellFormed = booted-IsWellFormed add_five (omega arith)

-- A key of zeros.
abbrev zero_key : ℕ → ℕ
zero_key _ = 0

run-encrypted-AgreeResult_example :
    AgreeResult (rc5_access (rc5_setup zero_key)) (run 2 (plain adder)) (
      run 2 (
        recoded
          (rc5_access (rc5_setup zero_key))
          (plain adder)
          (encrypted (rc5_setup zero_key) adder)))
unfolding mips_init_cpu
run-encrypted-AgreeResult_example = run-encrypted-AgreeResult zero_key 2 adder adder-IsWellFormed

run-AgreeResult_example : AgreeResult (rc5_access (rc5_setup zero_key)) (run 2 (plain adder)) (
    run 2 (
      recoded
        (rc5_access (rc5_setup zero_key))
        (plain adder)
        (encrypted (rc5_setup zero_key) adder)))
unfolding mips_init_cpu
run-AgreeResult_example =
    run-AgreeResult 2 (plain adder) (encrypted (rc5_setup zero_key) adder)
      (crypt_blocks-SameWords zero_key adder adder-IsWellFormed) adder-IsWellFormed

run-prepare_cpu-LeftAlone_example :
    Ensures
      (λ r c1. AllOf (λ _. LeftAlone empty c1 (run 2 c1)) r)
      (λ _. Unit {0})
      (prepare_cpu image_byte 228 none empty)
unfolding mips_init_cpu
run-prepare_cpu-LeftAlone_example =
    run-prepare_cpu-LeftAlone image_byte 228 (small image refl) (omega arith) (omega arith) none
      empty-IsWellFormed 2

execute-Sound_example : Sound adder (execute 2 [] 0 adder)
unfolding mips_init_cpu
execute-Sound_example = execute-Sound 2 adder adder-IsWellFormed (λ j. omega arith)

-- The program header of the image.
image-Header : Header image_byte 52 224 0x1000 4 8
unfolding mips_identity_peek_uw
image-Header = record {
  file_offset = refl;
  address = refl;
  size_in_file = refl;
  size_in_memory = refl;
}

image-Fits :
    (c : MipsCpu) → c.memsz ≡ 0x2000 → c.stksz ≡ 0x100 → c.elfsz ≡ 228 → Fits c 224 0x1000 4 8
image-Fits c memory stack size = record {
  above = omega arith;
  aligned = refl;
  below = omega (arith, memory, stack);
  file_part = omega arith;
  file_words = refl;
  memory_words = refl;
  in_file = omega (arith, size);
  file_size = omega (arith, size);
}

image-IsSafe : IsSafe (given image_byte 228 empty)
unfolding mips_init_cpu
image-IsSafe =
    let safe = empty-IsWellFormed.safe in
    record {
      access = safe.access;
      bytes = safe.bytes;
      whole_words = safe.whole_words;
      address_space = safe.address_space;
    }

load_segment-Loads_example :
    Loads (given image_byte 228 empty) 224 0x1000 4 8 (load_segment 52 (given image_byte 228 empty))
unfolding mips_init_cpu
load_segment-Loads_example =
    load_segment-Loads image-IsSafe (small image refl)
      (image-Fits (given image_byte 228 empty) refl refl refl) image-Header (omega arith)

crypt_segment-load_segment_example :
    Succeeds
      (λ elf'.
        LoadsAs
          (with_image elf' 228 zero_key empty)
          image_byte
          224
          0x1000
          4
          8
          (load_segment 52 (with_image elf' 228 zero_key empty)))
      (crypt_segment (rc5_setup zero_key) 228 52 image_byte)
unfolding mips_init_cpu
crypt_segment-load_segment_example =
    crypt_segment-load_segment image_byte 228 (small image refl) zero_key empty-IsWellFormed.safe
      image-Header (image-Fits (with_image image_byte 228 zero_key empty) refl refl refl)
      (omega arith) (inl (omega arith))

-- A file with two headers, of which the second one alone has the type PT_LOAD.
abbrev other_bytes : List ℕ
other_bytes =
    0x7f ∷ 0x45 ∷ 0x4c ∷ 0x46 ∷ 1 ∷ 1 ∷ 0 ∷ 0 ∷ 0 ∷ 0 ∷ 0 ∷ 0 ∷ 0 ∷ 0 ∷ 0 ∷ 0 ∷ 2 ∷ 0 ∷ 8 ∷ 0 ∷ 0
    ∷ 0 ∷ 0 ∷ 0 ∷ 0 ∷ 0 ∷ 0 ∷ 0 ∷ 52 ∷ 0 ∷ 0 ∷ 0 ∷ 0 ∷ 0 ∷ 0 ∷ 0 ∷ 0 ∷ 0 ∷ 0 ∷ 0 ∷ 52 ∷ 0 ∷ 32 ∷ 0
    ∷ 2 ∷ 0 ∷ 0 ∷ 0 ∷ 0 ∷ 0 ∷ 0 ∷ 0 ∷ 6 ∷ 0 ∷ 0 ∷ 0 ∷ []

abbrev other_file : ℕ → ℕ
other_file i = if i == 84 then 1 else get_or other_bytes i 0

-- The key that `scan` reads where each pair of digits is 07.
abbrev sevens : ℕ → ℕ
sevens = some_key (rc5_convert_key 32 (λ _. some 7) zero_key)
  where
    some_key : Option (ℕ → ℕ) → ℕ → ℕ
    some_key none = zero_key
    some_key (some key) = key

main-no_load_segments_example :
    main (32, λ _. some 7) zero_key other_file 228 ≡ fails no_load_segments
unfolding rc5_convert_key check_eh_limits
main-no_load_segments_example =
    main-no_load_segments other_file 228 52 refl (λ e. omega (arith, e)) refl 32 (λ _. some 7)
      zero_key sevens refl refl refl

beginswith_lem_example :
    beginswith 170 exn_prefix (given image_byte 228 empty)
    ≡ done Bool.false (given image_byte 228 empty)
unfolding mips_init_cpu
beginswith_lem_example = beginswith_lem (given image_byte 228 empty) 170 (omega arith)

add_ovf-same_sign_example : add_ovf 0x7fff_ffff 1 adder ≡ thrown Exception.overflow adder
add_ovf-same_sign_example = add_ovf-same_sign 0x7fff_ffff 1 adder (omega arith) (omega arith)

level1_main-SafeLevel1_example :
    SafeLevel1
      (given image_byte 228 (fresh zero_key))
      (level1_main 2 0x10_0000 zero_key image_byte 228)
level1_main-SafeLevel1_example =
    level1_main-SafeLevel1 2 0x10_0000 zero_key image_byte 228 (λ a. omega arith) (small image refl)
