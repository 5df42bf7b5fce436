-- ===== src/Examples/Isa.antt =====
-- The theorems on the specification of the machine, at small programs.
use cspim.Base.{◌+◌, ◌/◌, ◌%◌, ◌^◌, ◌≤◌, ◌≡◌, ◌↔◌, refl, arith}
use cspim.Cpu.{MipsCpu, mips_init_cpu}
use cspim.Execute.{mips_execute}
use cspim.Execute.Effect.{IsWellFormed}
use cspim.Instruction.Control.{jump_target}
use cspim.Runner.{run}
use cspim.Isa.Region.{format_target, jump_target-format_target}
use cspim.Isa.Meaning.{isa_step, isa_run}
use cspim.Isa.View.{view, shown}
use cspim.Isa.Refines.{mips_execute-isa_step}
use cspim.Isa.Run.{run-isa_run}
use cspim.Examples.Engine.{booted, booted-IsWellFormed}
use cspim.Examples.Runs.{adder, adder-IsWellFormed}

run-isa_run_example : shown (run 2 adder) ≡ isa_run 2 adder.memsz (view adder)
unfolding mips_init_cpu
run-isa_run_example = run-isa_run 2 adder adder-IsWellFormed (omega arith)

-- A jump to 0x1004 with its link: JAL 0x401.
abbrev linking : MipsCpu
linking = booted 0x0c00_0401

linking-IsWellFormed : IsWellFormed linking
linking-IsWellFormed = booted-IsWellFormed 0x0c00_0401 (omega arith)

mips_execute-isa_step_example : shown (mips_execute linking) ≡ isa_step linking.memsz (view linking)
unfolding mips_init_cpu
mips_execute-isa_step_example = mips_execute-isa_step linking-IsWellFormed (omega arith)

jump_target-format_target_example :
    (jump_target 0x0800_0004 0x0800_0001 ≡ format_target 0x0800_0004 0x0800_0001)
    ↔ (0x0800_0004 / 2 ^ 27 % 2 ≤ 0x0800_0001 / 2 ^ 25 % 2)
jump_target-format_target_example = jump_target-format_target 0x0800_0004 0x0800_0001 (omega arith)

-- There the code jumps to an address 2 ^ 27 too high.
high_target : jump_target 0x0800_0004 0x0800_0001 ≡ format_target 0x0800_0004 0x0800_0001 + 2 ^ 27
unfolding jump_target
high_target = refl
