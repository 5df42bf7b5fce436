-- ===== src/Lib.antt =====
-- Verification of CSPIM, the simulator of a little-endian MIPS I processor.
--
-- The program and its model:
-- * vm/opcodes.c, vm/opcodes.h (Opcodes): the opcode numbers, the bit table and `mips_decode`.
-- * vm/cpu.h (Cpu): the CPU state, the exceptions, and commands on the state. A command returns,
--   jumps to the exception handler (`longjmp`), or is undefined where C leaves its behaviour open.
-- * vm/cpuemu.c (Memory, Arith, Instruction, Execute): the access functions and the checked
--   accesses, the arithmetic helpers, the instruction handlers, and `mips_execute`,
--   `mips_break_code` and `mips_resume`.
-- * Isa is a specification of the MIPS I machine that vm/cpuemu.c and vm/opcodes.c emulate: bytes
--   for the memory, division for the fields, and an action for each opcode. Isa.View relates the
--   states, and Isa.Refines and Isa.Run the steps and the runs.
-- * vm/elf.h, vm/elfload.c (Elf): the ELF image as bytes, and the loader.
-- * vm/hosted/syscalls.c (Syscalls): the system calls, with the C library as the parameter `Host`.
-- * hostapps/rc5-16.c and the access functions of hostapps/util.c (Rc5): the cipher, and the
--   memory that is kept encrypted.
-- * hostapps/elfcrypt.c (Elfcrypt): the tool that encrypts the segments of an ELF file.
-- * hostapps/util.c (Runner): `rc5_convert_key`, `prepare_cpu` and `execute_loop`.
-- * hostapps/runtorture.c (Runner.Torture), mipsapps/run-lvl1.c (Runner.Level1), and the `main`
--   functions of hostapps/run.c, hostapps/runtorture.c, hostapps/runbench.c and
--   hostapps/load-lvl1.c behind their command lines (Runner.Programs).
-- * mipsapps/hanoi.c, mipsapps/fact.c, mipsapps/digits.c and mipsapps/mmult-bench.c (Apps), programs
--   for the simulator: what the system calls read is an argument, and what they print a list.
-- The loader fills the memory of the CPU and sets its registers; the engine runs one instruction
-- at a time on it, through the functions behind `peek_uw` and `poke_uw`, which are the identity or
-- the cipher; Memory.Access is the interface between the two sides. The system calls use the
-- checked accesses and the block copies. Encoding relates two CPUs that keep the same words in
-- different encodings, for the tool that encrypts an image and the runner that has the key.
-- Examples holds concrete runs.
--
-- Choices: a value of a signed type is its bit pattern. The part of the block below MIPS_LOWBASE
-- is the CPU state itself, so a word access there, or beyond the end, is undefined; a read beyond
-- the ELF image is undefined too. A shift of a signed value is taken as the shift of its pattern.
-- The host is little-endian with a `size_t` of 64 bits, and reads words at any alignment. The size
-- of the memory is a multiple of 4 below 2 ^ 32. The loop that prints a string has fuel, one
-- turn more than the memory has bytes, since every address behind it faults. `run`,
-- `execute_loop` and the loops of runtorture.c and run-lvl1.c need not end: they take the number
-- of turns, and say when they are still running after it. The loop of elfcrypt.c over the
-- headers has 2 ^ 16 turns, more than a number of 16 bits allows; its files are smaller than 4
-- GB, so the index of a block does not wrap. `sscanf`, `strtok` and `atoi` are arguments, as the
-- values that they give.
-- Isa follows the emulator where MIPS I leaves the choice open or the emulator departs from it: a
-- jump in a delay slot is refused, the instruction behind a branch that is not taken stands in no
-- delay slot, a division by zero gives a fixed result, a computation for $0 is skipped with its
-- trap, and SYSCALL and BREAK end the run. The bound of 2 ^ 27 bytes on the memory is for J and
-- JAL, whose mask keeps one bit too many.
-- Not modelled: reading of files, printing, the command lines of hostapps, the single-stepping of
-- hostapps/sstep.c, the system call stubs of vm/cspim/syscalls.c, and the other programs of
-- mipsapps, which only call the services or are assembly.
pub mod Base
pub mod Opcodes
pub mod Cpu
pub mod Memory
pub mod Arith
pub mod Instruction
pub mod Isa
pub mod Execute
pub mod Encoding
pub mod Elfcrypt
pub mod Rc5
pub mod Elf
pub mod Syscalls
pub mod Runner
pub mod Apps
pub mod Examples
