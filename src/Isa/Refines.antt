-- ===== src/Isa/Refines.antt =====
-- `mips_execute` of vm/cpuemu.c implements the step of the specification.
use cspim.Base.{
  ℕ, ◌+◌, ◌^◌, ◌<◌, ◌≤◌, ◌≡◌, refl, ap, ◌∙◌, inl, inr, ◌==◌, ne→==, if◌then◌else◌, true, false,
  Bool-cases, u32, Option, none, some, arith, IsWord,
}
use cspim.Opcodes.{Opcode, special, regimm, syscall, break, code, mips_decode, opcode_of}
use cspim.Opcodes.Table.{opcode_of-code}
use cspim.Opcodes.Decode.{
  field_opcode, value, IsInstruction, mips_decode-opcode_of, mips_decode-some,
}
use cspim.Cpu.{MipsCpu, Exception, thrown, and_then}
use cspim.Memory.View.{accessible, guest_word, mips_peek_uw-guest_word}
use cspim.Execute.{
  Group, group, jump, branch, alui, alu3, load_store, div_mult, syscalls, breaks, others,
  call_handler, do_dispatch, check_opcode, caught, execute_body, mips_execute,
}
use cspim.Execute.DispatchEffect.{not_others}
use cspim.Execute.Effect.{IsWellFormed}
use cspim.Execute.Step.{fetch_address, fetched, behind_decoder, dispatch_code-found, zero_ok}
use cspim.Isa.{fields}
use cspim.Isa.Meaning.{meaning, Result, traps, execute_found, isa_step}
use cspim.Isa.Operands.{code_fields, code_fields-fields}
use cspim.Isa.View.{view, shown, Does, trapped}
use cspim.Isa.Finish.{finish-perform}
use cspim.Isa.Alu.{do_alui-Does, do_alu3-Does}
use cspim.Isa.Control.{do_jump-Does, do_branch-Does}
use cspim.Isa.DivMult.{do_divmult-Does}
use cspim.Isa.LoadStore.{do_loadstore-Does}

fetch-pc : (c : MipsCpu) → fetch_address c ≡ (view c).pc
fetch-pc c = ground arith

abbrev step_at : MipsCpu → ℕ → Result
step_at c a =
    let insn = guest_word c a in
    if accessible c a 4
    then execute_found insn (opcode_of (field_opcode insn)) c.memsz (view c)
    else traps Exception.address (view c)

module _ {c : MipsCpu} where
  syscall-Does :
      (insn : ℕ) (op : Opcode)
      → group op ≡ syscalls
      → Does c (meaning op (code_fields insn) c.memsz (view c)) (thrown Exception.syscall c)
  unfolding meaning
  syscall-Does insn syscall g = trapped Exception.syscall tt
  syscall-Does insn _ g = cc

  break-Does :
      (insn : ℕ) (op : Opcode)
      → group op ≡ breaks
      → Does c (meaning op (code_fields insn) c.memsz (view c)) (thrown Exception.break c)
  unfolding meaning
  break-Does insn break g = trapped Exception.break tt
  break-Does insn _ g = cc

module _ {c : MipsCpu} (wf : IsWellFormed c) where
  call_handler-Does :
      (g : Group) (insn : ℕ) (op : Opcode)
      → group op ≡ g
      → IsInstruction op
      → (c.delay_slot ≡ 0 → u32 (c.pc + 4) < 2 ^ 27)
      → Does c (meaning op (code_fields insn) c.memsz (view c)) (call_handler g insn op c)
  unfolding call_handler
  call_handler-Does jump insn op h i low = do_jump-Does wf insn op h low
  call_handler-Does branch insn op h i low = do_branch-Does wf insn op h
  call_handler-Does alui insn op h i low = do_alui-Does wf insn op h
  call_handler-Does alu3 insn op h i low = do_alu3-Does wf insn op h
  call_handler-Does load_store insn op h i low = do_loadstore-Does wf insn op h
  call_handler-Does div_mult insn op h i low = do_divmult-Does insn op h
  call_handler-Does syscalls insn op h i low = syscall-Does insn op h
  call_handler-Does breaks insn op h i low = break-Does insn op h
  call_handler-Does others insn op h i low = absurd (not_others op h i)

  do_dispatch-Does :
      (insn : ℕ) (op : Opcode)
      → IsInstruction op
      → (c.delay_slot ≡ 0 → u32 (c.pc + 4) < 2 ^ 27)
      → Does c (meaning op (fields insn) c.memsz (view c)) (do_dispatch insn op c)
  unfolding do_dispatch
  do_dispatch-Does insn op i low =
      rw (← code_fields-fields insn) (call_handler-Does (group op) insn op refl i low)

  -- What stands behind the fetch, with what the decoder of the specification gives.
  decoded-execute_found :
      (o : Option Opcode)
      → mips_decode (fetched c) ≡ value o
      → (c.delay_slot ≡ 0 → c.pc + 4 ≤ c.memsz)
      → c.memsz < 2 ^ 27
      → shown (caught (and_then (check_opcode (value o) c) (behind_decoder c)))
        ≡ execute_found (fetched c) o c.memsz (view c)
  unfolding check_opcode execute_found
  decoded-execute_found none e inside low = refl
  decoded-execute_found (some op) e inside low =
      let i : IsInstruction op = (mips_decode-some (fetched c) (code op) (omega arith) e).2 in
      let p : (code op == code special) ≡ false = ne→== (code op) 0 (omega arith) in
      let q : (code op == code regimm) ≡ false = ne→== (code op) 1 (omega arith) in
      rw
        (
          p,
          q,
          zero_ok wf wf.registers,
          dispatch_code-found c (fetched c) (code op) op (opcode_of-code op),
        )
        (finish-perform wf inside (do_dispatch-Does (fetched c) op i λ e. omega (arith, inside e)))

  fetch-IsWord : IsWord (fetch_address c)
  fetch-IsWord = ground (arith, wf.pc_word, wf.delay_slot_word)

  inside : accessible c (fetch_address c) 4 ≡ true → c.delay_slot ≡ 0 → c.pc + 4 ≤ c.memsz
  inside e h = ground (arith, wf.safe.whole_words)

  -- The step of the specification, at the address where the code fetches.
  execute_body-execute_found :
      c.memsz < 2 ^ 27 → shown (caught (execute_body c)) ≡ step_at c (fetch_address c)
  unfolding execute_body
  execute_body-execute_found low = elim (Bool-cases (accessible c (fetch_address c) 4)) [
    | inl e ↦
        rw
          (
            mips_peek_uw-guest_word c (fetch_address c) wf.safe fetch-IsWord,
            e,
            mips_decode-opcode_of (fetched c) (omega arith),
          )
          (decoded-execute_found (opcode_of (field_opcode (fetched c)))
            (mips_decode-opcode_of (fetched c) (omega arith)) (inside e) low)
    | inr e ↦ rw (mips_peek_uw-guest_word c (fetch_address c) wf.safe fetch-IsWord, e) refl
  ]

-- From a well-formed state with a memory smaller than 2 ^ 27 bytes, one call of mips_execute is
-- one step of the MIPS I machine of Isa, for every instruction word: the fetch, the fields, the
-- operation on registers or on the bytes of memory, the delay slot, every exception and the
-- division that is left undefined.
pub mips_execute-isa_step :
    {c : MipsCpu}
    → IsWellFormed c
    → c.memsz < 2 ^ 27
    → shown (mips_execute c) ≡ isa_step c.memsz (view c)
unfolding mips_execute isa_step
mips_execute-isa_step {c} wf low = execute_body-execute_found wf low ∙ ap (step_at c) (fetch-pc c)
