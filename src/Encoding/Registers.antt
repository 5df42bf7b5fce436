-- ===== src/Encoding/Registers.antt =====
-- The handlers that leave the memory alone do the same under every encoding.
use cspim.Base.{
  ℕ, ◌+◌, bit_and, bit_or, bit_xor, ◌==◌, if◌then◌else◌, ltb, ◌<<◌, ◌>>>◌, u32, sub32, not32, not,
  Bool, true, false,
}
use cspim.Base.Int.{ltb_ℤ}
use cspim.Opcodes.{
  Opcode, j, jal, beq, bne, blez, bgtz, addi, addiu, slti, sltiu, andi, ori, xori, sll, srl, sra,
  sllv, srlv, srav, jr, jalr, mfhi, mthi, mflo, mtlo, mult, multu, div, divu, add, addu, sub, subu,
  and, or, xor, nor, slt, sltu, bltz, bgez, bltzal, bgezal, f_rt,
}
use cspim.Cpu.{Exception, done, undefined, Command, and_then, throw_if, set_ur, write_reg}
use cspim.Arith
use cspim.Arith.{sword, add_ovf, sub_ovf, divide_signed, divide_unsigned, quotient_overflows}
use cspim.Instruction.{f_rs, f_rd, f_sa, sar, s_imm, z_imm, of_bool, slt_word, zero_word}
use cspim.Instruction.Alu.{do_alui, do_alu3, with_zero}
use cspim.Instruction.Control.{jump_to, jump_switch, do_jump, take_branch, branch_switch, do_branch}
use cspim.Instruction.DivMult.{set_hi_lo, set_lo_hi, do_divmult}
use cspim.Encoding.{
  Access, returns, breaks, IsUniform, and_then-Agree, with_registers, done-IsUniform,
  throw-IsUniform, if-IsUniform, throw_if-IsUniform, write_reg-IsUniform,
}

-- Behaviour that C leaves undefined.
abbrev crash : Command (Unit {0})
crash c = undefined

module _ {f : Access} where
  -- The registers are read first: `m` is given them.
  reading :
      {A : Type 0} (m : (ℕ → ℕ) → Command A)
      → ((ur : ℕ → ℕ) → IsUniform f (m ur))
      → IsUniform f (λ c. m c.ur c)
  reading m h c b s = h c.ur c b s

  -- A check, and then the rest.
  checked :
      (t : Bool) (k : Unit {0} → Command (Unit {0}))
      → IsUniform f (k tt)
      → IsUniform f (λ c. and_then (throw_if t Exception.invalid c) k)
  checked t k h c b s = and_then-Agree k (throw_if-IsUniform t Exception.invalid c b s) λ _. h

  add_ovf-IsUniform : (x y : ℕ) → IsUniform f (add_ovf x y)
  unfolding add_ovf
  add_ovf-IsUniform x y = if-IsUniform _ (throw-IsUniform Exception.overflow) (done-IsUniform _)

  sub_ovf-IsUniform : (x y : ℕ) → IsUniform f (sub_ovf x y)
  unfolding sub_ovf
  sub_ovf-IsUniform x y = if-IsUniform _ (throw-IsUniform Exception.overflow) (done-IsUniform _)

  -- A result that is computed from the registers.
  computed : (r : ℕ) (e : (ℕ → ℕ) → ℕ) → IsUniform f (λ c. write_reg r (done (e c.ur)) c)
  computed r e c b s = write_reg-IsUniform r (done (e c.ur)) (done-IsUniform (e c.ur)) c b s

  pub do_alui-IsUniform : (insn : ℕ) (op : Opcode) → IsUniform f (do_alui insn op)
  unfolding do_alui
  do_alui-IsUniform insn addi = λ c b s.
      write_reg-IsUniform (f_rt insn) (add_ovf (c.ur (f_rs insn)) (s_imm insn))
        (add_ovf-IsUniform (c.ur (f_rs insn)) (s_imm insn)) c b s
  do_alui-IsUniform insn addiu = computed (f_rt insn) (λ ur. u32 (ur (f_rs insn) + s_imm insn))
  do_alui-IsUniform insn slti =
      computed (f_rt insn) (λ ur. of_bool (slt_word (ur (f_rs insn)) (s_imm insn)))
  do_alui-IsUniform insn sltiu =
      computed (f_rt insn) (λ ur. of_bool (ltb (ur (f_rs insn)) (s_imm insn)))
  do_alui-IsUniform insn andi = computed (f_rt insn) (λ ur. bit_and (ur (f_rs insn)) (z_imm insn))
  do_alui-IsUniform insn ori = computed (f_rt insn) (λ ur. bit_or (ur (f_rs insn)) (z_imm insn))
  do_alui-IsUniform insn xori = computed (f_rt insn) (λ ur. bit_xor (ur (f_rs insn)) (z_imm insn))
  do_alui-IsUniform insn _ = throw-IsUniform Exception.abort

  with_zero-IsUniform :
      (field insn : ℕ) (e : ℕ → ℕ → Command ℕ)
      → ((x y : ℕ) → IsUniform f (e x y))
      → IsUniform f (with_zero field insn e)
  with_zero-IsUniform field insn e h =
      checked (not (field == 0))
        (λ _ c. write_reg (f_rd insn) (e (c.ur (f_rs insn)) (c.ur (f_rt insn))) c)
        λ c b s. write_reg-IsUniform (f_rd insn) _ (h _ _) c b s

  pure_zero :
      (field insn : ℕ) (e : ℕ → ℕ → ℕ) → IsUniform f (with_zero field insn (λ x y. done (e x y)))
  pure_zero field insn e =
      with_zero-IsUniform field insn (λ x y. done (e x y)) λ x y. done-IsUniform (e x y)

  pub do_alu3-IsUniform : (insn : ℕ) (op : Opcode) → IsUniform f (do_alu3 insn op)
  unfolding do_alu3
  do_alu3-IsUniform insn sll = pure_zero (f_rs insn) insn (λ s t. t << f_sa insn)
  do_alu3-IsUniform insn srl = pure_zero (f_rs insn) insn (λ s t. t >>> f_sa insn)
  do_alu3-IsUniform insn sra = pure_zero (f_rs insn) insn (λ s t. sar t (f_sa insn))
  do_alu3-IsUniform insn sllv = pure_zero (f_sa insn) insn (λ s t. t << bit_and s 0x1f)
  do_alu3-IsUniform insn srlv = pure_zero (f_sa insn) insn (λ s t. t >>> bit_and s 0x1f)
  do_alu3-IsUniform insn srav = pure_zero (f_sa insn) insn (λ s t. sar t (bit_and s 0x1f))
  do_alu3-IsUniform insn add = with_zero-IsUniform (f_sa insn) insn add_ovf add_ovf-IsUniform
  do_alu3-IsUniform insn addu = pure_zero (f_sa insn) insn (λ s t. u32 (s + t))
  do_alu3-IsUniform insn sub = with_zero-IsUniform (f_sa insn) insn sub_ovf sub_ovf-IsUniform
  do_alu3-IsUniform insn subu = pure_zero (f_sa insn) insn (λ s t. sub32 s t)
  do_alu3-IsUniform insn and = pure_zero (f_sa insn) insn (λ s t. bit_and s t)
  do_alu3-IsUniform insn or = pure_zero (f_sa insn) insn (λ s t. bit_or s t)
  do_alu3-IsUniform insn xor = pure_zero (f_sa insn) insn (λ s t. bit_xor s t)
  do_alu3-IsUniform insn nor = pure_zero (f_sa insn) insn (λ s t. not32 (bit_or s t))
  do_alu3-IsUniform insn slt = pure_zero (f_sa insn) insn (λ s t. of_bool (slt_word s t))
  do_alu3-IsUniform insn sltu = pure_zero (f_sa insn) insn (λ s t. of_bool (ltb s t))
  do_alu3-IsUniform insn _ = throw-IsUniform Exception.abort

  jump_to-IsUniform : (nds npc : ℕ) → IsUniform f (jump_to nds npc)
  jump_to-IsUniform nds npc c b s = returns tt _ _ (with_registers _ _ _ _ _ s)

  jump_switch-IsUniform : (insn : ℕ) (op : Opcode) (nds : ℕ) → IsUniform f (jump_switch insn op nds)
  unfolding jump_switch
  jump_switch-IsUniform insn jal nds = λ c b s. returns tt _ _ (with_registers _ _ _ _ _ s)
  jump_switch-IsUniform insn j nds = jump_to-IsUniform nds _
  jump_switch-IsUniform insn jalr nds =
      checked (not (f_rt insn == 0))
        (λ _ c.
          and_then (write_reg (f_rd insn) (λ c. done (u32 (c.pc + 8)) c) c)
            (λ _ c. jump_to nds (c.ur (f_rs insn)) c))
        λ c b s.
          and_then-Agree (λ _ c. jump_to nds (c.ur (f_rs insn)) c)
            (write_reg-IsUniform (f_rd insn) (λ c. done (u32 (c.pc + 8)) c)
              (λ c' b' s'. returns _ c' b' s') c b s)
            λ _ c' b' s'. jump_to-IsUniform nds _ c' b' s'
  jump_switch-IsUniform insn jr nds =
      checked (not (bit_and (insn >>> 6) 0x7fff == 0)) (λ _ c. jump_to nds (c.ur (f_rs insn)) c)
        λ c b s. jump_to-IsUniform nds _ c b s
  jump_switch-IsUniform insn _ nds = throw-IsUniform Exception.abort

  pub do_jump-IsUniform : (insn : ℕ) (op : Opcode) → IsUniform f (do_jump insn op)
  unfolding do_jump
  do_jump-IsUniform insn op c b s =
      if-IsUniform (c.delay_slot == 0) (jump_switch-IsUniform insn op (u32 (c.pc + 4)))
        (throw-IsUniform Exception.invalid) c b s

  take_branch-IsUniform : (insn : ℕ) (t : Bool) → IsUniform f (take_branch insn t)
  unfolding take_branch
  take_branch-IsUniform insn false c b s = returns tt c b s
  take_branch-IsUniform insn true c b s = returns tt _ _ (with_registers _ _ _ _ _ s)

  -- A branch on a test of the registers.
  tested : (insn : ℕ) (t : (ℕ → ℕ) → Bool) → IsUniform f (λ c. take_branch insn (t c.ur) c)
  tested insn t c b s = take_branch-IsUniform insn (t c.ur) c b s

  -- The same behind a link.
  linked :
      (insn : ℕ) (t : (ℕ → ℕ) → Bool)
      → IsUniform f (λ c.
        take_branch insn (t (set_ur 31 (u32 (c.pc + 8)) c).ur) (set_ur 31 (u32 (c.pc + 8)) c))
  linked insn t c b s =
      take_branch-IsUniform insn _ _ b (with_registers _ c.hi c.lo c.pc c.delay_slot s)

  branch_switch-IsUniform : (insn : ℕ) (op : Opcode) → IsUniform f (branch_switch insn op)
  unfolding branch_switch
  branch_switch-IsUniform insn beq = tested insn (λ ur. ur (f_rs insn) == ur (f_rt insn))
  branch_switch-IsUniform insn bne = tested insn (λ ur. not (ur (f_rs insn) == ur (f_rt insn)))
  branch_switch-IsUniform insn blez =
      checked (not (f_rt insn == 0))
        (λ _ c. take_branch insn (not (ltb_ℤ zero_word (sword (c.ur (f_rs insn))))) c)
        (tested insn (λ ur. not (ltb_ℤ zero_word (sword (ur (f_rs insn))))))
  branch_switch-IsUniform insn bgtz =
      checked (not (f_rt insn == 0))
        (λ _ c. take_branch insn (ltb_ℤ zero_word (sword (c.ur (f_rs insn)))) c)
        (tested insn (λ ur. ltb_ℤ zero_word (sword (ur (f_rs insn)))))
  branch_switch-IsUniform insn bltzal = linked insn (λ ur. ltb_ℤ (sword (ur (f_rs insn))) zero_word)
  branch_switch-IsUniform insn bltz = tested insn (λ ur. ltb_ℤ (sword (ur (f_rs insn))) zero_word)
  branch_switch-IsUniform insn bgezal =
      linked insn (λ ur. not (ltb_ℤ (sword (ur (f_rs insn))) zero_word))
  branch_switch-IsUniform insn bgez =
      tested insn (λ ur. not (ltb_ℤ (sword (ur (f_rs insn))) zero_word))
  branch_switch-IsUniform insn _ = throw-IsUniform Exception.abort

  pub do_branch-IsUniform : (insn : ℕ) (op : Opcode) → IsUniform f (do_branch insn op)
  unfolding do_branch
  do_branch-IsUniform insn op c b s =
      if-IsUniform (c.delay_slot == 0) (branch_switch-IsUniform insn op)
        (throw-IsUniform Exception.invalid) c b s

  -- New values of `hi` and `lo`.
  products : (r : (ℕ → ℕ) → ℕ × ℕ) → IsUniform f (λ c. set_hi_lo (r c.ur) c)
  products r c b s = returns tt _ _ (with_registers _ _ _ _ _ s)

  quotients : (r : (ℕ → ℕ) → ℕ × ℕ) → IsUniform f (λ c. set_lo_hi (r c.ur) c)
  quotients r c b s = returns tt _ _ (with_registers _ _ _ _ _ s)

  undefined-IsUniform : IsUniform f crash
  undefined-IsUniform c b s = breaks

  pub do_divmult-IsUniform : (insn : ℕ) (op : Opcode) → IsUniform f (do_divmult insn op)
  unfolding do_divmult
  do_divmult-IsUniform insn mult =
      checked _ (λ _ c. set_hi_lo (Arith.mult (c.ur (f_rs insn)) (c.ur (f_rt insn))) c)
        (products (λ ur. Arith.mult (ur (f_rs insn)) (ur (f_rt insn))))
  do_divmult-IsUniform insn multu =
      checked _ (λ _ c. set_hi_lo (Arith.multu (c.ur (f_rs insn)) (c.ur (f_rt insn))) c)
        (products (λ ur. Arith.multu (ur (f_rs insn)) (ur (f_rt insn))))
  do_divmult-IsUniform insn mthi =
      checked _ (λ _ c. done tt (record c { hi = c.ur (f_rs insn) }))
        λ c b s. returns tt _ _ (with_registers _ _ _ _ _ s)
  do_divmult-IsUniform insn mtlo =
      checked _ (λ _ c. done tt (record c { lo = c.ur (f_rs insn) }))
        λ c b s. returns tt _ _ (with_registers _ _ _ _ _ s)
  do_divmult-IsUniform insn div =
      checked _
        (λ _ c.
          if quotient_overflows (c.ur (f_rs insn)) (c.ur (f_rt insn))
          then undefined
          else set_lo_hi (divide_signed (c.ur (f_rs insn)) (c.ur (f_rt insn))) c)
        λ c b s.
          if-IsUniform (quotient_overflows (c.ur (f_rs insn)) (c.ur (f_rt insn)))
            undefined-IsUniform (quotients (λ ur. divide_signed (ur (f_rs insn)) (ur (f_rt insn))))
            c b s
  do_divmult-IsUniform insn divu =
      checked _ (λ _ c. set_lo_hi (divide_unsigned (c.ur (f_rs insn)) (c.ur (f_rt insn))) c)
        (quotients (λ ur. divide_unsigned (ur (f_rs insn)) (ur (f_rt insn))))
  do_divmult-IsUniform insn mfhi =
      checked _ (λ _ c. write_reg (f_rd insn) (done c.hi) c)
        λ c b s. write_reg-IsUniform (f_rd insn) (done c.hi) (done-IsUniform c.hi) c b s
  do_divmult-IsUniform insn mflo =
      checked _ (λ _ c. write_reg (f_rd insn) (done c.lo) c)
        λ c b s. write_reg-IsUniform (f_rd insn) (done c.lo) (done-IsUniform c.lo) c b s
  do_divmult-IsUniform insn _ = throw-IsUniform Exception.abort
