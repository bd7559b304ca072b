-- ===== src/Machine.antt =====
-- The part of the processor that the routine `.start` uses, after Docs/ISA_REFERENCE.md: sixteen
-- registers with R0 wired to 0, a memory of 32-bit words by byte address, and the instructions LDI,
-- ADI, LOD and STR, of which the last two only in their 32-bit form INT (type 2): the 8-bit and 16-bit
-- accesses are not described and do nothing here. Immediates and offsets are extended with their sign.
use procesador_32_bits.Base.{
  ℕ, ◌+◌, ◌*◌, ◌%◌, ◌^◌, List, [], ◌∷◌, Option, none, some, ◌==◌, if◌then◌else◌,
}
use procesador_32_bits.Isa.Fields.{tipo_of, opcode_of, reg_a_of, reg_b_of, imm_of}
use procesador_32_bits.Address.HiLo.{sign_extend}

pub record Machine : Type 0 where
  pub reg : ℕ → ℕ
  pub mem : ℕ → ℕ

abbrev pub put : ℕ → ℕ → (ℕ → ℕ) → ℕ → ℕ
put a v f b = if b == a then v else f b

-- A write to R0 is lost.
abbrev pub put_reg : ℕ → ℕ → Machine → Machine
put_reg a v m = record m { reg = if a == 0 then m.reg else put a v m.reg }

abbrev pub add_signed : ℕ → ℕ → ℕ
add_signed base imm = (base + sign_extend imm) % 2 ^ 32

-- H LDI has type 4 and loads the upper half.
abbrev pub act : ℕ → ℕ → ℕ → ℕ → ℕ → Machine → Machine
act tipo op a b imm m =
    if op == 12
    then put_reg a (if tipo == 4 then imm * 2 ^ 16 else sign_extend imm) m
    else if op == 13
    then put_reg a (add_signed (m.reg a) imm) m
    else if op == 18
    then (if tipo == 2 then put_reg b (m.mem (add_signed (m.reg a) imm)) m else m)
    else if op == 19
    then (if tipo == 2
        then record m { mem = put (add_signed (m.reg a) imm) (m.reg b) m.mem }
        else m)
    else m

unfoldable pub step : ℕ → Machine → Machine
step w m = act (tipo_of w) (opcode_of w) (reg_a_of w) (reg_b_of w) (imm_of w) m

unfoldable pub execute : List ℕ → Machine → Machine
unfolding step
execute [] m = m
execute (w ∷ ws) m = execute ws (step w m)

-- The address that a JMP goes to: the value of RB.
abbrev pub jump_target : ℕ → Machine → Option ℕ
jump_target w m = if opcode_of w == 14 then some (m.reg (reg_b_of w)) else none
