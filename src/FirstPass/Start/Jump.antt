-- ===== src/FirstPass/Start/Jump.antt =====
-- The load of a word index into R15 and the jump to R15, which end `.start` and the reset vector.
use procesador_32_bits.Base.{ℕ, ◌+◌, ◌*◌, ◌^◌, ◌<◌, ◌≡◌, [], append-nil, ap, some, arith}
use procesador_32_bits.Base.Int.{pos}
use procesador_32_bits.Isa.{build_word, opcode}
use procesador_32_bits.Address.{compute_hi_lo}
use procesador_32_bits.Address.HiLo.{load, load_rom, compute_hi_lo-lt}
use procesador_32_bits.FirstPass.Start.{jump_word, load_register}
use procesador_32_bits.FirstPass.Start.Copy.{execute-load_register}
use procesador_32_bits.Machine.{Machine, execute, put, jump_target}

-- The machine when the index `a` is loaded.
abbrev pub entered : ℕ → Machine → Machine
entered a m = record m {
  reg = put 15 (load (compute_hi_lo (pos a))) (put 15 ((compute_hi_lo (pos a)).0 * 2 ^ 16) m.reg);
}

pub execute-entered :
    (a : ℕ) (m : Machine) → execute (load_register 15 (compute_hi_lo (pos a))) m ≡ entered a m
unfolding execute
execute-entered a m =
    let halves = compute_hi_lo (pos a) in
    let fits = compute_hi_lo-lt (pos a) in
    rw (← append-nil (load_register 15 halves))
      (execute-load_register 14 halves [] m (omega arith) fits.0 fits.1)

pub jump-entered :
    (a : ℕ) (m : Machine)
    → a < 2 ^ 18
    → jump_target jump_word (entered a m) ≡ some (0xFFF00000 + 4 * a)
unfolding build_word opcode
jump-entered a m h = ap some (load_rom a h)
