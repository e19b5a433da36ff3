-- ===== src/Tests/OnSmi.antt =====
-- Register accesses on a line that always acknowledges, and on one that never does.
use wair_os.Base.{ℕ, ◌≡◌, ◌≢◌, ◌≤◌, refl, arith, [], ◌∷◌, true, some, none, ok}
use wair_os.Smi.{Wire, wait_for_ack, read_reg, write_reg}
use wair_os.Smi.Chip.{Chip, after}
use wair_os.Smi.Ack.{sampled, NoZero, Ends, wait_for_ack-acked}
use wair_os.Smi.Access.{big_endian, write_reg-frame}
use wair_os.Smi.Reads.{write_reg_lem, read_reg_lem}

abbrev ready : Wire
ready = record { trace = []; levels = λ n. 0; taken = 0 }

abbrev silent : Wire
silent = record { trace = []; levels = λ n. 1; taken = 0 }

abbrev chip : Chip
chip = record { driven = true; sda_level = 1; sck_level = 1; shift = 0; count = 0; frame = none }

no_answer : NoZero silent.levels 0 6
no_answer = (one, (one, (one, (one, (one, (one, tt))))))
  where
    one : ◌≢◌ {A = ℕ} 1 0
    one = omega arith

wait_for_ack-acked_example : Ends ready (ok tt) 1 (wait_for_ack ready)
wait_for_ack-acked_example = wait_for_ack-acked ready 0 (omega arith) refl

write_reg_lem_example : Ends ready (ok tt) 5 (write_reg 0x16 0x1234 ready)
write_reg_lem_example =
    write_reg_lem 0x16 0x1234 0 0 0 0 0 ready
      (z, refl, (z, refl, (z, refl, (z, refl, (z, refl, tt)))))
  where
    z : 0 ≤ 5
    z = omega arith

read_reg_lem_example : Ends ready (ok 0) 19 (read_reg 0x16 ready)
unfolding sampled
read_reg_lem_example = read_reg_lem 0x16 0 0 0 ready (z, refl, (z, refl, (z, refl, tt)))
  where
    z : 0 ≤ 5
    z = omega arith

write_reg-frame_example :
    (after chip (write_reg 0x16 0x1234 ready).1.trace).frame
    ≡ some (big_endian 0 (0xa8 ∷ 0x16 ∷ 0 ∷ 0x34 ∷ 0x12 ∷ []), 40)
write_reg-frame_example = write_reg-frame chip 0x16 0x1234 ready write_reg_lem_example.outcome
