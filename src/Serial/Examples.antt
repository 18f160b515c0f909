-- ===== src/Serial/Examples.antt =====
-- Reads from a serial port with concrete answers of the kernel.
use powerguru.Prelude.{
  ℕ, zero, suc, ◌+◌, ◌-◌, ◌%◌, ◌≡◌, refl, ◌++◌, true, false, [], ◌∷◌, codes, arith,
}
use powerguru.Prelude.Int.{pos, negsuc}
use powerguru.Serial.Port.{System, Port, done, not_supported}
use powerguru.Serial.Restore.{baud, blocking, dtr, raw, session, session-restores}
use powerguru.Serial.{Round, read, other, bytes, input_text}
use powerguru.Serial.Clean.{IsReading, Fits, read-IsReading}

-- The first round brings a line end alone, the second a text.
abbrev line_end_first : ℕ → Round
line_end_first zero = record { wait = other; input = bytes (10 ∷ []) }
line_end_first (suc i) = record { wait = other; input = bytes (codes "B,00" ++ 13 ∷ []) }

line_end_first-Fits : Fits 100 line_end_first
unfolding input_text
line_end_first-Fits zero = omega arith
line_end_first-Fits (suc i) = omega arith

read-IsReading_example : IsReading 100 (read true line_end_first [])
read-IsReading_example = read-IsReading 100 line_end_first [] line_end_first-Fits

-- Settings as a number: the speed below 16, and whether the port is raw above.
abbrev system : System ℕ
system = record {
  descriptor = λ filespec. pos 3;
  make_raw = λ tty. tty % 16 + 16;
  wait_a_second = λ tty. tty;
  with_speed = λ code tty. tty - tty % 16 + code % 16;
  speed = λ tty. tty % 16;
  accepts = λ n. true;
}

abbrev closed_port : Port ℕ
closed_port = record {
  uartfd = negsuc 0;
  has_file = false;
  origtty = 0;
  currenttty = 0;
  device = 13;
  sets = 0;
  dtr = false;
}

session-restores_example :
    (port' : Port ℕ) × (session system
        (codes "/dev/ttyS0")
        (raw ∷ baud 14 ∷ blocking true ∷ dtr true ∷ [])
        closed_port
      ≡ done (not_supported, port'))
    × (port'.device ≡ 13)
session-restores_example =
    session-restores system (codes "/dev/ttyS0") (raw ∷ baud 14 ∷ blocking true ∷ dtr true ∷ [])
      closed_port (λ tty. omega arith) refl (λ n. refl) (tt, (omega arith, (tt, (tt, tt))))
