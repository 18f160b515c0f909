-- ===== src/Outback/Checksum.antt =====
-- `outback::calcChecksum`: the definition here, what it accepts in the children.
pub mod Sums
pub mod Accepts
pub mod Bounds
use powerguru.Prelude.{
  ℕ, zero, suc, ◌+◌, ◌≡◌, refl, Bool, true, false, List, [], ◌∷◌, ◌++◌, arith, leb, ◌==◌,
  if◌then◌else◌, Text, codes,
}
use powerguru.Prelude.Int.{ℤ, pos, negsuc, ◌+ℤ◌, ◌-ℤ◌}
use powerguru.Std.Strtol.{strtol}
use powerguru.Outback.Device.{RetCode, success, error, Run, done, ◌>>=◌, char_at, char_int}

-- `while (index <= 47) if (packet[index] != '0') chk[elem++] = packet[index];`, from `index`, with
-- the rounds left.
unfoldable pub strip_zeros : ℕ → ℕ → Text → Run Text
strip_zeros zero index packet = done []
strip_zeros (suc rounds) index packet = do
  c ← char_at packet index
  chk ← strip_zeros rounds (index + 1) packet
  done (if c == b'0' then chk else c ∷ chk)

-- One round of `do { … } while ((ptr - packet) <= 44)`: a separator adds nothing.
unfoldable pub add_char : ℕ → ℤ → ℤ
add_char c checksum =
    if c == b','
    then checksum
    else if c == b'*'
    then checksum
    else checksum +ℤ (char_int c -ℤ pos b'0')

-- The loop moves `ptr` by one each round, so the fuel is the rounds at most.
unfoldable pub sum_loop : ℕ → ℕ → Text → ℤ → Run ℤ
unfolding add_char
sum_loop zero ptr packet checksum = done checksum
sum_loop (suc fuel) ptr packet checksum = do
  c ← char_at packet ptr
  let next = sum_loop fuel (ptr + 1) packet (add_char c checksum)
  if leb (ptr + 1) 44 then next else done (add_char c checksum)

abbrev loop_fuel : ℕ
loop_fuel = 45

-- `int` equality of the two sums.
unfoldable pub eq_int : ℤ → ℤ → Bool
eq_int (pos a) (pos b) = a == b
eq_int (pos a) (negsuc b) = false
eq_int (negsuc a) (pos b) = false
eq_int (negsuc a) (negsuc b) = a == b

unfoldable pub calc_checksum : Text → Run RetCode
unfolding strip_zeros sum_loop eq_int
calc_checksum packet = do
  chk ← strip_zeros 3 45 packet
  checksum ← sum_loop loop_fuel 0 packet (pos 0)
  done (if eq_int checksum (strtol chk) then success else error)
