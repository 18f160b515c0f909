-- ===== src/Serial.antt =====
-- devices/serial.cc and devices/serial.h: the serial port. What the kernel answers to `select` and
-- `read` is an argument; the log files and the terminal settings are left out.
pub mod Clean
pub mod Port
pub mod Restore
mod Examples
use powerguru.Prelude.{
  ℕ, zero, suc, ◌+◌, Bool, true, false, ◌||◌, ◌==◌, ltb, if◌then◌else◌, List, [], ◌∷◌, ◌++◌, Option,
  none, some, Text, length,
}
use powerguru.Prelude.Int.{ℤ, pos, negsuc}

-- What `select` returns: 0, a failure with `EAGAIN`, or anything else.
pub data Wait : Type 0 where
  timeout again other : Wait

-- What `read` returns: a failure, or the bytes that it stored; 0 is an empty text.
pub data Input : Type 0 where
  failed : Input
  bytes : Text → Input

-- The answers of the kernel in one round of the loop.
pub record Round : Type 0 where
  pub wait : Wait
  pub input : Input

-- The number that `Read` returns and the text that it leaves in the buffer, which is padded with NUL.
pub record Reading : Type 0 where
  pub count : ℤ
  pub buf : Text

-- The loop over `tmpbuf`: ASCII characters but LF and CR are kept.
unfoldable pub filter_line : Text → Text
filter_line [] = []
filter_line (c ∷ tmpbuf) =
    if ltb c 128
    then (if c == 10 || c == 13 then filter_line tmpbuf else c ∷ filter_line tmpbuf)
    else filter_line tmpbuf

-- `if (ret == 0) continue;`
unfoldable pub is_empty_read : Input → Bool
is_empty_read failed = false
is_empty_read (bytes b) = length b == 0

unfoldable pub input_count : Input → ℤ
input_count failed = negsuc 0
input_count (bytes b) = pos (length b)

unfoldable pub input_text : Input → Text
input_text failed = []
input_text (bytes b) = b

-- `while (retries-- > 0)` from the round `i`, with the last result of `read` and the data so far.
unfoldable pub read_loop : ℕ → ℕ → (ℕ → Round) → ℤ → Text → Reading
unfolding filter_line is_empty_read input_count input_text
read_loop zero i kernel ret sofar = record { count = ret; buf = sofar }
read_loop (suc retries) i kernel ret sofar =
    let ret' = input_count (kernel i).input in
    let sofar' = sofar ++ filter_line (input_text (kernel i).input) in
    let next = read_loop retries (i + 1) kernel ret' sofar' in
    elim (kernel i).wait [
      | timeout ↦ record { count = pos 0; buf = [] }
      | again ↦ record { count = negsuc 0; buf = [] }
      | other ↦
          if is_empty_read (kernel i).input || length sofar' == 0
          then next
          else record { count = pos (length sofar'); buf = sofar' }
    ]

-- `Serial::Read` with `retries` = 2; a port that is not open gives -1 and leaves the buffer alone.
unfoldable pub read : Bool → (ℕ → Round) → Text → Reading
unfolding read_loop
read is_open kernel buf =
    if is_open then read_loop 2 0 kernel (negsuc 0) [] else record { count = negsuc 0; buf = buf }

-- `Serial::Write`: the result of the system call is not looked at.
unfoldable pub write : Bool → Text → ℤ
write is_open buf = if is_open then pos (length buf) else negsuc 0
