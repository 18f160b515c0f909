-- ===== src/Serial/Port.antt =====
-- devices/serial.cc and devices/serial.h: the object `Serial`, how the port is opened and closed, and
-- its settings. `termios` and the calls that change it are arguments.
use powerguru.Prelude.{
  ℕ, suc, ◌==◌, Bool, true, false, List, [], ◌∷◌, Option, none, some, Text, codes, get_elem?,
  if◌then◌else◌,
}
use powerguru.Prelude.Int.{ℤ, pos, negsuc}

-- A call ends with a value, by the exception `errcond`, or reads outside of `serial_speeds`.
pub data Effect {ℓ} (A : Type ℓ) : Type ℓ where
  done : A → Effect A
  errcond : Effect A
  undefined : Effect A

infixl 5 ◌>>=◌
abbrev pub ◌>>=◌ {ℓ κ} : {A : Type ℓ} {B : Type κ} → Effect A → (A → Effect B) → Effect B
done a >>= f = f a
errcond >>= f = errcond
undefined >>= f = undefined

-- The results of `make_error_code` that the file uses.
pub data ErrorCode : Type 0 where
  success not_supported : ErrorCode

-- The codes of the rates, where the system has them, and the names of the codes from 0 on.
abbrev pub serial_speeds : List Text
serial_speeds =
    codes "B0"
    ∷ codes "B50"
    ∷ codes "B75"
    ∷ codes "B110"
    ∷ codes "B134"
    ∷ codes "B150"
    ∷ codes "B200"
    ∷ codes "B300"
    ∷ codes "B600"
    ∷ codes "B1200"
    ∷ codes "B1800"
    ∷ codes "B2400"
    ∷ codes "B4800"
    ∷ codes "B9600"
    ∷ codes "B19200"
    ∷ codes "B38400"
    ∷ codes "B57600"
    ∷ codes "B115200"
    ∷ codes "B230400"
    ∷ []

abbrev pub baudtab : List ℕ
baudtab =
    50 ∷ 75 ∷ 110 ∷ 134 ∷ 150 ∷ 200 ∷ 300 ∷ 600 ∷ 1200 ∷ 1800 ∷ 2400 ∷ 4800 ∷ 9600 ∷ 19200 ∷ 38400
    ∷ 57600 ∷ 115200 ∷ []

-- `rate_to_code`; `code` tells the constant of each rate.
unfoldable pub find_rate : (ℕ → ℕ) → List ℕ → ℕ → ℤ
find_rate code [] rate = negsuc 0
find_rate code (r ∷ rates) rate =
    let rest = find_rate code rates rate in if rate == r then pos (code r) else rest

unfoldable pub rate_to_code : (ℕ → ℕ) → ℕ → ℤ
unfolding find_rate
rate_to_code code rate = find_rate code baudtab rate

-- `serial_speeds[i]`.
abbrev pub speed_name : Option Text → Effect Text
speed_name none = undefined
speed_name (some name) = done name

unfoldable pub name_of : ℕ → Effect Text
name_of i = speed_name (get_elem? serial_speeds i)

-- The library and the kernel: the descriptor that `open` gives, `cfmakeraw`, the two control
-- characters of `SetBlocking`, the speed of the settings, and whether the call of `tcsetattr` with a
-- number has an effect.
pub record System (Termios : Type 0) : Type 0 where
  pub descriptor : Text → ℤ
  pub make_raw : Termios → Termios
  pub wait_a_second : Termios → Termios
  pub with_speed : ℕ → Termios → Termios
  pub speed : Termios → ℕ
  pub accepts : ℕ → Bool

-- `Serial`, whether `uartfile` is not null, the settings that the kernel has for the port, the number of
-- calls of `tcsetattr`, and the lines that were last set.
pub record Port (Termios : Type 0) : Type 0 where
  pub uartfd : ℤ
  pub has_file : Bool
  pub origtty : Termios
  pub currenttty : Termios
  pub device : Termios
  pub sets : ℕ
  pub dtr : Bool

abbrev pub is_negative : ℤ → Bool
is_negative (pos n) = false
is_negative (negsuc n) = true

module _ {Termios : Type 0} (system : System Termios) where
  -- `tcsetattr (_uartfd, TCSANOW, tty)`.
  unfoldable pub tcsetattr : Termios → Port Termios → Port Termios
  tcsetattr tty port = record port {
    device = if system.accepts port.sets then tty else port.device;
    sets = suc port.sets;
  }

  -- `DumpTtyState`: both speeds are those of the settings.
  unfoldable pub dump_tty_state : Port Termios → Effect Text
  unfolding name_of
  dump_tty_state port = name_of (system.speed port.currenttty)

  unfoldable pub opened : Port Termios → Effect (ErrorCode × Port Termios)
  unfolding dump_tty_state
  opened port =
      let port1 = record port {
        has_file = true;
        origtty = port.device;
        currenttty = port.device;
      } in
      dump_tty_state port1 >>= λ name. done (success, port1)

  unfoldable pub open_port : Text → Port Termios → Effect (ErrorCode × Port Termios)
  unfolding opened
  open_port [] port = opened port
  open_port (c ∷ filespec) port =
      let fd = system.descriptor (c ∷ filespec) in
      if is_negative fd then errcond else opened (record port { uartfd = fd })

  -- `Close` returns the code of an error.
  unfoldable pub close_port : Port Termios → ErrorCode × Port Termios
  unfolding tcsetattr
  close_port port =
      (not_supported, record (tcsetattr port.origtty port) { uartfd = negsuc 0; has_file = false })

  unfoldable pub flush : Port Termios → ErrorCode × Port Termios
  flush port = (success, port)

  -- `SetBaud`: where the kernel refuses the code, its name is looked up for the log, and that of the
  -- current speed.
  unfoldable pub set_baud : ℕ → Port Termios → Effect (ErrorCode × Port Termios)
  unfolding tcsetattr name_of
  set_baud baudcode port =
      let port1 = tcsetattr (system.with_speed baudcode port.device) port in
      let refused = name_of baudcode >>= λ name.
      name_of (system.speed port.currenttty) >>= λ current. done (not_supported, port1) in
      if system.accepts port.sets then done (success, port1) else refused

  -- `SetBlocking (mode)`, whatever the mode is.
  unfoldable pub set_blocking : Bool → Port Termios → ErrorCode × Port Termios
  unfolding tcsetattr
  set_blocking mode port =
      let tty = system.wait_a_second port.device in
      (success, tcsetattr tty (record port { currenttty = tty }))

  -- `SetDTR (value)`; without an argument the value is true.
  unfoldable pub set_dtr : Bool → Port Termios → ErrorCode × Port Termios
  set_dtr value port = (success, record port { dtr = value })

  unfoldable pub set_raw : Port Termios → ErrorCode × Port Termios
  unfolding tcsetattr
  set_raw port =
      let tty = system.make_raw port.device in
      (success, tcsetattr tty (record port { currenttty = tty }))

  unfoldable pub set_tty_state : Termios → Port Termios → Termios × Port Termios
  unfolding tcsetattr
  set_tty_state tty port = (port.currenttty, tcsetattr tty port)

  unfoldable pub get_tty_state : Port Termios → Termios × Port Termios
  get_tty_state port = (port.device, record port { currenttty = port.device })
