-- ===== src/Serial/Restore.antt =====
-- What `Serial::Close` restores.
use powerguru.Prelude.{
  ℕ, ◌<◌, ◌≡◌, refl, ap, ◌∙◌, Bool, true, false, List, [], ◌∷◌, Text, get_elem?-some, All, inl, inr,
  Bool-cases,
}
use powerguru.Serial.Port.{
  Effect, done, ◌>>=◌, ErrorCode, success, not_supported, serial_speeds, name_of, is_negative,
  System, Port, tcsetattr, opened, open_port, close_port, flush, set_baud, set_blocking, set_dtr,
  set_raw, set_tty_state, get_tty_state, dump_tty_state,
}

-- The operations between `Open` and `Close`.
pub data Operation (Termios : Type 0) : Type 0 where
  baud : ℕ → Operation Termios
  blocking dtr : Bool → Operation Termios
  raw flushed get_state : Operation Termios
  set_state : Termios → Operation Termios

bind-done {ℓ κ} :
    {A : Type ℓ} {B : Type κ} {m : Effect A} {a : A} (f : A → Effect B) {r : Effect B}
    → m ≡ done a
    → f a ≡ r
    → (m >>= f) ≡ r
bind-done f e h = rw e h

module _ {Termios : Type 0} (system : System Termios) where
  abbrev pub apply : Operation Termios → Port Termios → Effect (Port Termios)
  apply (baud code) port = set_baud system code port >>= λ r. done r.1
  apply (blocking mode) port = done (set_blocking system mode port).1
  apply (dtr value) port = done (set_dtr system value port).1
  apply raw port = done (set_raw system port).1
  apply flushed port = done (flush system port).1
  apply get_state port = done (get_tty_state system port).1
  apply (set_state tty) port = done (set_tty_state system tty port).1

  abbrev pub apply_all : List (Operation Termios) → Port Termios → Effect (Port Termios)
  apply_all [] port = done port
  apply_all (o ∷ operations) port = apply o port >>= λ port1. apply_all operations port1

  -- Every speed has a name, those that are set and those of the settings.
  abbrev pub IsNamed : Operation Termios → Type 0
  IsNamed (baud code) = code < 19
  IsNamed (blocking mode) = Unit
  IsNamed (dtr value) = Unit
  IsNamed raw = Unit
  IsNamed flushed = Unit
  IsNamed get_state = Unit
  IsNamed (set_state tty) = Unit

  name_of-done : (i : ℕ) → i < 19 → (name : Text) × (name_of i ≡ done name)
  unfolding name_of
  name_of-done i h = let (name, e) = get_elem?-some serial_speeds i h in (name, rw e refl)

  -- Each operation ends, and leaves the settings that `Close` restores alone.
  apply-origtty :
      (o : Operation Termios) (port : Port Termios)
      → ((tty : Termios) → system.speed tty < 19)
      → IsNamed o
      → (port' : Port Termios) × (apply o port ≡ done port') × (port'.origtty ≡ port.origtty)
  unfolding set_baud set_blocking set_dtr set_raw flush get_tty_state set_tty_state tcsetattr
  apply-origtty (baud code) port h n = elim (Bool-cases (system.accepts port.sets)) [
    | inl e ↦ (tcsetattr system (system.with_speed code port.device) port, rw e refl, refl)
    | inr e ↦
        let (name, named) = name_of-done code n in
        let (current, named') = name_of-done (system.speed port.currenttty) (h port.currenttty) in
        (
          tcsetattr system (system.with_speed code port.device) port,
          rw (e, named, named') refl,
          refl,
        )
  ]
  apply-origtty (blocking mode) port h n = (_, refl, refl)
  apply-origtty (dtr value) port h n = (_, refl, refl)
  apply-origtty raw port h n = (_, refl, refl)
  apply-origtty flushed port h n = (_, refl, refl)
  apply-origtty get_state port h n = (_, refl, refl)
  apply-origtty (set_state tty) port h n = (_, refl, refl)

  apply_all-origtty :
      (operations : List (Operation Termios)) (port : Port Termios)
      → ((tty : Termios) → system.speed tty < 19)
      → All IsNamed operations
      → (port' : Port Termios) × (apply_all operations port ≡ done port')
        × (port'.origtty ≡ port.origtty)
  apply_all-origtty [] port h n = (port, refl, refl)
  apply_all-origtty (o ∷ operations) port h n =
      let (port1, run, same) = apply-origtty o port h (n.0) in
      let (port', run', same') = apply_all-origtty operations port1 h (n.1) in
      (port', bind-done _ run run', same' ∙ same)

  opened-done :
      (port : Port Termios)
      → ((tty : Termios) → system.speed tty < 19)
      → (port1 : Port Termios) × (opened system port ≡ done (success, port1))
        × (port1.origtty ≡ port.device)
  unfolding opened dump_tty_state
  opened-done port h =
      let (name, named) = name_of-done (system.speed port.device) (h port.device) in
      let port1 = record port {
        has_file = true;
        origtty = port.device;
        currenttty = port.device;
      } in
      (port1, bind-done _ named refl, refl)

  open_port-done :
      (filespec : Text) (port : Port Termios)
      → ((tty : Termios) → system.speed tty < 19)
      → is_negative (system.descriptor filespec) ≡ false
      → (port1 : Port Termios) × (open_port system filespec port ≡ done (success, port1))
        × (port1.origtty ≡ port.device)
  unfolding open_port
  open_port-done [] port h d = opened-done port h
  open_port-done (c ∷ filespec) port h d =
      let fd = system.descriptor (c ∷ filespec) in
      let (port1, run, same) = opened-done (record port { uartfd = fd }) h in
      (port1, rw d run, same)

  close_port-code : (port : Port Termios) → (close_port system port).0 ≡ not_supported
  unfolding close_port
  close_port-code port = refl

  close_port-device :
      (port : Port Termios)
      → ((n : ℕ) → system.accepts n ≡ true)
      → (close_port system port).1.device ≡ port.origtty
  unfolding close_port tcsetattr
  close_port-device port a = rw (a port.sets) refl

-- Open, operations, and Close, as one call.
abbrev pub session :
    {Termios : Type 0}
    → System Termios
    → Text
    → List (Operation Termios)
    → Port Termios
    → Effect (ErrorCode × Port Termios)
session system filespec operations port = do
  (code, port1) ← open_port system filespec port
  port2 ← apply_all system operations port1
  done (close_port system port2)

-- Where the file can be opened, the kernel takes all settings, and each speed has a name, a port that
-- is opened, used and closed has the settings that it had before, whatever operations came between;
-- the last call returns the code of an error nevertheless.
pub session-restores :
    {Termios : Type 0} (system : System Termios) (filespec : Text)
    (operations : List (Operation Termios)) (port : Port Termios)
    → ((tty : Termios) → system.speed tty < 19)
    → is_negative (system.descriptor filespec) ≡ false
    → ((n : ℕ) → system.accepts n ≡ true)
    → All (IsNamed system) operations
    → (port' : Port Termios) × (session system filespec operations port
        ≡ done (not_supported, port'))
      × (port'.device ≡ port.device)
session-restores system filespec operations port h d a n =
    let (port1, run1, same1) = open_port-done system filespec port h d in
    let (port2, run2, same2) = apply_all-origtty system operations port1 h n in
    let closed = close_port system port2 in
    (
      closed.1,
      bind-done _ run1
          (bind-done _ run2 (ap (λ code. done (code, closed.1)) (close_port-code system port2))),
      close_port-device system port2 a ∙ same2 ∙ same1,
    )
