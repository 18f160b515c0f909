-- ===== src/Outback/Modes.antt =====
-- `outback::dump`: the texts of the modes. The modes are numbers, as `parse` casts them.
use powerguru.Prelude.{ℕ, ◌==◌, List, [], ◌∷◌, Text, codes, if◌then◌else◌}
use powerguru.Prelude.Int.{ℤ, pos, negsuc}

-- A `switch`: the first case with the value, or the default.
unfoldable pub switch : ℤ → List (ℕ × Text) → Text → Text
switch (negsuc n) cases default = default
switch (pos n) [] default = default
switch (pos n) ((value, text) ∷ cases) default =
    let rest = switch (pos n) cases default in if value == n then text else rest

abbrev pub operating_mode_cases : List (ℕ × Text)
operating_mode_cases =
    (0, codes "Inverter OFF")
    ∷ (1, codes "Inverter SEARCH")
    ∷ (2, codes "Inverter ON")
    ∷ (3, codes "Charge")
    ∷ (4, codes "Silent")
    ∷ (5, codes "Float")
    ∷ (6, codes "Equalize")
    ∷ (7, codes "Charger Off")
    ∷ (8, codes "Support")
    ∷ (9, codes "Sell On")
    ∷ (10, codes "Pass Thru")
    ∷ (90, codes "FX Error")
    ∷ (91, codes "AGS Error")
    ∷ (92, codes "Communications Error")
    ∷ []

unfoldable pub operating_mode_text : ℤ → Text
unfolding switch
operating_mode_text mode = switch mode operating_mode_cases (codes "No operating mode!")

abbrev pub ac_mode_cases : List (ℕ × Text)
ac_mode_cases = (0, codes "No AC") ∷ (1, codes "AC Dropped") ∷ (2, codes "AC In Use") ∷ []

unfoldable pub ac_mode_text : ℤ → Text
unfolding switch
ac_mode_text mode = switch mode ac_mode_cases (codes "No AC mode!")

abbrev pub aux_mode_cases : List (ℕ × Text)
aux_mode_cases =
    (0, codes "Aux Mode Disabled")
    ∷ (1, codes "Diversion")
    ∷ (2, codes "Remote")
    ∷ (3, codes "Manual")
    ∷ (4, codes "Vent Fan")
    ∷ (5, codes "PV Trigger")
    ∷ []

unfoldable pub aux_mode_text : ℤ → Text
unfolding switch
aux_mode_text mode = switch mode aux_mode_cases (codes "No AUX mode set")

abbrev pub charge_mode_cases : List (ℕ × Text)
charge_mode_cases =
    (0, codes "Silent Charge mode")
    ∷ (1, codes "Float Charge mode")
    ∷ (2, codes "Bulk Charge mode")
    ∷ (3, codes "Absorb Charge mode")
    ∷ (4, codes "Equalization Charge mode")
    ∷ []

unfoldable pub charge_mode_text : ℤ → Text
unfolding switch
charge_mode_text mode = switch mode charge_mode_cases (codes "No Charge mode")

abbrev pub error_mode_cases : List (ℕ × Text)
error_mode_cases =
    (0, codes "No error")
    ∷ (1, codes "ERROR: Low Volts AC")
    ∷ (2, codes "ERROR: Stacking")
    ∷ (4, codes "ERROR: Over Temperature")
    ∷ (8, codes "ERROR: Low Battery")
    ∷ (16, codes "ERROR: Phase Loss")
    ∷ (32, codes "ERROR: High Battery")
    ∷ (64, codes "ERROR: Short")
    ∷ (128, codes "ERROR: Backfeed")
    ∷ []

unfoldable pub error_mode_text : ℤ → Text
unfolding switch
error_mode_text mode = switch mode error_mode_cases (codes "No error mode")

abbrev pub warning_mode_cases : List (ℕ × Text)
warning_mode_cases =
    (0, codes "No warning")
    ∷ (1, codes "WARNING: Input Frequency High")
    ∷ (2, codes "WARNING: Input Frequency Low")
    ∷ (4, codes "WARNING: Input Volts AC High")
    ∷ (8, codes "WARNING: Input Volts AC low")
    ∷ (16, codes "WARNING: Buy in size")
    ∷ (32, codes "WARNING: Temperature Failure")
    ∷ (64, codes "WARNING: Communications error")
    ∷ (128, codes "WARNING: Fan Failure")
    ∷ []

unfoldable pub warning_mode_text : ℤ → Text
unfolding switch
warning_mode_text mode = switch mode warning_mode_cases (codes "No warning mode")

-- The lines for the misc byte: the case 0 falls through to the next.
unfoldable pub misc_byte_lines : ℤ → List Text
misc_byte_lines (negsuc n) = codes "Reserved" ∷ []
misc_byte_lines (pos n) =
    if n == 0
    then codes "No Misc byte" ∷ codes "AC Unit" ∷ []
    else if n == 1
    then codes "AC Unit" ∷ []
    else if n == 128
    then codes "Aux Mode On set" ∷ []
    else codes "Reserved" ∷ []
