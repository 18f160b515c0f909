-- ===== src/Outback/Page.antt =====
-- `struct outback_mx`: the layout of a status page of an MX charge controller.
use powerguru.Prelude.{ℕ, ◌+◌, ◌/◌, ◌%◌, [], ◌∷◌, ◌++◌, Text}

-- A number as two and as three decimal digits, high byte first.
unfoldable pub digits2 : ℕ → Text
digits2 n = (b'0' + n / 10) ∷ (b'0' + n % 10) ∷ []

unfoldable pub digits3 : ℕ → Text
digits3 n = (b'0' + n / 100) ∷ (b'0' + n / 10 % 10) ∷ (b'0' + n % 10) ∷ []

-- The members that carry data, as numbers; the unused ones are zeros.
pub record MxPage : Type 0 where
  pub start : ℕ
  pub address : ℕ
  pub charger_current : ℕ
  pub pv_current : ℕ
  pub pv_input_voltage : ℕ
  pub daily_kwh : ℕ
  pub aux_mode : ℕ
  pub error_mode : ℕ
  pub charger_mode : ℕ
  pub battery_voltage : ℕ
  pub checksum : ℕ
  pub stop : ℕ

-- The bytes in the order of the members.
unfoldable pub print_page : MxPage → Text
print_page p =
    p.start
    ∷ p.address
    ∷ b','
    ∷ b'0'
    ∷ b'0'
    ∷ b','
    ∷ (digits2 p.charger_current
        ++ b','
          ∷ (digits2 p.pv_current
              ++ b','
                ∷ (digits3 p.pv_input_voltage
                    ++ b','
                      ∷ (digits3 p.daily_kwh
                          ++ b','
                            ∷ b'0'
                            ∷ b'0'
                            ∷ b','
                            ∷ (digits2 p.aux_mode
                                ++ b','
                                  ∷ (digits3 p.error_mode
                                      ++ b','
                                        ∷ (digits2 p.charger_mode
                                            ++ b','
                                              ∷ (digits3 p.battery_voltage
                                                  ++ b','
                                                    ∷ b'0'
                                                    ∷ b'0'
                                                    ∷ b'0'
                                                    ∷ b','
                                                    ∷ b'0'
                                                    ∷ b'0'
                                                    ∷ b'0'
                                                    ∷ b','
                                                    ∷ (digits3 p.checksum ++ p.stop ∷ [])))))))))
