-- ===== src/Outback/Examples.antt =====
-- Runs of the Outback code on concrete pages.
use powerguru.Prelude.{
  All, ◌≤◌, ◌<◌, ◌≡◌, refl, true, [], ◌∷◌, ◌++◌, map, Text, codes, length, arith, inl, inr, ◌⊎◌,
}
use powerguru.Prelude.Int.{ℤ, pos, negsuc, ◌*ℤ◌}
use powerguru.Database.{MeterData, no_device}
use powerguru.Outback.Device.{new, RetCode, success, done, undefined, char_at}
use powerguru.Outback.Checksum.{calc_checksum}
use powerguru.Outback.Checksum.Bounds.{calc_checksum_defined}
use powerguru.Outback.Page.{MxPage, print_page, digits2, digits3}
use powerguru.Outback.Parse.{parse}
use powerguru.Outback.Parse.Columns.{decoded, parse-decoded}
use powerguru.Outback.Parse.Pages.{IsReadable, holding, parse-print_page}
use powerguru.Outback.Loop.{Loop, key_of, is_quit, main}
use powerguru.Outback.Loop.Framing.{IsPage}
use powerguru.Serial.{other, bytes}
use powerguru.Outback.Loop.Reports.{Turn, IsTurn, input_of, main-refused}

abbrev page : MxPage
page = record {
  start = 10;
  address = b'B';
  charger_current = 12;
  pv_current = 11;
  pv_input_voltage = 148;
  daily_kwh = 105;
  aux_mode = 3;
  error_mode = 0;
  charger_mode = 2;
  battery_voltage = 278;
  checksum = 172;
  stop = 13;
}

page_text :
    print_page page ≡ 10 ∷ (codes "B,00,12,11,148,105,00,03,000,02,278,000,000,172" ++ 13 ∷ [])
unfolding print_page digits2 digits3
page_text = refl

page-IsReadable : IsReadable page
page-IsReadable = record {
  known = inr (omega arith, omega arith);
  charger_current = (omega arith, omega arith, omega arith);
  pv_current = (omega arith, omega arith, omega arith);
  pv_input_voltage = (omega arith, omega arith, omega arith);
  daily_kwh = (omega arith, inl (omega arith));
  aux_mode = (omega arith, omega arith, omega arith);
  charger_mode = (omega arith, omega arith, omega arith);
  battery_voltage = (omega arith, inl (omega arith));
  checksum = (omega arith, inl (omega arith));
}

abbrev no_data : MeterData ℤ
no_data = record {
  unit = pos 0;
  type = no_device;
  charge_amps = pos 0;
  ac_load_amps = pos 0;
  battery_volts = pos 0;
  ac_volts_out = pos 0;
  ac1_volts_in = pos 0;
  ac2_volts_in = pos 0;
  pv_amps_in = pos 0;
  pv_volts_in = pos 0;
  buy_amps = pos 0;
  sell_amps = pos 0;
  daily_kwh = pos 0;
  hertz = pos 0;
  tempcomp_volts = pos 0;
}

abbrev body : Text
body = 10 ∷ codes "B,00,12,11,148,105,00,03,000,02,278,000,000,"

parse-print_page_example : parse new (print_page page) ≡ done (holding new page, success)
parse-print_page_example = parse-print_page new page page-IsReadable

parse-decoded_example : parse new body ≡ done (decoded new b'B' body, success)
parse-decoded_example =
    parse-decoded new body b'B' (unfold char_at in refl) (inr (omega arith, omega arith))
      (omega arith)

abbrev zero_body : Text
zero_body = 10 ∷ codes "K,00,99,99,199,999,00,09,000,04,278,000,000,"

calc_checksum_defined_example :
    (47 ≤ length body) × ((r : RetCode) × (calc_checksum body ≡ done r))
    ⊎ (length body < 47) × (calc_checksum body ≡ undefined)
calc_checksum_defined_example = calc_checksum_defined body

abbrev idle_loop : Loop
idle_loop = record { device = new; dtr = true; inserted = [] }

page-IsPage : IsPage page
page-IsPage = record {
  starts = refl;
  known = inr (omega arith, omega arith);
  charger_current = omega arith;
  pv_current = omega arith;
  pv_input_voltage = omega arith;
  daily_kwh = omega arith;
  aux_mode = omega arith;
  error_mode = omega arith;
  charger_mode = omega arith;
  battery_voltage = omega arith;
  checksum = omega arith;
  stops = refl;
}

-- A page without a key, and one behind the key `d`.
abbrev turn_of : ℤ → Turn
turn_of key = record {
  key = key;
  kernel = λ i. record { wait = other; input = bytes (print_page page) };
  page = page;
}

turns-IsTurn : All IsTurn (turn_of (negsuc 0) ∷ turn_of (pos b'd') ∷ [])
unfolding key_of is_quit
turns-IsTurn = (
  record { goes_on = refl; waits = refl; brings = refl; lays_out = page-IsPage },
  (record { goes_on = refl; waits = refl; brings = refl; lays_out = page-IsPage }, tt),
)

main-refused_example :
    (s' : Loop) × (main true no_data idle_loop
        (map input_of (turn_of (negsuc 0) ∷ turn_of (pos b'd') ∷ []))
      ≡ done s')
    × (s'.inserted
        ≡ []
          ++ record no_data { unit = pos 44; hertz = pos 60 }
            ∷ record no_data { unit = pos 44; hertz = pos 60 }
            ∷ [])
unfolding new ◌*ℤ◌
main-refused_example =
    main-refused no_data idle_loop (turn_of (negsuc 0) ∷ turn_of (pos b'd') ∷ []) turns-IsTurn refl
