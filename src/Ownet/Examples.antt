-- ===== src/Ownet/Examples.antt =====
-- An owserver that answers at the third attempt.
use powerguru.Prelude.{◌==◌, Option, some, none, Text, codes, if◌then◌else◌}
use powerguru.Std.Str.{eq_text}
use powerguru.Ownet.{OwServer}

-- A thermometer without its readings.
abbrev answer : Text → Option Text
unfolding eq_text
answer path =
    if eq_text path (codes "/")
    then some (codes "28.FFAAD6A41603/")
    else if eq_text path (codes "28.FFAAD6A41603/family")
    then some (codes "28")
    else none

abbrev slow_server : OwServer
slow_server = record { init = λ host attempt. attempt == 2; get = λ path. answer path }
