-- ===== src/Database/Columns.antt =====
-- The values that `Database::queryInsert` sends for a record.
use powerguru.Prelude.{
  ℕ, ◌<◌, ◌≡◌, ◌≢◌, refl, sym, ap, ◌∙◌, ◌==◌, false, List, [], ◌∷◌, ◌++◌, append_assoc, Text, codes,
  All, All-append, arith, ◌⊎◌, inl, inr,
}
use powerguru.Prelude.Int.{ℤ, pos, ◌+ℤ◌}
use powerguru.Std.Str.{body}
use powerguru.Std.Number.{print_int}
use powerguru.Std.Split.{Lacks, lacks, lacks_sound, split, join, split-join, Lacks-print_int}
use powerguru.Outback.Loop.{c_string}
use powerguru.Database.{MeterData}
use powerguru.Database.Maria.{Tm, stamp_pieces, insert_text}

abbrev stamp_parts : Tm → List Text
stamp_parts now =
    codes "'"
    ∷ print_int (now.year +ℤ pos 1900)
    ∷ codes "-"
    ∷ print_int (now.mon +ℤ pos 1)
    ∷ codes "-"
    ∷ print_int now.mday
    ∷ codes " "
    ∷ print_int now.hour
    ∷ codes ":"
    ∷ print_int now.min
    ∷ codes ":"
    ∷ print_int now.sec
    ∷ codes "'"
    ∷ []

-- The time of the record, in quotes.
unfoldable pub stamp : Tm → Text
stamp now = body (stamp_parts now)

Lacks-body : (c : ℕ) (pieces : List Text) → All (Lacks c) pieces → Lacks c (body pieces)
Lacks-body c [] h = tt
Lacks-body c (piece ∷ pieces) h =
    All-append (λ d. d ≢ c) piece (body pieces) (h.0) (Lacks-body c pieces (h.1))

-- The comma and NUL, which no printed number has.
abbrev Separator : ℕ → Type 0
Separator c = (c ≡ b',') ⊎ (c ≡ 0)

Lacks-one : (c : ℕ) {n : ℕ} → c ≢ n → Lacks c (n ∷ [])
Lacks-one c h = ((λ e. h (sym e)), tt)

Lacks-stamp : (c : ℕ) (now : Tm) → Separator c → Lacks c (stamp now)
unfolding stamp
Lacks-stamp c now h =
    let low : c < b'-' = ground arith in
    Lacks-body c (stamp_parts now) (
      Lacks-one c (λ e. ground arith),
      (
        Lacks-print_int c _ low,
        (
          Lacks-one c (λ e. ground arith),
          (
            Lacks-print_int c _ low,
            (
              Lacks-one c (λ e. ground arith),
              (
                Lacks-print_int c _ low,
                (
                  Lacks-one c (λ e. ground arith),
                  (
                    Lacks-print_int c _ low,
                    (
                      Lacks-one c (λ e. ground arith),
                      (
                        Lacks-print_int c _ low,
                        (
                          Lacks-one c (λ e. ground arith),
                          (Lacks-print_int c _ low, (Lacks-one c (λ e. ground arith), tt)),
                        ),
                      ),
                    ),
                  ),
                ),
              ),
            ),
          ),
        ),
      ),
    )

type_name-Separator : (c : ℕ) → Separator c → Lacks c (codes "'MX'")
unfolding lacks
type_name-Separator c (inl e) = rw e (lacks_sound b',' (codes "'MX'") refl)
type_name-Separator c (inr e) = rw e (lacks_sound 0 (codes "'MX'") refl)

module _ {Float : Type 0} (print : Float → Text) where
  -- The columns behind the unit.
  unfoldable pub columns : Tm → MeterData Float → List Text
  columns now d =
      codes "'MX'"
      ∷ stamp now
      ∷ print_int d.charge_amps
      ∷ print_int d.ac_load_amps
      ∷ print d.battery_volts
      ∷ print d.ac_volts_out
      ∷ print d.ac1_volts_in
      ∷ print d.ac2_volts_in
      ∷ print_int d.pv_amps_in
      ∷ print d.pv_volts_in
      ∷ print d.buy_amps
      ∷ print d.sell_amps
      ∷ print d.daily_kwh
      ∷ print_int d.hertz
      ∷ print d.tempcomp_volts
      ∷ []

  insert_text-join :
      (now : Tm) (d : MeterData Float)
      → insert_text print now d
        ≡ codes "INSERT INTO meters () VALUES ("
          ++ join b',' (print_int d.unit) (columns now d)
          ++ (b')' ∷ 0 ∷ [])
  unfolding insert_text stamp_pieces columns stamp join
  insert_text-join now d = simp append_assoc refl

  Lacks-columns :
      (c : ℕ) (now : Tm) (d : MeterData Float)
      → Separator c
      → ((f : Float) → Lacks c (print f))
      → All (Lacks c) (columns now d)
  unfolding columns
  Lacks-columns c now d h p =
      let low : c < b'-' = ground arith in
      let int : (v : ℤ) → Lacks c (print_int v) = λ v. Lacks-print_int c v low in
      let type_name : Lacks c (codes "'MX'") = type_name-Separator c h in
      (
        type_name,
        (
          Lacks-stamp c now h,
          (
            int _,
            (
              int _,
              (p _, (p _, (p _, (p _, (int _, (p _, (p _, (p _, (p _, (int _, (p _, tt))))))))))),
            ),
          ),
        ),
      )

Lacks-join :
    (c comma : ℕ) (part : Text) (parts : List Text)
    → c ≢ comma
    → Lacks c part
    → All (Lacks c) parts
    → Lacks c (join comma part parts)
unfolding join
Lacks-join c comma part [] n h hs = h
Lacks-join c comma part (next ∷ parts) n h hs =
    All-append (λ d. d ≢ c) part (comma ∷ join comma next parts) h
      ((λ e. n (sym e)), Lacks-join c comma next parts n (hs.0) (hs.1))

c_string-ends : (s : Text) → Lacks 0 s → c_string (s ++ (0 ∷ [])) ≡ s
unfolding c_string
c_string-ends [] h = refl
c_string-ends (c ∷ s) h =
    let other : (c == 0) ≡ false = ground (arith, h.0) in rw (other, c_string-ends s (h.1)) refl

-- `text` inserts one row of values into the table "meters", and a split at the commas finds them.
pub record Inserts (text : Text) (values : List Text) : Type 0 where
  pub row : Text
  pub command : text ≡ codes "INSERT INTO meters () VALUES (" ++ row ++ codes ")"
  pub fields : split b',' row ≡ values

module _ {Float : Type 0} (print : Float → Text) where
  pub insert_text-Inserts :
      (now : Tm) (d : MeterData Float)
      → ((f : Float) → Lacks b',' (print f))
      → ((f : Float) → Lacks 0 (print f))
      → Inserts (c_string (insert_text print now d)) (print_int d.unit ∷ columns print now d)
  unfolding lacks
  insert_text-Inserts now d commas nuls =
      let row = join b',' (print_int d.unit) (columns print now d) in
      let text = codes "INSERT INTO meters () VALUES (" ++ row ++ codes ")" in
      let shape : insert_text print now d ≡ text ++ (0 ∷ []) =
        insert_text-join print now d
        ∙ ap (λ s. codes "INSERT INTO meters () VALUES (" ++ s)
            (sym (append_assoc row (codes ")") (0 ∷ []))) in
      let no_nul : Lacks 0 row =
        Lacks-join 0 b',' (print_int d.unit) (columns print now d) (λ e. ground arith)
          (Lacks-print_int 0 d.unit (omega arith)) (Lacks-columns print 0 now d (inr refl) nuls) in
      record {
        row = row;
        command =
            ap c_string shape
            ∙ c_string-ends text (
                All-append (λ d. d ≢ 0) (codes "INSERT INTO meters () VALUES (") (row ++ codes ")")
                  (lacks_sound 0 (codes "INSERT INTO meters () VALUES (") refl)
                  (All-append (λ d. d ≢ 0) row (codes ")") no_nul
                    (lacks_sound 0 (codes ")") refl)));
        fields =
            split-join b',' (print_int d.unit) (columns print now d)
              (Lacks-print_int b',' d.unit (omega arith))
              (Lacks-columns print b',' now d (inl refl) commas);
      }
