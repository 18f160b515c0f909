-- ===== src/Xantrex/Meters/Unread.antt =====
-- The fields that `XantrexUI::PollMeters` leaves as `memset` set them.
use powerguru.Prelude.{ℕ, ltb, ◌≡◌, refl, List, [], ◌∷◌, Text, length, inl, inr, Bool-cases}
use powerguru.Prelude.Int.{ℤ, pos}
use powerguru.Std.Convert.{Decimal}
use powerguru.Database.{MeterData}
use powerguru.Xantrex.Meters.{to_float}
use powerguru.Xantrex.Meters.Items.{
  Meter, input, load, actual, tempcomp, inverter, grid, generator, frequency, down_note, up_note,
  kept,
}
use powerguru.Xantrex.Meters.Walk.{down_notes, up_notes}

-- The fields that no display reaches, and the load, which is not read on the way up.
abbrev pub Unread : MeterData Decimal → Type 0
Unread d =
    (d.charge_amps ≡ pos 0)
    × (d.ac1_volts_in ≡ to_float (pos 0))
    × (d.ac2_volts_in ≡ to_float (pos 0))

abbrev pub NoLoad : MeterData Decimal → Type 0
NoLoad d = d.ac_load_amps ≡ pos 0

kept_same {ℓ} :
    {A : Type ℓ} (least : ℕ) (t : Text) {new old : A} → old ≡ new → kept least t new old ≡ new
kept_same least t e = elim (Bool-cases (ltb least (length t))) [
  | inl some_text ↦ rw some_text refl
  | inr none_left ↦ rw none_left e
]

down_note-Unread :
    (m : Meter) (t : Text) (d : MeterData Decimal) → Unread d → Unread (down_note m t d)
unfolding down_note
down_note-Unread input t d u = u
down_note-Unread load t d u = u
down_note-Unread actual t d u = u
down_note-Unread tempcomp t d u = u
down_note-Unread inverter t d u = u
down_note-Unread grid t d u = (u.0, kept_same 1 t (u.1), u.2)
down_note-Unread generator t d u = (u.0, u.1, kept_same 1 t (u.2))
down_note-Unread frequency t d u = u

up_note-Unread :
    (h : ℤ) (m : Meter) (t : Text) (d : MeterData Decimal)
    → Unread d
    → NoLoad d
    → Unread (up_note h m t d) × NoLoad (up_note h m t d)
unfolding up_note
up_note-Unread h input t d u l = (u, l)
up_note-Unread h load t d u l = (u, l)
up_note-Unread h actual t d u l = (u, l)
up_note-Unread h tempcomp t d u l = (u, l)
up_note-Unread h inverter t d u l = (u, l)
up_note-Unread h grid t d u l = ((u.0, kept_same 0 t (u.1), u.2), l)
up_note-Unread h generator t d u l = ((u.0, u.1, kept_same 0 t (u.2)), l)
up_note-Unread h frequency t d u l = (u, l)

pub down_notes-Unread :
    (texts : ℕ → Text) (ms : List Meter) (ns : List ℕ) (d : MeterData Decimal)
    → Unread d
    → Unread (down_notes texts ms ns d)
unfolding down_notes
down_notes-Unread texts [] ns d u = u
down_notes-Unread texts (m ∷ ms) [] d u = u
down_notes-Unread texts (m ∷ ms) (n ∷ ns) d u =
    down_notes-Unread texts ms ns (down_note m (texts n) d) (down_note-Unread m (texts n) d u)

pub up_notes-Unread :
    (texts : ℕ → Text) (h : ℤ) (ms : List Meter) (ns : List ℕ) (d : MeterData Decimal)
    → Unread d
    → NoLoad d
    → Unread (up_notes texts h ms ns d) × NoLoad (up_notes texts h ms ns d)
unfolding up_notes
up_notes-Unread texts h [] ns d u l = (u, l)
up_notes-Unread texts h (m ∷ ms) [] d u l = (u, l)
up_notes-Unread texts h (m ∷ ms) (n ∷ ns) d u l =
    let (u1, l1) = up_note-Unread h m (texts n) d u l in
    up_notes-Unread texts h ms ns (up_note h m (texts n) d) u1 l1
