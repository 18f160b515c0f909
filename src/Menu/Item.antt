-- ===== src/Menu/Item.antt =====
-- `class MenuItem`: its data, its constructors and the overloads of `SetItem` and `SetRange`.
use powerguru.Prelude.{ℕ, Bool, [], Text}
use powerguru.Prelude.Int.{ℤ, pos}

-- `union mval`, with the member that was written last; a `float` is a number of tenths.
pub data Mval : Type 0 where
  floatval intval timeval : ℤ → Mval
  boolval : Bool → Mval

-- `enum datatype`; `no_type` is `NONE`.
pub data Datatype : Type 0 where
  no_type info menu_head menu_item time date float int eol bool clock enumeration : Datatype

-- The indices are `int` in the code and never negative.
pub record MenuItem : Type 0 where
  pub cmdname : Text
  pub label : Text
  pub display : Text
  pub headidx : ℕ
  pub itemidx : ℕ
  pub type : Datatype
  pub value : Mval
  pub minrange : Mval
  pub maxrange : Mval

-- `MenuItem ()`: the union members stay as they are in memory.
unfoldable pub new : Mval → MenuItem
new memory = record {
  cmdname = [];
  label = [];
  display = [];
  headidx = 0;
  itemidx = 0;
  type = no_type;
  value = memory;
  minrange = memory;
  maxrange = memory;
}

-- `SetItem (lab, x, y, z, dtype, abbrev)`, which all the others call.
unfoldable pub set_all : MenuItem → Text → ℕ → ℕ → Mval → Datatype → Text → MenuItem
set_all item lab x y z dtype abbreviation = record item {
  label = lab;
  headidx = x;
  itemidx = y;
  value = z;
  cmdname = abbreviation;
  type = dtype;
}

-- `SetItem (lab, x, y, z, dtype)` passes 0 on, not `y`.
unfoldable pub set_typed : MenuItem → Text → ℕ → ℕ → Mval → Datatype → MenuItem
unfolding set_all
set_typed item lab x y z dtype = set_all item lab x 0 z dtype []

-- `SetItem (lab, x)`.
unfoldable pub set_head : MenuItem → Text → ℕ → MenuItem
unfolding set_typed
set_head item lab x = set_typed item lab x 0 (intval (pos 0)) menu_head

-- `SetItem (lab, x, y)`.
unfoldable pub set_info : MenuItem → Text → ℕ → ℕ → MenuItem
unfolding set_typed
set_info item lab x y = set_typed item lab x y (intval (pos 0)) info

-- `SetItem (lab, x, y, abbrev)`.
unfoldable pub set_menu_item : MenuItem → Text → ℕ → ℕ → Text → MenuItem
unfolding set_all
set_menu_item item lab x y abbreviation =
    set_all item lab x y (intval (pos 0)) menu_item abbreviation

-- The overloads for a value, with the abbreviation; without it, it is empty. `SetItem (lab, x, y, z)`
-- calls the longer overload for a `bool`, and the same function for the other types.
unfoldable pub set_bool : MenuItem → Text → ℕ → ℕ → Bool → Text → MenuItem
unfolding set_all
set_bool item lab x y z abbreviation = set_all item lab x y (boolval z) bool abbreviation

unfoldable pub set_int : MenuItem → Text → ℕ → ℕ → ℤ → Text → MenuItem
unfolding set_all
set_int item lab x y z abbreviation = set_all item lab x y (intval z) int abbreviation

unfoldable pub set_float : MenuItem → Text → ℕ → ℕ → ℤ → Text → MenuItem
unfolding set_all
set_float item lab x y z abbreviation = set_all item lab x y (floatval z) float abbreviation

unfoldable pub set_time : MenuItem → Text → ℕ → ℕ → ℤ → Text → MenuItem
unfolding set_all
set_time item lab x y z abbreviation = set_all item lab x y (timeval z) time abbreviation

-- The two overloads of `SetRange`.
unfoldable pub set_range : MenuItem → ℤ → ℤ → MenuItem
set_range item x y = record item { minrange = intval x; maxrange = intval y }

unfoldable pub set_float_range : MenuItem → ℤ → ℤ → MenuItem
set_float_range item x y = record item { minrange = floatval x; maxrange = floatval y }

-- The constructors; what they do not set is memory.
unfoldable pub make_head : Mval → Text → ℕ → MenuItem
unfolding new set_typed
make_head memory lab x = set_typed (new memory) lab x 0 (intval (pos 0)) menu_head

unfoldable pub make_menu_item : Mval → Text → ℕ → ℕ → Text → MenuItem
unfolding new set_typed
make_menu_item memory lab x y abbreviation =
    set_typed (new memory) lab x y (intval (pos 0)) menu_item

unfoldable pub make_bool : Mval → Text → ℕ → ℕ → Bool → Text → MenuItem
unfolding new set_typed
make_bool memory lab x y z abbreviation = set_typed (new memory) lab x y (boolval z) bool

unfoldable pub make_int : Mval → Text → ℕ → ℕ → ℤ → Text → MenuItem
unfolding new set_typed
make_int memory lab x y z abbreviation = set_typed (new memory) lab x y (intval z) int

unfoldable pub make_float : Mval → Text → ℕ → ℕ → ℤ → Text → MenuItem
unfolding new set_typed
make_float memory lab x y z abbreviation = set_typed (new memory) lab x y (floatval z) float

unfoldable pub make_time : Mval → Text → ℕ → ℕ → ℤ → Text → MenuItem
unfolding new set_typed
make_time memory lab x y z abbreviation = set_typed (new memory) lab x y (timeval z) time
