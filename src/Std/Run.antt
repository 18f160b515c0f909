-- ===== src/Std/Run.antt =====
-- Runs that an exception of the standard library ends, or undefined behaviour.
use powerguru.Prelude.{◌≡◌, refl, ◌≢◌}

-- A run ends with a value, with the exception of `std::string::substr`, or reads outside the text,
-- which C++ leaves undefined.
pub data Run {ℓ} (A : Type ℓ) : Type ℓ where
  done : A → Run A
  out_of_range : Run A
  undefined : Run A

infixl 5 ◌>>=◌
abbrev pub ◌>>=◌ {ℓ κ} : {A : Type ℓ} {B : Type κ} → Run A → (A → Run B) → Run B
done a >>= f = f a
out_of_range >>= f = out_of_range
undefined >>= f = undefined

pub bind-done {ℓ κ} :
    {A : Type ℓ} {B : Type κ} (m : Run A) {a : A} (f : A → Run B) {r : Run B}
    → m ≡ done a
    → f a ≡ r
    → (m >>= f) ≡ r
bind-done m f e h = rw e h

pub bind-out_of_range {ℓ κ} :
    {A : Type ℓ} {B : Type κ} (m : Run A) (f : A → Run B)
    → m ≢ undefined
    → ((a : A) → f a ≡ out_of_range)
    → (m >>= f) ≡ out_of_range
bind-out_of_range (done a) f n h = h a
bind-out_of_range out_of_range f n h = refl
bind-out_of_range undefined f n h = absurd (n refl)

pub bind-ne-undefined {ℓ κ} :
    {A : Type ℓ} {B : Type κ} (m : Run A) (f : A → Run B)
    → m ≢ undefined
    → ((a : A) → f a ≢ undefined)
    → (m >>= f) ≢ undefined
bind-ne-undefined (done a) f n h = h a
bind-ne-undefined out_of_range f n h = cc
bind-ne-undefined undefined f n h = absurd (n refl)
