-- ===== src/Number.antt =====
-- Python's `float`, which the program takes from its interpreter. `F` is the type of doubles, and
-- `lit m e` is the double that the literal m * 10^(-e) denotes.
pub mod Fixed
use llm_evaluation_pipeline.Prelude.{ℕ, ◌≡◌, Bool, true, false, not, List, if◌then◌else◌}

pub record Float (F : Type 0) : Type 0 where
  pub lit : ℕ → ℕ → F
  pub inf : F
  pub add : F → F → F
  pub sub : F → F → F
  pub mul : F → F → F
  pub div : F → F → F
  pub lt : F → F → Bool
  pub le : F → F → Bool
  pub eq : F → F → Bool
  -- the built-in `round(x, n)`
  pub round : F → ℕ → F
  -- the built-in `sum`, which starts from 0
  pub sum : List F → F

module _ {F : Type 0} ⦃f : Float F⦄ where
  abbrev pub zero_float : F
  zero_float = f.lit 0 0

  abbrev pub one_float : F
  one_float = f.lit 1 0

  -- `-x`
  abbrev pub neg : F → F
  neg x = f.sub zero_float x

  -- `abs(x)`
  abbrev pub abs : F → F
  abs x = if f.lt x zero_float then neg x else x

  -- the built-in `min(x, y)`: the first unless the second is smaller
  abbrev pub min_float : F → F → F
  min_float x y = if f.lt y x then y else x

  -- `x - x` is 0 for finite x, and NaN for the infinities and NaN.
  abbrev pub IsFinite : F → Type 0
  IsFinite x = f.eq (f.sub x x) zero_float ≡ true

-- What the theorems use of IEEE 754 doubles.
pub record IsFloat (F : Type 0) ⦃f : Float F⦄ : Type 0 where
  pub le_trans : (x y z : F) → f.le x y ≡ true → f.le y z ≡ true → f.le x z ≡ true
  -- `==` of doubles is equality of numbers: both zeros compare alike
  pub lt_of_eq : (x y z : F) → f.eq x y ≡ true → f.lt x z ≡ f.lt y z
  pub lt_of_eq_right : (x y z : F) → f.eq x y ≡ true → f.lt z x ≡ f.lt z y
  pub zero_lt_neg : (x : F) → f.lt zero_float (neg x) ≡ f.lt x zero_float
  pub lit_nonneg : (m e : ℕ) → f.lt (f.lit m e) zero_float ≡ false
  pub not_eq_of_lt : (x y : F) → f.lt x y ≡ true → f.eq x y ≡ false
