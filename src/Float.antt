-- ===== src/Float.antt =====
-- `f64`, as the program uses it: its literals, operations and comparisons, and `f64::clamp`.
-- The arithmetic of the machine is not code of the repository: it is the parameter `Float F`. What
-- the proofs rely on is the record `IsIeee F`, the facts of IEEE 754 about comparisons and about
-- the sign and the monotonicity of correctly rounded sums, differences and products.
pub mod Fixed
pub mod Clamp
use pid_ctl.Prelude.{
  ℕ, ◌/◌, ◌%◌, ◌^◌, ◌≡◌, ◌⊎◌, Bool, true, false, not, Option, some, none, if◌then◌else◌,
}

pub record Float (F : Type 0) : Type 0 where
  -- The value nearest to the decimal literal with this numerator and denominator.
  pub lit : ℕ → ℕ → F
  pub neg_infinity : F
  pub infinity : F
  pub plus : F → F → F
  pub minus : F → F → F
  pub times : F → F → F
  pub over : F → F → F
  pub neg : F → F
  pub abs : F → F
  pub sqrt : F → F
  pub round : F → F
  -- `a.powf(b)`.
  pub powf : F → F → F
  -- `a.mul_add(b, c)`, which rounds once.
  pub mul_add : F → F → F → F
  -- `n as f64`.
  pub of_nat : ℕ → F
  -- `v as u64`, for a value within its range.
  pub to_nat : F → ℕ
  -- `Duration::from_secs_f64`, in nanoseconds; `none` is its panic.
  pub from_secs : F → Option ℕ
  pub is_finite : F → Bool
  pub le : F → F → Bool
  pub lt : F → F → Bool
  pub eq : F → F → Bool

module _ {F : Type 0} ⦃float : Float F⦄ where
  open float use {lit, le, lt}

  -- `0.0`.
  abbrev pub nought : F
  nought = lit 0 1

  abbrev pub one : F
  one = lit 1 1

  infix 4 ◌≼◌ ◌≺◌
  abbrev pub ◌≼◌ : F → F → Type 0
  x ≼ y = le x y ≡ true

  abbrev pub ◌≺◌ : F → F → Type 0
  x ≺ y = lt x y ≡ true

  -- NaN is the value that is not `<=` itself.
  abbrev pub IsNumber : F → Type 0
  IsNumber x = x ≼ x

  -- `x > y` and `x >= y` are `y < x` and `y <= x`.
  abbrev pub gt : F → F → Bool
  gt x y = lt y x

  abbrev pub ge : F → F → Bool
  ge x y = le y x

  -- `Duration::as_secs_f64` of a number of nanoseconds.
  unfoldable pub as_secs : ℕ → F
  as_secs d =
      float.plus (float.of_nat (d / 10 ^ 9))
        (float.over (float.of_nat (d % 10 ^ 9)) (float.of_nat (10 ^ 9)))

  -- `f64::clamp`: `none` is its panic when `min > max` or either is NaN; NaN is passed on.
  unfoldable pub clamp : F → F → F → Option F
  clamp x lo hi =
      if le lo hi
      then (let y = if lt x lo then lo else x in some (if gt y hi then hi else y))
      else none

-- Comparisons and rounding, as IEEE 754 and the documentation of `f64` state them.
pub record IsIeee (F : Type 0) ⦃float : Float F⦄ : Type 0 where
  pub number_of_le : (x y : F) → x ≼ y → IsNumber x × IsNumber y
  pub le_trans : (x y z : F) → x ≼ y → y ≼ z → x ≼ z
  -- Away from NaN, `<` is the negation of the reversed `<=`; with NaN both are false.
  pub lt-eq-not-le : (x y : F) → IsNumber x → IsNumber y → float.lt x y ≡ not (float.le y x)
  pub le_of_lt : (x y : F) → x ≺ y → x ≼ y
  -- `==` holds of numbers that are `<=` both ways (0.0 and -0.0 among them).
  pub le_of_eq : (x y : F) → float.eq x y ≡ true → (x ≼ y) × (y ≼ x)
  pub number_lit : (n d : ℕ) → IsNumber (float.lit n d)
  pub number_finite : (x : F) → float.is_finite x ≡ true → IsNumber x
  pub nought-le-one : float.lit 0 1 ≼ float.lit 1 1
  pub neg_infinity_le : (x : F) → IsNumber x → float.neg_infinity ≼ x
  pub le_infinity : (x : F) → IsNumber x → x ≼ float.infinity
  -- NaN is passed on.
  pub number_of_plus : (x y : F) → IsNumber (float.plus x y) → IsNumber x × IsNumber y
  pub number_of_minus : (x y : F) → IsNumber (float.minus x y) → IsNumber x × IsNumber y
  pub number_of_times : (x y : F) → IsNumber (float.times x y) → IsNumber x × IsNumber y
  -- Rounding is monotone, so a step up or down by what is not negative does not go the other way.
  pub minus-le : (x d : F) → nought ≼ d → IsNumber (float.minus x d) → float.minus x d ≼ x
  pub le-plus : (x d : F) → nought ≼ d → IsNumber (float.plus x d) → x ≼ float.plus x d
  pub minus-mono :
      (x y s : F)
      → x ≼ y
      → IsNumber (float.minus x s)
      → IsNumber (float.minus y s)
      → float.minus x s ≼ float.minus y s
  pub times_nonneg :
      (x y : F) → nought ≼ x → nought ≼ y → IsNumber (float.times x y) → nought ≼ float.times x y
  -- A step that is shorter than the distance does not pass the target.
  pub plus-le_of_lt :
      (x y d : F) → d ≺ float.minus y x → IsNumber (float.plus x d) → float.plus x d ≼ y
  pub le-minus_of_lt :
      (x y d : F) → d ≺ float.minus x y → IsNumber (float.minus x d) → y ≼ float.minus x d
  -- A distance is the difference, taken from the larger number.
  pub abs-minus : (x y : F) → x ≺ y → float.abs (float.minus y x) ≡ float.minus y x
  pub abs-minus_swap : (x y : F) → x ≺ y → float.abs (float.minus x y) ≡ float.minus y x
  -- A negative number of seconds is no duration, zero seconds is the empty one.
  pub from_secs_negative : (x : F) → x ≺ nought → float.from_secs x ≡ none
  pub from_secs_nought : float.from_secs nought ≡ some 0
