-- ===== src/Float/Fixed.antt =====
-- A number system that meets `IsIeee`, and at which the model is run: thousandths with a sign, the
-- two infinities and NaN. It rounds towards zero.
use pid_ctl.Prelude.{
  Option, some, none, refl, ℕ, zero, suc, ◌+◌, ◌*◌, ◌/◌, Bool, true, false, arith, leb,
  if◌then◌else◌,
}
use pid_ctl.Prelude.Int.{ℤ, pos, negsuc, ◌+ℤ◌, ◌-ℤ◌, ◌*ℤ◌, ◌/ℤ◌, pos_part, neg_part, ltb_ℤ, leb_ℤ}
use pid_ctl.Float.{Float, IsIeee, nought, IsNumber, ◌≼◌, ◌≺◌}

pub data Fixed : Type 0 where
  nan bottom top : Fixed
  fin : ℤ → Fixed

abbrev milli : ℕ
milli = 1000

abbrev is_neg : ℤ → Bool
is_neg a = ltb_ℤ a (pos 0)

abbrev negate : ℤ → ℤ
negate a = pos 0 -ℤ a

-- The infinity with the sign of a product.
signed_top : Bool → Bool → Fixed
signed_top true false = bottom
signed_top false true = bottom
signed_top _ _ = top

plus_fixed : Fixed → Fixed → Fixed
plus_fixed (fin a) (fin b) = fin (a +ℤ b)
plus_fixed (fin a) top = top
plus_fixed top (fin a) = top
plus_fixed top top = top
plus_fixed (fin a) bottom = bottom
plus_fixed bottom (fin a) = bottom
plus_fixed bottom bottom = bottom
plus_fixed _ _ = nan

neg_fixed : Fixed → Fixed
neg_fixed (fin a) = fin (negate a)
neg_fixed top = bottom
neg_fixed bottom = top
neg_fixed nan = nan

minus_fixed : Fixed → Fixed → Fixed
minus_fixed (fin a) (fin b) = fin (a -ℤ b)
minus_fixed (fin a) top = bottom
minus_fixed top (fin a) = top
minus_fixed top bottom = top
minus_fixed (fin a) bottom = top
minus_fixed bottom (fin a) = bottom
minus_fixed bottom top = bottom
minus_fixed _ _ = nan

infinite_times : Bool → ℤ → Fixed
infinite_times s (pos zero) = nan
infinite_times s (pos (suc n)) = signed_top s false
infinite_times s (negsuc n) = signed_top s true

times_fixed : Fixed → Fixed → Fixed
times_fixed (fin a) (fin b) = fin (◌/ℤ◌ (a *ℤ b) milli)
times_fixed (fin a) top = infinite_times false a
times_fixed top (fin a) = infinite_times false a
times_fixed (fin a) bottom = infinite_times true a
times_fixed bottom (fin a) = infinite_times true a
times_fixed top top = top
times_fixed bottom bottom = top
times_fixed top bottom = bottom
times_fixed bottom top = bottom
times_fixed _ _ = nan

divide : ℤ → ℤ → Fixed
divide (pos zero) (pos zero) = nan
divide (pos (suc n)) (pos zero) = top
divide (negsuc n) (pos zero) = bottom
divide a (pos (suc n)) = fin (◌/ℤ◌ (a *ℤ pos milli) (suc n))
divide a (negsuc n) = fin (negate (◌/ℤ◌ (a *ℤ pos milli) (suc n)))

over_fixed : Fixed → Fixed → Fixed
over_fixed (fin a) (fin b) = divide a b
over_fixed (fin a) top = fin (pos 0)
over_fixed (fin a) bottom = fin (pos 0)
over_fixed top (fin b) = signed_top false (is_neg b)
over_fixed bottom (fin b) = signed_top true (is_neg b)
over_fixed _ _ = nan

-- The square root by Newton's method, on fuel.
root : ℕ → ℕ → ℕ → ℕ
root zero n r = r
root (suc f) n r =
    let r' = (r + n / r) / 2 in let rest = root f n r' in if leb r r' then r else rest

sqrt_fixed : Fixed → Fixed
sqrt_fixed (fin (pos zero)) = fin (pos zero)
sqrt_fixed (fin (pos (suc n))) = fin (pos (root 64 (suc n * milli) (suc n * milli)))
sqrt_fixed top = top
sqrt_fixed _ = nan

abs_fixed : Fixed → Fixed
abs_fixed (fin a) = fin (pos (pos_part a + neg_part a))
abs_fixed nan = nan
abs_fixed _ = top

round_fixed : Fixed → Fixed
round_fixed (fin (pos n)) = fin (pos ((n + 500) / milli * milli))
round_fixed (fin (negsuc n)) = fin (negate (pos ((suc n + 500) / milli * milli)))
round_fixed x = x

le_fixed : Fixed → Fixed → Bool
le_fixed (fin a) (fin b) = leb_ℤ a b
le_fixed bottom (fin b) = true
le_fixed bottom top = true
le_fixed bottom bottom = true
le_fixed (fin a) top = true
le_fixed top top = true
le_fixed _ _ = false

lt_fixed : Fixed → Fixed → Bool
lt_fixed (fin a) (fin b) = ltb_ℤ a b
lt_fixed bottom (fin b) = true
lt_fixed bottom top = true
lt_fixed (fin a) top = true
lt_fixed _ _ = false

eq_fixed : Fixed → Fixed → Bool
eq_fixed x y = if le_fixed x y then le_fixed y x else false

finite_fixed : Fixed → Bool
finite_fixed (fin a) = true
finite_fixed _ = false

whole : Fixed → ℕ
whole (fin (pos n)) = n / milli
whole _ = 0

seconds : Fixed → Option ℕ
seconds (fin (pos n)) = some (n * 1_000_000)
seconds _ = none

-- `powf` is given at whole exponents.
power : Fixed → ℕ → Fixed
power x zero = fin (pos milli)
power x (suc n) = times_fixed x (power x n)

-- A test that runs the model on `Fixed` names this on its `unfolding` line.
instance unfoldable pub fixed_float : Float Fixed
unfolding signed_top plus_fixed neg_fixed minus_fixed infinite_times times_fixed divide over_fixed
    root sqrt_fixed abs_fixed round_fixed le_fixed lt_fixed eq_fixed finite_fixed whole seconds
    power ◌+ℤ◌ ◌-ℤ◌ ◌*ℤ◌ ◌/ℤ◌
fixed_float = record {
  lit = λ n d. fin (pos (n * milli / d));
  neg_infinity = bottom;
  infinity = top;
  plus = plus_fixed;
  minus = minus_fixed;
  times = times_fixed;
  over = over_fixed;
  neg = neg_fixed;
  abs = abs_fixed;
  sqrt = sqrt_fixed;
  round = round_fixed;
  powf = λ x y. power x (whole y);
  mul_add = λ a b c. plus_fixed (times_fixed a b) c;
  of_nat = λ n. fin (pos (n * milli));
  to_nat = whole;
  from_secs = seconds;
  is_finite = finite_fixed;
  le = le_fixed;
  lt = lt_fixed;
  eq = eq_fixed;
}

le_fixed_trans : (x y z : Fixed) → x ≼ y → y ≼ z → x ≼ z
unfolding fixed_float
le_fixed_trans (fin x) (fin y) (fin z) h k = ground arith
le_fixed_trans _ _ _ h k = ground arith

minus_fixed-mono :
    (x y s : Fixed)
    → x ≼ y
    → IsNumber (minus_fixed x s)
    → IsNumber (minus_fixed y s)
    → minus_fixed x s ≼ minus_fixed y s
unfolding fixed_float
minus_fixed-mono (fin x) (fin y) (fin s) h p q = ground arith
minus_fixed-mono _ _ _ h p q = ground arith

times_fixed_nonneg :
    (x y : Fixed) → nought ≼ x → nought ≼ y → IsNumber (times_fixed x y) → nought ≼ times_fixed x y
unfolding fixed_float
times_fixed_nonneg (fin (pos x)) (fin (pos y)) h k n = ground arith
times_fixed_nonneg _ _ h k n = ground arith

plus_fixed-le_of_lt :
    (x y d : Fixed) → d ≺ minus_fixed y x → IsNumber (plus_fixed x d) → plus_fixed x d ≼ y
unfolding fixed_float
plus_fixed-le_of_lt (fin x) (fin y) (fin d) h n = ground arith
plus_fixed-le_of_lt _ _ _ h n = ground arith

le-minus_fixed_of_lt :
    (x y d : Fixed) → d ≺ minus_fixed x y → IsNumber (minus_fixed x d) → y ≼ minus_fixed x d
unfolding fixed_float
le-minus_fixed_of_lt (fin x) (fin y) (fin d) h n = ground arith
le-minus_fixed_of_lt _ _ _ h n = ground arith

pub Fixed-IsIeee : IsIeee Fixed
unfolding fixed_float
Fixed-IsIeee = record {
  number_of_le = λ x y h. ground arith;
  le_trans = le_fixed_trans;
  lt-eq-not-le = λ x y h k. ground arith;
  le_of_lt = λ x y h. ground arith;
  le_of_eq = λ x y h. ground arith;
  number_lit = λ n d. ground arith;
  number_finite = λ x h. ground arith;
  nought-le-one = refl;
  neg_infinity_le = λ x h. ground arith;
  le_infinity = λ x h. ground arith;
  number_of_plus = λ x y h. ground arith;
  number_of_minus = λ x y h. ground arith;
  number_of_times = λ x y h. ground arith;
  minus-le = λ x d h n. ground arith;
  le-plus = λ x d h n. ground arith;
  minus-mono = minus_fixed-mono;
  times_nonneg = times_fixed_nonneg;
  plus-le_of_lt = plus_fixed-le_of_lt;
  le-minus_of_lt = le-minus_fixed_of_lt;
  abs-minus = λ x y h. ground arith;
  abs-minus_swap = λ x y h. ground arith;
  from_secs_negative = λ x h. ground arith;
  from_secs_nought = refl;
}
