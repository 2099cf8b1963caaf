-- ===== src/Float/Fixed.antt =====
-- Fixed-point numbers with three decimals, as an instance of the float operations: sums and
-- differences are exact, products and quotients are cut off after the third decimal.
use bhtune.Common.{ℕ, ◌*◌, ◌/◌, ◌^◌, true, List, [], ◌∷◌, if◌then◌else◌, ◌==◌}
use bhtune.Common.Int.{ℤ, pos, ◌+ℤ◌, ◌-ℤ◌, ◌*ℤ◌, leb_ℤ, ltb_ℤ, eqb_ℤ, abs_ℕ, neg_part, trunc_div}
use bhtune.Float.Ops.{Floats}

-- A number of thousandths.
abbrev pub milli : ℕ → ℤ
milli n = pos n

quotient : ℤ → ℤ → ℤ
unfolding ◌*ℤ◌
quotient a b =
    let q = trunc_div (a *ℤ pos 1000) (abs_ℕ b) in if neg_part b == 0 then q else pos 0 -ℤ q

total : List ℤ → ℤ
unfolding ◌+ℤ◌
total [] = pos 0
total (a ∷ as') = a +ℤ total as'

unfoldable pub fixed : Floats ℤ ℤ
unfolding ◌+ℤ◌ ◌-ℤ◌ ◌*ℤ◌ quotient total
fixed = record {
  add = ◌+ℤ◌;
  sub = ◌-ℤ◌;
  mul = λ a b. trunc_div (a *ℤ b) 1000;
  div = quotient;
  max = λ a b. if leb_ℤ a b then b else a;
  min = λ a b. if leb_ℤ a b then a else b;
  le = λ a b. leb_ℤ a b;
  lt = λ a b. ltb_ℤ a b;
  eq = λ a b. eqb_ℤ a b;
  is_finite = λ _. true;
  literal = λ m e. pos (m * 1000 / 10 ^ e);
  of_int = λ n. n *ℤ pos 1000;
  pi = pos 3142;
  abs = λ a. pos (abs_ℕ a);
  epsilon = pos 0;
  sum = total;
  widen = λ a. a;
  narrow = λ a. a;
  sub_wide = ◌-ℤ◌;
  mul_wide = λ a b. trunc_div (a *ℤ b) 1000;
  abs_wide = λ a. pos (abs_ℕ a);
  le_wide = λ a b. leb_ℤ a b;
  literal_wide = λ m e. pos (m * 1000 / 10 ^ e);
  pi_wide = pos 3142;
}
