-- ===== src/Core/Floats.antt =====
-- Python's floats. The library has none, so the type of floats and the operations that the program
-- uses are a parameter; what IEEE arithmetic guarantees of them is stated where a theorem needs it.
use litestar_rs.Prelude.{Bool, Option, some}
use litestar_rs.Prelude.Int.{ℤ, ◌+ℤ◌, ◌-ℤ◌, ◌*ℤ◌, leb_ℤ, ltb_ℤ}

pub record Floats (F : Type 0) : Type 0 where
  -- an integer as an operand of a float operation
  pub of_int : ℤ → F
  pub add : F → F → F
  pub sub : F → F → F
  pub mul : F → F → F
  pub div : F → F → F
  -- `x ** n`; `none` is OverflowError
  pub pow : F → ℤ → Option F
  -- `int(x)`; `none` is the error at an infinity or a NaN
  pub to_int : F → Option ℤ
  pub le : F → F → Bool
  pub lt : F → F → Bool

-- For tests: the integers.
abbrev pub whole : Floats ℤ
whole = record {
  of_int = λ n. n;
  add = ◌+ℤ◌;
  sub = ◌-ℤ◌;
  mul = ◌*ℤ◌;
  div = λ a b. a;
  pow = λ a n. some a;
  to_int = λ a. some a;
  le = leb_ℤ;
  lt = ltb_ℤ;
}
