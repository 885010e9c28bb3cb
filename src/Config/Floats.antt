-- ===== src/Config/Floats.antt =====
-- The floating point numbers of the configuration: decimal literals and comparisons.
use clai.Common.{ℕ, Bool, false, ◌≡◌}

pub record Floats (F : Type 0) : Type 0 where
  -- `of_decimal m d` is the number nearest to m / 10^d.
  pub of_decimal : ℕ → ℕ → F
  pub lt : F → F → Bool
  pub le : F → F → Bool

-- What the checks rely on: the constants in them compare as the decimals do.
pub record HasOrder {F : Type 0} (fl : Floats F) : Type 0 where
  pub zero_zero : fl.lt (fl.of_decimal 0 1) (fl.of_decimal 0 1) ≡ false
  pub one_zero : fl.lt (fl.of_decimal 10 1) (fl.of_decimal 0 1) ≡ false
  pub one_one : fl.lt (fl.of_decimal 10 1) (fl.of_decimal 10 1) ≡ false
  pub eta_zero : fl.le (fl.of_decimal 2 2) (fl.of_decimal 0 1) ≡ false
  pub one_eta : fl.lt (fl.of_decimal 10 1) (fl.of_decimal 2 2) ≡ false
