-- ===== src/Quality/Fractions.antt =====
-- The quotients that scores are. Floats round them, which changes no order and leaves 0 and 1.
use native.Mathlib.Nat.{mul-le-mul_right}
use open_data_gov.Prelude.{ℕ, suc, ◌+◌, ◌*◌, ◌≤◌, ◌<◌, List, [], ◌∷◌, length, All, arith}

pub record Fraction : Type 0 where
  pub numerator : ℕ
  pub denominator : ℕ

-- n / d
infix 60 ◌over◌
abbrev pub ◌over◌ : ℕ → ℕ → Fraction
n over d = record { numerator = n; denominator = d }

unfoldable pub add_fractions : Fraction → Fraction → Fraction
add_fractions a b =
    (a.numerator * b.denominator + b.numerator * a.denominator) over (a.denominator * b.denominator)

-- sum(scores)
unfoldable pub sum_fractions : List Fraction → Fraction
unfolding add_fractions
sum_fractions [] = 0 over 1
sum_fractions (a ∷ rest) = add_fractions a (sum_fractions rest)

-- a / n
unfoldable pub divide : Fraction → ℕ → Fraction
divide a n = a.numerator over (a.denominator * n)

-- between 0 and 1
pub record IsProportion (a : Fraction) : Type 0 where
  pub positive : 0 < a.denominator
  pub at_most_one : a.numerator ≤ a.denominator

-- at most n
pub record IsAtMost (n : ℕ) (a : Fraction) : Type 0 where
  pub positive : 0 < a.denominator
  pub bounded : a.numerator ≤ n * a.denominator

add-IsAtMost :
    (n : ℕ) (a b : Fraction) → IsProportion a → IsAtMost n b → IsAtMost (suc n) (add_fractions a b)
unfolding add_fractions
add-IsAtMost n a b pa pb = record {
  positive = grind arith;
  bounded = omega (
    arith,
    mul-le-mul_right b.denominator pa.at_most_one,
    mul-le-mul_right a.denominator pb.bounded,
  );
}

sum-IsAtMost :
    (rest : List Fraction) → All IsProportion rest → IsAtMost (length rest) (sum_fractions rest)
unfolding sum_fractions
sum-IsAtMost [] all = omega arith
sum-IsAtMost (a ∷ rest) all =
    add-IsAtMost (length rest) a (sum_fractions rest) all.0 (sum-IsAtMost rest all.1)

pub mean-IsProportion :
    (a : Fraction) (rest : List Fraction)
    → All IsProportion (a ∷ rest)
    → IsProportion (divide (sum_fractions (a ∷ rest)) (length (a ∷ rest)))
unfolding divide
mean-IsProportion a rest all =
    let b = sum-IsAtMost (a ∷ rest) all in
    record { positive = grind arith; at_most_one = grind arith }
