-- ===== src/Compliance/Bounds.antt =====
-- How many findings a checker reports.
use open_data_gov.Prelude.{
  ◌+◌, ◌≤◌, ◌≡◌, Bool, not, List, [], ◌∷◌, ◌++◌, map, length, select, arith,
}
use open_data_gov.Compliance.Protocol.{ComplianceFinding, reported}

-- No more findings are reported than there are rules.
pub length-reported :
    (rules : List (Bool × ComplianceFinding)) → length (reported rules) ≤ length rules
unfolding reported
length-reported [] = omega arith
length-reported ((test, finding) ∷ rules) = ground (arith, length-reported rules)

pub reported-++ :
    (xs ys : List (Bool × ComplianceFinding))
    → length (reported (xs ++ ys)) ≡ length (reported xs) + length (reported ys)
unfolding reported
reported-++ [] ys = omega arith
reported-++ ((test, finding) ∷ xs) ys = ground (arith, reported-++ xs ys)

-- Each of the items has a finding, or the property.
pub reported-missing {ℓ} :
    {A : Type ℓ} (holds : A → Bool) (finding : A → ComplianceFinding) (xs : List A)
    → length (reported (map (λ x. (not (holds x), finding x)) xs)) + length (select holds xs)
      ≡ length xs
unfolding reported select
reported-missing holds finding [] = omega arith
reported-missing holds finding (x ∷ xs) = ground (arith, reported-missing holds finding xs)
