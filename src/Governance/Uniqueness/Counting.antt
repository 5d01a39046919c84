-- ===== src/Governance/Uniqueness/Counting.antt =====
-- How many rows of a table satisfy a test, as rows are added and removed.
use open_data_gov.Prelude.{
  ◌≤◌, ◌≡◌, refl, Bool, false, List, [], ◌∷◌, ◌++◌, length, select, any, arith, if◌then◌else◌,
}

module _ {A : Type 0} (test : A → Bool) where
  pub none-select : (xs : List A) → any test xs ≡ false → select test xs ≡ []
  unfolding any select
  none-select [] h = refl
  none-select (x ∷ xs) h = ground (arith, h, none-select xs)

  pub select-append :
      (xs : List A) (x : A)
      → select test (xs ++ x ∷ []) ≡ select test xs ++ (if test x then x ∷ [] else [])
  unfolding select
  select-append [] x = refl
  select-append (y ∷ xs) x = ground (arith, select-append xs x)

  pub length-select-select :
      (keep : A → Bool) (xs : List A)
      → length (select test (select keep xs)) ≤ length (select test xs)
  unfolding select
  length-select-select keep [] = omega arith
  length-select-select keep (x ∷ xs) = ground (arith, length-select-select keep xs)

  pub any-absent : (xs : List A) → select test xs ≡ [] → any test xs ≡ false
  unfolding any select
  any-absent [] h = refl
  any-absent (x ∷ xs) h = ground (arith, h, any-absent xs)
