-- ===== src/Quality/Counting.antt =====
-- What the scorer's dictionaries count.
use open_data_gov.Prelude.{
  ℕ, ◌+◌, ◌≡◌, refl, ap, String, Bool, false, ◌&&◌, List, [], ◌∷◌, Option, none, some, ◌==◌, nat_eq,
  string_eq, length, select, arith, if◌then◌else◌, Bool-cases, inl, inr, ==_sound,
}
use open_data_gov.Prelude.Dict.{get, get-put}
use open_data_gov.Enums.Data.{DamaDimension, dama_dimension_value, dama_dimension_eq}
use open_data_gov.Quality.Dimensions.{
  DimensionMap, ExpectationResult, Tally, count_of, bump, dimension_of, succeeded, count_result,
  count_dimension, count_results,
}

abbrev pub is_on : DamaDimension → Option DamaDimension → Bool
is_on dim none = false
is_on dim (some d) = d == dim

-- The result is of an expectation on the dimension.
abbrev pub counts_as : DimensionMap → DamaDimension → ExpectationResult → Bool
counts_as dimension_map dim result = is_on dim (dimension_of dimension_map result)

abbrev pub tests_of : DimensionMap → DamaDimension → List ExpectationResult → List ExpectationResult
tests_of dimension_map dim results = select (counts_as dimension_map dim) results

-- comparing the values compares the dimensions
abbrev Same : DamaDimension → DamaDimension → Type 0
Same a b = (dama_dimension_value a == dama_dimension_value b) ≡ (a == b)

Same-value : (a b : DamaDimension) → Same a b
Same-value a b = elim a as (λ x. Same x b) [
  | DamaDimension.completeness ↦ elim b as (λ y. Same DamaDimension.completeness y) [
    | DamaDimension.completeness ↦ refl
    | _ ↦ refl
  ]
  | DamaDimension.accuracy ↦ elim b as (λ y. Same DamaDimension.accuracy y) [
    | DamaDimension.completeness ↦ refl
    | _ ↦ refl
  ]
  | DamaDimension.consistency ↦ elim b as (λ y. Same DamaDimension.consistency y) [
    | DamaDimension.completeness ↦ refl
    | _ ↦ refl
  ]
  | DamaDimension.timeliness ↦ elim b as (λ y. Same DamaDimension.timeliness y) [
    | DamaDimension.completeness ↦ refl
    | _ ↦ refl
  ]
  | DamaDimension.uniqueness ↦ elim b as (λ y. Same DamaDimension.uniqueness y) [
    | DamaDimension.completeness ↦ refl
    | _ ↦ refl
  ]
  | DamaDimension.validity ↦ elim b as (λ y. Same DamaDimension.validity y) [
    | DamaDimension.completeness ↦ refl
    | _ ↦ refl
  ]
]

-- 1 if the test holds
abbrev pub one_if : Bool → ℕ
one_if b = if b then 1 else 0

count_of-bump :
    (j k : String) (d : List (String × ℕ)) → count_of j (bump k d) ≡ count_of j d + one_if (k == j)
unfolding count_of bump
count_of-bump j k d =
    let found = get-put j k (count_of k d + 1) d in
    elim (Bool-cases (k == j)) [
      | inl same ↦
          let old : get k d ≡ get j d = ap (λ x. get x d) (==_sound k j same) in
          ground (arith, found, same, old)
      | inr other ↦ ground (arith, found, other)
    ]

module _ (dim : DamaDimension) where
  abbrev pub key : String
  key = dama_dimension_value dim

  counted :
      (o : Option DamaDimension) (success : Bool) (t : Tally)
      → (count_of key (count_dimension o success t).dimension_total
          ≡ count_of key t.dimension_total + one_if (is_on dim o))
        × (count_of key (count_dimension o success t).dimension_pass
            ≡ count_of key t.dimension_pass + one_if (is_on dim o && success))
  unfolding count_dimension
  counted none success t = omega arith
  counted (some d) success t =
      let total = count_of-bump key (dama_dimension_value d) t.dimension_total in
      let pass = count_of-bump key (dama_dimension_value d) t.dimension_pass in
      elim (Bool-cases success) [
        | inl won ↦ rw won (ground (arith, total, pass, Same-value d dim))
        | inr lost ↦ rw lost (ground (arith, total, pass, Same-value d dim))
      ]

  module _ (dimension_map : DimensionMap) where
    counted_result :
        (r : ExpectationResult) (t : Tally)
        → (count_of key (count_result dimension_map r t).dimension_total
            ≡ count_of key t.dimension_total + one_if (counts_as dimension_map dim r))
          × (count_of key (count_result dimension_map r t).dimension_pass
              ≡ count_of key t.dimension_pass
                + one_if (counts_as dimension_map dim r && succeeded r))
    unfolding count_result
    counted_result r t = counted (dimension_of dimension_map r) (succeeded r) t

    pub counted_results :
        (results : List ExpectationResult) (t : Tally)
        → (count_of key (count_results dimension_map results t).dimension_total
            ≡ count_of key t.dimension_total + length (tests_of dimension_map dim results))
          × (count_of key (count_results dimension_map results t).dimension_pass
              ≡ count_of key t.dimension_pass
                + length (select succeeded (tests_of dimension_map dim results)))
    unfolding count_results select
    counted_results [] t = omega arith
    counted_results (r ∷ results) t =
        ground (arith, counted_result r t, counted_results results (count_result dimension_map r t))
