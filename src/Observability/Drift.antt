-- ===== src/Observability/Drift.antt =====
-- libs/python/odg-core/src/odg_core/observability/schema_drift.py
use Prim.Native.Char.{code}
use open_data_gov.Prelude.{
  String, Bool, true, false, not, ◌&&◌, List, [], ◌∷◌, select, any, is_empty, ltb, ◌==◌, string_eq,
  nat_eq, if◌then◌else◌,
}

-- s < t, by the code points
unfoldable pub text_before : (s t : String) → Bool
text_before String.[] String.[] = false
text_before String.[] (String.◌∷◌ d t) = true
text_before (String.◌∷◌ c s) String.[] = false
text_before (String.◌∷◌ c s) (String.◌∷◌ d t) =
    let rest = text_before s t in
    if ltb (code c) (code d) then true else if code c == code d then rest else false

-- a text in its place, unless it is there
unfoldable pub insert_text : String → List String → List String
insert_text x [] = x ∷ []
insert_text x (y ∷ ys) =
    let rest = insert_text x ys in
    if x == y then y ∷ ys else if text_before x y then x ∷ y ∷ ys else y ∷ rest

-- sorted(set(xs))
unfoldable pub sorted_set : List String → List String
unfolding insert_text text_before
sorted_set [] = []
sorted_set (x ∷ xs) = insert_text x (sorted_set xs)

-- x in xs
abbrev pub is_in : List String → String → Bool
is_in xs x = any (λ y. y == x) xs

-- sorted(set(xs) - set(ys))
unfoldable pub difference : (xs ys : List String) → List String
unfolding sorted_set
difference xs ys = sorted_set (select (λ x. not (is_in ys x)) xs)

pub record SchemaDrift : Type 0 where
  pub added : List String
  pub removed : List String
  pub has_drift : Bool

-- The span event and the log of a drift are not part of the result.
unfoldable pub detect_schema_drift : (expected_columns actual_columns : List String) → SchemaDrift
unfolding difference
detect_schema_drift expected_columns actual_columns =
    let added = difference actual_columns expected_columns in
    let removed = difference expected_columns actual_columns in
    record {
      added = added;
      removed = removed;
      has_drift = not (is_empty added && is_empty removed);
    }
