-- ===== src/Privacy/Detected.antt =====
-- What is detected of columns.
use mathlib.Core.List.{append-nil, append_assoc}
use open_data_gov.Prelude.{
  ◌≡◌, ◌↔◌, refl, ap, ◌∙◌, sym, subst, String, Bool, List, In, [], ◌∷◌, ◌++◌, Option, none, some,
  arith, if◌then◌else◌, Bool-cases, inl, inr,
}
use open_data_gov.Prelude.Members.{concat_map, In-concat_map, concat_map-In}
use open_data_gov.Privacy.Detector.{
  column_patterns, Detection, detect_column, detect_columns, detect_pii_columns,
}

module _ (search_pattern : String → String → Bool) where
  -- the type of the first pattern that matches
  abbrev pub first_type : List (String × String) → String → Option String
  first_type [] col = none
  first_type ((pii_type, pattern) ∷ patterns) col =
      if search_pattern pattern col then some pii_type else first_type patterns col

  -- the detection of a column of a type, if it has one
  abbrev found : String → Option String → List Detection
  found col none = []
  found col (some pii_type) = record { column = col; pii_type = pii_type } ∷ []

  abbrev of_column : String → List Detection
  of_column col = found col (first_type column_patterns col)

  detect_column_lem :
      (patterns : List (String × String)) (col : String) (detections : List Detection)
      → detect_column search_pattern patterns col detections
        ≡ detections ++ found col (first_type patterns col)
  unfolding detect_column
  detect_column_lem [] col detections = sym (append-nil detections)
  detect_column_lem ((pii_type, pattern) ∷ patterns) col detections =
      elim (Bool-cases (search_pattern pattern col)) [
        | inl holds ↦ rw holds refl
        | inr fails ↦ rw fails (detect_column_lem patterns col detections)
      ]

  detect_columns_lem :
      (cols : List String) (detections : List Detection)
      → detect_columns search_pattern cols detections ≡ detections ++ concat_map of_column cols
  unfolding detect_columns concat_map
  detect_columns_lem [] detections = sym (append-nil detections)
  detect_columns_lem (col ∷ cols) detections =
      detect_columns_lem cols _
      ∙ ap (λ xs. xs ++ concat_map of_column cols)
          (detect_column_lem column_patterns col detections)
      ∙ append_assoc detections _ _

  found_iff :
      (d : Detection) (col : String) (o : Option String)
      → In d (found col o) ↔ ((col ≡ d.column) × (o ≡ some d.pii_type))
  found_iff d col none = ((λ m. absurd m), λ h. absurd (cc (h.1)))
  found_iff d col (some pii_type) = ((λ m. ground (arith, m)), λ h. ground (arith, h))

  -- A detection is reported exactly if its column is one of those given, and its type is that of
  -- the first pattern that matches the column.
  pub detect_pii_columns_iff :
      (column_names : List String) (d : Detection)
      → In d (detect_pii_columns search_pattern column_names)
        ↔ (In d.column column_names × (first_type column_patterns d.column ≡ some d.pii_type))
  unfolding detect_pii_columns
  detect_pii_columns_iff column_names d = (
    (λ m.
        let (col, listed, here) =
          In-concat_map of_column d column_names
            (subst (In d) (detect_columns_lem column_names []) m) in
        let (same, typed) = (found_iff d col (first_type column_patterns col)).0 here in
        (
          subst (λ c. In c column_names) same listed,
          ap (λ c. first_type column_patterns c) (sym same) ∙ typed,
        )),
    λ (listed, typed). subst (In d) (sym (detect_columns_lem column_names [])) (
        concat_map-In of_column d d.column column_names listed
          ((found_iff d d.column (first_type column_patterns d.column)).1 (refl, typed))),
  )
