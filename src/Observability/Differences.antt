-- ===== src/Observability/Differences.antt =====
-- Which columns a drift reports.
use open_data_gov.Prelude.{
  String, ◌≡◌, ◌↔◌, refl, ap, ◌∙◌, sym, subst, ◌⊎◌, inl, inr, true, false, not, List, In, [], ◌∷◌,
  select, is_empty, ◌==◌, string_eq, ==_refl, ==_sound, arith, Bool-cases,
}
use open_data_gov.Prelude.Members.{In-select, select-In, In-any, any-In, In-is_empty}
use open_data_gov.Observability.Drift.{
  text_before, insert_text, sorted_set, is_in, difference, detect_schema_drift,
}

In-insert_text : (x y : String) (ys : List String) → In x (insert_text y ys) ↔ ((y ≡ x) ⊎ In x ys)
unfolding insert_text
In-insert_text x y [] = ((λ m. m), λ m. m)
In-insert_text x y (z ∷ zs) =
    let (sound, complete) = In-insert_text x y zs in
    elim (Bool-cases (y == z)) [
      | inl same ↦
          let e = ==_sound y z same in
          rw same ((λ m. inr m), λ m. elim m [ inl h ↦ inl (sym e ∙ h) | inr n ↦ n ])
      | inr other ↦ elim (Bool-cases (text_before y z)) [
        | inl first ↦ rw (other, first) ((λ m. m), λ m. m)
        | inr later ↦
            rw (other, later)
              (
                (λ m. elim m [
                  | inl h ↦ inr (inl h)
                  | inr n ↦ elim (sound n) [ inl h ↦ inl h | inr k ↦ inr (inr k) ]
                ]),
                λ m. elim m [
                  | inl h ↦ inr (complete (inl h))
                  | inr n ↦ elim n [ inl h ↦ inl h | inr k ↦ inr (complete (inr k)) ]
                ],
              )
      ]
    ]

In-sorted_set : (x : String) (xs : List String) → In x (sorted_set xs) ↔ In x xs
unfolding sorted_set
In-sorted_set x [] = ((λ m. m), λ m. m)
In-sorted_set x (y ∷ ys) =
    let (sound, complete) = In-insert_text x y (sorted_set ys) in
    let (down, up) = In-sorted_set x ys in
    (
      (λ m. elim (sound m) [ inl h ↦ inl h | inr n ↦ inr (down n) ]),
      λ m. elim m [ inl h ↦ complete (inl h) | inr n ↦ complete (inr (up n)) ],
    )

is_in_iff : (xs : List String) (x : String) → (is_in xs x ≡ true) ↔ In x xs
is_in_iff xs x = (
  (λ h. let (y, m, same) = any-In (λ y. y == x) xs h in subst (λ z. In z xs) (==_sound y x same) m),
  λ m. In-any (λ y. y == x) x xs m (==_refl x),
)

In-difference : (x : String) (xs ys : List String) → In x (difference xs ys) ↔ (In x xs × ¬ In x ys)
unfolding difference
In-difference x xs ys =
    let (sound, complete) = In-sorted_set x (select (λ x. not (is_in ys x)) xs) in
    let (from, to) = is_in_iff ys x in
    (
      (λ m.
          let (there, fresh) = In-select _ x xs (sound m) in
          (there, λ n. let seen = to n in absurd (ground (arith, seen, fresh)))),
      λ h. complete (
          select-In _ x xs h.0 (elim (Bool-cases (is_in ys x)) [
            | inl seen ↦ absurd (h.1 (from seen))
            | inr new ↦ ap not new
          ])),
    )

is_empty_lem : (xs : List String) → ((x : String) → ¬ In x xs) → is_empty xs ≡ true
is_empty_lem [] none = refl
is_empty_lem (x ∷ xs) none = absurd (none x (inl refl))

empty_difference :
    (xs ys : List String)
    → (is_empty (difference xs ys) ≡ true) ↔ ((x : String) → In x xs → In x ys)
empty_difference xs ys = (
  (λ none x m. elim (Bool-cases (is_in ys x)) [
    | inl seen ↦ (is_in_iff ys x).0 seen
    | inr new ↦
        let member = (In-difference x xs ys).1 (m, λ n. absurd (cc (new, (is_in_iff ys x).1 n))) in
        absurd (cc (none, In-is_empty x (difference xs ys) member))
  ]),
  λ all.
      is_empty_lem (difference xs ys)
        (λ x m. let (there, fresh) = (In-difference x xs ys).0 m in fresh (all x there)),
)

-- The columns reported as added are those that are actual and not expected, the columns reported
-- as removed those that are expected and not actual, and no drift is reported exactly when the same
-- columns are expected and actual, in whatever order and number.
pub detect_schema_drift_iff :
    (expected actual : List String)
    → let drift = detect_schema_drift expected actual in
      ((x : String) → In x drift.added ↔ (In x actual × ¬ In x expected))
      × ((x : String) → In x drift.removed ↔ (In x expected × ¬ In x actual))
      × ((drift.has_drift ≡ false) ↔ ((x : String) → In x expected ↔ In x actual))
unfolding detect_schema_drift
detect_schema_drift_iff expected actual =
    let (added, all_expected) = empty_difference actual expected in
    let (removed, all_actual) = empty_difference expected actual in
    (
      (λ x. In-difference x actual expected),
      (λ x. In-difference x expected actual),
      (
        (λ none x. (removed (ground (arith, none)) x, added (ground (arith, none)) x)),
        λ same.
            let a = all_expected (λ x. (same x).1) in
            let r = all_actual (λ x. (same x).0) in ground (arith, a, r),
      ),
    )
