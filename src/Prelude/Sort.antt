-- ===== src/Prelude/Sort.antt =====
-- ORDER BY on a numeric column. Rows with equal keys keep the order of insertion.
use Prim.Native.Nat.{ℕ, ◌<◌}
use mathlib.Core.Path.{◌≡◌, refl, ap, sym, ◌∙◌}
use mathlib.Core.Option.{Option, none, some}
use mathlib.Core.List.{List, [], ◌∷◌}
use native.Mathlib.Omega.{arith}
use open_data_gov.Prelude.Tests.{leb, if◌then◌else◌}

module _ {ℓ} {A : Type ℓ} where
  abbrev pub head? : List A → Option A
  head? [] = none
  head? (x ∷ xs) = some x

  abbrev pub last? : List A → Option A
  last? [] = none
  last? (x ∷ []) = some x
  last? (x ∷ y ∷ xs) = last? (y ∷ xs)

module _ {ℓ} {A : Type ℓ} (key : A → ℕ) where
  unfoldable pub insert_by : A → List A → List A
  insert_by x [] = x ∷ []
  insert_by x (y ∷ ys) = if leb (key x) (key y) then x ∷ y ∷ ys else y ∷ insert_by x ys

  unfoldable pub order_by : List A → List A
  unfolding insert_by
  order_by [] = []
  order_by (x ∷ xs) = insert_by x (order_by xs)

  unfoldable pub insert_by_desc : A → List A → List A
  insert_by_desc x [] = x ∷ []
  insert_by_desc x (y ∷ ys) = if leb (key y) (key x) then x ∷ y ∷ ys else y ∷ insert_by_desc x ys

  unfoldable pub order_by_desc : List A → List A
  unfolding insert_by_desc
  order_by_desc [] = []
  order_by_desc (x ∷ xs) = insert_by_desc x (order_by_desc xs)

  -- The keys grow strictly along the list.
  abbrev pub IsIncreasing : List A → Type 0
  IsIncreasing [] = Unit
  IsIncreasing (x ∷ []) = Unit
  IsIncreasing (x ∷ y ∷ xs) = (key x < key y) × IsIncreasing (y ∷ xs)

  insert_by-head : (x y : A) (xs : List A) → key x < key y → insert_by x (y ∷ xs) ≡ x ∷ y ∷ xs
  unfolding insert_by
  insert_by-head x y xs h = ground arith

  pub order_by-IsIncreasing : (xs : List A) → IsIncreasing xs → order_by xs ≡ xs
  unfolding order_by
  order_by-IsIncreasing [] h = refl
  order_by-IsIncreasing (x ∷ []) h = refl
  order_by-IsIncreasing (x ∷ y ∷ xs) h =
      ap (insert_by x) (order_by-IsIncreasing (y ∷ xs) h.1) ∙ insert_by-head x y xs h.0

  last-IsIncreasing :
      (x y : A) (xs : List A)
      → IsIncreasing (y ∷ xs)
      → key x < key y
      → (z : A) × (last? (y ∷ xs) ≡ some z) × (key x < key z)
  last-IsIncreasing x y [] h lt = (y, refl, lt)
  last-IsIncreasing x y (w ∷ xs) h lt = last-IsIncreasing x w xs h.1 (omega arith)

  head-insert_by_desc :
      (x z : A) (ys : List A)
      → head? ys ≡ some z
      → key x < key z
      → head? (insert_by_desc x ys) ≡ some z
  unfolding insert_by_desc
  head-insert_by_desc x z [] h lt = cc
  head-insert_by_desc x z (y ∷ ys) h lt = ground arith

  -- The first row of the descending order is the last one of a growing list.
  pub head-order_by_desc : (xs : List A) → IsIncreasing xs → head? (order_by_desc xs) ≡ last? xs
  unfolding order_by_desc
  head-order_by_desc [] h = refl
  head-order_by_desc (x ∷ []) h = refl
  head-order_by_desc (x ∷ y ∷ xs) h =
      let (z, e, lt) = last-IsIncreasing x y xs h.1 h.0 in
      head-insert_by_desc x z (order_by_desc (y ∷ xs)) (head-order_by_desc (y ∷ xs) h.1 ∙ e) lt
      ∙ sym e
