-- ===== src/Prelude/Members.antt =====
-- The members of the lists that the loops and queries make.
use mathlib.Core.Path.{◌≡◌, refl, sym, ap, ◌∙◌, subst}
use mathlib.Core.Logic.{◌⊎◌, inl, inr}
use mathlib.Core.Bool.{Bool, true, false}
use mathlib.Core.List.{List, [], ◌∷◌, ◌++◌, map}
use Prim.Native.Nat.{ℕ}
use native.Mathlib.Omega.{arith}
use open_data_gov.Prelude.Tests.{if◌then◌else◌, Bool-cases, leb}
use open_data_gov.Prelude.Lists.{In, select, any, all, is_empty}
use open_data_gov.Prelude.Sort.{insert_by, order_by}

module _ {A : Type 0} where
  pub In-append : (x : A) (xs ys : List A) → In x xs → In x (xs ++ ys)
  In-append x [] ys h = absurd h
  In-append x (z ∷ xs) ys (inl e) = inl e
  In-append x (z ∷ xs) ys (inr h) = inr (In-append x xs ys h)

  In-if :
      (b : Bool) (x y : A) (rest : List A)
      → In x (if b then y ∷ rest else rest)
      → ((y ≡ x) × (b ≡ true)) ⊎ In x rest
  In-if true x y rest (inl e) = inl (e, refl)
  In-if true x y rest (inr h) = inr h
  In-if false x y rest h = inr h

  if-In : (b : Bool) (x y : A) (rest : List A) → In x rest → In x (if b then y ∷ rest else rest)
  if-In true x y rest h = inr h
  if-In false x y rest h = h

  pub In-select :
      (test : A → Bool) (x : A) (xs : List A) → In x (select test xs) → In x xs × (test x ≡ true)
  unfolding select
  In-select test x [] h = absurd h
  In-select test x (y ∷ xs) h = elim (In-if (test y) x y (select test xs) h) [
    | inl (e, t) ↦ (inl e, ap test (sym e) ∙ t)
    | inr m ↦ let (m', t) = In-select test x xs m in (inr m', t)
  ]

  pub select-In :
      (test : A → Bool) (x : A) (xs : List A) → In x xs → test x ≡ true → In x (select test xs)
  unfolding select
  select-In test x [] h t = absurd h
  select-In test x (y ∷ xs) (inl e) t = rw (ap test e ∙ t) (inl e)
  select-In test x (y ∷ xs) (inr h) t = if-In (test y) x y _ (select-In test x xs h t)

  pub all-In :
      (test : A → Bool) (x : A) (xs : List A) → all test xs ≡ true → In x xs → test x ≡ true
  unfolding all
  all-In test x [] h m = absurd m
  all-In test x (y ∷ xs) h (inl e) = ground (arith, h, e)
  all-In test x (y ∷ xs) h (inr m) = all-In test x xs (ground (arith, h)) m

  pub any-In :
      (test : A → Bool) (xs : List A) → any test xs ≡ true → (x : A) × In x xs × (test x ≡ true)
  unfolding any
  any-In test [] h = absurd (cc)
  any-In test (y ∷ xs) h = elim (Bool-cases (test y)) [
    | inl holds ↦ (y, inl refl, holds)
    | inr fails ↦ let (x, m, t) = any-In test xs (ground (arith, h, fails)) in (x, inr m, t)
  ]

  pub is_empty-In : (xs : List A) → is_empty xs ≡ false → (x : A) × In x xs
  is_empty-In [] h = absurd (cc)
  is_empty-In (x ∷ xs) h = (x, inl refl)

  pub map-In : {B : Type 0} (f : A → B) (x : A) (xs : List A) → In x xs → In (f x) (map f xs)
  map-In f x [] h = absurd h
  map-In f x (y ∷ xs) (inl e) = inl (ap f e)
  map-In f x (y ∷ xs) (inr h) = inr (map-In f x xs h)

  pub In-map :
      {B : Type 0} (f : A → B) (y : B) (xs : List A)
      → In y (map f xs)
      → (x : A) × In x xs × (f x ≡ y)
  In-map f y [] h = absurd h
  In-map f y (x ∷ xs) (inl e) = (x, inl refl, e)
  In-map f y (x ∷ xs) (inr h) = let (z, m, e) = In-map f y xs h in (z, inr m, e)

  In-choice :
      (b : Bool) (x y z : A) (ys rest : List A)
      → (In x rest → In x (y ∷ ys))
      → In x (if b then y ∷ z ∷ ys else z ∷ rest)
      → In x (y ∷ z ∷ ys)
  In-choice true x y z ys rest back h = h
  In-choice false x y z ys rest back (inl e) = inr (inl e)
  In-choice false x y z ys rest back (inr h) = elim (back h) [ inl e ↦ inl e | inr m ↦ inr (inr m) ]

  In-insert_by : (key : A → ℕ) (x y : A) (ys : List A) → In x (insert_by key y ys) → In x (y ∷ ys)
  unfolding insert_by
  In-insert_by key x y [] h = h
  In-insert_by key x y (z ∷ ys) h =
      In-choice (leb (key y) (key z)) x y z ys (insert_by key y ys) (In-insert_by key x y ys) h

  choice-In :
      (b : Bool) (x y z : A) (ys rest : List A)
      → (In x (y ∷ ys) → In x rest)
      → In x (y ∷ z ∷ ys)
      → In x (if b then y ∷ z ∷ ys else z ∷ rest)
  choice-In true x y z ys rest into h = h
  choice-In false x y z ys rest into (inl e) = inr (into (inl e))
  choice-In false x y z ys rest into (inr (inl e)) = inl e
  choice-In false x y z ys rest into (inr (inr m)) = inr (into (inr m))

  insert_by-In : (key : A → ℕ) (x y : A) (ys : List A) → In x (y ∷ ys) → In x (insert_by key y ys)
  unfolding insert_by
  insert_by-In key x y [] h = h
  insert_by-In key x y (z ∷ ys) h =
      choice-In (leb (key y) (key z)) x y z ys (insert_by key y ys) (insert_by-In key x y ys) h

  pub In-order_by : (key : A → ℕ) (x : A) (xs : List A) → In x (order_by key xs) → In x xs
  unfolding order_by
  In-order_by key x [] h = h
  In-order_by key x (y ∷ xs) h = elim (In-insert_by key x y (order_by key xs) h) [
    | inl e ↦ inl e
    | inr m ↦ inr (In-order_by key x xs m)
  ]

  pub order_by-In : (key : A → ℕ) (x : A) (xs : List A) → In x xs → In x (order_by key xs)
  unfolding order_by
  order_by-In key x [] h = absurd h
  order_by-In key x (y ∷ xs) (inl e) = insert_by-In key x y (order_by key xs) (inl e)
  order_by-In key x (y ∷ xs) (inr m) =
      insert_by-In key x y (order_by key xs) (inr (order_by-In key x xs m))

  pub In-any :
      (test : A → Bool) (x : A) (xs : List A) → In x xs → test x ≡ true → any test xs ≡ true
  unfolding any
  In-any test x [] m t = absurd m
  In-any test x (y ∷ xs) (inl e) t = rw (ap test e ∙ t) refl
  In-any test x (y ∷ xs) (inr m) t = ground (arith, In-any test x xs m t)

  pub In-all :
      (test : A → Bool) (xs : List A) → ((x : A) → In x xs → test x ≡ true) → all test xs ≡ true
  unfolding all
  In-all test [] h = refl
  In-all test (x ∷ xs) h =
      let first = h x (inl refl) in
      let rest = In-all test xs (λ y m. h y (inr m)) in ground (arith, first, rest)

  pub In-is_empty : (x : A) (xs : List A) → In x xs → is_empty xs ≡ false
  In-is_empty x [] m = absurd m
  In-is_empty x (y ∷ xs) m = refl

module _ {A B : Type 0} (f : A → List B) where
  -- [y for x in xs for y in f(x)]
  unfoldable pub concat_map : List A → List B
  concat_map [] = []
  concat_map (x ∷ xs) = f x ++ concat_map xs

  append-In : (y : B) (ys zs : List B) → In y zs → In y (ys ++ zs)
  append-In y [] zs m = m
  append-In y (x ∷ ys) zs m = inr (append-In y ys zs m)

  In-either : (y : B) (ys zs : List B) → In y (ys ++ zs) → In y ys ⊎ In y zs
  In-either y [] zs m = inr m
  In-either y (x ∷ ys) zs (inl e) = inl (inl e)
  In-either y (x ∷ ys) zs (inr m) = elim (In-either y ys zs m) [
    | inl a ↦ inl (inr a)
    | inr b ↦ inr b
  ]

  pub In-concat_map : (y : B) (xs : List A) → In y (concat_map xs) → (x : A) × In x xs × In y (f x)
  unfolding concat_map
  In-concat_map y [] m = absurd m
  In-concat_map y (x ∷ xs) m = elim (In-either y (f x) (concat_map xs) m) [
    | inl here ↦ (x, inl refl, here)
    | inr later ↦ let (z, listed, found) = In-concat_map y xs later in (z, inr listed, found)
  ]

  pub concat_map-In : (y : B) (x : A) (xs : List A) → In x xs → In y (f x) → In y (concat_map xs)
  unfolding concat_map
  concat_map-In y x [] m found = absurd m
  concat_map-In y x (z ∷ xs) (inl e) found =
      In-append y (f z) (concat_map xs) (subst (λ w. In y (f w)) (sym e) found)
  concat_map-In y x (z ∷ xs) (inr m) found =
      append-In y (f z) (concat_map xs) (concat_map-In y x xs m found)
