-- ===== src/Prelude/Dict.antt =====
-- Python's dict: the entries in the order in which their keys were first stored.
use mathlib.Core.Path.{◌≡◌, subst}
use mathlib.Core.Logic.{inl, inr}
use mathlib.Core.Bool.{Bool, true, false}
use mathlib.Core.Option.{Option, none, some}
use mathlib.Core.List.{List, [], ◌∷◌}
use native.Mathlib.Omega.{arith}
use open_data_gov.Prelude.Tests.{Eq, ◌==◌, if◌then◌else◌, ==_sound, Bool-cases}
use open_data_gov.Prelude.Lists.{All}

module _ {V : Type 0} {K : Type 0} ⦃key_eq : Eq K⦄ where
  -- d[key] = value
  unfoldable pub put : K → V → List (K × V) → List (K × V)
  put key value [] = (key, value) ∷ []
  put key value ((k, v) ∷ d) =
      let rest = put key value d in if k == key then (k, value) ∷ d else (k, v) ∷ rest

  -- d.get(key)
  unfoldable pub get : K → List (K × V) → Option V
  get key [] = none
  get key ((k, v) ∷ d) = let rest = get key d in if k == key then some v else rest

  -- key in d
  unfoldable pub has : K → List (K × V) → Bool
  unfolding get
  has key d = elim (get key d) [ none ↦ false | some _ ↦ true ]

  -- {key(x): value(x) for x in xs}, from the entries stored so far
  unfoldable pub dict_from : {A : Type 0} → (A → K) → (A → V) → List (K × V) → List A → List (K × V)
  unfolding put
  dict_from key value d [] = d
  dict_from key value d (x ∷ xs) = dict_from key value (put (key x) (value x) d) xs

  -- what holds of every entry holds of the one that a key finds
  pub All-get :
      (P : K × V → Type 0) (key : K) (v : V) (d : List (K × V))
      → get key d ≡ some v
      → All P d
      → P (key, v)
  unfolding get
  All-get P key v [] h a = cc
  All-get P key v ((k, u) ∷ d) h a = elim (Bool-cases (k == key)) [
    | inl same ↦
        let entry : (k, u) ≡ (key, v) = ground (arith, same, ==_sound k key same, h) in
        subst P entry a.0
    | inr other ↦ All-get P key v d (ground (arith, other, h)) a.1
  ]

  -- a key finds what was stored under it last
  pub get-put :
      (j k : K) (v : V) (d : List (K × V))
      → get j (put k v d) ≡ (if k == j then some v else get j d)
  unfolding get put
  get-put j k v [] = ground arith
  get-put j k v ((l, u) ∷ d) =
      ground (arith, get-put j k v d, key_eq.beq_iff l k, key_eq.beq_iff l j, key_eq.beq_iff k j)
