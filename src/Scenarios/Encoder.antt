-- ===== src/Scenarios/Encoder.antt =====
-- A runtime whose texts and digests are distinct for distinct inputs.
use Prim.Native.String.{[], ◌∷◌}
use Prim.Native.Char.{Char}
use open_data_gov.Prelude.{
  ℕ, zero, suc, String, ◌≡◌, refl, ap, true, false, List, arith, if◌then◌else◌, ◌==◌, string_eq,
  ==_refl,
}
use open_data_gov.Prelude.Dict.{get}
use open_data_gov.Runtime.{Runtime, IsReadable, Scalar, Details, Json}

first : String → String
first [] = ""
first (c ∷ s) = c ∷ ""

-- texts that begin with different characters
apart : (c d : Char) (s t : String) → ((c ∷ "") == (d ∷ "")) ≡ false → c ∷ s ≡ d ∷ t → ⊥
unfolding first
apart c d s t differ h = cc (differ, ==_refl (c ∷ ""), ap first h)

-- Each writer puts a value before the text that follows it.
unfoldable pub write_text : String → String → String
write_text [] rest = "0" ∷ rest
write_text (c ∷ s) rest = "1" ∷ c ∷ write_text s rest

write_text_inj :
    (s t rest other : String) → write_text s rest ≡ write_text t other → (s ≡ t) × (rest ≡ other)
unfolding write_text
write_text_inj [] [] rest other h = ground arith
write_text_inj [] (d ∷ t) rest other h = absurd (apart "0" "1" _ _ refl h)
write_text_inj (c ∷ s) [] rest other h = absurd (apart "1" "0" _ _ refl h)
write_text_inj (c ∷ s) (d ∷ t) rest other h = ground (arith, write_text_inj s t rest other)

unfoldable pub scalar_kind : Scalar → String
scalar_kind (Scalar.str s) = "s"
scalar_kind (Scalar.number s) = "n"
scalar_kind (Scalar.bool true) = "t"
scalar_kind (Scalar.bool false) = "f"
scalar_kind Scalar.null = "z"

unfoldable pub scalar_text : Scalar → String
scalar_text (Scalar.str s) = s
scalar_text (Scalar.number s) = s
scalar_text _ = ""

read_scalar : String → String → Scalar
read_scalar kind s =
    if kind == "s"
    then Scalar.str s
    else if kind == "n"
    then Scalar.number s
    else if kind == "t"
    then Scalar.bool true
    else if kind == "f"
    then Scalar.bool false
    else Scalar.null

read_scalar_lem : (s : Scalar) → read_scalar (scalar_kind s) (scalar_text s) ≡ s
unfolding read_scalar scalar_kind scalar_text
read_scalar_lem (Scalar.str s) = refl
read_scalar_lem (Scalar.number s) = refl
read_scalar_lem (Scalar.bool true) = refl
read_scalar_lem (Scalar.bool false) = refl
read_scalar_lem Scalar.null = refl

unfoldable pub write_scalar : Scalar → String → String
write_scalar s rest = write_text (scalar_kind s) (write_text (scalar_text s) rest)

write_scalar_inj :
    (s t : Scalar) (rest other : String)
    → write_scalar s rest ≡ write_scalar t other
    → (s ≡ t) × (rest ≡ other)
unfolding write_scalar
write_scalar_inj s t rest other h =
    let (kinds, texts) = write_text_inj _ _ _ _ h in
    let (bodies, rests) = write_text_inj _ _ _ _ texts in
    (cc (read_scalar_lem s, read_scalar_lem t, kinds, bodies), rests)

unfoldable pub write_details : Details → String → String
write_details List.[] rest = "0" ∷ rest
write_details (List.◌∷◌ (key, value) xs) rest =
    "1" ∷ write_text key (write_scalar value (write_details xs rest))

write_details_inj :
    (xs ys : Details) (rest other : String)
    → write_details xs rest ≡ write_details ys other
    → (xs ≡ ys) × (rest ≡ other)
unfolding write_details
write_details_inj List.[] List.[] rest other h = ground arith
write_details_inj List.[] (List.◌∷◌ y ys) rest other h = absurd (apart "0" "1" _ _ refl h)
write_details_inj (List.◌∷◌ x xs) List.[] rest other h = absurd (apart "1" "0" _ _ refl h)
write_details_inj (List.◌∷◌ (k, v) xs) (List.◌∷◌ (l, u) ys) rest other h = ground (
  arith,
  write_text_inj k l (write_scalar v (write_details xs rest))
      (write_scalar u (write_details ys other)),
  write_scalar_inj v u (write_details xs rest) (write_details ys other),
  write_details_inj xs ys rest other,
)

unfoldable pub write_json : Json → String → String
write_json (Json.scalar s) rest = "s" ∷ write_scalar s rest
write_json (Json.object o) rest = "o" ∷ write_details o rest

write_json_inj :
    (i j : Json) (rest other : String)
    → write_json i rest ≡ write_json j other
    → (i ≡ j) × (rest ≡ other)
unfolding write_json
write_json_inj (Json.scalar s) (Json.scalar t) rest other h =
    ground (arith, write_scalar_inj s t rest other)
write_json_inj (Json.scalar s) (Json.object t) rest other h = absurd (apart "s" "o" _ _ refl h)
write_json_inj (Json.object s) (Json.scalar t) rest other h = absurd (apart "o" "s" _ _ refl h)
write_json_inj (Json.object s) (Json.object t) rest other h =
    ground (arith, write_details_inj s t rest other)

unfoldable pub write_payload : List (String × Json) → String
write_payload List.[] = ""
write_payload (List.◌∷◌ (key, value) xs) =
    "1" ∷ write_text key (write_json value (write_payload xs))

write_payload_inj : (xs ys : List (String × Json)) → write_payload xs ≡ write_payload ys → xs ≡ ys
unfolding write_payload
write_payload_inj List.[] List.[] h = refl
write_payload_inj List.[] (List.◌∷◌ y ys) h = cc
write_payload_inj (List.◌∷◌ x xs) List.[] h = cc
write_payload_inj (List.◌∷◌ (k, v) xs) (List.◌∷◌ (l, u) ys) h = ground (
  arith,
  write_text_inj k l (write_json v (write_payload xs)) (write_json u (write_payload ys)),
  write_json_inj v u (write_payload xs) (write_payload ys),
  write_payload_inj xs ys,
)

abbrev pub tally : ℕ → String
tally zero = ""
tally (suc n) = "1" ∷ tally n

tally_inj : (m n : ℕ) → tally m ≡ tally n → m ≡ n
tally_inj zero zero h = refl
tally_inj zero (suc n) h = cc
tally_inj (suc m) zero h = cc
tally_inj (suc m) (suc n) h = ground (arith, tally_inj m n)

abbrev pub injective : Runtime
injective = record {
  uuid4 = λ n. n;
  now = λ n. n;
  uuid_text = tally;
  time_text = tally;
  isoformat = tally;
  json_dumps = write_payload;
  sha256_hexdigest = λ s. s;
}

pub injective-IsReadable : IsReadable injective
injective-IsReadable = record {
  scalars =
      λ p q k a b text x y. let same = ap (get k) (write_payload_inj p q text) in cc (same, x, y);
  objects = λ p q k d e text x y j.
      let same = ap (get k) (write_payload_inj p q text) in
      let pair : d ≡ e = cc (same, x, y) in ap (get j) pair;
  isoformat_inj = tally_inj;
}
