-- ===== src/Privacy/Masked.antt =====
-- What a masked value shows.
use Prim.Native.String.{◌++◌}
use text.Mathlib.TextLemmas.{append-nil}
use open_data_gov.Prelude.{
  ℕ, zero, suc, ◌+◌, ◌-◌, ◌≤◌, ◌<◌, ◌≡◌, refl, ap, ◌∙◌, sym, ◌⊎◌, String, [], ◌∷◌, text_length,
  f_string, leb, ltb, arith, true, Bool-cases, inl, inr,
}
use open_data_gov.Privacy.Masking.{PartialMasker, stars, text_take, text_drop, text_last, mask}
use open_data_gov.Privacy.Slices.{
  text_length-append, text_length-text_take, text_length-text_drop, take-drop, text_drop-text_drop,
  drop_all,
}

text_length-stars : (n : ℕ) → text_length (stars n) ≡ n
unfolding text_length stars
text_length-stars zero = refl
text_length-stars (suc n) = ap suc (text_length-stars n)

positive : (n : ℕ) → ltb 0 (suc n) ≡ true
positive n = ground arith

text_length-text_last : (n : ℕ) (s : String) → n ≤ text_length s → text_length (text_last n s) ≡ n
unfolding text_last text_length
text_length-text_last zero s h = refl
text_length-text_last (suc n) s h =
    let dropped = text_length-text_drop (text_length s - suc n) s in
    rw (positive n) (omega (arith, dropped))

joined :
    (a b c : String)
    → text_length (f_string (a ∷ b ∷ c ∷ [])) ≡ text_length a + text_length b + text_length c
unfolding f_string text_length
joined a b c = ground (
  arith,
  text_length-append a (b ++ (c ++ "")),
  text_length-append b (c ++ ""),
  text_length-append c "",
)

-- A masked value is as long as the value.
pub text_length-mask :
    (masker : PartialMasker) (value : String) → text_length (mask masker value) ≡ text_length value
unfolding mask
text_length-mask masker value =
    let a = masker.show_first in
    let b = masker.show_last in
    let n = text_length value in
    elim (Bool-cases (leb n (a + b))) [
      | inl short ↦ rw short (text_length-stars n)
      | inr long ↦
          let parts = joined (text_take a value) (stars (n - a - b)) (text_last b value) in
          let bound : a + b < n = ground (arith, long) in
          rw long (
            omega (
              arith,
              parts,
              bound,
              text_length-text_take a value (omega (arith, bound)),
              text_length-stars (n - a - b),
              text_length-text_last b value (omega (arith, bound)),
            ))
    ]

-- n asterisks
abbrev pub IsStars : ℕ → String → Type 0
IsStars zero String.[] = Unit
IsStars zero (String.◌∷◌ c s) = ⊥
IsStars (suc n) String.[] = ⊥
IsStars (suc n) (String.◌∷◌ c s) = (c ≡ "*") × IsStars n s

stars-IsStars : (n : ℕ) → IsStars n (stars n)
unfolding stars
stars-IsStars zero = tt
stars-IsStars (suc n) = (refl, stars-IsStars n)

-- A value no longer than what the masker shows became asterisks; of a longer one, which is some
-- first characters, a middle and some last characters, the middle became asterisks.
abbrev pub IsMaskOf : PartialMasker → (value masked : String) → Type 0
IsMaskOf masker value masked =
    ((text_length value ≤ masker.show_first + masker.show_last)
      × IsStars (text_length value) masked)
    ⊎ ((first : String) × (middle : String) × (last : String) × (hidden : String)
        × (masker.show_first + masker.show_last < text_length value)
        × (value ≡ first ++ (middle ++ last))
        × (text_length first ≡ masker.show_first)
        × (text_length last ≡ masker.show_last)
        × IsStars (text_length middle) hidden
        × (masked ≡ first ++ (hidden ++ last)))

text_last-text_drop : (n : ℕ) (s : String) → text_last n s ≡ text_drop (text_length s - n) s
unfolding text_last
text_last-text_drop zero s = sym (drop_all s) ∙ ap (λ k. text_drop k s) (omega arith)
text_last-text_drop (suc n) s = rw (positive n) refl

parted : (a b c : String) → f_string (a ∷ b ∷ c ∷ []) ≡ a ++ (b ++ c)
unfolding f_string
parted a b c = ap (λ t. a ++ (b ++ t)) (append-nil c)

-- A value no longer than the characters that the masker shows is masked by as many asterisks. A
-- longer one is its first `show_first` characters, a middle and its last `show_last` characters,
-- and is masked by the same first and last characters with an asterisk for each of the middle.
pub mask-IsMaskOf :
    (masker : PartialMasker) (value : String) → IsMaskOf masker value (mask masker value)
unfolding mask
mask-IsMaskOf masker value =
    let a = masker.show_first in
    let b = masker.show_last in
    let n = text_length value in
    elim (Bool-cases (leb n (a + b))) [
      | inl short ↦ rw short (inl (ground (arith, short), stars-IsStars n))
      | inr long ↦
          let bound : a + b < n = ground (arith, long) in
          let m = n - a - b in
          let rest = text_drop a value in
          let middle = text_take m rest in
          let last = text_last b value in
          let size : text_length middle ≡ m =
            text_length-text_take m rest (omega (arith, bound, text_length-text_drop a value)) in
          let tail : text_drop m rest ≡ last =
            text_drop-text_drop m a value
            ∙ ap (λ k. text_drop k value) (omega (arith, bound))
            ∙ sym (text_last-text_drop b value) in
          let whole : value ≡ text_take a value ++ (middle ++ last) =
            sym (take-drop a value)
            ∙ ap (λ t. text_take a value ++ t)
                (sym (take-drop m rest) ∙ ap (λ t. middle ++ t) tail) in
          rw long (
            inr (
              text_take a value,
              middle,
              last,
              stars m,
              bound,
              whole,
              text_length-text_take a value (omega (arith, bound)),
              text_length-text_last b value (omega (arith, bound)),
              rw size (stars-IsStars m),
              parted (text_take a value) (stars m) last,
            ))
    ]
