-- ===== src/Privacy/Slices.antt =====
-- The slices of a text: how long they are, and what they leave.
use Prim.Native.String.{◌++◌}
use text.Mathlib.TextLemmas.{nil-append, cons-append}
use open_data_gov.Prelude.{
  ℕ, zero, suc, ◌+◌, ◌-◌, ◌≤◌, ◌≡◌, refl, ap, ◌∙◌, sym, String, text_length, arith,
}
use open_data_gov.Privacy.Masking.{text_take, text_drop}

pub text_length-append : (s t : String) → text_length (s ++ t) ≡ text_length s + text_length t
unfolding text_length
text_length-append String.[] t = ground (arith, nil-append t)
text_length-append (String.◌∷◌ c s) t = ground (arith, cons-append c s t, text_length-append s t)

pub text_length-text_take :
    (n : ℕ) (s : String) → n ≤ text_length s → text_length (text_take n s) ≡ n
unfolding text_length text_take
text_length-text_take zero s h = refl
text_length-text_take (suc n) String.[] h = absurd (omega arith)
text_length-text_take (suc n) (String.◌∷◌ c s) h = ap suc (text_length-text_take n s (omega arith))

pub text_length-text_drop : (n : ℕ) (s : String) → text_length (text_drop n s) ≡ text_length s - n
unfolding text_length text_drop
text_length-text_drop zero s = omega arith
text_length-text_drop (suc n) String.[] = omega arith
text_length-text_drop (suc n) (String.◌∷◌ c s) = text_length-text_drop n s ∙ omega arith

pub take-drop : (n : ℕ) (s : String) → text_take n s ++ text_drop n s ≡ s
unfolding text_take text_drop
take-drop zero s = nil-append s
take-drop (suc n) String.[] = nil-append ""
take-drop (suc n) (String.◌∷◌ c s) =
    cons-append c (text_take n s) (text_drop n s) ∙ ap (λ t. String.◌∷◌ c t) (take-drop n s)

pub text_take-append : (p s : String) → text_take (text_length p) (p ++ s) ≡ p
unfolding text_take text_length
text_take-append String.[] s = refl
text_take-append (String.◌∷◌ c p) s =
    ap (text_take (suc (text_length p))) (cons-append c p s)
    ∙ ap (λ t. String.◌∷◌ c t) (text_take-append p s)

pub text_drop-append : (p s : String) → text_drop (text_length p) (p ++ s) ≡ s
unfolding text_drop text_length
text_drop-append String.[] s = nil-append s
text_drop-append (String.◌∷◌ c p) s =
    ap (text_drop (suc (text_length p))) (cons-append c p s) ∙ text_drop-append p s

drop_empty : (n : ℕ) → text_drop n "" ≡ ""
unfolding text_drop
drop_empty zero = refl
drop_empty (suc n) = refl

pub text_drop-text_drop : (m n : ℕ) (s : String) → text_drop m (text_drop n s) ≡ text_drop (n + m) s
unfolding text_drop
text_drop-text_drop m zero s = ap (λ k. text_drop k s) (omega arith)
text_drop-text_drop m (suc n) String.[] = drop_empty m ∙ sym (drop_empty (suc n + m))
text_drop-text_drop m (suc n) (String.◌∷◌ c s) =
    let size : suc (n + m) ≡ suc n + m = omega arith in
    text_drop-text_drop m n s ∙ ap (λ k. text_drop k (String.◌∷◌ c s)) size

pub drop_all : (s : String) → text_drop (text_length s) s ≡ ""
unfolding text_drop text_length
drop_all String.[] = refl
drop_all (String.◌∷◌ c s) = drop_all s
