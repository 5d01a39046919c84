-- ===== src/Prelude/Texts.antt =====
-- What a text is made of.
use Prim.Native.String.{String, ◌++◌}
use mathlib.Core.Path.{◌≡◌, refl, ◌∙◌, sym}
use mathlib.Core.List.{[], ◌∷◌}
use native.Mathlib.Omega.{arith}
use text.Mathlib.TextLemmas.{nil-append, cons-append, append-nil}
use open_data_gov.Prelude.Text.{text_length, f_string}

-- A text and the length of its first part fix the two parts.
pub prefix_determined :
    (p q x y : String) → text_length p ≡ text_length q → p ++ x ≡ q ++ y → (p ≡ q) × (x ≡ y)
unfolding text_length
prefix_determined String.[] String.[] x y n h = (refl, sym (nil-append x) ∙ h ∙ nil-append y)
prefix_determined String.[] (String.◌∷◌ d q) x y n h = absurd (omega arith)
prefix_determined (String.◌∷◌ c p) String.[] x y n h = absurd (omega arith)
prefix_determined (String.◌∷◌ c p) (String.◌∷◌ d q) x y n h =
    let h' : String.◌∷◌ c (p ++ x) ≡ String.◌∷◌ d (q ++ y) =
      sym (cons-append c p x) ∙ h ∙ cons-append d q y in
    let (same, rest) = prefix_determined p q x y (omega arith) (cc (h')) in (cc (h', same), rest)

-- f"{a}:{b}" fixes its parts, if it is known how long the first one is.
pub f_string_determined :
    (p q sep x y : String)
    → text_length p ≡ text_length q
    → f_string (p ∷ sep ∷ x ∷ []) ≡ f_string (q ∷ sep ∷ y ∷ [])
    → (p ≡ q) × (x ≡ y)
unfolding f_string
f_string_determined p q sep x y n h =
    let (same, rest) = prefix_determined p q _ _ n h in
    let (_, last) = prefix_determined sep sep _ _ refl rest in
    (same, sym (append-nil x) ∙ last ∙ append-nil y)
