-- ===== src/Metadata/Split.antt =====
-- Python's `s.split(",")`.
use Prim.Native.String.{String, ◌++◌}
use text.Mathlib.TextLemmas.{nil-append, cons-append, append-nil}
use open_data_gov.Prelude.{
  ◌≡◌, refl, ap, ◌∙◌, Bool, true, false, List, [], ◌∷◌, arith, ◌==◌, string_eq, if◌then◌else◌,
  Bool-cases, inl, inr,
}

-- whether a text is the comma
abbrev is_comma : String → Bool
is_comma s = s == ","

-- the first part and the others
unfoldable pub split_comma : String → String × List String
split_comma String.[] = ("", [])
split_comma (String.◌∷◌ c s) =
    let (part, parts) = split_comma s in
    if is_comma (String.◌∷◌ c "") then ("", part ∷ parts) else (String.◌∷◌ c part, parts)

-- "," in s
unfoldable pub has_comma : String → Bool
has_comma String.[] = false
has_comma (String.◌∷◌ c s) =
    let rest = has_comma s in if is_comma (String.◌∷◌ c "") then true else rest

-- A text without a comma stands before the first part of what follows it.
pub split_comma-append :
    (p s : String)
    → has_comma p ≡ false
    → split_comma (p ++ s) ≡ (p ++ (split_comma s).0, (split_comma s).1)
unfolding split_comma has_comma
split_comma-append String.[] s none_in = rw (nil-append s, nil-append (split_comma s).0) refl
split_comma-append (String.◌∷◌ c p) s none_in =
    let differs : is_comma (String.◌∷◌ c "") ≡ false = ground (arith, none_in) in
    let rest : has_comma p ≡ false = ground (arith, none_in, differs) in
    rw (cons-append c p s, differs, split_comma-append p s rest, cons-append c p (split_comma s).0)
      refl

-- A comma ends the first part.
pub split_comma-comma :
    (p s : String)
    → has_comma p ≡ false
    → split_comma (p ++ String.◌∷◌ "," s) ≡ (p, (split_comma s).0 ∷ (split_comma s).1)
unfolding split_comma
split_comma-comma p s none_in =
    split_comma-append p (String.◌∷◌ "," s) none_in
    ∙ ap (λ t. (t, (split_comma s).0 ∷ (split_comma s).1)) (append-nil p)

pub has_comma-comma : (p s : String) → has_comma (p ++ String.◌∷◌ "," s) ≡ true
unfolding has_comma
has_comma-comma String.[] s = rw (nil-append (String.◌∷◌ "," s)) refl
has_comma-comma (String.◌∷◌ c p) s =
    let later = has_comma-comma p s in
    rw (cons-append c p (String.◌∷◌ "," s), later)
      (elim (Bool-cases (is_comma (String.◌∷◌ c ""))) [
        | inl comma ↦ rw comma refl
        | inr other ↦ rw other refl
      ])
