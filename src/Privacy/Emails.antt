-- ===== src/Privacy/Emails.antt =====
-- What an email masker keeps of an address.
use Prim.Native.String.{String, ◌++◌}
use text.Mathlib.TextLemmas.{nil-append, cons-append}
use open_data_gov.Prelude.{◌≡◌, refl, ap, ◌∙◌, [], ◌∷◌, none, some, f_string}
use open_data_gov.Runtime.{Runtime}
use open_data_gov.Privacy.Masking.{text_take}
use open_data_gov.Privacy.Maskers.{split_here, rsplit_at, email_parts, email_mask}

-- The last at sign splits an address, where the domain has none.
rsplit_at-last :
    (local domain : String)
    → rsplit_at domain ≡ none
    → rsplit_at (local ++ String.◌∷◌ "@" domain) ≡ some (local, domain)
unfolding rsplit_at split_here
rsplit_at-last String.[] domain none_in = rw (nil-append (String.◌∷◌ "@" domain), none_in) refl
rsplit_at-last (String.◌∷◌ c local) domain none_in =
    ap rsplit_at (cons-append c local (String.◌∷◌ "@" domain))
    ∙ ap (λ o. split_here c (local ++ String.◌∷◌ "@" domain) o)
        (rsplit_at-last local domain none_in)

-- Of an address whose domain has no at sign, the masker keeps the domain, and shows of the rest
-- before it only the first eight characters of its digest.
pub email_mask_lem :
    ⦃rt : Runtime⦄ (local domain : String)
    → rsplit_at domain ≡ none
    → email_mask (local ++ String.◌∷◌ "@" domain)
      ≡ f_string (text_take 8 (rt.sha256_hexdigest local) ∷ "@" ∷ domain ∷ [])
unfolding email_mask email_parts
email_mask_lem local domain none_in =
    ap (λ o. email_parts (local ++ String.◌∷◌ "@" domain) o) (rsplit_at-last local domain none_in)
