-- ===== src/Prelude/Returns.antt =====
-- What is known when an action returns: one lemma for each way to build an action.
use mathlib.Core.Path.{◌≡◌, refl, ap, sym, subst, ◌∙◌}
use mathlib.Core.Logic.{inl, inr}
use mathlib.Core.Bool.{Bool, true, false}
use mathlib.Core.Option.{Option, none, some}
use open_data_gov.Prelude.Exec.{
  Result-cases, ok, Exec, pure, raise, gets, require, raise_if, continue, ◌>>=◌,
}

module _ {S E : Type 0} where
  -- The first action has returned, and the second has from where the first ended.
  pub bind-ok :
      {A B : Type 0} (m : Exec S E A) (f : A → Exec S E B) (s : S) (b : B)
      → ((m >>= f) s).0 ≡ ok b
      → (a : A) × (m s ≡ (ok a, (m s).1)) × ((m >>= f) s ≡ f a (m s).1)
  unfolding ◌>>=◌
  bind-ok m f s b h = elim (Result-cases (m s).0) [
    | inl (a, e) ↦ (a, ap (λ r. (r, (m s).1)) e, ap (λ r. continue r f (m s).1) e)
    | inr (x, e) ↦ absurd (cc (h, e))
  ]

  -- Reading leaves the state.
  pub gets-ok :
      {A B : Type 0} (g : S → A) (f : A → Exec S E B) (s : S) (b : B)
      → ((gets g >>= f) s).0 ≡ ok b
      → ((f (g s) s).0 ≡ ok b) × ((gets g >>= f) s ≡ f (g s) s)
  unfolding gets ◌>>=◌
  gets-ok g f s b h = (h, refl)

  -- The value was there.
  pub require-ok :
      {A B : Type 0} (e : E) (o : Option A) (f : A → Exec S E B) (s : S) (b : B)
      → ((require e o >>= f) s).0 ≡ ok b
      → (a : A) × (o ≡ some a) × ((f a s).0 ≡ ok b) × ((require e o >>= f) s ≡ f a s)
  unfolding require pure raise ◌>>=◌
  require-ok e none f s b h = absurd (cc)
  require-ok e (some a) f s b h = (a, refl, h, refl)

  -- The test did not hold.
  pub raise_if-ok :
      {B : Type 0} (test : Bool) (e : E) (f : Unit → Exec S E B) (s : S) (b : B)
      → ((raise_if test e >>= f) s).0 ≡ ok b
      → (test ≡ false) × ((f tt s).0 ≡ ok b) × ((raise_if test e >>= f) s ≡ f tt s)
  unfolding raise_if pure raise ◌>>=◌
  raise_if-ok true e f s b h = absurd (cc)
  raise_if-ok false e f s b h = (refl, h, refl)

  -- If the action returns, its value and its last state satisfy `P`.
  abbrev pub Ensures : {A : Type 0} → (A → S → Type 0) → Exec S E A → S → Type 0
  Ensures {A} P m s = (a : A) → (m s).0 ≡ ok a → P a (m s).1

  pub Ensures-bind :
      {A B : Type 0} (P : B → S → Type 0) (m : Exec S E A) (f : A → Exec S E B) (s : S)
      → ((a : A) → (m s).0 ≡ ok a → Ensures P (f a) (m s).1)
      → Ensures P (m >>= f) s
  Ensures-bind P m f s rest b h =
      let (a, e, k) = bind-ok m f s b h in
      subst (λ r. P b r.1) (sym k) (rest a (ap (λ r. r.0) e) b (ap (λ r. r.0) (sym k) ∙ h))

  pub Ensures-gets :
      {A B : Type 0} (P : B → S → Type 0) (g : S → A) (f : A → Exec S E B) (s : S)
      → Ensures P (f (g s)) s
      → Ensures P (gets g >>= f) s
  Ensures-gets P g f s rest b h =
      let (h', k) = gets-ok g f s b h in subst (λ r. P b r.1) (sym k) (rest b h')

  pub Ensures-require :
      {A B : Type 0} (P : B → S → Type 0) (e : E) (o : Option A) (f : A → Exec S E B) (s : S)
      → ((a : A) → o ≡ some a → Ensures P (f a) s)
      → Ensures P (require e o >>= f) s
  Ensures-require P e o f s rest b h =
      let (a, there, h', k) = require-ok e o f s b h in
      subst (λ r. P b r.1) (sym k) (rest a there b h')

  pub Ensures-raise_if :
      {B : Type 0} (P : B → S → Type 0) (test : Bool) (e : E) (f : Unit → Exec S E B) (s : S)
      → (test ≡ false → Ensures P (f tt) s)
      → Ensures P (raise_if test e >>= f) s
  Ensures-raise_if P test e f s rest b h =
      let (passed, h', k) = raise_if-ok test e f s b h in
      subst (λ r. P b r.1) (sym k) (rest passed b h')
