-- ===== src/Prelude/Follows.antt =====
-- What an action does to the state, whatever it returns: one rule for each way to build an action.
use mathlib.Core.Bool.{Bool, true, false}
use mathlib.Core.Option.{Option, none, some}
use open_data_gov.Prelude.Tests.{if◌then◌else◌}
use open_data_gov.Prelude.Exec.{
  Result, ok, err, Exec, pure, raise, lift, gets, require, raise_if, continue, ◌>>=◌,
}

pub record IsPreorder {ℓ} {S : Type ℓ} (R : S → S → Type ℓ) : Type ℓ where
  pub reflexive : (s : S) → R s s
  pub transitive : (s t u : S) → R s t → R t u → R s u

-- `m` takes each state to one that `R` relates to it, whether it returns or raises.
pub record Follows {ℓ} {S E A : Type ℓ} (R : S → S → Type ℓ) (m : Exec S E A) : Type ℓ where
  pub at : (s : S) → R s (m s).1

module _ {ℓ} {S E : Type ℓ} {R : S → S → Type ℓ} (pre : IsPreorder R) where
  pub Follows-pure : {A : Type ℓ} (a : A) → Follows {E = E} R (pure a)
  unfolding pure
  Follows-pure a = record { at = pre.reflexive }

  pub Follows-raise : {A : Type ℓ} (e : E) → Follows {A = A} R (raise e)
  unfolding raise
  Follows-raise e = record { at = pre.reflexive }

  pub Follows-lift : {A : Type ℓ} (r : Result E A) → Follows R (lift r)
  unfolding lift
  Follows-lift r = record { at = pre.reflexive }

  pub Follows-gets : {A : Type ℓ} (f : S → A) → Follows {E = E} R (gets f)
  unfolding gets
  Follows-gets f = record { at = pre.reflexive }

  pub Follows-require : {A : Type ℓ} (e : E) (o : Option A) → Follows R (require e o)
  unfolding require
  Follows-require e none = record { at = pre.reflexive }
  Follows-require e (some a) = record { at = pre.reflexive }

  pub Follows-raise_if : (b : Bool) (e : E) → Follows R (raise_if b e)
  unfolding raise_if
  Follows-raise_if true e = record { at = pre.reflexive }
  Follows-raise_if false e = record { at = pre.reflexive }

  pub Follows-if :
      {A : Type ℓ} (b : Bool) (m n : Exec S E A)
      → Follows R m
      → Follows R n
      → Follows R (if b then m else n)
  Follows-if true m n hm hn = hm
  Follows-if false m n hm hn = hn

  pub Follows-continue :
      {A B : Type ℓ} (r : Result E A) (f : A → Exec S E B)
      → ((a : A) → Follows R (f a))
      → Follows R (continue r f)
  Follows-continue (ok a) f hf = hf a
  Follows-continue (err e) f hf = record { at = pre.reflexive }

  pub Follows-bind :
      {A B : Type ℓ} (m : Exec S E A) (f : A → Exec S E B)
      → Follows R m
      → ((a : A) → Follows R (f a))
      → Follows R (m >>= f)
  unfolding ◌>>=◌
  Follows-bind m f hm hf = record {
    at = λ s.
        let (r, s') = m s in
        pre.transitive s s' (continue r f s').1 (hm.at s) ((Follows-continue r f hf).at s');
  }

pub ruleset follows_rules = (
  Follows-pure, Follows-raise, Follows-lift, Follows-gets, Follows-require, Follows-raise_if,
  Follows-if, Follows-bind,
)
