-- ===== src/Prelude/Keeps.antt =====
-- Actions that keep a property of the state, whatever they return: one rule for each way to build an
-- action.
use mathlib.Core.Path.{◌≡◌, refl}
use mathlib.Core.Bool.{Bool, true, false}
use plugins.Prelude.Results.{Result, ok, err}
use plugins.Prelude.Tests.{if◌then◌else◌}
use plugins.Prelude.Effects.{Act, lift, catch, check_that, continue, relabel, ◌>>=◌}

pub record Keeps {E S A : Type 0} (P : S → Type 0) (m : Act E S A) : Type 0 where
  pub at : (s : S) → P s → P (m s).1

module _ {E S A : Type 0} {P : S → Type 0} where
  pub Keeps-lift : (r : Result E A) → Keeps P (lift r)
  Keeps-lift r = record { at = λ s h. h }

  pub Keeps-if : (b : Bool) (m n : Act E S A) → Keeps P m → Keeps P n → Keeps P (if b then m else n)
  Keeps-if true m n hm hn = hm
  Keeps-if false m n hm hn = hn

  pub Keeps-relabel : {F : Type 0} (e : E) (m : Act F S A) → Keeps P m → Keeps P (relabel e m)
  Keeps-relabel e m h = record { at = h.at }

module _ {E S : Type 0} {P : S → Type 0} where
  pub Keeps-check : (b : Bool) (e : E) → Keeps P (check_that b e)
  Keeps-check true e = record { at = λ s h. h }
  Keeps-check false e = record { at = λ s h. h }

module _ {E S A B : Type 0} {P : S → Type 0} where
  pub Keeps-catch :
      (m : Act E S A) (f : Result E A → Act E S B)
      → Keeps P m
      → ((r : Result E A) → Keeps P (f r))
      → Keeps P (catch m f)
  Keeps-catch m f hm hf = record { at = λ s k. (hf (m s).0).at (m s).1 (hm.at s k) }

  pub Keeps-bind :
      (m : Act E S A) (f : A → Act E S B)
      → Keeps P m
      → ((a : A) → Keeps P (f a))
      → Keeps P (m >>= f)
  Keeps-bind m f hm hf = record { at = λ s k. go (m s) (hm.at s k) }
    where
      go : (c : Result E A × S) → P c.1 → P (continue c.0 f c.1).1
      go (ok a, s') k' = (hf a).at s' k'
      go (err e, s') k' = k'

  pub Keeps-catch_elim :
      (m : Act E S A) (f : A → Act E S B) (g : E → Act E S B)
      → Keeps P m
      → ((a : A) → Keeps P (f a))
      → ((e : E) → Keeps P (g e))
      → Keeps P (catch m (λ r. elim r [ ok a ↦ f a | err e ↦ g e ]))
  Keeps-catch_elim m f g hm hf hg = Keeps-catch m _ hm go
    where
      go : (r : Result E A) → Keeps P (elim r [ ok a ↦ f a | err e ↦ g e ])
      go (ok a) = hf a
      go (err e) = hg e

pub ruleset keeps_rules =
    (Keeps-catch_elim, Keeps-lift, Keeps-if, Keeps-relabel, Keeps-check, Keeps-catch, Keeps-bind)

-- An action that returns an error has kept a property.
pub record RestoresOnError {E S A : Type 0} (P : S → Type 0) (m : Act E S A) : Type 0 where
  pub at : (s : S) → P s → (e : E) → (m s).0 ≡ err e → P (m s).1

module _ {E S A : Type 0} {P : S → Type 0} where
  pub RestoresOnError-Keeps : (m : Act E S A) → Keeps P m → RestoresOnError P m
  RestoresOnError-Keeps m h = record { at = λ s k e eq. h.at s k }

  pub RestoresOnError-if :
      (b : Bool) (m n : Act E S A)
      → RestoresOnError P m
      → RestoresOnError P n
      → RestoresOnError P (if b then m else n)
  RestoresOnError-if true m n hm hn = hm
  RestoresOnError-if false m n hm hn = hn

module _ {E S A B : Type 0} {P : S → Type 0} where
  pub RestoresOnError-bind :
      (m : Act E S A) (f : A → Act E S B)
      → Keeps P m
      → ((a : A) → RestoresOnError P (f a))
      → RestoresOnError P (m >>= f)
  RestoresOnError-bind m f hm hf = record { at = λ s k. go (m s) (hm.at s k) }
    where
      go :
          (c : Result E A × S)
          → P c.1
          → (e : E) → (continue c.0 f c.1).0 ≡ err e
          → P (continue c.0 f c.1).1
      go (ok a, s') k e eq = (hf a).at s' k e eq
      go (err e', s') k e eq = k

  -- an action that may lose the property, where what follows restores it on each error
  pub RestoresOnError-restore :
      (m : Act E S A) (f : A → Act E S B)
      → RestoresOnError P m
      → ((a : A) (s : S) (e : E) → (f a s).0 ≡ err e → P (f a s).1)
      → RestoresOnError P (m >>= f)
  RestoresOnError-restore m f hm hf = record { at = λ s k. go (m s) (hm.at s k) }
    where
      go :
          (c : Result E A × S)
          → ((e : E) → c.0 ≡ err e → P c.1)
          → (e : E) → (continue c.0 f c.1).0 ≡ err e
          → P (continue c.0 f c.1).1
      go (ok a, s') k e eq = hf a s' e eq
      go (err e', s') k e eq = k e' refl
