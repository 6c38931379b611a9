-- ===== src/Prelude/Effects.antt =====
-- Actions on a state that may fail; the state stays changed after an error, as a Go program leaves
-- it.
use mathlib.Core.Path.{◌≡◌, refl, ap}
use mathlib.Core.Logic.{◌⊎◌, inl, inr}
use mathlib.Core.Bool.{Bool, true, false}
use mathlib.Core.List.{List, [], ◌∷◌}
use plugins.Prelude.Results.{Result, ok, err}

abbrev pub Act : Type 0 → Type 0 → Type 0 → Type 0
Act E S A = S → Result E A × S

-- `if !test { return err }`
abbrev pub check_that : {E S : Type 0} → Bool → E → Act E S (Unit {0})
check_that true e s = (ok tt, s)
check_that false e s = (err e, s)

module _ {E S A : Type 0} where
  abbrev pub pure : A → Act E S A
  pure a s = (ok a, s)

  abbrev pub fail : E → Act E S A
  fail e s = (err e, s)

  -- a result that was computed without the state
  abbrev pub lift : Result E A → Act E S A
  lift r s = (r, s)

  -- what depends on the state and leaves it
  abbrev pub gets : (S → A) → Act E S A
  gets f s = (ok (f s), s)

  abbrev pub continue : {B : Type 0} → Result E A → (A → Act E S B) → Act E S B
  continue (ok a) f s = f a s
  continue (err e) f s = (err e, s)

  -- to go on with the error of an action as a value
  abbrev pub catch : {B : Type 0} → Act E S A → (Result E A → Act E S B) → Act E S B
  catch m f s = let (r, s') = m s in f r s'

-- a change of the state that cannot fail, or whose failure is logged only
abbrev pub modify : {E S : Type 0} → (S → S) → Act E S (Unit {0})
modify f s = (ok tt, f s)

infixl 5 ◌>>=◌ ◌>>◌
abbrev pub ◌>>=◌ : {E S A B : Type 0} → Act E S A → (A → Act E S B) → Act E S B
◌>>=◌ m f s = let (r, s') = m s in continue r f s'

abbrev pub ◌>>◌ : {E S A B : Type 0} → Act E S A → Act E S B → Act E S B
m >> n = m >>= λ _. n

-- `if err != nil { return fmt.Errorf(...) }`: another error in the place of the action's
abbrev pub relabel : {E F S A : Type 0} → E → Act F S A → Act E S A
relabel e m s = let (r, s') = m s in (elim r [ ok a ↦ ok a | err _ ↦ err e ], s')

-- a loop over a list that stops at the first error
unfoldable pub each : {E S A : Type 0} → List A → (A → Act E S (Unit {0})) → Act E S (Unit {0})
each [] f = pure tt
each (x ∷ xs) f = f x >> each xs f

-- A sequence keeps what both of its parts keep, and so does a loop.
pub >>-Keeps :
    {E S A B : Type 0} (P : S → Type 0) (m : Act E S A) (n : Act E S B)
    → ((s : S) → P s → P (m s).1)
    → ((s : S) → P s → P (n s).1)
    → (s : S) → P s
    → P ((m >> n) s).1
>>-Keeps {E} {S} {A} {B} P m n hm hn s h = go (m s) (hm s h)
  where
    go : (c : Result E A × S) → P c.1 → P (continue c.0 (λ _. n) c.1).1
    go (ok a, s') k = hn s' k
    go (err e, s') k = k

pub each-Keeps :
    {E S A : Type 0} (P : S → Type 0) (f : A → Act E S (Unit {0}))
    → ((a : A) (s : S) → P s → P (f a s).1)
    → (xs : List A) (s : S) → P s
    → P (each xs f s).1
unfolding each
each-Keeps P f h [] s k = k
each-Keeps P f h (x ∷ xs) s k = >>-Keeps P (f x) (each xs f) (h x) (each-Keeps P f h xs) s k

pub check_that-Keeps :
    {E S : Type 0} (P : S → Type 0) (b : Bool) (e : E) (s : S) → P s → P (check_that b e s).1
check_that-Keeps P true e s h = h
check_that-Keeps P false e s h = h

-- A sequence either goes on from where its first part ends, or ends there.
pub >>-cases :
    {E S A B : Type 0} (m : Act E S A) (n : Act E S B) (s : S)
    → ((a : A) × ((m s).0 ≡ ok a) × ((m >> n) s ≡ n (m s).1))
      ⊎ ((e : E) × ((m s).0 ≡ err e) × ((m >> n) s ≡ (err e, (m s).1)))
>>-cases {E} {S} {A} {B} m n s = go (m s)
  where
    go :
        (c : Result E A × S)
        → ((a : A) × (c.0 ≡ ok a) × (continue c.0 (λ _. n) c.1 ≡ n c.1))
          ⊎ ((e : E) × (c.0 ≡ err e) × (continue c.0 (λ _. n) c.1 ≡ (err e, c.1)))
    go (ok a, s') = inl (a, refl, refl)
    go (err e, s') = inr (e, refl, refl)

-- A sequence whose first part is known.
pub >>=-on_ok :
    {E S A B : Type 0} (m : Act E S A) (f : A → Act E S B) (s s' : S) (a : A)
    → m s ≡ (ok a, s')
    → (m >>= f) s ≡ f a s'
>>=-on_ok m f s s' a h = ap (λ c. continue c.0 f c.1) h

pub >>=-on_err :
    {E S A B : Type 0} (m : Act E S A) (f : A → Act E S B) (s s' : S) (e : E)
    → m s ≡ (err e, s')
    → (m >>= f) s ≡ (err e, s')
>>=-on_err m f s s' e h = ap (λ c. continue c.0 f c.1) h

-- A sequence that succeeds has gone on with what its first part returned.
pub >>=-eq_ok :
    {E S A B : Type 0} (m : Act E S A) (f : A → Act E S B) (s : S) (b : B)
    → ((m >>= f) s).0 ≡ ok b
    → (a : A) × ((m s).0 ≡ ok a) × ((f a (m s).1).0 ≡ ok b)
>>=-eq_ok {E} {S} {A} {B} m f s b = go (m s)
  where
    go :
        (c : Result E A × S)
        → (continue c.0 f c.1).0 ≡ ok b
        → (a : A) × (c.0 ≡ ok a) × ((f a c.1).0 ≡ ok b)
    go (ok a, s') h = (a, refl, h)
    go (err e, s') h = cc
