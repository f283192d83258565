-- ===== src/Base/Result.antt =====
-- Code that may fault or run out of fuel, and its do blocks.
use mathlib.Core.Path.{◌≡◌, refl}

-- `undefined` is what C does not define: a write or a read outside an object, or at a NULL. `exited`
-- is a process that called exit.
pub data Result (A : Type 0) : Type 0 where
  undefined out_of_fuel exited : Result A
  ok : A → Result A

module _ {A B : Type 0} where
  infixl 5 ◌>>=◌ ◌>>◌
  abbrev pub ◌>>=◌ : Result A → (A → Result B) → Result B
  undefined >>= f = undefined
  out_of_fuel >>= f = out_of_fuel
  exited >>= f = exited
  ok a >>= f = f a

  abbrev pub ◌>>◌ : Result A → Result B → Result B
  r >> k = r >>= λ _. k

  -- A sequence that ends has a first part that ends.
  pub >>=-ok :
      (r : Result A) (f : A → Result B) {b : B}
      → (r >>= f) ≡ ok b
      → (a : A) × (r ≡ ok a) × (f a ≡ ok b)
  >>=-ok undefined f h = cc
  >>=-ok out_of_fuel f h = cc
  >>=-ok exited f h = cc
  >>=-ok (ok a) f h = (a, refl, h)

-- `P` holds of what is returned, and the fuel is enough; undefined behaviour is not excluded.
abbrev pub Safely : {A : Type 0} → (A → Type 0) → Result A → Type 0
Safely P undefined = Unit
Safely P out_of_fuel = ⊥
Safely P exited = Unit
Safely P (ok a) = P a

pub Safely-bind :
    {A B : Type 0} (P : A → Type 0) (Q : B → Type 0) (r : Result A) (f : A → Result B)
    → Safely P r
    → ((a : A) → P a → Safely Q (f a))
    → Safely Q (r >>= f)
Safely-bind P Q undefined f h k = tt
Safely-bind P Q out_of_fuel f h k = absurd h
Safely-bind P Q exited f h k = tt
Safely-bind P Q (ok a) f h k = k a h

pub Safely-map :
    {A : Type 0} (P Q : A → Type 0) (r : Result A) → ((a : A) → P a → Q a) → Safely P r → Safely Q r
Safely-map P Q undefined f h = tt
Safely-map P Q out_of_fuel f h = h
Safely-map P Q exited f h = tt
Safely-map P Q (ok a) f h = f a h

pub bind-cong :
    {A B : Type 0} (r : Result A) {f g : A → Result B}
    → ((a : A) → f a ≡ g a)
    → (r >>= f) ≡ (r >>= g)
bind-cong undefined h = refl
bind-cong out_of_fuel h = refl
bind-cong exited h = refl
bind-cong (ok a) h = h a

pub bind_assoc :
    {A B C : Type 0} (r : Result A) (f : A → Result B) (g : B → Result C)
    → ((r >>= f) >>= g) ≡ (r >>= λ a. f a >>= g)
bind_assoc undefined f g = refl
bind_assoc out_of_fuel f g = refl
bind_assoc exited f g = refl
bind_assoc (ok a) f g = refl

-- A value is returned, and `P` holds of it.
abbrev pub Surely : {A : Type 0} → (A → Type 0) → Result A → Type 0
Surely P undefined = ⊥
Surely P out_of_fuel = ⊥
Surely P exited = ⊥
Surely P (ok a) = P a

pub Surely-bind :
    {A B : Type 0} (P : A → Type 0) (Q : B → Type 0) (r : Result A) (f : A → Result B)
    → Surely P r
    → ((a : A) → P a → Surely Q (f a))
    → Surely Q (r >>= f)
Surely-bind P Q undefined f h k = absurd h
Surely-bind P Q out_of_fuel f h k = absurd h
Surely-bind P Q exited f h k = absurd h
Surely-bind P Q (ok a) f h k = k a h

pub Surely-map :
    {A : Type 0} (P Q : A → Type 0) (r : Result A) → ((a : A) → P a → Q a) → Surely P r → Surely Q r
Surely-map P Q undefined f h = h
Surely-map P Q out_of_fuel f h = h
Surely-map P Q exited f h = h
Surely-map P Q (ok a) f h = f a h

pub Surely-ok :
    {A : Type 0} (P : A → Type 0) (r : Result A) → Surely P r → (a : A) × (r ≡ ok a) × P a
Surely-ok P undefined h = absurd h
Surely-ok P out_of_fuel h = absurd h
Surely-ok P exited h = absurd h
Surely-ok P (ok a) h = (a, refl, h)

-- `P` holds of a value that is returned.
abbrev pub Soundly : {A : Type 0} → (A → Type 0) → Result A → Type 0
Soundly P undefined = Unit
Soundly P out_of_fuel = Unit
Soundly P exited = Unit
Soundly P (ok a) = P a

pub Soundly-bind :
    {A B : Type 0} (P : A → Type 0) (Q : B → Type 0) (r : Result A) (f : A → Result B)
    → Soundly P r
    → ((a : A) → P a → Soundly Q (f a))
    → Soundly Q (r >>= f)
Soundly-bind P Q undefined f h k = tt
Soundly-bind P Q out_of_fuel f h k = tt
Soundly-bind P Q exited f h k = tt
Soundly-bind P Q (ok a) f h k = k a h

pub Soundly-map :
    {A : Type 0} (P Q : A → Type 0) (r : Result A)
    → ((a : A) → P a → Q a)
    → Soundly P r
    → Soundly Q r
Soundly-map P Q undefined f h = tt
Soundly-map P Q out_of_fuel f h = tt
Soundly-map P Q exited f h = tt
Soundly-map P Q (ok a) f h = f a h

pub Soundly-any : {A : Type 0} (r : Result A) → Soundly (λ (a : A). Unit {0}) r
Soundly-any undefined = tt
Soundly-any out_of_fuel = tt
Soundly-any exited = tt
Soundly-any (ok a) = tt
