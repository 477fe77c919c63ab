-- ===== src/Base/Results.antt =====
-- What a call of a Rust function comes to: a value, an error, or a panic of the thread.
use mathlib.Core.Path.{◌≡◌, refl, subst}
use mathlib.Core.Logic.{◌⊎◌, inl, inr}
use mathlib.Core.Bool.{Bool, true, false}
use mathlib.Core.List.{List, [], ◌∷◌}
use mathlib.Core.Option.{Option, none, some}
use cfnts.Base.Tests.{if◌then◌else◌}

-- `hang` is no outcome of the program: it marks that a loop of the model ran out of fuel.
pub data Outcome (E A : Type 0) : Type 0 where
  ok : A → Outcome E A
  err : E → Outcome E A
  panic : Outcome E A
  hang : Outcome E A

infixl 5 ◌>>=◌ ◌>>◌
abbrev pub ◌>>=◌ : {E A B : Type 0} → Outcome E A → (A → Outcome E B) → Outcome E B
ok a >>= f = f a
err e >>= f = err e
panic >>= f = panic
hang >>= f = hang

abbrev pub ◌>>◌ : {E B : Type 0} → Outcome E (Unit {0}) → Outcome E B → Outcome E B
m >> k = m >>= λ _. k

-- `if !test { return Err(e) }`
abbrev pub guard : {E : Type 0} → Bool → E → Outcome E (Unit {0})
guard true e = ok tt
guard false e = err e

-- `Result::map_err`
abbrev pub map_err : {E F A : Type 0} → (E → F) → Outcome E A → Outcome F A
map_err f (ok a) = ok a
map_err f (err e) = err (f e)
map_err f panic = panic
map_err f hang = hang

pub ok_inj : {E A : Type 0} {a b : A} → ◌≡◌ {A = Outcome E A} (ok a) (ok b) → a ≡ b
ok_inj h = cc

pub bind-eq-ok :
    {E A B : Type 0} (m : Outcome E A) (f : A → Outcome E B) {b : B}
    → (m >>= f) ≡ ok b
    → (a : A) × (m ≡ ok a) × (f a ≡ ok b)
bind-eq-ok (ok a) f h = (a, refl, h)
bind-eq-ok (err e) f h = cc
bind-eq-ok panic f h = cc
bind-eq-ok hang f h = cc

-- The call returns to its caller: it neither panics nor loops.
abbrev pub IsSettled : {E A : Type 0} → Outcome E A → Type 0
IsSettled (ok a) = Unit {0}
IsSettled (err e) = Unit {0}
IsSettled panic = ⊥
IsSettled hang = ⊥

-- The fuel of the model's loops was enough.
abbrev pub IsEnded : {E A : Type 0} → Outcome E A → Type 0
IsEnded (ok a) = Unit {0}
IsEnded (err e) = Unit {0}
IsEnded panic = Unit {0}
IsEnded hang = ⊥

pub bind-IsSettled :
    {E A B : Type 0} (m : Outcome E A) (f : A → Outcome E B)
    → IsSettled m
    → ((a : A) → IsSettled (f a))
    → IsSettled (m >>= f)
bind-IsSettled (ok a) f h k = k a
bind-IsSettled (err e) f h k = tt
bind-IsSettled panic f h k = h
bind-IsSettled hang f h k = h

pub bind-IsEnded :
    {E A B : Type 0} (m : Outcome E A) (f : A → Outcome E B)
    → IsEnded m
    → ((a : A) → IsEnded (f a))
    → IsEnded (m >>= f)
bind-IsEnded (ok a) f h k = k a
bind-IsEnded (err e) f h k = tt
bind-IsEnded panic f h k = tt
bind-IsEnded hang f h k = h

pub IsSettled-IsEnded : {E A : Type 0} (m : Outcome E A) → IsSettled m → IsEnded m
IsSettled-IsEnded (ok a) h = tt
IsSettled-IsEnded (err e) h = tt
IsSettled-IsEnded panic h = tt
IsSettled-IsEnded hang h = h

-- A value that the call returns, if it returns one, has the property.
abbrev pub Ensures : {E A : Type 0} → (A → Type 0) → Outcome E A → Type 0
Ensures P (ok a) = P a
Ensures P (err e) = Unit {0}
Ensures P panic = Unit {0}
Ensures P hang = Unit {0}

pub bind-Ensures :
    {E A B : Type 0} (P : B → Type 0) (m : Outcome E A) (f : A → Outcome E B)
    → ((a : A) → m ≡ ok a → Ensures P (f a))
    → Ensures P (m >>= f)
bind-Ensures P (ok a) f h = h a refl
bind-Ensures P (err e) f h = tt
bind-Ensures P panic f h = tt
bind-Ensures P hang f h = tt

pub Ensures-ok :
    {E A : Type 0} (P : A → Type 0) (m : Outcome E A) (a : A) → Ensures P m → m ≡ ok a → P a
Ensures-ok P m a h e = subst (Ensures P) e h

pub if-Ensures :
    {E A : Type 0} (P : A → Type 0) (b : Bool) (m n : Outcome E A)
    → (b ≡ true → Ensures P m)
    → (b ≡ false → Ensures P n)
    → Ensures P (if b then m else n)
if-Ensures P true m n h k = h refl
if-Ensures P false m n h k = k refl

pub map_err-IsSettled :
    {E F A : Type 0} (f : E → F) (m : Outcome E A) → IsSettled m → IsSettled (map_err f m)
map_err-IsSettled f (ok a) h = tt
map_err-IsSettled f (err e) h = tt
map_err-IsSettled f panic h = h
map_err-IsSettled f hang h = h

pub map-Ensures :
    {E A : Type 0} (P Q : A → Type 0) (m : Outcome E A)
    → ((a : A) → P a → Q a)
    → Ensures P m
    → Ensures Q m
map-Ensures P Q (ok a) f h = f a h
map-Ensures P Q (err e) f h = tt
map-Ensures P Q panic f h = tt
map-Ensures P Q hang f h = tt

pub map_err-ok :
    {E F A : Type 0} (f : E → F) (m : Outcome E A) {a : A} → map_err f m ≡ ok a → m ≡ ok a
map_err-ok f (ok x) h = cc
map_err-ok f (err e) h = cc
map_err-ok f panic h = cc
map_err-ok f hang h = cc

-- `unwrap`, and `?` on a call that gave no value.
abbrev pub unwrap : {E A : Type 0} → Option A → Outcome E A
unwrap none = panic
unwrap (some a) = ok a

abbrev pub ok_or : {E A : Type 0} → E → Option A → Outcome E A
ok_or e none = err e
ok_or e (some a) = ok a

pub ok_or-ok : {E A : Type 0} (e : E) (o : Option A) {a : A} → ok_or e o ≡ ok a → o ≡ some a
ok_or-ok e none h = cc
ok_or-ok e (some b) h = cc

pub unwrap-ok : {E A : Type 0} (o : Option A) {a : A} → unwrap {E = E} o ≡ ok a → o ≡ some a
unwrap-ok none h = cc
unwrap-ok (some b) h = cc

-- The first element, at which an index panics on an empty vector.
abbrev pub first_of : {E A : Type 0} → List A → Outcome E A
first_of [] = panic
first_of (a ∷ rest) = ok a

pub first_of-ok :
    {E A : Type 0} (xs : List A) {a : A}
    → first_of {E = E} xs ≡ ok a
    → (rest : List A) × (xs ≡ a ∷ rest)
first_of-ok [] h = cc
first_of-ok (x ∷ xs) h = (xs, cc)

-- What ends without a panic is a result or an error.
pub settled-cases :
    {E A : Type 0} (m : Outcome E A)
    → IsSettled m
    → ((a : A) × (m ≡ ok a)) ⊎ ((e : E) × (m ≡ err e))
settled-cases (ok a) h = inl (a, refl)
settled-cases (err e) h = inr (e, refl)
settled-cases panic h = absurd h
settled-cases hang h = absurd h
