-- ===== src/Error/Gives.antt =====
-- What a result is, if it is one.
use modrun.Base.{◌≡◌, Bool, true, false, if◌then◌else◌, subst}
use modrun.Error.{Result, ok, err, panicked, ◌>>=◌}

abbrev pub Gives {ℓ ℓ'} : {A : Type ℓ} → (A → Type ℓ') → Result A → Type ℓ'
Gives P (ok a) = P a
Gives P (err e) = Unit
Gives P (panicked m) = Unit

pub Gives-bind {ℓ ℓ' κ κ'} :
    {A : Type ℓ} {B : Type ℓ'} (P : A → Type κ) (Q : B → Type κ') (r : Result A) (f : A → Result B)
    → Gives P r
    → ((a : A) → P a → Gives Q (f a))
    → Gives Q (r >>= f)
Gives-bind P Q (ok a) f h k = k a h
Gives-bind P Q (err e) f h k = tt
Gives-bind P Q (panicked m) f h k = tt

pub Gives-any {ℓ} : {A : Type ℓ} (r : Result A) → Gives (λ _. Unit {0}) r
Gives-any (ok a) = tt
Gives-any (err e) = tt
Gives-any (panicked m) = tt

pub Gives-ok {ℓ ℓ'} :
    {A : Type ℓ} (P : A → Type ℓ') (r : Result A) (a : A) → Gives P r → r ≡ ok a → P a
Gives-ok P r a h e = subst (Gives P) e h

pub if-cases {ℓ ℓ'} :
    {A : Type ℓ} (P : A → Type ℓ') (b : Bool) (x y : A) → P x → P y → P (if b then x else y)
if-cases P true x y h k = h
if-cases P false x y h k = k
