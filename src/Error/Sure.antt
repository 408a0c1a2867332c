-- ===== src/Error/Sure.antt =====
-- A result that is there, and what it is.
use modrun.Base.{◌≡◌, refl}
use modrun.Error.{Result, ok, err, panicked, ◌>>=◌}

abbrev pub Sure {ℓ} : {A : Type ℓ} → (A → Type 0) → Result A → Type 0
Sure P (ok a) = P a
Sure P (err e) = ⊥
Sure P (panicked m) = ⊥

pub Sure-bind {ℓ ℓ'} :
    {A : Type ℓ} {B : Type ℓ'} (P : A → Type 0) (Q : B → Type 0) (r : Result A) (f : A → Result B)
    → Sure P r
    → ((a : A) → P a → Sure Q (f a))
    → Sure Q (r >>= f)
Sure-bind P Q (ok a) f h k = k a h
Sure-bind P Q (err e) f h k = absurd h
Sure-bind P Q (panicked m) f h k = absurd h

pub Sure-ok {ℓ} :
    {A : Type ℓ} (P : A → Type 0) (r : Result A) → Sure P r → (a : A) × (r ≡ ok a) × P a
Sure-ok P (ok a) h = (a, refl, h)
Sure-ok P (err e) h = absurd h
Sure-ok P (panicked m) h = absurd h
