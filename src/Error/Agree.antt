-- ===== src/Error/Agree.antt =====
-- Two results that agree: both are the same error or panic, or their values are related.
use modrun.Base.{◌≡◌, ap}
use modrun.Error.{Result, ok, err, panicked, ◌>>=◌}

abbrev pub Agree {ℓ ℓ'} :
    {A : Type ℓ} {B : Type ℓ'} → (A → B → Type 0) → Result A → Result B → Type 0
Agree P (ok a) (ok b) = P a b
Agree P (err e) (err f) = e ≡ f
Agree P (panicked m) (panicked n) = m ≡ n
Agree P (ok a) (err f) = ⊥
Agree P (ok a) (panicked n) = ⊥
Agree P (err e) (ok b) = ⊥
Agree P (err e) (panicked n) = ⊥
Agree P (panicked m) (ok b) = ⊥
Agree P (panicked m) (err f) = ⊥

module _ {ℓ ℓ' κ κ'} {A : Type ℓ} {B : Type ℓ'} {C : Type κ} {D : Type κ'} where
  pub Agree-bind :
      (P : A → B → Type 0) (Q : C → D → Type 0) (r : Result A) (q : Result B) (f : A → Result C)
      (g : B → Result D)
      → Agree P r q
      → ((a : A) (b : B) → P a b → Agree Q (f a) (g b))
      → Agree Q (r >>= f) (q >>= g)
  Agree-bind P Q (ok a) (ok b) f g h k = k a b h
  Agree-bind P Q (err e) (err x) f g h k = h
  Agree-bind P Q (panicked m) (panicked n) f g h k = h
  Agree-bind P Q (ok a) (err x) f g h k = absurd h
  Agree-bind P Q (ok a) (panicked n) f g h k = absurd h
  Agree-bind P Q (err e) (ok b) f g h k = absurd h
  Agree-bind P Q (err e) (panicked n) f g h k = absurd h
  Agree-bind P Q (panicked m) (ok b) f g h k = absurd h
  Agree-bind P Q (panicked m) (err x) f g h k = absurd h

pub Agree-eq {ℓ} :
    {A : Type ℓ} (P : A → A → Type 0) (r q : Result A)
    → ((a b : A) → P a b → a ≡ b)
    → Agree P r q
    → r ≡ q
Agree-eq P (ok a) (ok b) f h = ap ok (f a b h)
Agree-eq P (err e) (err x) f h = ap err h
Agree-eq P (panicked m) (panicked n) f h = ap panicked h
Agree-eq P (ok a) (err x) f h = absurd h
Agree-eq P (ok a) (panicked n) f h = absurd h
Agree-eq P (err e) (ok b) f h = absurd h
Agree-eq P (err e) (panicked n) f h = absurd h
Agree-eq P (panicked m) (ok b) f h = absurd h
Agree-eq P (panicked m) (err x) f h = absurd h

-- The value on the left is changed.
pub Agree-left {ℓ ℓ' κ} :
    {A : Type ℓ} {B : Type ℓ'} {C : Type κ} (P : A → B → Type 0) (Q : C → B → Type 0) (r : Result A)
    (q : Result B) (f : A → C)
    → Agree P r q
    → ((a : A) (b : B) → P a b → Q (f a) b)
    → Agree Q (r >>= λ a. ok (f a)) q
Agree-left P Q (ok a) (ok b) f h k = k a b h
Agree-left P Q (err e) (err x) f h k = h
Agree-left P Q (panicked m) (panicked n) f h k = h
Agree-left P Q (ok a) (err x) f h k = absurd h
Agree-left P Q (ok a) (panicked n) f h k = absurd h
Agree-left P Q (err e) (ok b) f h k = absurd h
Agree-left P Q (err e) (panicked n) f h k = absurd h
Agree-left P Q (panicked m) (ok b) f h k = absurd h
Agree-left P Q (panicked m) (err x) f h k = absurd h

-- What relates the values is weakened.
pub Agree-weaken {ℓ ℓ'} :
    {A : Type ℓ} {B : Type ℓ'} (P Q : A → B → Type 0) (r : Result A) (q : Result B)
    → ((a : A) (b : B) → P a b → Q a b)
    → Agree P r q
    → Agree Q r q
Agree-weaken P Q (ok a) (ok b) k h = k a b h
Agree-weaken P Q (err e) (err x) k h = h
Agree-weaken P Q (panicked m) (panicked n) k h = h
Agree-weaken P Q (ok a) (err x) k h = absurd h
Agree-weaken P Q (ok a) (panicked n) k h = absurd h
Agree-weaken P Q (err e) (ok b) k h = absurd h
Agree-weaken P Q (err e) (panicked n) k h = absurd h
Agree-weaken P Q (panicked m) (ok b) k h = absurd h
Agree-weaken P Q (panicked m) (err x) k h = absurd h
