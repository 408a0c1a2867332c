-- ===== src/Container/Collect/Same.antt =====
-- Two runs of the collection that give the same.
use modrun.Base.{
  nat_eq, pair_eq, ◌≡◌, refl, subst, ap, Bool, true, false, Option, none, some, String,
}
use modrun.Error.{Error, Result, ok, err, panicked, expect, ok_or, ◌>>=◌}
use modrun.Error.Agree.{Agree, Agree-bind, Agree-weaken}
use modrun.Container.Types.{ProviderKey}
use modrun.Container.Keys.{type_eq, key_eq, key_beq_iff}
use modrun.Container.Resolve.{}
use modrun.Container.Build.{Keys}
use modrun.Container.Collect.{is_key}
use modrun.Container.Collect.Closed.{}

-- Both runs give the same set, of which so much holds.
abbrev pub Same : (Keys → Type 0) → Keys → Keys → Type 0
Same P a b = (a ≡ b) × P a

-- The second step of two runs.
pub Same-bind :
    (P Q : Keys → Type 0) (r q : Result Keys) (f g : Keys → Result Keys)
    → Agree (Same P) r q
    → ((a : Keys) → P a → Agree (Same Q) (f a) (g a))
    → Agree (Same Q) (r >>= f) (q >>= g)
Same-bind P Q r q f g h k =
    Agree-bind (Same P) (Same Q) r q f g h
      (λ a b (e, p). subst (λ x. Agree (Same Q) (f a) (g x)) e (k a p))

pub Same-weaken :
    (P Q : Keys → Type 0) (r q : Result Keys)
    → ((a : Keys) → P a → Q a)
    → Agree (Same P) r q
    → Agree (Same Q) r q
Same-weaken P Q r q k = Agree-weaken (Same P) (Same Q) r q (λ a b (e, p). (e, k a p))

-- The two branches of a test.
pub branch-Same :
    (P : Keys → Type 0) (b : Bool) (r r' q q' : Result Keys)
    → (b ≡ true → Agree (Same P) r q)
    → (b ≡ false → Agree (Same P) r' q')
    → Agree (Same P) (elim b [ true ↦ r | false ↦ r' ]) (elim b [ true ↦ q | false ↦ q' ])
branch-Same P true r r' q q' h k = h refl
branch-Same P false r r' q q' h k = k refl

pub Same-start :
    {A : Type 0} (P : Keys → Type 0) (r : Result A) (f g : A → Result Keys)
    → ((a : A) → r ≡ ok a → Agree (Same P) (f a) (g a))
    → Agree (Same P) (r >>= f) (r >>= g)
Same-start P (ok a) f g h = h a refl
Same-start P (err e) f g h = refl
Same-start P (panicked m) f g h = refl

pub expect-some : {A : Type 0} (o : Option A) (m : String) (a : A) → expect o m ≡ ok a → o ≡ some a
expect-some none m a e = absurd (cc)
expect-some (some b) m a e = cc

pub ok_or-some : {A : Type 0} (o : Option A) (x : Error) (a : A) → ok_or o x ≡ ok a → o ≡ some a
ok_or-some none x a e = absurd (cc)
ok_or-some (some b) x a e = cc

pub is_key-some : (o : Option ProviderKey) (key : ProviderKey) → is_key o key ≡ true → o ≡ some key
is_key-some none key e = absurd (cc)
is_key-some (some k) key e = ap some ((key_beq_iff k key).0 e)
