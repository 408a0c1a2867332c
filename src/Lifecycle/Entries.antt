-- ===== src/Lifecycle/Entries.antt =====
-- Laws of `set_inner` and `inner_at`: reading and writing `hooks[i].inner`.
use modrun.Base.{
  ℕ, zero, suc, ◌<◌, ◌≡◌, refl, ap, ◌≢◌, Option, none, some, List, [], ◌∷◌, length, drop, arith,
  ◌++◌, ◌≤◌, ◌+◌,
}
use modrun.Lifecycle.{HookEntry, HookEntryInner, set_inner, inner_at, name_at}
use Prim.Native.Nat.add
use native.Mathlib.Nat.{zero-add}

pub length-set_inner :
    (es : List HookEntry) (i : ℕ) (o : Option HookEntryInner)
    → length (set_inner es i o) ≡ length es
unfolding set_inner
length-set_inner [] i o = refl
length-set_inner (e ∷ es) zero o = refl
length-set_inner (e ∷ es) (suc i) o = ap suc (length-set_inner es i o)

pub inner_at-set_inner :
    (es : List HookEntry) (i : ℕ) (o : Option HookEntryInner)
    → i < length es
    → inner_at (set_inner es i o) i ≡ o
unfolding set_inner
inner_at-set_inner [] i o h = elim h [ ]
inner_at-set_inner (e ∷ es) zero o h = refl
inner_at-set_inner (e ∷ es) (suc i) o h = inner_at-set_inner es i o (omega arith)

pub inner_at-set_inner_ne :
    (es : List HookEntry) (i j : ℕ) (o : Option HookEntryInner)
    → i ≢ j
    → inner_at (set_inner es i o) j ≡ inner_at es j
unfolding set_inner
inner_at-set_inner_ne [] i j o h = refl
inner_at-set_inner_ne (e ∷ es) zero zero o h = absurd (h refl)
inner_at-set_inner_ne (e ∷ es) zero (suc j) o h = refl
inner_at-set_inner_ne (e ∷ es) (suc i) zero o h = refl
inner_at-set_inner_ne (e ∷ es) (suc i) (suc j) o h =
    inner_at-set_inner_ne es i j o (λ e. h (ap suc e))

pub name_at-set_inner :
    (es : List HookEntry) (i j : ℕ) (o : Option HookEntryInner)
    → name_at (set_inner es i o) j ≡ name_at es j
unfolding set_inner
name_at-set_inner [] i j o = refl
name_at-set_inner (e ∷ es) zero zero o = refl
name_at-set_inner (e ∷ es) zero (suc j) o = refl
name_at-set_inner (e ∷ es) (suc i) zero o = refl
name_at-set_inner (e ∷ es) (suc i) (suc j) o = name_at-set_inner es i j o

-- A hook that is there is within the bounds.
pub inner_at-lt :
    (es : List HookEntry) (i : ℕ) (h : HookEntryInner) → inner_at es i ≡ some h → i < length es
inner_at-lt [] i h e = cc
inner_at-lt (e ∷ es) zero h p = omega arith
inner_at-lt (e ∷ es) (suc i) h p = omega (arith, inner_at-lt es i h p)

-- A write does not reach the hooks behind it.
pub drop-set_inner :
    (es : List HookEntry) (i n : ℕ) (o : Option HookEntryInner)
    → i < n
    → drop n (set_inner es i o) ≡ drop n es
unfolding set_inner
drop-set_inner [] i n o h = refl
drop-set_inner (e ∷ es) i zero o h = absurd (omega arith)
drop-set_inner (e ∷ es) zero (suc n) o h = refl
drop-set_inner (e ∷ es) (suc i) (suc n) o h = drop-set_inner es i n o (omega arith)

pub inner_at-drop : (n k : ℕ) (es : List HookEntry) → inner_at (drop n es) k ≡ inner_at es (n + k)
inner_at-drop zero k es = rw (zero-add k) refl
inner_at-drop (suc n) k [] = refl
inner_at-drop (suc n) k (e ∷ es) = rw (add.suc n k) (inner_at-drop n k es)

pub name_at-drop : (n k : ℕ) (es : List HookEntry) → name_at (drop n es) k ≡ name_at es (n + k)
name_at-drop zero k es = rw (zero-add k) refl
name_at-drop (suc n) k [] = refl
name_at-drop (suc n) k (e ∷ es) = rw (add.suc n k) (name_at-drop n k es)

pub inner_at-append :
    (es ds : List HookEntry) (i : ℕ) → i < length es → inner_at (es ++ ds) i ≡ inner_at es i
inner_at-append [] ds i h = elim h [ ]
inner_at-append (e ∷ es) ds zero h = refl
inner_at-append (e ∷ es) ds (suc i) h = inner_at-append es ds i (omega arith)

-- Past the end there is no hook.
pub inner_at-length : (es : List HookEntry) (i : ℕ) → length es ≤ i → inner_at es i ≡ none
inner_at-length [] i h = refl
inner_at-length (e ∷ es) zero h = absurd (omega arith)
inner_at-length (e ∷ es) (suc i) h = inner_at-length es i (omega arith)
