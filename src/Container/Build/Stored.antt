-- ===== src/Container/Build/Stored.antt =====
-- What the calls of the constructors of a wave, and the storing of their values, leave behind.
use modrun.Base.{◌<◌, ◌≡◌, subst, ◌∙◌, inl, inr, Bool-cases, true, false, [], ◌∷◌, ◌==◌, arith}
use modrun.Base.Assoc.{contains, discard, contains-discard}
use modrun.Error.{Result, ok, err, panicked, ◌>>=◌}
use modrun.Container.Types.{ConstructOut, ProviderKey, is_group_member}
use modrun.Container.Keys.{key_eq, key_beq_iff}
use modrun.Container.State.{Container}
use modrun.Container.Build.{
  Keys, Built, Futures, sorted, and_others, call_one, call_all, store_one, store_all,
}
use modrun.Container.Build.Intact.{
  held, Intact, Intact-refl, Intact-trans, store_one-Intact, store_one-held, After, call_one-After,
}

pub then-After :
    {A : Type 0} (c d : Container) (s : Container × Result A) → Intact c d → After d s → After c s
then-After c d (e, ok _) h k = Intact-trans c d e h k
then-After c d (e, err _) h k = Intact-trans c d e h k
then-After c d (e, panicked _) h k = k ∙ h.constructing

map-After :
    {A B : Type 0} (c : Container) (s : Container × Result A) (f : A → B)
    → After c s
    → After c (s.0, s.1 >>= λ a. ok (f a))
map-After c (d, ok a) f h = h
map-After c (d, err e) f h = h
map-After c (d, panicked m) f h = h

and_others-After :
    (c : Container) (key : ProviderKey) (s : Container × Result ConstructOut)
    (more : Container → Container × Result (Built × Futures))
    → After c s
    → ((d : Container) → After d (more d))
    → After c (and_others key s more)
and_others-After c key (d, ok out) more h k =
    map-After c (more d) (sorted key out) (then-After c d (more d) h (k d))
and_others-After c key (d, err e) more h k = h
and_others-After c key (d, panicked m) more h k = h

pub call_all-After : (c : Container) (keys : Keys) → After c (call_all c keys)
unfolding call_all
call_all-After c [] = Intact-refl c
call_all-After c (key ∷ keys) =
    and_others-After c key (call_one c key) (λ d. call_all d keys) (call_one-After c key)
      (λ d. call_all-After d keys)

pub store_all-Intact :
    (built : Built) (c : Container) (pending : Keys) → Intact c ((store_all c pending built).0)
unfolding store_all
store_all-Intact [] c pending = Intact-refl c
store_all-Intact ((key, made) ∷ rest) c pending =
    Intact-trans c (store_one c key made) _ (store_one-Intact c key made)
      (store_all-Intact rest (store_one c key made) (discard pending key))

-- A key that was to be built, and is pending no more, has its value.
abbrev pub HasBuilt : Keys → Container → Keys → Type 0
HasBuilt needed c pending =
    (k : ProviderKey)
    → contains needed k ≡ true
    → is_group_member k ≡ false
    → contains pending k ≡ false
    → 0 < held c k

pub Intact-HasBuilt :
    (needed : Keys) (c d : Container) (pending : Keys)
    → Intact c d
    → HasBuilt needed c pending
    → HasBuilt needed d pending
Intact-HasBuilt needed c d pending h b k n s p = omega (arith, h.values k, b k n s p)

pub store_all-HasBuilt :
    (needed : Keys) (built : Built) (c : Container) (pending : Keys)
    → HasBuilt needed c pending
    → (let s = store_all c pending built in HasBuilt needed s.0 s.1)
unfolding store_all
store_all-HasBuilt needed [] c pending b = b
store_all-HasBuilt needed ((key, made) ∷ rest) c pending b =
    store_all-HasBuilt needed rest (store_one c key made) (discard pending key) (λ k n s p.
      elim (Bool-cases (key == k)) [
        | inl same ↦
            subst (λ j. 0 < held (store_one c key made) j) ((key_beq_iff key k).0 same)
              (store_one-held c key made (rw ((key_beq_iff key k).0 same) s))
        | inr other ↦ omega (
          arith,
          (store_one-Intact c key made).values k,
          b k n s (ground (arith, p, contains-discard pending key k, other)),
        )
      ])
