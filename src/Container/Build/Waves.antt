-- ===== src/Container/Build/Waves.antt =====
-- What one wave leaves behind, whatever its constructors do.
use modrun.Base.{◌+◌, ◌≤◌, ◌<◌, ◌≡◌, refl, ◌∙◌, true, false, ◌||◌, [], ◌∷◌, if◌then◌else◌, arith}
use modrun.Base.Assoc.{contains, add, discard, contains-add, contains-discard, get}
use modrun.Base.Counts.{count}
use modrun.Error.{Result, ok, err, panicked}
use modrun.Container.Types.{ProviderKey}
use modrun.Container.Keys.{key_eq, key_beq_iff}
use modrun.Container.State.{Container}
use modrun.Container.Build.{
  Keys, Built, Futures, mark_all, discard_all, drop_guard, call_all, store_all, join_constructs,
  Progress, store_joined, store_called, run_wave,
}
use modrun.Container.Inv.Ordered.{present}
use modrun.Container.Build.Intact.{held, Intact, Intact-trans, After}
use modrun.Container.Build.Stored.{
  call_all-After, store_all-Intact, HasBuilt, Intact-HasBuilt, store_all-HasBuilt,
}

-- As between two operations, but for the order of the marks.
pub record Kept (c d : Container) : Type 0 where
  pub marks : (k : ProviderKey) → contains d.constructing k ≡ contains c.constructing k
  pub layers : d.layers ≡ c.layers
  pub scope : d.active_scope ≡ c.active_scope
  pub registered : (k : ProviderKey) → present (get d.providers k) ≡ present (get c.providers k)
  pub values : (k : ProviderKey) → held c k ≤ held d k

pub Kept-refl : (c : Container) → Kept c c
Kept-refl c = record {
  marks = λ k. refl;
  layers = refl;
  scope = refl;
  registered = λ k. refl;
  values = λ k. omega arith;
}

pub Kept-trans : (a b c : Container) → Kept a b → Kept b c → Kept a c
Kept-trans a b c h k = record {
  marks = λ key. k.marks key ∙ h.marks key;
  layers = k.layers ∙ h.layers;
  scope = k.scope ∙ h.scope;
  registered = λ key. k.registered key ∙ h.registered key;
  values = λ key. omega (arith, h.values key, k.values key);
}

-- How a wave, or several, end: what holds of the container and of what is pending.
abbrev pub Ends : Keys → Container → Progress → Type 0
Ends needed c (d, pending, ok _) = Kept c d × HasBuilt needed d pending
Ends needed c (d, pending, err _) = Kept c d
Ends needed c (d, pending, panicked _) =
    (k : ProviderKey) → contains d.constructing k ≡ contains c.constructing k

-- No key of the wave stands there twice or is marked.
abbrev pub Fresh : Container → Keys → Type 0
Fresh c wave = (k : ProviderKey) → count wave k + (if contains c.constructing k then 1 else 0) ≤ 1

abbrev MarkedAs : Container → Keys → Container × Result (Unit {0}) → Type 0
MarkedAs c wave s =
    (m : Keys) × (s ≡ (record c { constructing = m }, ok tt))
    × ((k : ProviderKey) → contains m k ≡ (contains wave k || contains c.constructing k))

mark_all-cons :
    (c : Container) (key : ProviderKey) (keys : Keys)
    → contains c.constructing key ≡ false
    → mark_all c (key ∷ keys) ≡ mark_all (record c { constructing = add c.constructing key }) keys
unfolding mark_all
mark_all-cons c key keys unmarked = rw (mark_all, unmarked) refl

Fresh-rest :
    (c : Container) (key : ProviderKey) (keys : Keys)
    → Fresh c (key ∷ keys)
    → Fresh (record c { constructing = add c.constructing key }) keys
unfolding count
Fresh-rest c key keys fresh k =
    ground (arith, fresh k, contains-add c.constructing key k, key_beq_iff key k)

mark_all-MarkedAs : (c : Container) (wave : Keys) → Fresh c wave → MarkedAs c wave (mark_all c wave)
unfolding mark_all count contains
mark_all-MarkedAs c [] fresh = (c.constructing, refl, λ k. refl)
mark_all-MarkedAs c (key ∷ keys) fresh =
    let unmarked : contains c.constructing key ≡ false =
      ground (arith, fresh key, key_beq_iff key key) in
    let c' = record c { constructing = add c.constructing key } in
    let (m, e, all) = mark_all-MarkedAs c' keys (Fresh-rest c key keys fresh) in
    (
      m,
      mark_all-cons c key keys unmarked ∙ e,
      λ k. ground (arith, all k, contains-add c.constructing key k),
    )

contains-discard_all :
    (keys marked : Keys) (k : ProviderKey)
    → contains (discard_all marked keys) k ≡ (if contains keys k then false else contains marked k)
unfolding contains
contains-discard_all [] marked k = ground arith
contains-discard_all (key ∷ keys) marked k =
    ground (arith, contains-discard_all keys (discard marked key) k, contains-discard marked key k)

count-contains : (keys : Keys) (k : ProviderKey) → contains keys k ≡ true → 0 < count keys k
unfolding contains count
count-contains [] k e = absurd (cc)
count-contains (key ∷ keys) k e = ground (arith, e, count-contains keys k)

module _ (c : Container) (wave marks needed : Keys) (fresh : Fresh c wave)
    (all : (k : ProviderKey)
      → contains marks k ≡ (contains wave k || contains c.constructing k)) where
  abbrev marked : Container
  marked = record c { constructing = marks }

  dropped :
      (d : Container)
      → d.constructing ≡ marks
      → (k : ProviderKey) → contains (drop_guard d wave).constructing k ≡ contains c.constructing k
  unfolding drop_guard
  dropped d e k =
      rw (contains-discard_all wave d.constructing k, e)
        (ground (arith, all k, fresh k, count-contains wave k))

  dropped-Kept : (d : Container) → Intact marked d → Kept c (drop_guard d wave)
  unfolding drop_guard
  dropped-Kept d h = record {
    marks = dropped d h.constructing;
    layers = h.layers;
    scope = h.scope;
    registered = h.registered;
    values = h.values;
  }

  store_joined-Ends :
      (d : Container) (pending : Keys) (r : Result Built)
      → Intact marked d
      → HasBuilt needed d pending
      → Ends needed c (store_joined wave (d, pending) r)
  unfolding drop_guard
  store_joined-Ends d pending (ok results) h b = (
    dropped-Kept _ (Intact-trans marked d _ h (store_all-Intact results d pending)),
    store_all-HasBuilt needed results d pending b,
  )
  store_joined-Ends d pending (err e) h b = dropped-Kept d h
  store_joined-Ends d pending (panicked m) h b = dropped d h.constructing

  store_called-Ends :
      (pending : Keys) (s : Container × Result (Built × Futures))
      → After marked s
      → HasBuilt needed c pending
      → Ends needed c (store_called wave pending s)
  store_called-Ends pending (d, ok (readies, futs)) h b =
      store_joined-Ends (store_all d pending readies).0 (store_all d pending readies).1
        (join_constructs futs) (Intact-trans marked d _ h (store_all-Intact readies d pending))
        (store_all-HasBuilt needed readies d pending (Intact-HasBuilt needed marked d pending h b))
  store_called-Ends pending (d, err e) h b = dropped-Kept d h
  store_called-Ends pending (d, panicked m) h b = dropped d h

pub run_wave-Ends :
    (c : Container) (wave needed pending : Keys)
    → Fresh c wave
    → HasBuilt needed c pending
    → Ends needed c (run_wave c wave pending)
unfolding run_wave
run_wave-Ends c wave needed pending fresh b =
    let (marks, e, all) = mark_all-MarkedAs c wave fresh in
    rw e (
      store_called-Ends c wave marks needed fresh all pending
        (call_all (record c { constructing = marks }) wave)
        (call_all-After (record c { constructing = marks }) wave) b)
