-- ===== src/Container/Build/Pending.antt =====
-- What the construction of all that is pending leaves behind.
use modrun.Base.{◌≤◌, ◌<◌, ◌≡◌, refl, ◌∙◌, true, false, List, [], ◌∷◌, arith, All}
use modrun.Base.Assoc.{contains}
use modrun.Base.Counts.{count}
use modrun.Error.{ok, err, panicked}
use modrun.Container.Types.{ProviderKey, is_group_member}
use modrun.Container.Keys.{key_eq}
use modrun.Container.State.{Container}
use modrun.Container.Build.{
  Keys, Progress, run_wave, pending_in, unless_failed, wave_of, end_pending, build_layers,
  build_pending,
}
use modrun.Container.Build.Intact.{held}
use modrun.Container.Build.Stored.{HasBuilt}
use modrun.Container.Build.Waves.{Kept, Kept-refl, Kept-trans, Ends, run_wave-Ends}

abbrev Idle : Container → Type 0
Idle c = (k : ProviderKey) → contains c.constructing k ≡ false

count-pending_in :
    (pending keys : Keys) (k : ProviderKey) → count (pending_in pending keys) k ≤ count keys k
unfolding pending_in count
count-pending_in pending [] k = omega arith
count-pending_in pending (key ∷ keys) k = ground (arith, count-pending_in pending keys k)

then-Ends :
    (needed : Keys) (c d : Container) (p : Progress) → Kept c d → Ends needed d p → Ends needed c p
then-Ends needed c d (e, pending, ok _) h (k, b) = (Kept-trans c d e h k, b)
then-Ends needed c d (e, pending, err _) h k = Kept-trans c d e h k
then-Ends needed c d (e, pending, panicked _) h k = λ key. k key ∙ h.marks key

unless_failed-Ends :
    (needed : Keys) (c : Container) (p : Progress) (more : Container → Keys → Progress)
    → Ends needed c p
    → ((d : Container) (pending : Keys)
        → Kept c d
        → HasBuilt needed d pending
        → Ends needed d (more d pending))
    → Ends needed c (unless_failed p more)
unless_failed-Ends needed c (d, pending, ok _) more (h, b) k =
    then-Ends needed c d (more d pending) h (k d pending h b)
unless_failed-Ends needed c (d, pending, err _) more h k = h
unless_failed-Ends needed c (d, pending, panicked _) more h k = h

module _ (needed : Keys) where
  abbrev Builds : List Keys → Type 0
  Builds layers =
      (c : Container) (pending : Keys)
      → Idle c
      → HasBuilt needed c pending
      → Ends needed c (build_layers layers c pending)

  wave_of-Ends :
      (layers : List Keys) (c : Container) (pending wave : Keys)
      → Builds layers
      → Idle c
      → ((k : ProviderKey) → count wave k ≤ 1)
      → HasBuilt needed c pending
      → Ends needed c (wave_of c pending wave (build_layers layers))
  wave_of-Ends layers c pending [] ih idle once b = ih c pending idle b
  wave_of-Ends layers c pending (key ∷ keys) ih idle once b =
      unless_failed-Ends needed c (run_wave c (key ∷ keys) pending) (build_layers layers)
        (run_wave-Ends c (key ∷ keys) needed pending (λ k. ground (arith, once k, idle k)) b)
        (λ d pending' h b'. ih d pending' (λ k. h.marks k ∙ idle k) b')

  build_layers-Ends :
      (layers : List Keys)
      → All (λ layer. (k : ProviderKey) → count layer k ≤ 1) layers
      → Builds layers
  unfolding build_layers
  build_layers-Ends [] once c pending idle b = (Kept-refl c, b)
  build_layers-Ends (layer ∷ layers) once c [] idle b = (Kept-refl c, b)
  build_layers-Ends (layer ∷ layers) (once, rest) c (p ∷ ps) idle b =
      wave_of-Ends layers c (p ∷ ps) (pending_in (p ∷ ps) layer) (build_layers-Ends layers rest)
        idle (λ k. omega (arith, once k, count-pending_in (p ∷ ps) layer k)) b

-- How the construction of what is pending ends: whatever the constructors do, no mark is left
-- behind; unless one panics, the providers, the scope and all values are kept; and if it ends with
-- Ok, nothing is pending and each key that was, unless it is a group member's, has its value.
abbrev pub EndsBuilt : Container → Keys → Progress → Type 0
EndsBuilt c needed (d, pending, ok _) =
    Kept c d
    × (pending ≡ [])
    × ((k : ProviderKey) → contains needed k ≡ true → is_group_member k ≡ false → 0 < held d k)
EndsBuilt c needed (d, pending, err _) = Kept c d
EndsBuilt c needed (d, pending, panicked _) =
    (k : ProviderKey) → contains d.constructing k ≡ contains c.constructing k

end_pending-EndsBuilt :
    (c : Container) (needed : Keys) (p : Progress)
    → Ends needed c p
    → EndsBuilt c needed (end_pending p)
unfolding contains
end_pending-EndsBuilt c needed (d, [], ok _) (h, b) = (h, refl, λ k n s. b k n s refl)
end_pending-EndsBuilt c needed (d, key ∷ keys, ok _) (h, b) = h
end_pending-EndsBuilt c needed (d, [], err _) h = h
end_pending-EndsBuilt c needed (d, key ∷ keys, err _) h = h
end_pending-EndsBuilt c needed (d, [], panicked _) h = h
end_pending-EndsBuilt c needed (d, key ∷ keys, panicked _) h = h

pub build_pending-EndsBuilt :
    (c : Container) (pending : Keys)
    → ((k : ProviderKey) → contains c.constructing k ≡ false)
    → All (λ layer. (k : ProviderKey) → count layer k ≤ 1) c.layers
    → EndsBuilt c pending (build_pending c pending)
unfolding build_pending
build_pending-EndsBuilt c pending idle once =
    end_pending-EndsBuilt c pending (build_layers c.layers c pending)
      (build_layers-Ends pending c.layers once c pending idle (λ k n s p. absurd (cc)))
