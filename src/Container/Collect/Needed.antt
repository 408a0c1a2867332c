-- ===== src/Container/Collect/Needed.antt =====
-- What is built for some types, and that the fuel of the collection is enough.
use modrun.Base.{refl, List, suc, ◌≤◌, ◌<◌, ◌≡◌, true, false, [], arith, All, length}
use modrun.Base.Assoc.{contains}
use modrun.Base.Counts.{count}
use modrun.Error.{Result, ok, err, panicked}
use modrun.Error.Agree.{Agree}
use modrun.Container.Types.{ProviderKey, Dep, is_group_member}
use modrun.Container.Keys.{key_eq}
use modrun.Container.State.{Container}
use modrun.Container.Inv.Ordered.{Ordered}
use modrun.Container.Inv.Reachable.{Reachable}
use modrun.Container.Build.{Keys, Progress, build_pending}
use modrun.Container.Build.Intact.{held}
use modrun.Container.Build.Waves.{Kept, Kept-refl}
use modrun.Container.Build.Pending.{EndsBuilt, build_pending-EndsBuilt}
use modrun.Container.Collect.{collect_pending, collect_all, build_collected, ensure_built}
use modrun.Container.Collect.Closed.{Grown, Covered, Closed, left_le}
use modrun.Container.Collect.Same.{Same}
use modrun.Container.Collect.Enough.{collect_deps-Same, collect_pending-Runs}

-- What is to be built for the roots, and that it is built.
pub record IsBuilt (c d : Container) (roots : List Dep) (needed : Keys) : Type 0 where
  pub covered : All (λ (dep : Dep). Covered c needed c.active_scope dep.0) roots
  pub closed : (k : ProviderKey) → contains needed k ≡ true → Closed c needed k
  pub built :
      (k : ProviderKey) → contains needed k ≡ true → is_group_member k ≡ false → 0 < held d k

abbrev pub Ensured : Container → List Dep → Progress → Type 0
Ensured c roots (d, pending, ok _) = Kept c d × ((needed : Keys) × IsBuilt c d roots needed)
Ensured c roots (d, pending, err _) = Kept c d
Ensured c roots (d, pending, panicked _) =
    (k : ProviderKey) → contains d.constructing k ≡ contains c.constructing k

module _ (c : Container) (roots : List Dep) (ordered : Ordered c)
    (once : All (λ (layer : Keys). (k : ProviderKey) → count layer k ≤ 1) c.layers) where
  built-Ensured :
      (needed : Keys) (p : Progress)
      → All (λ (dep : Dep). Covered c needed c.active_scope dep.0) roots
      → ((k : ProviderKey) → contains needed k ≡ true → Closed c needed k)
      → EndsBuilt c needed p
      → Ensured c roots p
  built-Ensured needed (d, pending, ok _) covered closed (kept, none_left, built) =
      (kept, (needed, record { covered = covered; closed = closed; built = built }))
  built-Ensured needed (d, pending, err _) covered closed h = h
  built-Ensured needed (d, pending, panicked _) covered closed h = h

  collected-Ensured :
      (r q : Result Keys)
      → Agree
          (Same (λ needed.
            Grown c [] needed × All (λ (dep : Dep). Covered c needed c.active_scope dep.0) roots))
          r
          q
      → Ensured c roots (build_collected c r)
  unfolding contains
  collected-Ensured (ok needed) (ok other) (e, (grown, covered)) =
      built-Ensured needed (build_pending c needed) covered (λ k there. grown.closed k there refl)
        (build_pending-EndsBuilt c needed (λ k. rw ordered.idle refl) once)
  collected-Ensured (err x) (err y) h = Kept-refl c
  collected-Ensured (panicked m) (panicked n) h = λ k. refl
  collected-Ensured (ok a) (err y) h = absurd h
  collected-Ensured (ok a) (panicked n) h = absurd h
  collected-Ensured (err x) (ok b) h = absurd h
  collected-Ensured (err x) (panicked n) h = absurd h
  collected-Ensured (panicked m) (ok b) h = absurd h
  collected-Ensured (panicked m) (err y) h = absurd h

  pub ensure_built-Ensured : Ensured c roots (ensure_built c roots)
  unfolding ensure_built collect_all
  ensure_built-Ensured =
      let n = length c.provider_order in
      collected-Ensured _ _ (
        collect_deps-Same c ordered (suc n) (collect_pending (suc n) c)
          (collect_pending (suc (suc n)) c) (collect_pending-Runs c ordered (suc n)) c.active_scope
          roots [] (omega (arith, left_le c.provider_order [])))
