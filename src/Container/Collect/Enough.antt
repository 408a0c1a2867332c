-- ===== src/Container/Collect/Enough.antt =====
-- The fuel of the collection is enough, and what it collects is closed.
use modrun.Base.{
  nat_eq, pair_eq, ℕ, zero, suc, ◌<◌, ◌≡◌, refl, ◌∙◌, ap, true, Option, none, some, List, [], ◌∷◌,
  String, arith, All, inl, inr,
}
use modrun.Base.Assoc.{contains, add}
use modrun.Error.{ok, expect, ok_or}
use modrun.Error.Agree.{Agree}
use modrun.Scope.{ScopeId}
use modrun.Container.Types.{TypeId, StoredValue, ProviderKey, Dep, DynProvider, dep_types}
use modrun.Container.Keys.{type_eq, key_eq}
use modrun.Container.State.{Container, provider_at}
use modrun.Container.Resolve.{
  lookup_value_ref_from, resolve_provider, missing_provider_error, group_virtual_key,
  group_element_type,
}
use modrun.Container.Register.{members_of}
use modrun.Container.Build.{Keys}
use modrun.Container.Inv.Ordered.{Ordered}
use modrun.Container.Collect.{
  Collect, collect_deps, collect_provider_pending, collect_members_pending, collect_group_pending,
  is_key, collect_resolved, collect_unless, collect_pending,
}
use modrun.Container.Collect.Closed.{
  left, left-Grows, add-Grows, left-add, Covered, Covered-All-Grows, Grown, Grown-refl, Grown-trans,
  Grown-add, Grown-key,
}
use modrun.Container.Collect.Same.{
  Same, Same-bind, Same-weaken, branch-Same, Same-start, expect-some, ok_or-some, is_key-some,
}
use modrun.Container.Collect.Found.{provider_at-known, resolve_provider-at}

module _ (c : Container) (ordered : Ordered c) where
  abbrev room : Keys → ℕ
  room pending = left c.provider_order pending

  -- What one call gives: the set grew by closed keys, and the type has a value or is in it.
  abbrev pub Collected : Keys → ScopeId → TypeId → Keys → Type 0
  Collected pending from id q = Grown c pending q × Covered c q from id

  -- The two recursive calls agree as long as less than so much is left.
  abbrev pub Runs : ℕ → Collect → Collect → Type 0
  Runs n f g =
      (id : TypeId) (name : String) (from : ScopeId) (pending : Keys)
      → room pending < n
      → Agree (Same (Collected pending from id)) (f id name from pending) (g id name from pending)

  module _ (n : ℕ) (f g : Collect) (runs : Runs n f g) where
    abbrev pub AllCollected : Keys → ScopeId → List Dep → Keys → Type 0
    AllCollected pending from deps q =
        Grown c pending q × All (λ (dep : Dep). Covered c q from dep.0) deps

    pub collect_deps-Same :
        (from : ScopeId) (deps : List Dep) (pending : Keys)
        → room pending < n
        → Agree
            (Same (AllCollected pending from deps))
            (collect_deps f from deps pending)
            (collect_deps g from deps pending)
    unfolding collect_deps
    collect_deps-Same from [] pending lt = (refl, (Grown-refl c pending, tt))
    collect_deps-Same from ((id, name) ∷ deps) pending lt =
        Same-bind (Collected pending from id) (AllCollected pending from ((id, name) ∷ deps)) _ _ _
          _ (runs id name from pending lt)
          (λ a (grown, covered).
            Same-weaken (AllCollected a from deps) (AllCollected pending from ((id, name) ∷ deps)) _
              _
              (λ b (grown', rest). (
                Grown-trans c pending a b grown grown',
                (
                  (Covered-All-Grows c a b from ((id, name) ∷ []) grown'.more (covered, tt)).0,
                  rest,
                ),
              ))
              (collect_deps-Same from deps a
                (omega (arith, lt, left-Grows c.provider_order pending a grown.more))))

    abbrev WithKey : Keys → ProviderKey → Keys → Type 0
    WithKey pending key q = Grown c pending q × (contains q key ≡ true)

    collect_provider-Same :
        (key : ProviderKey) (p : DynProvider) (pending : Keys)
        → provider_at c key ≡ some p
        → room pending < suc n
        → Agree
            (Same (WithKey pending key))
            (collect_provider_pending c f key p pending)
            (collect_provider_pending c g key p pending)
    unfolding collect_provider_pending
    collect_provider-Same key p pending e lt =
        let P = WithKey pending key in
        branch-Same P (contains c.constructing key) _ _ _ _ (λ running. refl)
          (λ idle.
            branch-Same P (contains pending key) _ _ _ _
              (λ there. (refl, (Grown-refl c pending, there)))
              (λ not_there.
                Same-weaken (AllCollected (add pending key) key.scope (dep_types p)) P _ _
                  (λ q (grown, deps). (
                    Grown-add c pending q key grown (inl (p, e, deps)),
                    Grown-key c pending q key grown,
                  ))
                  (collect_deps-Same key.scope (dep_types p) (add pending key) (
                    omega (
                      arith,
                      lt,
                      left-add c.provider_order pending key (provider_at-known c ordered key p e)
                          not_there,
                    )))))

    abbrev WithMembers : Keys → Keys → Keys → Type 0
    WithMembers pending keys q =
        Grown c pending q × All (λ (m : ProviderKey). contains q m ≡ true) keys

    collect_members-Same :
        (keys pending : Keys)
        → room pending < suc n
        → Agree
            (Same (WithMembers pending keys))
            (collect_members_pending c f keys pending)
            (collect_members_pending c g keys pending)
    unfolding collect_members_pending
    collect_members-Same [] pending lt = (refl, (Grown-refl c pending, tt))
    collect_members-Same (key ∷ keys) pending lt =
        Same-start (WithMembers pending (key ∷ keys))
          (expect (provider_at c key) "group member missing provider") _ _
          (λ p e.
            Same-bind (WithKey pending key) (WithMembers pending (key ∷ keys)) _ _ _ _
              (collect_provider-Same key p pending (expect-some _ _ p e) lt)
              (λ a (grown, there).
                Same-weaken (WithMembers a keys) (WithMembers pending (key ∷ keys)) _ _
                  (λ q (grown', rest).
                    (Grown-trans c pending a q grown grown', (grown'.more key there, rest)))
                  (collect_members-Same keys a
                    (omega (arith, lt, left-Grows c.provider_order pending a grown.more)))))

    collect_group-Same :
        (t : TypeId) (name : String) (key : ProviderKey) (pending : Keys)
        → group_virtual_key c t ≡ some key
        → room pending < suc n
        → Agree
            (Same (WithKey pending key))
            (collect_group_pending c f t name pending)
            (collect_group_pending c g t name pending)
    unfolding collect_group_pending
    collect_group-Same t name key pending e lt = rw e (
        branch-Same (WithKey pending key) (contains pending key) _ _ _ _
          (λ there. (refl, (Grown-refl c pending, there)))
          (λ not_there.
            Same-start (WithKey pending key)
              (expect (group_element_type c t) "group type missing element mapping") _ _
              (λ element found.
                Same-weaken (WithMembers (add pending key) (members_of c element))
                  (WithKey pending key) _ _
                  (λ q (grown, ms). (
                    Grown-add c pending q key grown
                        (inr (t, element, e, expect-some _ _ element found, ms)),
                    Grown-key c pending q key grown,
                  ))
                  (collect_members-Same (members_of c element) (add pending key) (
                    omega (
                      arith,
                      lt,
                      left-Grows c.provider_order pending (add pending key) (add-Grows pending key),
                    ))))))

    collect_resolved-Same :
        (id : TypeId) (name : String) (from : ScopeId) (key : ProviderKey) (p : DynProvider)
        (pending : Keys)
        → resolve_provider c id from ≡ ok (some (key, p))
        → provider_at c key ≡ some p
        → room pending < suc n
        → Agree
            (Same (Collected pending from id))
            (collect_resolved c f id name (key, p) pending)
            (collect_resolved c g id name (key, p) pending)
    collect_resolved-Same id name from key p pending e there lt =
        branch-Same (Collected pending from id) (is_key (group_virtual_key c id) key) _ _ _ _
          (λ group_key.
            Same-weaken (WithKey pending key) (Collected pending from id) _ _
              (λ q (grown, at). (grown, inr (key, p, e, at)))
              (collect_group-Same id name key pending
                (is_key-some (group_virtual_key c id) key group_key) lt))
          (λ own_key.
            Same-weaken (WithKey pending key) (Collected pending from id) _ _
              (λ q (grown, at). (grown, inr (key, p, e, at)))
              (collect_provider-Same key p pending there lt))

    collect_unless-Same :
        (id : TypeId) (name : String) (from : ScopeId) (pending : Keys) (found : Option StoredValue)
        → lookup_value_ref_from c id from ≡ ok found
        → room pending < suc n
        → Agree
            (Same (Collected pending from id))
            (collect_unless c f id name from pending found)
            (collect_unless c g id name from pending found)
    collect_unless-Same id name from pending (some v) e lt =
        (refl, (Grown-refl c pending, inl (v, e)))
    collect_unless-Same id name from pending none e lt =
        Same-start (Collected pending from id) (resolve_provider c id from) _ _ (λ found resolved.
          Same-start (Collected pending from id) (ok_or found (missing_provider_error c name from))
            _ _
            (λ at e'.
              let here : found ≡ some at = ok_or-some found _ at e' in
              let at_key : resolve_provider c id from ≡ ok (some at) = resolved ∙ ap ok here in
              collect_resolved-Same id name from at.0 at.1 pending at_key
                (resolve_provider-at c ordered id from at.0 at.1 at_key) lt))

  -- One level more of fuel makes no difference when there is enough.
  pub collect_pending-Runs : (n : ℕ) → Runs n (collect_pending n c) (collect_pending (suc n) c)
  unfolding collect_pending
  collect_pending-Runs zero id name from pending lt = absurd (omega arith)
  collect_pending-Runs (suc n) id name from pending lt =
      Same-start (Collected pending from id) (lookup_value_ref_from c id from) _ _ (λ found e.
        collect_unless-Same n (collect_pending n c) (collect_pending (suc n) c)
          (collect_pending-Runs n) id name from pending found e lt)
