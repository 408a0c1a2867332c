-- ===== src/Container/Layers/Frozen.antt =====
-- What `freeze_layers` gives.
use modrun.Base.{
  ℕ, zero, suc, ◌≤◌, ◌<◌, ◌≡◌, refl, none, some, List, [], ◌==◌, nat_eq, pair_eq, arith, inl, inr,
  ◌↔◌, length, Bool-cases, Option-cases,
}
use modrun.Base.Assoc.{get}
use modrun.Base.Counts.{count, count-All, length-count_le}
use modrun.Error.{Result, ok, err, panicked, ◌>>=◌}
use modrun.Error.Agree.{Agree}
use modrun.Error.Sure.{Sure-ok}
use modrun.Container.Types.{ProviderKey}
use modrun.Container.Keys.{key_eq}
use modrun.Container.State.{Container, provider_at}
use modrun.Container.Inv.Ordered.{Ordered}
use modrun.Container.Inv.Ordered.Steps.{reachable-Ordered}
use modrun.Container.Inv.Reachable.{Reachable}
use modrun.Container.Layers.{
  Graph, no_edges, find_blocked, cycle_error, first_wave, finish_layers, Wave,
  add_group_virtual_edges, freeze_layers,
}
use modrun.Container.Layers.Edges.{Edge, into, group_edges, dependency_edges}
use modrun.Container.Layers.Held.{
  Holds, HasProvider, onto, count-onto, read_providers-Holds, add_registration_edges-Holds,
}
use modrun.Container.Layers.Missing.{
  missing-nil, missing-positive, flat, layer_of, IsLayered-layer_of,
}
use modrun.Container.Layers.Waves.{Building, Finished, waves-Building}
use modrun.Container.Layers.Inside.{dependency_edges-Known}
use modrun.Container.Types.{TypeId, GroupRegistration}
use modrun.Base.Lists.{map-All}
use modrun.Base.{subst}
use modrun.Container.Layers.{dependents_of}
use modrun.Container.Layers.Ends.{
  InLayers, IsRanked, count-free_keys, find_blocked-some, find_blocked-none, IsEnd, all_built-once,
  IsStuck, Outcome,
}

Ordered-HasProvider :
    (c : Container) (k : ProviderKey) → Ordered c → 0 < count c.provider_order k → HasProvider c k
unfolding provider_at
Ordered-HasProvider c k h known = elim (Option-cases (get c.providers k)) [
  | inl gone ↦ absurd (ground (arith, h.counted k, known, gone))
  | inr found ↦ found
]

module _ (c : Container) (edges : List Edge) (g : Graph)
    (known : (j k : ProviderKey)
      → 0 < count edges (j, k)
      → (0 < count c.provider_order j) × (0 < count c.provider_order k))
    (distinct : (k : ProviderKey) → count c.provider_order k ≤ 1)
    (holds : Holds c (onto c.provider_order []) edges g) where
  abbrev Going : Wave → Type 0
  Going w =
      Building c.provider_order edges g.dependents holds.dependents (λ j k e. (known j k e).1) w

  first-Going : Going (first_wave c g)
  unfolding count
  first-Going = record {
    degrees = λ k there.
        ground
          (arith, holds.degrees k, count-onto c.provider_order [] k, missing-nil edges k, there);
    marks = λ k. ground (
      arith,
      holds.degrees k,
      count-onto c.provider_order [] k,
      count-free_keys g.indegree c.provider_order k,
      missing-nil edges k,
      distinct k,
    );
    counted = refl;
    layered = tt;
  }

  IsEnd-IsEnd : (w : Wave) → Going w → w.ready ≡ [] → IsEnd c.provider_order edges known w.layers
  unfolding count
  IsEnd-IsEnd w h done k =
      let counted : count w.ready k ≡ 0 = rw done refl in ground (arith, h.marks k, counted)

  end-InLayers :
      (w : Wave)
      → Going w
      → w.ready ≡ []
      → length c.provider_order ≤ w.built
      → InLayers c.provider_order edges w.layers
  end-InLayers w h done le = record {
    once =
        all_built-once c.provider_order edges known w.layers distinct (IsEnd-IsEnd w h done)
          (omega (arith, le, h.counted));
    behind = h.layered;
  }

  end-IsStuck :
      (w : Wave) (key : ProviderKey)
      → Going w
      → w.ready ≡ []
      → find_blocked w.indegree c.provider_order ≡ some key
      → IsStuck c.provider_order edges key
  end-IsStuck w key h done e =
      let (there, blocked) = find_blocked-some w.indegree c.provider_order key e in
      let end = IsEnd-IsEnd w h done in
      record {
        built = flat w.layers;
        registered = there;
        unbuilt = ground (arith, end key, h.degrees key there, blocked);
        waits = λ k known_k unbuilt.
            missing-positive edges (flat w.layers) k (ground (arith, end k, known_k, unbuilt));
      }

  -- If nothing is blocked, everything is built.
  none_blocked-built :
      (w : Wave)
      → Going w
      → w.ready ≡ []
      → find_blocked w.indegree c.provider_order ≡ none
      → w.built ≡ length c.provider_order
  none_blocked-built w h done e =
      let end = IsEnd-IsEnd w h done in
      let same : (k : ProviderKey) → count c.provider_order k ≡ count (flat w.layers) k = λ k.
        ground (
          arith,
          end k,
          distinct k,
          h.degrees k,
          find_blocked-none w.indegree c.provider_order k e,
        ) in
      omega (
        arith,
        h.counted,
        length-count_le c.provider_order (flat w.layers) (λ k. omega (arith, same k)),
        length-count_le (flat w.layers) c.provider_order (λ k. omega (arith, same k)),
      )

  finish_layers-Outcome : (w : Wave) → Going w → w.ready ≡ [] → Outcome c edges (finish_layers c w)
  unfolding finish_layers cycle_error
  finish_layers-Outcome w h done = elim (Bool-cases (w.built == length c.provider_order)) [
    | inl all ↦ inl (w.layers, rw all refl, end-InLayers w h done (ground (arith, all)))
    | inr some_left ↦ elim (Option-cases (find_blocked w.indegree c.provider_order)) [
      | inl nothing ↦ absurd (ground (arith, some_left, none_blocked-built w h done nothing))
      | inr (key, e) ↦ inr (key, rw (some_left, e) refl, end-IsStuck w key h done e)
    ]
  ]

-- The graph that was read, for edges that could be read.
Read : Container → List Edge → Graph → Type 0
Read c edges g = Holds c (onto c.provider_order []) edges g

Read-Read :
    (c : Container) (edges : List Edge) (r : Result Graph) (q : Result (List Edge))
    → Ordered c
    → Agree (λ g read. Holds c (onto c.provider_order []) read g) r q
    → (q >>= λ read. ok (group_edges c c.groups.registrations read)) ≡ ok edges
    → (g : Graph) × (r ≡ ok g) × Read c edges (add_group_virtual_edges c g)
unfolding Read add_group_virtual_edges count
Read-Read c edges (ok g) (ok read) h a e =
    let same : group_edges c c.groups.registrations read ≡ edges = cc in
    let held =
      add_registration_edges-Holds c c.groups.registrations (onto c.provider_order []) read g
        (map-All
          (λ (reg : TypeId × GroupRegistration). 0 < count c.provider_order reg.1.virtual_key) _
          (λ reg there. ground (arith, there, count-onto c.provider_order [] reg.1.virtual_key))
          c.groups.registrations h.virtual_keys)
        a in
    (
      g,
      refl,
      subst (λ es. Holds c (onto c.provider_order []) es (add_group_virtual_edges c g)) same held,
    )
Read-Read c edges (err x) (err y) h a e = absurd (cc)
Read-Read c edges (panicked m) (panicked n) h a e = absurd (cc)
Read-Read c edges (ok g) (err y) h a e = absurd a
Read-Read c edges (ok g) (panicked n) h a e = absurd a
Read-Read c edges (err x) (ok read) h a e = absurd a
Read-Read c edges (err x) (panicked n) h a e = absurd a
Read-Read c edges (panicked m) (ok read) h a e = absurd a
Read-Read c edges (panicked m) (err y) h a e = absurd a

no_edges-Holds : (c : Container) → Holds c [] [] no_edges
unfolding get count dependents_of into
no_edges-Holds c = record {
  satisfied = λ id from hit e. absurd (cc);
  provider_keys = λ id from hit e. absurd (cc);
  dependents = λ j k. refl;
  degrees = λ k. refl;
  unseen = λ k e. refl;
}

edges-known :
    (c : Container) (edges : List Edge)
    → Reachable c
    → dependency_edges c ≡ ok edges
    → (j k : ProviderKey) → 0 < count edges (j, k)
    → (0 < count c.provider_order j) × (0 < count c.provider_order k)
edges-known c edges reach e j k into_k =
    dependency_edges-Known c (reachable-Ordered c reach) edges j k e into_k

-- In a container made by calls of its interface whose dependency edges can be read without a panic,
-- `freeze_layers` ends without a panic. Either it sets the layers, which hold every registered key
-- once and no other, and each key in a later layer than all that it depends on; or its error names
-- a key of a set of registered keys of which each depends on one of them, a cycle.
pub freeze_layers-Outcome :
    (c : Container) (edges : List Edge)
    → Reachable c
    → dependency_edges c ≡ ok edges
    → Outcome c edges (freeze_layers c)
unfolding freeze_layers dependency_edges count Read
freeze_layers-Outcome c edges reach e =
    let h = reachable-Ordered c reach in
    let distinct : (k : ProviderKey) → count c.provider_order k ≤ 1 =
      λ k. ground (arith, h.counted k) in
    let there =
      count-All (HasProvider c) c.provider_order (λ k known. Ordered-HasProvider c k h known) in
    let (g, read, held) =
      Read-Read c edges _ _ h
        (read_providers-Holds c c.provider_order [] [] no_edges (λ k. ground (arith, distinct k))
          there (no_edges-Holds c))
        e in
    let known : (j k : ProviderKey)
        → 0 < count edges (j, k)
        → (0 < count c.provider_order j) × (0 < count c.provider_order k) =
      λ j k into_k. dependency_edges-Known c h edges j k e into_k in
    let g' = add_group_virtual_edges c g in
    let ended =
      waves-Building c.provider_order edges g'.dependents held.dependents
        (λ j k edge. (known j k edge).1) (suc (length c.provider_order)) c (first_wave c g')
        (omega arith) (first-Going c edges g' known distinct held) in
    let (w, ran, (going, done)) =
      Sure-ok
        (Finished c.provider_order edges g'.dependents held.dependents
          (λ j k edge. (known j k edge).1))
        _ ended in
    rw (read, ran) (finish_layers-Outcome c edges g' known distinct held w going done)

IsStuck-unranked :
    (order : List ProviderKey) (edges : List Edge) (key : ProviderKey) (rank : ProviderKey → ℕ)
    (known : (j k : ProviderKey) → 0 < count edges (j, k) → 0 < count order j)
    → IsStuck order edges key
    → ¬ IsRanked rank edges
IsStuck-unranked order edges key rank known s r =
    descend (suc (rank key)) key (omega arith) s.registered s.unbuilt
  where
    descend : (n : ℕ) (k : ProviderKey) → rank k < n → 0 < count order k → ¬ (count s.built k ≡ 0)
    descend zero k lt there e = omega (arith, lt)
    descend (suc n) k lt there e =
        let (j, edge, unbuilt) = s.waits k there e in
        descend n j (omega (arith, r j k edge, lt)) (known j k edge) unbuilt

-- In such a container `freeze_layers` succeeds exactly if the dependencies have no cycle, which is
-- to say that a rank of the keys rises along every edge.
pub freeze_layers-IsRanked :
    (c : Container) (edges : List Edge)
    → Reachable c
    → dependency_edges c ≡ ok edges
    → ((d : Container) × (freeze_layers c ≡ ok d))
      ↔ ((rank : ProviderKey → ℕ) × IsRanked rank edges)
unfolding count
freeze_layers-IsRanked c edges reach e =
    let known = edges-known c edges reach e in
    elim (freeze_layers-Outcome c edges reach e) [
      | inl (layers, frozen, h) ↦ (
        λ _. (
          layer_of layers,
          λ j k edge. ground (
            arith,
            IsLayered-layer_of edges [] layers j k h.behind edge
                (ground (arith, h.once k, (known j k edge).1)),
          ),
        ),
        λ _. (_, frozen),
      )
      | inr (key, failed, stuck) ↦ (
        λ (d, ended). absurd (cc),
        λ (rank, r). absurd (
            IsStuck-unranked c.provider_order edges key rank (λ j k edge. (known j k edge).0) stuck
              r),
      )
    ]
