-- ===== src/Container/Layers/Waves.antt =====
-- The loop over the layers builds each key once, after all that it depends on.
use modrun.Base.{
  ℕ, zero, suc, ◌+◌, ◌≤◌, ◌<◌, ◌≡◌, refl, sym, ◌∙◌, ap, some, List, [], ◌∷◌, ◌++◌, nat_eq, pair_eq,
  arith, All, length, length-append, append_assoc, append-nil, subst,
}
use modrun.Base.Assoc.{get, get-insert}
use modrun.Base.Counts.{
  count, count-append, count-All, sort_by_key, count-sort_by_key, length-count_le,
}
use modrun.Error.{Result, ok, ◌>>=◌}
use modrun.Error.Sure.{Sure, Sure-bind}
use modrun.Container.Types.{ProviderKey}
use modrun.Container.Keys.{key_eq, key_beq_iff}
use modrun.Container.State.{Container, order_index}
use modrun.Container.Layers.{
  Degrees, Dependents, dependents_of, lower, lower_all, release, Wave, next_wave, waves,
}
use modrun.Container.Layers.Edges.{Edge}
use modrun.Container.Layers.Held.{HoldsEdges}
use modrun.Container.Layers.Missing.{
  missing, missing-append, missing-zero, flat, flat-append, IsBehind, IsLayered, append-IsLayered,
}

-- Whether a key of the order, that still waits for so many, is free.
abbrev pub free_of : ℕ → ℕ → ℕ
free_of zero n = 0
free_of (suc _) zero = 1
free_of (suc _) (suc _) = 0

-- One round, if anything is ready.
unless_done :
    (P : Wave → Type 0) (keys : List ProviderKey) (w : Wave) (more : Result Wave)
    → (keys ≡ [] → P w)
    → ((x : ProviderKey) (xs : List ProviderKey) → keys ≡ x ∷ xs → Sure P more)
    → Sure P (elim keys [ [] ↦ ok w | _ ∷ _ ↦ more ])
unless_done P [] w more done go = done refl
unless_done P (x ∷ xs) w more done go = go x xs refl

module _ (order : List ProviderKey) where
  -- The degree of each key of the order is so much.
  abbrev pub Degree : (ProviderKey → ℕ) → Degrees → Type 0
  Degree f m = (k : ProviderKey) → 0 < count order k → get m k ≡ some (f k)

  -- The free keys are those counted and those that are next.
  abbrev Marks : (ProviderKey → ℕ) → (ProviderKey → ℕ) → List ProviderKey → Type 0
  Marks f n next = (k : ProviderKey) → n k + count next k ≡ free_of (count order k) (f k)

  -- The degrees lowered by one for each time that a key stands in the list.
  lower_all-lem :
      (f n : ProviderKey → ℕ) (keys : List ProviderKey) (s : Degrees × List ProviderKey)
      → All (λ k. 0 < count order k) keys
      → Degree (λ k. f k + count keys k) s.0
      → Marks (λ k. f k + count keys k) n s.1
      → Sure
          (λ (s' : Degrees × List ProviderKey). Degree f s'.0 × Marks f n s'.1)
          (lower_all keys s)
  unfolding lower_all lower count
  lower_all-lem f n [] s known d m =
      (λ k there. ground (arith, d k there), λ k. ground (arith, m k))
  lower_all-lem f n (key ∷ keys) (degrees, next) (here, known) d m =
      let left = f key + count keys key in
      let at : get degrees key ≡ some (suc left) =
        ground (arith, d key here, key_beq_iff key key) in
      rw at (
        lower_all-lem f n keys _ known
          (λ k there.
            rw (get-insert degrees key k left) (ground (arith, d k there, key_beq_iff key k)))
          (λ k. ground (arith, m k, key_beq_iff key k, count-append next (key ∷ []) k, here)))

  module _ (edges : List Edge) (m : Dependents) (holds : HoldsEdges edges m)
      (known : (j k : ProviderKey) → 0 < count edges (j, k) → 0 < count order k) where
    -- What is to be built behind some keys: the degrees, and which keys are free.
    abbrev Released : List ProviderKey → List ProviderKey → Degrees × List ProviderKey → Type 0
    Released built keys s =
        Degree (missing edges built) s.0
        × Marks (missing edges built) (λ k. count built k + count keys k) s.1

    release-Released :
        (built keys : List ProviderKey) (s : Degrees × List ProviderKey)
        → Released built keys s
        → Sure (Released (built ++ keys) []) (release m keys s)
    unfolding release count
    release-Released built [] s h = rw (append-nil built) h
    release-Released built (key ∷ keys) s (d, n) =
        let open_end : count built key ≡ 0 = ground (arith, n key, key_beq_iff key key) in
        let split : (k : ProviderKey)
            → missing edges built k
              ≡ missing edges (built ++ key ∷ []) k + count (dependents_of m key) k =
          λ k. ground (arith, missing-append edges built key k open_end, holds key k) in
        Sure-bind _ (Released (built ++ key ∷ keys) []) (lower_all (dependents_of m key) s) _
          (lower_all-lem (missing edges (built ++ key ∷ []))
            (λ k. count (built ++ key ∷ []) k + count keys k) (dependents_of m key) s
            (count-All (λ k. 0 < count order k) (dependents_of m key)
              (λ k there. known key k (ground (arith, there, holds key k))))
            (λ k there. rw (sym (split k)) (d k there))
            (λ k. rw (sym (split k)) (ground (arith, n k, count-append built (key ∷ []) k))))
          (λ s' h'.
            subst (λ b. Sure (Released b []) (release m keys s'))
              (append_assoc built (key ∷ []) keys)
              (release-Released (built ++ key ∷ []) keys s' h'))

    -- The state at the head of the loop.
    pub record Building (w : Wave) : Type 0 where
      pub degrees : Degree (missing edges (flat w.layers)) w.indegree
      pub marks :
          (k : ProviderKey)
          → count (flat w.layers) k + count w.ready k
            ≡ free_of (count order k) (missing edges (flat w.layers) k)
      pub counted : w.built ≡ length (flat w.layers)
      pub layered : IsLayered edges [] w.layers

    pub built_le :
        (w : Wave) → Building w → (k : ProviderKey) → count (flat w.layers) k ≤ count order k
    built_le w h k = ground (arith, h.marks k)

    ready-IsBehind : (w : Wave) → Building w → All (IsBehind edges (flat w.layers)) w.ready
    ready-IsBehind w h =
        count-All (IsBehind edges (flat w.layers)) w.ready (λ k there j e.
          missing-zero edges (flat w.layers) j k (ground (arith, h.marks k, there)) e)

    next_wave-Building :
        (c : Container) (w : Wave)
        → Building w
        → Sure (λ w'. Building w' × (w'.built ≡ w.built + length w.ready)) (next_wave c m w)
    unfolding next_wave count
    next_wave-Building c w h =
        Sure-bind (Released (flat w.layers ++ w.ready) []) _ (release m w.ready (w.indegree, [])) _
          (release-Released (flat w.layers) w.ready (w.indegree, [])
            (h.degrees, λ k. ground (arith, h.marks k)))
          (λ s (d, n).
            let same = sym (flat-append w.layers w.ready) in
            (
              record {
                degrees = subst (λ b. Degree (missing edges b) s.0) same d;
                marks =
                    subst
                      (λ b.
                        (k : ProviderKey)
                        → count b k + count (sort_by_key (order_index c) s.1) k
                          ≡ free_of (count order k) (missing edges b k))
                      same (λ k. ground (arith, n k, count-sort_by_key (order_index c) s.1 k));
                counted =
                    subst (λ b. w.built + length w.ready ≡ length b) same
                      (ground (arith, h.counted, length-append (flat w.layers) w.ready));
                layered = append-IsLayered edges [] w.layers w.ready h.layered (ready-IsBehind w h);
              },
              refl,
            ))

    abbrev pub Finished : Wave → Type 0
    Finished w = Building w × (w.ready ≡ [])

    -- With fuel for every key that is not built and one round more, the loop ends by itself.
    pub waves-Building :
        (n : ℕ) (c : Container) (w : Wave)
        → length order < n + w.built
        → Building w
        → Sure Finished (waves n c m w)
    unfolding waves
    waves-Building zero c w more h =
        absurd
          (omega (arith, more, h.counted, length-count_le (flat w.layers) order (built_le w h)))
    waves-Building (suc n) c w more h =
        unless_done Finished w.ready w (next_wave c m w >>= waves n c m) (λ done. (h, done))
          (λ key keys e.
            Sure-bind _ Finished (next_wave c m w) _ (next_wave-Building c w h) (λ w' (h', built).
              let grown : w'.built ≡ w.built + suc (length keys) =
                built ∙ ap (λ r. w.built + length r) e in
              waves-Building n c w' (omega (arith, more, grown)) h'))
