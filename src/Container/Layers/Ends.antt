-- ===== src/Container/Layers/Ends.antt =====
-- What the end of the loop over the layers means.
use modrun.Base.{
  ℕ, ◌≤◌, ◌<◌, ◌≡◌, true, false, none, some, List, [], ◌∷◌, nat_eq, pair_eq, arith, ◌⊎◌, inl, inr,
  length, if◌then◌else◌, Bool-cases, zero-cases,
}
use modrun.Base.Assoc.{get}
use modrun.Base.Counts.{count, length-count_le}
use modrun.Error.{Result, ok, err, cycle}
use modrun.Container.Types.{ProviderKey}
use modrun.Container.Keys.{key_eq, key_beq_iff}
use modrun.Container.State.{Container, key_name}
use modrun.Container.Layers.{Degrees, is_free, is_blocked, free_keys, find_blocked}
use modrun.Container.Layers.Edges.{Edge}
use modrun.Container.Layers.Missing.{missing, flat, IsLayered}
use modrun.Container.Layers.Waves.{free_of}

-- The layers hold each key of the order once and no other, and a dependency is in an earlier layer.
pub record InLayers (order : List ProviderKey) (edges : List Edge)
    (layers : List (List ProviderKey)) : Type 0 where
  pub once : (k : ProviderKey) → count (flat layers) k ≡ count order k
  pub behind : IsLayered edges [] layers

-- A rank that rises along every edge: there is no cycle.
abbrev pub IsRanked : (ProviderKey → ℕ) → List Edge → Type 0
IsRanked rank edges = (j k : ProviderKey) → 0 < count edges (j, k) → rank j < rank k

pub count-free_keys :
    (m : Degrees) (keys : List ProviderKey) (k : ProviderKey)
    → count (free_keys m keys) k ≡ (if is_free (get m k) then count keys k else 0)
unfolding free_keys count
count-free_keys m [] k = ground arith
count-free_keys m (key ∷ keys) k = ground (arith, count-free_keys m keys k, key_beq_iff key k)

-- What `find` finds, and that it finds something if there is something.
pub find_blocked-some :
    (m : Degrees) (keys : List ProviderKey) (key : ProviderKey)
    → find_blocked m keys ≡ some key
    → (0 < count keys key) × (is_blocked (get m key) ≡ true)
unfolding find_blocked count
find_blocked-some m [] key e = absurd (cc)
find_blocked-some m (k ∷ keys) key e = elim (Bool-cases (is_blocked (get m k))) [
  | inl here ↦ ground (arith, e, here, key_beq_iff k key)
  | inr not_here ↦
      let (there, blocked) = find_blocked-some m keys key (ground (arith, e, not_here)) in
      (ground (arith, there), blocked)
]

pub find_blocked-none :
    (m : Degrees) (keys : List ProviderKey) (k : ProviderKey)
    → find_blocked m keys ≡ none
    → 0 < count keys k
    → is_blocked (get m k) ≡ false
unfolding find_blocked count
find_blocked-none m [] k e there = absurd (omega arith)
find_blocked-none m (key ∷ keys) k e there =
    ground (arith, e, there, find_blocked-none m keys k, key_beq_iff key k)

module _ (order : List ProviderKey) (edges : List Edge)
    (known : (j k : ProviderKey)
      → 0 < count edges (j, k)
      → (0 < count order j) × (0 < count order k)) where
  -- At the end of the loop a key that nothing is missing for is built.
  abbrev pub IsEnd : List (List ProviderKey) → Type 0
  IsEnd layers =
      (k : ProviderKey)
      → count (flat layers) k ≡ free_of (count order k) (missing edges (flat layers) k)

  pub all_built-once :
      (layers : List (List ProviderKey))
      → ((k : ProviderKey) → count order k ≤ 1)
      → IsEnd layers
      → length order ≤ length (flat layers)
      → (k : ProviderKey) → count (flat layers) k ≡ count order k
  unfolding count
  all_built-once layers distinct h le k = elim (zero-cases (count (flat layers) k)) [
    | inr built ↦ ground (arith, h k, built, distinct k)
    | inl unbuilt ↦ elim (zero-cases (count order k)) [
      | inl not_there ↦ ground (arith, unbuilt, not_there)
      | inr there ↦
          let longer =
            length-count_le (k ∷ flat layers) order
              (λ j. ground (arith, h j, key_beq_iff k j, unbuilt, there)) in
          absurd (omega (arith, longer, le))
    ]
  ]

-- A set of keys, those not built, each of which depends on one of them: there is a cycle.
pub record IsStuck (order : List ProviderKey) (edges : List Edge) (key : ProviderKey) : Type 0 where
  pub built : List ProviderKey
  pub registered : 0 < count order key
  pub unbuilt : count built key ≡ 0
  pub waits :
      (k : ProviderKey)
      → 0 < count order k
      → count built k ≡ 0
      → (j : ProviderKey) × (0 < count edges (j, k)) × (count built j ≡ 0)

-- What `freeze_layers` gives for these edges: the layers, or the error that names a key of a cycle.
abbrev pub Outcome : Container → List Edge → Result Container → Type 0
Outcome c edges r =
    ((layers : List (List ProviderKey)) × (r ≡ ok (record c { layers = layers }))
      × InLayers c.provider_order edges layers)
    ⊎ ((key : ProviderKey) × (r ≡ err (cycle (key_name c key)))
        × IsStuck c.provider_order edges key)
