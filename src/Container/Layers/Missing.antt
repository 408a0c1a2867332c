-- ===== src/Container/Layers/Missing.antt =====
-- What a key still waits for when some keys are built, and the order that layers put keys in.
use modrun.Base.{
  ℕ, zero, suc, ◌+◌, ◌<◌, ◌≡◌, refl, sym, ◌∙◌, ap, List, [], ◌∷◌, ◌++◌, if◌then◌else◌, ◌==◌, nat_eq,
  pair_eq, arith, All, ◌⊎◌, inl, inr, subst, append_assoc, append-nil, Bool-cases, zero-cases,
}
use modrun.Base.Counts.{count, count-append, All-count}
use modrun.Container.Types.{ProviderKey}
use modrun.Container.Keys.{key_eq, key_beq_iff}
use modrun.Container.Layers.Edges.{Edge, into}

-- The number of edges into the key from keys that are not built.
pub missing : List Edge → List ProviderKey → ProviderKey → ℕ
missing [] built k = 0
missing ((j, t) ∷ edges) built k =
    let rest = missing edges built k in
    if t == k then elim (count built j) [ zero ↦ suc rest | suc _ ↦ rest ] else rest

pub missing-nil : (edges : List Edge) (k : ProviderKey) → missing edges [] k ≡ into edges k
unfolding missing into count
missing-nil [] k = refl
missing-nil ((j, t) ∷ edges) k = ground (arith, missing-nil edges k)

-- The next key is built.
pub missing-append :
    (edges : List Edge) (built : List ProviderKey) (j k : ProviderKey)
    → count built j ≡ 0
    → missing edges built k ≡ count edges (j, k) + missing edges (built ++ j ∷ []) k
unfolding missing count
missing-append [] built j k h = omega arith
missing-append ((i, t) ∷ edges) built j k h = ground (
  arith,
  missing-append edges built j k h,
  count-append built (j ∷ []) i,
  key_beq_iff i j,
  key_beq_iff j i,
  key_beq_iff t k,
  h,
)

-- If nothing is missing, the origin of each edge into the key is built.
pub missing-zero :
    (edges : List Edge) (built : List ProviderKey) (j k : ProviderKey)
    → missing edges built k ≡ 0
    → 0 < count edges (j, k)
    → 0 < count built j
unfolding missing count
missing-zero [] built j k e h = absurd (omega arith)
missing-zero ((i, t) ∷ edges) built j k e h =
    ground (arith, missing-zero edges built j k, key_beq_iff i j, key_beq_iff t k)

-- A key that is not built, from which there is an edge into the key.
abbrev pub Origin : List Edge → List ProviderKey → ProviderKey → Type 0
Origin edges built k = (j : ProviderKey) × (0 < count edges (j, k)) × (count built j ≡ 0)

-- If something is missing, there is an edge from a key that is not built.
pub missing-positive :
    (edges : List Edge) (built : List ProviderKey) (k : ProviderKey)
    → 0 < missing edges built k
    → Origin edges built k
unfolding missing count
missing-positive [] built k h = absurd (omega arith)
missing-positive ((i, t) ∷ edges) built k h =
    let later : 0 < missing edges built k → Origin ((i, t) ∷ edges) built k =
      λ more. let (j, e, n) = missing-positive edges built k more in (j, ground (arith, e), n) in
    elim (Bool-cases (t == k)) [
      | inl at ↦ elim (zero-cases (count built i)) [
        | inl open_end ↦ (i, ground (arith, at, key_beq_iff i i), open_end)
        | inr built_end ↦ later (ground (arith, h, at, built_end))
      ]
      | inr other ↦ later (ground (arith, h, other))
    ]

-- The keys of all layers.
abbrev pub flat : List (List ProviderKey) → List ProviderKey
flat [] = []
flat (layer ∷ layers) = layer ++ flat layers

pub flat-append :
    (layers : List (List ProviderKey)) (layer : List ProviderKey)
    → flat (layers ++ layer ∷ []) ≡ flat layers ++ layer
flat-append [] layer = append-nil layer
flat-append (l ∷ layers) layer =
    ap (λ ks. l ++ ks) (flat-append layers layer) ∙ sym (append_assoc l (flat layers) layer)

-- Each key that the edges name as the origin of one into the key is earlier.
abbrev pub IsBehind : List Edge → List ProviderKey → ProviderKey → Type 0
IsBehind edges earlier k = (j : ProviderKey) → 0 < count edges (j, k) → 0 < count earlier j

-- Every key of a layer is behind all that it depends on, which is in earlier layers.
abbrev pub IsLayered : List Edge → List ProviderKey → List (List ProviderKey) → Type 0
IsLayered edges earlier [] = Unit
IsLayered edges earlier (layer ∷ layers) =
    All (IsBehind edges earlier) layer × IsLayered edges (earlier ++ layer) layers

pub append-IsLayered :
    (edges : List Edge) (earlier : List ProviderKey) (layers : List (List ProviderKey))
    (layer : List ProviderKey)
    → IsLayered edges earlier layers
    → All (IsBehind edges (earlier ++ flat layers)) layer
    → IsLayered edges earlier (layers ++ layer ∷ [])
append-IsLayered edges earlier [] layer h last =
    (subst (λ ks. All (IsBehind edges ks) layer) (append-nil earlier) last, tt)
append-IsLayered edges earlier (l ∷ layers) layer (first, h) last = (
  first,
  append-IsLayered edges (earlier ++ l) layers layer h (
      subst (λ ks. All (IsBehind edges ks) layer) (sym (append_assoc earlier l (flat layers)))
        last),
)

-- The number of the layer of a key.
abbrev pub layer_of : List (List ProviderKey) → ProviderKey → ℕ
layer_of [] k = 0
layer_of (layer ∷ layers) k =
    let rest = layer_of layers k in elim (count layer k) [ zero ↦ suc rest | suc _ ↦ 0 ]

-- An edge leads to a later layer, unless it comes from before the layers.
pub IsLayered-layer_of :
    (edges : List Edge) (earlier : List ProviderKey) (layers : List (List ProviderKey))
    (j k : ProviderKey)
    → IsLayered edges earlier layers
    → 0 < count edges (j, k)
    → 0 < count (flat layers) k
    → (0 < count earlier j) ⊎ (layer_of layers j < layer_of layers k)
unfolding count
IsLayered-layer_of edges earlier [] j k h e there = absurd (omega arith)
IsLayered-layer_of edges earlier (layer ∷ layers) j k (first, h) e there =
    elim (zero-cases (count layer k)) [
      | inl later ↦
          let rest =
            IsLayered-layer_of edges (earlier ++ layer) layers j k h e
              (ground (arith, there, later, count-append layer (flat layers) k)) in
          ground (arith, rest, later, count-append earlier layer j)
      | inr here ↦ inl (All-count (IsBehind edges earlier) layer k first here j e)
    ]
