-- ===== src/Container/Keys.antt =====
-- The equality of types and of provider keys, which are the keys of the container's maps.
use modrun.Base.{◌≡◌, ◌↔◌, Bool, true, false, ◌&&◌, Eq, ◌==◌, nat_eq, string_eq, bool_eq, arith}
use modrun.Container.Types.{TypeId, named, arc, group, lifecycle, shutdowner, ProviderKey}

abbrev pub type_beq : TypeId → TypeId → Bool
type_beq (named i s) (named j t) = (i == j) && (s == t)
type_beq (arc t) (arc u) = type_beq t u
type_beq (group t) (group u) = type_beq t u
type_beq lifecycle lifecycle = true
type_beq shutdowner shutdowner = true
type_beq _ _ = false

pub type_beq_iff : (t u : TypeId) → (type_beq t u ≡ true) ↔ (t ≡ u)
type_beq_iff (named i s) (named j t) = ground (arith, nat_eq.beq_iff i j, string_eq.beq_iff s t)
type_beq_iff (arc t) (arc u) = ground (arith, type_beq_iff t u)
type_beq_iff (group t) (group u) = ground (arith, type_beq_iff t u)
type_beq_iff lifecycle lifecycle = ground arith
type_beq_iff shutdowner shutdowner = ground arith
type_beq_iff _ _ = ground arith

instance abbrev pub type_eq : Eq TypeId
type_eq = record { beq = type_beq; beq_iff = type_beq_iff }

abbrev pub key_beq : ProviderKey → ProviderKey → Bool
key_beq a b =
    type_beq a.type_id b.type_id
    && ((a.scope == b.scope) && ((a.is_private == b.is_private) && (a.ordinal == b.ordinal)))

pub key_beq_iff : (a b : ProviderKey) → (key_beq a b ≡ true) ↔ (a ≡ b)
key_beq_iff a b = ground (
  arith,
  type_beq_iff a.type_id b.type_id,
  nat_eq.beq_iff a.scope b.scope,
  bool_eq.beq_iff a.is_private b.is_private,
  nat_eq.beq_iff a.ordinal b.ordinal,
)

instance abbrev pub key_eq : Eq ProviderKey
key_eq = record { beq = key_beq; beq_iff = key_beq_iff }
