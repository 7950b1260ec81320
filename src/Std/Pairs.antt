-- ===== src/Std/Pairs.antt =====
-- Pairs compare by their first parts, then by their second parts.
use oaa_s_io_t.Prelude.{◌≡◌, Ordering, arith}
use oaa_s_io_t.Std.Order.{Ord, IsTotalOrder, turned, before_trans, cmp_distinct}
use oaa_s_io_t.Std.Bytes.{Bytes, bytes_ord, then}
use Prim.Native.Nat.Ordering.{lt, eq}

abbrev pub compare_names : Bytes × Bytes → Bytes × Bytes → Ordering
compare_names p q = then (bytes_ord.cmp p.0 q.0) (bytes_ord.cmp p.1 q.1)

names_turn : (p q : Bytes × Bytes) → compare_names q p ≡ turned (compare_names p q)
names_turn p q = ground (arith, bytes_ord.total.turns p.0 q.0, bytes_ord.total.turns p.1 q.1)

names_distinct : (p q : Bytes × Bytes) → compare_names p q ≡ eq → p ≡ q
names_distinct p q h =
    ground (arith, bytes_ord.total.distinct p.0 q.0, bytes_ord.total.distinct p.1 q.1)

names_chain :
    (p q t : Bytes × Bytes)
    → compare_names p q ≡ lt
    → compare_names q t ≡ lt
    → compare_names p t ≡ lt
names_chain p q t h k = ground (
  arith,
  before_trans p.0 q.0 t.0,
  before_trans p.1 q.1 t.1,
  cmp_distinct p.0 q.0,
  cmp_distinct q.0 t.0,
)

pub compare_names-IsTotalOrder : IsTotalOrder compare_names
compare_names-IsTotalOrder = record {
  distinct = names_distinct;
  turns = names_turn;
  chains = λ {x} {y} {z} h k. names_chain x y z h k;
}

instance unfoldable pub names_ord : Ord (Bytes × Bytes)
names_ord = record { cmp = compare_names; total = compare_names-IsTotalOrder }
