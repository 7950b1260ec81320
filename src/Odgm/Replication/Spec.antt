-- ===== src/Odgm/Replication/Spec.antt =====
-- What a request does to the entries of a storage that does not fail, and how it is answered.
use oaa_s_io_t.Prelude.{◌≡◌, false, none}
use oaa_s_io_t.Std.Bytes.{bytes_ord}
use oaa_s_io_t.Std.BTreeMap
use oaa_s_io_t.Storage.Contract.{Entries}
use oaa_s_io_t.Odgm.Replication.{
  Operation, write, read, delete, batch, Operations, nil, cons, ReplicationResponse, applied_with,
  no_extra, write_extra,
}

-- A request that asks for no old value and has no batch within a batch.
abbrev pub IsSingle : Operation → Type 0
IsSingle (write w) = w.return_old ≡ false
IsSingle (read key) = Unit {0}
IsSingle (delete key) = Unit {0}
IsSingle (batch operations) = ⊥

abbrev pub AreSingle : Operations → Type 0
AreSingle nil = Unit {0}
AreSingle (cons operation operations) = IsSingle operation × AreSingle operations

abbrev pub IsPlain : Operation → Type 0
IsPlain (batch operations) = AreSingle operations
IsPlain (write w) = w.return_old ≡ false
IsPlain (read key) = Unit {0}
IsPlain (delete key) = Unit {0}

unfoldable mutual
  pub replay : Operation → Entries → Entries
  replay (write w) m = BTreeMap.insert m w.key w.value
  replay (read key) m = m
  replay (delete key) m = BTreeMap.remove m key
  replay (batch operations) m = replay_all operations m

  pub replay_all : Operations → Entries → Entries
  replay_all nil m = m
  replay_all (cons operation operations) m = replay_all operations (replay operation m)

unfoldable pub answer : Operation → Entries → ReplicationResponse
answer (write w) m = applied_with none (write_extra (BTreeMap.contains_key m w.key))
answer (read key) m = applied_with (BTreeMap.get m key) no_extra
answer (delete key) m = applied_with none no_extra
answer (batch operations) m = applied_with none no_extra
