-- ===== src/Odgm/Replication/Mst/Examples.antt =====
-- Two replicas over the in-memory backend that exchange a value each.
use oaa_s_io_t.Prelude.{ℕ, ◌≡◌, refl, inr, [], ◌∷◌, false, Option, none, some, arith, List}
use oaa_s_io_t.Std.Bytes.{Bytes, bytes_ord}
use oaa_s_io_t.Std.BTreeMap
use oaa_s_io_t.Storage.Stats
use oaa_s_io_t.Storage.Memory.{MemoryStorage}
use oaa_s_io_t.Storage.Contract.InMemory.{memory_backend, memory_reliable}
use oaa_s_io_t.Odgm.Fallible.{done}
use oaa_s_io_t.Odgm.Replication.Mst.{
  Setting, MstConfig, MstReplicationLayer, MerkleSearchTree, decoded, simple_lww,
  default_mst_config, lww, take_remote, get_raw, set_raw,
}
use oaa_s_io_t.Odgm.Replication.Mst.Sync.{handle_page_update, pages_to_load}
use oaa_s_io_t.Odgm.Replication.Mst.Reads.{Encodes, joined, updated, IsReplica, set_raw_lem}
use oaa_s_io_t.Odgm.Replication.Mst.Peer.{numbered, peer, after_pages, handle_page_update_lem}
use oaa_s_io_t.Odgm.Replication.Mst.Exchange.{
  Exchange, latest, first_after, second_after, lww_converges,
}
use oaa_s_io_t.Odgm.Replication.Mst.Crossing.{Round, alternate, cross, Loads, take_remote_swaps}

abbrev first_byte : Bytes → ℕ
first_byte [] = 0
first_byte (b ∷ bytes) = b

-- A tree that always asks for everything.
abbrev tree : MerkleSearchTree Bytes
tree = record {
  Tree = Unit {0};
  empty = tt;
  upsert = λ t key value. t;
  serialise_page_ranges = λ t. [];
  diff = λ mine theirs. record { start_bounds = []; end_bounds = 255 ∷ [] } ∷ [];
}

abbrev setting : MstConfig Bytes → ℕ → Setting
setting config id = record {
  T = Bytes;
  Target = Unit {0};
  storage = memory_backend;
  tree = tree;
  config = config;
  shard_id = id;
  cls_id = [];
  partition_id = 0;
  include_entry_values = false;
  decode_payload = λ b. none;
  error_text = λ e. "storage";
}

abbrev clock : MstConfig Bytes
clock = simple_lww inr inr first_byte

abbrev latest_setting : Setting
latest_setting = setting clock 2

abbrev remote : Setting
remote = setting default_mst_config 2

abbrev holding : Bytes → MemoryStorage
holding value = record { entries = (1 ∷ [], value) ∷ []; stats = Stats.new }

latest-Encodes : Encodes latest_setting
unfolding simple_lww
latest-Encodes v = (v, refl, refl)

remote-Encodes : Encodes remote
unfolding default_mst_config
remote-Encodes v = (v, refl, refl)

abbrev replica :
    (config : MstConfig Bytes) (id : ℕ) → Bytes → MstReplicationLayer (setting config id)
unfolding memory_backend
replica config id value = record { storage = holding value; mst = tt; v2_dispatcher = none }

abbrev held : Bytes → Bytes → Option Bytes
held value k = BTreeMap.get ((1 ∷ [], value) ∷ []) k

plain_decoded :
    (config : MstConfig Bytes) (id : ℕ)
    → ((b : Bytes) → config.deserialize b ≡ inr b)
    → (found : Option Bytes) → decoded (setting config id) found ≡ inr found
plain_decoded config id plain none = refl
plain_decoded config id plain (some b) = rw (plain b) refl

replica-IsReplica :
    (config : MstConfig Bytes) (id : ℕ) (value : Bytes)
    → ((b : Bytes) → config.deserialize b ≡ inr b)
    → IsReplica {c = setting config id} memory_reliable (replica config id value) (held value)
unfolding memory_backend memory_reliable replica
replica-IsReplica config id value plain = record {
  valid = (tt, tt);
  reads = λ k. plain_decoded config id plain (held value k);
}

clock-plain : (b : Bytes) → clock.deserialize b ≡ inr b
unfolding simple_lww
clock-plain b = refl

remote-plain : (b : Bytes) → default_mst_config.deserialize b ≡ inr b
unfolding default_mst_config
remote-plain b = refl

exchange :
    (config : MstConfig Bytes) (x y : Bytes)
    → ((b : Bytes) → config.deserialize b ≡ inr b)
    → Exchange
        (setting config 2)
        3
        memory_reliable
        []
        []
        (replica config 2 x)
        (replica config 3 y)
        (held x)
        (held y)
        (1 ∷ [])
unfolding replica bytes_ord
exchange config x y plain = record {
  first = replica-IsReplica config 2 x plain;
  second = replica-IsReplica config 3 y plain;
  first_quiet = refl;
  second_quiet = refl;
  apart = refl;
  first_loads = refl;
  second_loads = refl;
}

latest-merges :
    (a b : Bytes) (n : ℕ)
    → latest_setting.config.merge_function a b n ≡ lww latest_setting.config.extract_timestamp a b n
unfolding simple_lww
latest-merges a b n = refl

remote-merges : (a b : Bytes) (n : ℕ) → remote.config.merge_function a b n ≡ take_remote a b n
unfolding default_mst_config
remote-merges a b n = refl

held_there : (v : Bytes) → held v (1 ∷ []) ≡ some v
unfolding BTreeMap.get bytes_ord
held_there v = refl

values_apart :
    (a b : Bytes)
    → held (7 ∷ []) (1 ∷ []) ≡ some a
    → held (9 ∷ []) (1 ∷ []) ≡ some b
    → latest_setting.config.extract_timestamp a ≡ latest_setting.config.extract_timestamp b
    → a ≡ b
unfolding BTreeMap.get bytes_ord simple_lww
values_apart a b p q e = ground arith

set_raw_lem_example :
    (t : MstReplicationLayer latest_setting) × (set_raw latest_setting
        (1 ∷ [])
        (4 ∷ [])
        (replica clock 2 (6 ∷ []))
      ≡ (t, done tt))
    × IsReplica memory_reliable t (
        updated
          (held (6 ∷ []))
          (1 ∷ [])
          (some (joined latest_setting (held (6 ∷ []) (1 ∷ [])) (4 ∷ []))))
set_raw_lem_example =
    set_raw_lem memory_reliable latest-Encodes (1 ∷ []) (4 ∷ []) (replica clock 2 (6 ∷ []))
      (held (6 ∷ [])) (replica-IsReplica clock 2 (6 ∷ []) clock-plain)

handle_page_update_lem_example :
    (t : MstReplicationLayer latest_setting) × (handle_page_update latest_setting
        (peer latest_setting 3 (replica clock 3 (9 ∷ [])))
        3
        []
        (replica clock 2 (7 ∷ []))
      ≡ (t, done tt))
    × IsReplica memory_reliable t (
        after_pages latest_setting
          (pages_to_load latest_setting tt [])
          (held (7 ∷ []))
          (held (9 ∷ [])))
unfolding replica
handle_page_update_lem_example =
    handle_page_update_lem latest_setting memory_reliable latest-Encodes 3 []
      (replica clock 2 (7 ∷ [])) (replica clock 3 (9 ∷ [])) (held (7 ∷ [])) (held (9 ∷ []))
      (replica-IsReplica clock 2 (7 ∷ []) clock-plain)
      (replica-IsReplica clock 3 (9 ∷ []) clock-plain) refl refl

lww_converges_example :
    ((get_raw latest_setting
        (1 ∷ [])
        (first_after latest_setting 3 [] (replica clock 2 (7 ∷ [])) (replica clock 3 (9 ∷ [])))).1
      ≡ (get_raw (numbered latest_setting 3) (1 ∷ []) (
          second_after latest_setting 3 []
            (replica clock 2 (7 ∷ []))
            (replica clock 3 (9 ∷ [])))).1)
    × ((get_raw latest_setting
          (1 ∷ [])
          (first_after latest_setting 3 [] (replica clock 2 (7 ∷ [])) (replica clock 3 (9 ∷ [])))).1
        ≡ done (
            latest latest_setting.config.extract_timestamp
              (held (7 ∷ []) (1 ∷ []))
              (held (9 ∷ []) (1 ∷ []))))
lww_converges_example =
    lww_converges latest_setting 3 memory_reliable latest-Encodes [] [] (replica clock 2 (7 ∷ []))
      (replica clock 3 (9 ∷ [])) (held (7 ∷ [])) (held (9 ∷ [])) (1 ∷ [])
      (exchange clock (7 ∷ []) (9 ∷ []) clock-plain) latest-merges values_apart

abbrev three_rounds : List Round
three_rounds = ([], []) ∷ ([], []) ∷ ([], []) ∷ []

abbrev seven : MstReplicationLayer remote
seven = replica default_mst_config 2 (7 ∷ [])

abbrev nine : MstReplicationLayer (numbered remote 3)
nine = replica default_mst_config 3 (9 ∷ [])

rounds-Loads : Loads remote 3 (1 ∷ []) three_rounds seven nine
unfolding replica bytes_ord
rounds-Loads = (refl, refl, (refl, refl, (refl, refl, tt)))

take_remote_swaps_example :
    ((get_raw remote (1 ∷ []) (cross remote 3 three_rounds seven nine).0).1
      ≡ done (some (alternate three_rounds (7 ∷ []) (9 ∷ []))))
    × ((get_raw (numbered remote 3) (1 ∷ []) (cross remote 3 three_rounds seven nine).1).1
        ≡ done (some (alternate three_rounds (9 ∷ []) (7 ∷ []))))
unfolding replica
take_remote_swaps_example =
    take_remote_swaps remote 3 memory_reliable remote-Encodes (1 ∷ []) refl remote-merges
      three_rounds seven nine (held (7 ∷ [])) (held (9 ∷ [])) (7 ∷ []) (9 ∷ [])
      (replica-IsReplica default_mst_config 2 (7 ∷ []) remote-plain)
      (replica-IsReplica default_mst_config 3 (9 ∷ []) remote-plain) refl refl (held_there (7 ∷ []))
      (held_there (9 ∷ [])) rounds-Loads
