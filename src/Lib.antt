-- ===== src/Lib.antt =====
-- OaaS-IoT: a verification library for the storage layer, the object data grid manager, the class
-- runtime manager and the network simulator.
--
-- The data plane keeps objects in shards. A shard writes each object as several records in a
-- key-value storage backend, under keys that are built from the object's normalized identifier; a
-- replicated shard first puts each request in a Raft log, which lies in two backends of the same
-- kind, or writes locally and exchanges values with its peers. The control plane deploys the classes
-- of objects: its class runtime manager watches what runs and decides what to apply and to delete. This
-- library follows those parts from the bottom up.
--
-- Std            The parts of Rust's standard library that the code uses: ordered maps with their
--                ranges (Std/BTreeMap), bytes and their order, integers as bytes, UTF-8, bits.
-- Storage/Outcome, Storage/Value, Storage/Stats
--                commons/oprc-dp-storage/src: error.rs, storage_value.rs, atomic_stats.rs. A result is
--                a value, an error, or a panic of the standard library.
-- Storage/Memory commons/oprc-dp-storage/src/backends/memory.rs: the state is the map and the counters,
--                and each method is a function from state and arguments to state and result, under the
--                method's name. Range (delete_range, scan), Statistics (the counters), Transaction
--                (MemoryTransaction), Snapshot (SnapshotCapableStorage), Application
--                (ApplicationDataStorage) and Merge (the application transaction).
-- Storage/Contract
--                commons/oprc-dp-storage/src/traits/storage_backend.rs: the trait as an interface, and
--                the contract of a backend that does not fail; InMemory fills both.
-- Odgm/Varint, Odgm/StorageKey
--                data-plane/oprc-odgm/src/storage_key.rs: encode_varint, decode_varint, the builders
--                string_object_*, and parse_string_object_key.
-- Odgm/GranularKey, Odgm/ObjectMetadata
--                data-plane/oprc-odgm/src/granular_key.rs: entry keys, raw-key tests, and the metadata
--                record with to_bytes and from_bytes.
-- Odgm/Identity  data-plane/oprc-odgm/src/identity.rs: normalize_object_id, build_identity. The
--                compiled regular expression is a parameter.
-- Odgm/RaftLog   data-plane/oprc-odgm/src/replication/raft/raft_log.rs: Types, Metadata and Entries
--                follow the code over any two backends; Spec is the abstract log, Represents relates
--                a store to it, and Reads, Writes, Changes and Run refine it. The openraft types and
--                their JSON are the parameter Openraft, with a round trip as hypothesis.
-- Odgm/Replication
--                data-plane/oprc-odgm/src/replication: the requests and responses of mod.rs, the layer
--                without replication (Direct: no_replication.rs), and the Raft state machine
--                (StateMachine: raft/state_machine.rs). Spec says what a request does to a map; Performs,
--                Applied and Failing relate the code to it. Both layers work over any storage of the
--                contract.
--                Mst is the layer that replicates by exchange (mst): its local operations, Sync the
--                exchange with a peer (mst_network.rs). Reads takes a replica as a map of values,
--                Pages says what it hands out, Merging what it takes in, Peer puts a replica and its peer's
--                handler together. Exchange has two replicas hear of each other crosswise, once, and Crossing
--                in any number of rounds.
-- Odgm/EntryStore
--                data-plane/oprc-odgm/src/shard/entry_store_impl.rs: the operations on entries, batches
--                and objects (Types, Operations, Batch), over a storage and a replication layer. Ends
--                says what a part of an operation does to the stored map, Entries has one rule for each
--                part, Reads what the reads see, Names which storage keys are equal. Writes, BatchSet
--                (on BatchWritten), BatchErrors, BatchDelete (on BatchDeleted) and DeleteObject have the
--                effect of each operation. Direct puts the parts together: a shard without replication
--                over the contract.
-- Odgm/Events    data-plane/oprc-odgm/src/events: the mutation contexts, and the dispatcher with its
--                consumer (Consumer). Queue has the dispatcher as it is shared: the steps of any number of
--                senders and of the consumer in any order, with the invariant (Invariant) and
--                what holds throughout (Shared).
-- Odgm/MetaManager
--                data-plane/oprc-odgm/src/metadata/mod.rs: create_collection and the default assignment
--                of shards to members.
-- Crm/Names      control-plane/oprc-crm/src/templates/manager.rs (dns1035_safe) and routing.rs: the names
--                of services; Label is about what names come out.
-- Crm/Fsm        control-plane/oprc-crm/src/controller/fsm: the types of a descriptor and of what is
--                observed, evaluate, and the built-in descriptors (Builtin); Evaluate has its theorems.
-- Netsim         commons/oprc-netsim/src/state.rs: the links between environments, their queries and the
--                handlers that cut and heal them. Links is about single links, Environments about
--                reachable states, Isolation about whole environments.
--
-- Numbers. A byte is a number below 256, a text is its bytes (its code points in Crm, which changes
-- characters), and u64 and usize are numbers with
-- the wrap-around modulo 2^64 written out where the code adds or subtracts. Overflow checks are those
-- of a release build: an addition that overflows wraps around.
--
-- Fuel. encode_varint has fuel for nine rounds and a last byte, since a 64-bit length has at most ten
-- groups of seven bits; the decimal printer has nine rounds and a last digit for a u32, which has at
-- most ten digits, and nineteen and a last digit for a usize.
--
-- Ranges. A range of a map with inverted bounds panics, as the standard library documents it; its
-- current implementation gives an empty map that was never filled an empty range instead. No result
-- is about inverted bounds.
--
-- Concurrency. A method of the in-memory backend that takes the map's lock is one step. The Raft log
-- store is called by one task at a time, so that each of its operations is one step too. An operation
-- of the entry store, a request of a replication layer and an exchange with a peer are one step each,
-- though the code awaits within them: other tasks on the same records are left out there. The event
-- dispatcher is shared: in Queue, taking a number, offering to the channel, counting the answer,
-- receiving and processing are separate steps of tasks in any order. What the consumer does with one
-- event touches no field that a sender uses but the counter queue_len, at its very end, so
-- processing is one step.
--
-- Not modelled: the external databases behind the other backends, serde and display code, message
-- transport and the services around the shards, the search tree of the exchange (a crate), the rest of the control
-- plane, the tools and the web interface.
pub mod Prelude
pub mod Std
pub mod Storage
pub mod Odgm
pub mod Crm
pub mod Netsim
