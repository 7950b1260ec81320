-- ===== src/Odgm/RaftLog/Types.antt =====
-- The types of data-plane/oprc-odgm/src/replication/raft/raft_log.rs: the parameter `Openraft`, the
-- results, and the store with its two backends.
use oaa_s_io_t.Prelude.{ℕ, Option, none, some}
use oaa_s_io_t.Std.Bytes.{Bytes}
use oaa_s_io_t.Storage.Outcome.{Outcome, ok, err, panicked}
use oaa_s_io_t.Storage.Contract.{StorageBackend}

-- `serde_json::to_vec` and `serde_json::from_slice` at one type.
pub record Json (A : Type 0) : Type 0 where
  pub to_vec : A → Option Bytes
  pub from_slice : Bytes → Option A

pub record Openraft : Type 1 where
  pub LogId : Type 0
  pub Vote : Type 0
  pub Entry : Type 0
  pub index : LogId → ℕ
  pub log_id : Entry → LogId
  pub log_id_json : Json LogId
  pub committed_json : Json (Option LogId)
  pub vote_json : Json Vote
  pub entry_json : Json Entry

pub data ErrorSubject : Type 0 where
  store vote logs : ErrorSubject

pub data ErrorVerb : Type 0 where
  read write : ErrorVerb

-- `StorageResult`; `unwound` is a panic of a backend.
pub data RaftResult {ℓ} (A : Type ℓ) : Type ℓ where
  done : A → RaftResult A
  io_error : ErrorSubject → ErrorVerb → RaftResult A
  unwound : RaftResult A

infixl 5 ◌>>=◌
abbrev pub ◌>>=◌ {ℓ κ} :
    {A : Type ℓ} {B : Type κ} → RaftResult A → (A → RaftResult B) → RaftResult B
done a >>= f = f a
io_error s v >>= f = io_error s v
unwound >>= f = unwound

abbrev pub map_err {ℓ} : {A : Type ℓ} → ErrorSubject → ErrorVerb → Outcome A → RaftResult A
map_err s v (ok a) = done a
map_err s v (err e) = io_error s v
map_err s v panicked = unwound

abbrev pub or_io_error {ℓ} : {A : Type ℓ} → ErrorSubject → ErrorVerb → Option A → RaftResult A
or_io_error s v none = io_error s v
or_io_error s v (some a) = done a

pub record LogStore (L M : StorageBackend) : Type 0 where
  pub log_backend : L.State
  pub metadata_backend : M.State

abbrev pub void {ℓ} : {A : Type ℓ} → RaftResult A → RaftResult (Unit {0})
void (done a) = done tt
void (io_error s v) = io_error s v
void unwound = unwound

module _ {L M : StorageBackend} where
  unfoldable pub flush_backends : ErrorSubject → LogStore L M → RaftResult (Unit {0})
  flush_backends subject s = do
    u ← map_err subject write (L.flush s.log_backend)
    map_err subject write (M.flush s.metadata_backend)
