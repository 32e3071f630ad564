-- ===== src/EventStream/Indexer.antt =====
-- event_sidecar/src/event_stream_server/event_indexer.rs: the counter of event ids and its cache file.
pub mod Laws
use casper_sidecar.Prelude.{
  ◌==◌, if◌then◌else◌, length, ℕ, ◌+◌, ◌*◌, ◌/◌, ◌%◌, ◌^◌, Bool, true, Option, none, some, List, [],
  ◌∷◌,
}
use casper_sidecar.Prelude.Result.{Result, ok, err}

-- What the directory of the cache file does: whether it can be created, and the bytes that reading
-- the file gives, if reading succeeds.
pub record Storage : Type 0 where
  pub can_create_dir : Bool
  pub cached : Option (List ℕ)
  pub can_write : Bool

pub record EventIndexer : Type 0 where
  pub index : ℕ

unfoldable pub to_le_bytes : ℕ → List ℕ
to_le_bytes i = i % 256 ∷ i / 256 % 256 ∷ i / 65536 % 256 ∷ i / 16777216 % 256 ∷ []

unfoldable pub from_le_bytes : List ℕ → ℕ
from_le_bytes [] = 0
from_le_bytes (b ∷ bs) = b + 256 * from_le_bytes bs

-- The `match` on the bytes that were read.
unfoldable pub cached_bytes : Option (List ℕ) → List ℕ
unfolding to_le_bytes
cached_bytes none = to_le_bytes 0
cached_bytes (some bytes) = if length bytes == 4 then bytes else to_le_bytes 0

-- `EventIndexer::new`; the error is that of `create_dir_all`.
unfoldable pub new : Storage → Result EventIndexer (Unit {0})
unfolding cached_bytes from_le_bytes
new storage =
    if storage.can_create_dir
    then ok (record { index = from_le_bytes (cached_bytes storage.cached) })
    else err tt

unfoldable pub next_index : EventIndexer → ℕ × EventIndexer
next_index indexer = (indexer.index, record { index = (indexer.index + 1) % 2 ^ 32 })

-- `Drop for EventIndexer`
unfoldable pub drop : EventIndexer → Storage → Storage
unfolding to_le_bytes
drop indexer storage =
    if storage.can_write
    then record {
      can_create_dir = storage.can_create_dir;
      cached = some (to_le_bytes indexer.index);
      can_write = true;
    }
    else storage
