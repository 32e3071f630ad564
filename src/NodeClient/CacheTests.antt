-- ===== src/NodeClient/CacheTests.antt =====
-- The theorems on rpc_sidecar/src/caching_node_client.rs at concrete blocks, each of which is its height.
use casper_sidecar.Prelude.{ℕ, ◌+◌, ◌≡◌, refl, true, false, none, some, List, [], ◌∷◌, arith}
use casper_sidecar.Prelude.Result.{ok}
use casper_sidecar.NodeClient.Call.{Call}
use casper_sidecar.NodeClient.Methods.Info
use casper_sidecar.NodeClient.Caching.{
  Received, block_added, Client, read_block_with_signatures, cache_update_loop,
}
use casper_sidecar.NodeClient.Caching.Laws.{
  read_block_with_signatures-answer, since, IsHonest, IsFresh, cache_update_loop-IsFresh,
}
use casper_sidecar.NodeClient.Instance.{small_codes, small_types}
use casper_sidecar.NodeClient.Port.{Bytes}

-- A node that gives each block that it is asked for, and counts the requests.
abbrev node : ℕ → Call ℕ Bytes
node req count = (some (ok (req ∷ [])), count + 1)

abbrev cached : (height : ℕ) → Client small_codes small_types node
cached height = record { block_with_signatures_cache = some height; inner_client = 0 }

latest :
    read_block_with_signatures small_codes small_types node true none (cached 5)
    ≡ (some (ok (some 5)), cached 5)
latest = read_block_with_signatures-answer small_codes small_types node true none (cached 5)

abbrev heights : List Received
heights = block_added 7 ∷ block_added 6 ∷ block_added 9 ∷ []

small_node-IsHonest : IsHonest small_codes small_types node
unfolding Info.read_block_with_signatures
small_node-IsHonest height s block s' h = cc

heights_run :
    cache_update_loop small_codes small_types node heights (cached 5)
    ≡ some (false, record { block_with_signatures_cache = some 9; inner_client = 2 })
unfolding cache_update_loop
heights_run = refl

fresh :
    IsFresh small_codes small_types node
      (since small_codes small_types node heights (cached 5) (5 ∷ []))
      (some 9)
fresh =
    cache_update_loop-IsFresh small_codes small_types node small_node-IsHonest heights (5 ∷ [])
      (cached 5) (record { block_with_signatures_cache = some 9; inner_client = 2 }) false
      (omega arith) heights_run
