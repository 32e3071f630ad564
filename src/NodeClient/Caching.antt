-- ===== src/NodeClient/Caching.antt =====
-- rpc_sidecar/src/caching_node_client.rs: the latest block, kept beside a client.
pub mod Laws
use casper_sidecar.Prelude.{
  leb, if◌then◌else◌, ℕ, Bool, true, false, Option, none, some, List, [], ◌∷◌,
}
use casper_sidecar.Prelude.Result.{Result, ok, err}
use casper_sidecar.NodeClient.Error.{Error}
use casper_sidecar.NodeClient.FromCode.{Codes}
use casper_sidecar.NodeClient.Port.{BinaryPort}
use casper_sidecar.NodeClient.Call.{Call, ◌>>=◌, ◌>>◌}
use casper_sidecar.NodeClient.Types.{PortTypes}
use casper_sidecar.NodeClient.Methods.{parse, read_info}
use casper_sidecar.NodeClient.Methods.Info

-- What the receiver of the loop gives; `lagged` is its error for messages that were missed, and
-- `closed` the one that ends the loop.
pub data Received : Type 0 where
  block_added : (height : ℕ) → Received
  lagged : Received
  closed : Received

-- The client with its cache, `S` being the state of the client within.
pub record CachingNodeClient (Block S : Type 0) : Type 0 where
  pub block_with_signatures_cache : Option Block
  pub inner_client : S

abbrev pub new : {Block S : Type 0} → S → CachingNodeClient Block S
new inner = record { block_with_signatures_cache = none; inner_client = inner }

module _ {S : Type 0} {port : BinaryPort} (codes : Codes) (types : PortTypes port)
    (inner_send_request : port.Command → Call S port.Response) where
  abbrev pub Client : Type 0
  Client = CachingNodeClient types.BlockWithSignatures S

  abbrev pub with_inner : {A : Type 0} → Client → A × S → A × Client
  with_inner c (r, s) = (r, record c { inner_client = s })

  unfoldable pub send_request : port.Command → Call Client port.Response
  send_request req c = with_inner c (inner_send_request req c.inner_client)

  -- `in_time` is whether the lock of the cache is there before `CACHE_FETCH_TIMEOUT`.
  unfoldable pub get_block_from_cache : (in_time : Bool) → Client → Option types.BlockWithSignatures
  get_block_from_cache in_time c = if in_time then c.block_with_signatures_cache else none

  -- The request that is made where the cache does not serve.
  unfoldable pub fetch :
      Option types.BlockIdentifier → Call Client (Option types.BlockWithSignatures)
  unfolding read_info send_request
  fetch block_identifier = do
    resp ← read_info codes types send_request (types.block_with_signatures_info block_identifier)
    parse codes types send_request types.block_with_signatures resp

  unfoldable pub cached_or_fetch :
      Option types.BlockWithSignatures → Call Client (Option types.BlockWithSignatures)
  unfolding fetch
  cached_or_fetch (some block) c = (some (ok (some block)), c)
  cached_or_fetch none c = fetch none c

  unfoldable pub read_block_with_signatures :
      (in_time : Bool)
      → Option types.BlockIdentifier
      → Call Client (Option types.BlockWithSignatures)
  unfolding cached_or_fetch get_block_from_cache
  read_block_with_signatures in_time none c = cached_or_fetch (get_block_from_cache in_time c) c
  read_block_with_signatures in_time (some identifier) c = fetch (some identifier) c

  -- `height <= known_height` for the block in the cache, if there is one
  unfoldable pub is_known : (height : ℕ) → Option types.BlockWithSignatures → Bool
  is_known height none = false
  is_known height (some block) = leb height (types.block_height block)

  -- What the answer of the client within makes of the cache; `none` is a call that never comes
  -- back, and leaves the loop waiting.
  unfoldable pub store :
      Client → Option (Result (Option types.BlockWithSignatures) Error) × S → Option Client
  unfolding is_known
  store c (none, s) = none
  store c (some (ok (some block)), s) =
      if is_known (types.block_height block) c.block_with_signatures_cache
      then some (record c { inner_client = s })
      else some (record { block_with_signatures_cache = some block; inner_client = s })
  store c (some (ok none), s) = some (new s)
  store c (some (err _), s) = some (new s)

  -- One turn of `cache_update_loop` on a block's height.
  unfoldable pub on_block_added : (height : ℕ) → Client → Option Client
  unfolding is_known store Info.read_block_with_signatures
  on_block_added height c =
      let fetched =
        Info.read_block_with_signatures codes types inner_send_request
          (some (types.height_identifier height)) c.inner_client in
      if is_known height c.block_with_signatures_cache then some c else store c fetched

  -- The loop, over what it receives. The Boolean is whether it has ended by its error.
  unfoldable pub cache_update_loop : List Received → Client → Option (Bool × Client)
  unfolding on_block_added
  cache_update_loop [] c = some (false, c)
  cache_update_loop (closed ∷ rest) c = some (true, new c.inner_client)
  cache_update_loop (lagged ∷ rest) c = cache_update_loop rest (new c.inner_client)
  cache_update_loop (block_added height ∷ rest) c = elim (on_block_added height c) [
    | none ↦ none
    | some later ↦ cache_update_loop rest later
  ]
