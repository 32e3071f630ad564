-- ===== src/NodeClient/Caching/Laws.antt =====
-- What the cache of rpc_sidecar/src/caching_node_client.rs answers, and how fresh it is.
use casper_sidecar.Prelude.{
  Bool-cases, if-true, if-false, All, ℕ, ◌≤◌, String, ◌≡◌, refl, sym, ap, ◌∙◌, subst, inl, inr,
  Bool, true, false, Option, none, some, List, [], ◌∷◌, arith,
}
use casper_sidecar.Prelude.Result.{Result, ok, err}
use casper_sidecar.NodeClient.Error.{Error}
use casper_sidecar.NodeClient.FromCode.{Codes}
use casper_sidecar.NodeClient.Port.{BinaryPort}
use casper_sidecar.NodeClient.Call.{Call, after_call}
use casper_sidecar.NodeClient.Types.{PortTypes}
use casper_sidecar.NodeClient.Methods.Info
use casper_sidecar.NodeClient.Caching.{
  Received, block_added, lagged, closed, new, Client, with_inner, send_request, fetch,
  cached_or_fetch, read_block_with_signatures, is_known, store, on_block_added, cache_update_loop,
}
use casper_sidecar.NodeClient.Methods.{parse, send_info}

-- Every number of the list is at most `n`.
abbrev pub AllLe : List ℕ → (n : ℕ) → Type 0
AllLe l n = All (λ m. m ≤ n) l

AllLe-mono : (l : List ℕ) (n m : ℕ) → n ≤ m → AllLe l n → AllLe l m
AllLe-mono [] n m le h = tt
AllLe-mono (x ∷ l) n m le (h, hs) = (omega arith, AllLe-mono l n m le hs)

module _ {S : Type 0} {port : BinaryPort} (codes : Codes) (types : PortTypes port)
    (inner : port.Command → Call S port.Response) where
  -- The client's own method, as the trait defines it.
  abbrev pub inner_read : Option types.BlockIdentifier → Call S (Option types.BlockWithSignatures)
  inner_read identifier s = Info.read_block_with_signatures codes types inner identifier s

  -- The block that the cache serves: only for the latest block, and only if the lock is there in
  -- time.
  abbrev pub served :
      (in_time : Bool)
      → Option types.BlockIdentifier
      → Option types.BlockWithSignatures
      → Option types.BlockWithSignatures
  served true none cached = cached
  served _ _ _ = none

  abbrev pub answer :
      Option types.BlockWithSignatures
      → Option types.BlockIdentifier
      → Call (Client codes types inner) (Option types.BlockWithSignatures)
  answer (some block) identifier c = (some (ok (some block)), c)
  answer none identifier c = with_inner codes types inner c (inner_read identifier c.inner_client)

  -- A call of the client within, done beside the cache, and what follows it.
  after_call-with_inner :
      {A B : Type 0} (outer : A → Call (Client codes types inner) B) (next : A → Call S B)
      (c : Client codes types inner)
      → ((a : A) (s : S)
          → outer a (record c { inner_client = s }) ≡ with_inner codes types inner c (next a s))
      → (x : Option (Result A Error) × S)
      → after_call outer (with_inner codes types inner c x)
        ≡ with_inner codes types inner c (after_call next x)
  after_call-with_inner outer next c same (none, s) = refl
  after_call-with_inner outer next c same (some (err e), s) = refl
  after_call-with_inner outer next c same (some (ok a), s) = same a s

  send_info-inner :
      (c : Client codes types inner) (y : Result types.GetRequest String)
      → send_info codes types (send_request codes types inner) y c
        ≡ with_inner codes types inner c (send_info codes types inner y c.inner_client)
  unfolding send_info send_request
  send_info-inner c (ok get) = refl
  send_info-inner c (err e) = refl

  fetch-inner :
      (identifier : Option types.BlockIdentifier) (c : Client codes types inner)
      → fetch codes types inner identifier c
        ≡ with_inner codes types inner c (inner_read identifier c.inner_client)
  unfolding fetch Info.read_block_with_signatures
  fetch-inner identifier c =
      let get = types.info_try_into (types.block_with_signatures_info identifier) in
      let outer = parse codes types (send_request codes types inner) types.block_with_signatures in
      let next = parse codes types inner types.block_with_signatures in
      ap (after_call outer) (send_info-inner c get)
      ∙ after_call-with_inner outer next c (λ resp s. refl)
          (send_info codes types inner get c.inner_client)

  cached_or_fetch-answer :
      (cached : Option types.BlockWithSignatures) (c : Client codes types inner)
      → cached_or_fetch codes types inner cached c ≡ answer cached none c
  unfolding cached_or_fetch
  cached_or_fetch-answer none c = fetch-inner none c
  cached_or_fetch-answer (some block) c = refl

  -- The caching client answers with the block in the cache where it serves, and leaves all as it
  -- is; else it answers as the client within does, and leaves the cache as it is.
  pub read_block_with_signatures-answer :
      (in_time : Bool) (identifier : Option types.BlockIdentifier) (c : Client codes types inner)
      → read_block_with_signatures codes types inner in_time identifier c
        ≡ answer (served in_time identifier c.block_with_signatures_cache) identifier c
  unfolding read_block_with_signatures
  read_block_with_signatures-answer true none c =
      cached_or_fetch-answer c.block_with_signatures_cache c
  read_block_with_signatures-answer false none c = fetch-inner none c
  read_block_with_signatures-answer true (some i) c = fetch-inner (some i) c
  read_block_with_signatures-answer false (some i) c = fetch-inner (some i) c

  -- The heights in `seen`, or none of them if the cache is empty.
  abbrev pub kept : Option types.BlockWithSignatures → (seen : List ℕ) → List ℕ
  kept none seen = []
  kept (some block) seen = seen

  -- The heights that the loop has received since the cache was last empty, `seen` being those from
  -- before.
  abbrev pub since : List Received → Client codes types inner → (seen : List ℕ) → List ℕ
  since [] c seen = seen
  since (closed ∷ rest) c seen = []
  since (lagged ∷ rest) c seen = since rest (new c.inner_client) []
  since (block_added height ∷ rest) c seen = elim (on_block_added codes types inner height c) [
    | none ↦ []
    | some later ↦ since rest later (kept later.block_with_signatures_cache (height ∷ seen))
  ]

  -- The client within gives the block of the height that it is asked for.
  abbrev pub IsHonest : Type 0
  IsHonest =
      (height : ℕ) (s : S) (block : types.BlockWithSignatures) (s' : S)
      → inner_read (some (types.height_identifier height)) s ≡ (some (ok (some block)), s')
      → types.block_height block ≡ height

  abbrev pub IsFresh : (seen : List ℕ) → Option types.BlockWithSignatures → Type 0
  IsFresh seen none = seen ≡ []
  IsFresh seen (some block) = AllLe seen (types.block_height block)

  abbrev IsFreshClient : (height : ℕ) (seen : List ℕ) → Client codes types inner → Type 0
  IsFreshClient height seen c =
      IsFresh (kept c.block_with_signatures_cache (height ∷ seen)) c.block_with_signatures_cache

  AllLe-is_known :
      (height : ℕ) (seen : List ℕ) (cached : Option types.BlockWithSignatures)
      → IsFresh seen cached
      → is_known codes types inner height cached ≡ false
      → AllLe seen height
  unfolding is_known
  AllLe-is_known height seen none fresh unknown = subst (λ l. AllLe l height) (sym fresh) tt
  AllLe-is_known height seen (some block) fresh unknown =
      AllLe-mono seen (types.block_height block) height (ground arith) fresh

  store_block :
      (height : ℕ) (seen : List ℕ) (c later : Client codes types inner)
      (block : types.BlockWithSignatures) (s : S)
      → IsFresh seen c.block_with_signatures_cache
      → is_known codes types inner height c.block_with_signatures_cache ≡ false
      → types.block_height block ≡ height
      → store codes types inner c (some (ok (some block)), s) ≡ some later
      → IsFreshClient height seen later
  unfolding store
  store_block height seen c later block s fresh unknown same h =
      let fetched : Client codes types inner = record {
        block_with_signatures_cache = some block;
        inner_client = s;
      } in
      let unknown_block =
        ap (λ n. is_known codes types inner n c.block_with_signatures_cache) same ∙ unknown in
      let stored : some fetched ≡ some later = sym (if-false _ _ unknown_block) ∙ h in
      let eq : fetched ≡ later = cc in
      let below = AllLe-is_known height seen c.block_with_signatures_cache fresh unknown in
      subst (IsFreshClient height seen) eq
        (omega arith, AllLe-mono seen height (types.block_height block) (omega arith) below)

  store-IsFresh :
      (height : ℕ) (seen : List ℕ) (c later : Client codes types inner)
      (x : Option (Result (Option types.BlockWithSignatures) Error) × S)
      → IsFresh seen c.block_with_signatures_cache
      → is_known codes types inner height c.block_with_signatures_cache ≡ false
      → ((block : types.BlockWithSignatures) (s' : S)
          → x ≡ (some (ok (some block)), s')
          → types.block_height block ≡ height)
      → store codes types inner c x ≡ some later
      → IsFreshClient height seen later
  unfolding store
  store-IsFresh height seen c later (none, s) fresh unknown honest h = cc
  store-IsFresh height seen c later (some (ok none), s) fresh unknown honest h =
      let eq : new s ≡ later = cc in subst (IsFreshClient height seen) eq refl
  store-IsFresh height seen c later (some (err e), s) fresh unknown honest h =
      let eq : new s ≡ later = cc in subst (IsFreshClient height seen) eq refl
  store-IsFresh height seen c later (some (ok (some block)), s) fresh unknown honest h =
      store_block height seen c later block s fresh unknown (honest block s refl) h

  known-IsFresh :
      (height : ℕ) (seen : List ℕ) (cached : Option types.BlockWithSignatures)
      → IsFresh seen cached
      → is_known codes types inner height cached ≡ true
      → IsFresh (kept cached (height ∷ seen)) cached
  unfolding is_known
  known-IsFresh height seen none fresh known = cc
  known-IsFresh height seen (some block) fresh known = (ground arith, fresh)

  on_block_added-IsFresh :
      IsHonest
      → (height : ℕ) (seen : List ℕ) (c later : Client codes types inner)
      → IsFresh seen c.block_with_signatures_cache
      → on_block_added codes types inner height c ≡ some later
      → IsFreshClient height seen later
  unfolding on_block_added
  on_block_added-IsFresh honest height seen c later fresh h =
      elim (Bool-cases (is_known codes types inner height c.block_with_signatures_cache)) [
        | inl known ↦
            let stays : some c ≡ some later = sym (if-true _ _ known) ∙ h in
            let eq : c ≡ later = cc in
            subst (IsFreshClient height seen) eq
              (known-IsFresh height seen c.block_with_signatures_cache fresh known)
        | inr unknown ↦
            store-IsFresh height seen c later
              (inner_read (some (types.height_identifier height)) c.inner_client) fresh unknown
              (λ block s' e. honest height c.inner_client block s' e)
              (sym (if-false _ _ unknown) ∙ h)
      ]

  -- The loop goes on after a turn, if that came back.
  added :
      (rest : List Received) (height : ℕ) (seen : List ℕ) (later : Client codes types inner)
      (ended : Bool)
      → ((l : Client codes types inner)
          → IsFreshClient height seen l
          → cache_update_loop codes types inner rest l ≡ some (ended, later)
          → IsFresh
              (since rest l (kept l.block_with_signatures_cache (height ∷ seen)))
              later.block_with_signatures_cache)
      → (x : Option (Client codes types inner))
      → ((l : Client codes types inner) → x ≡ some l → IsFreshClient height seen l)
      → (elim x [ none ↦ none | some l ↦ cache_update_loop codes types inner rest l ])
        ≡ some (ended, later)
      → IsFresh
          (elim x [
            | none ↦ []
            | some l ↦ since rest l (kept l.block_with_signatures_cache (height ∷ seen))
          ])
          later.block_with_signatures_cache
  added rest height seen later ended go none fresh h = cc
  added rest height seen later ended go (some l) fresh h = go l (fresh l refl) h

  -- The block in the cache is at least as high as every block that was announced since the cache
  -- was last empty, whatever the loop receives, if the client within gives blocks of the heights
  -- that it is asked for. In particular this holds from the start, when the cache is empty.
  pub cache_update_loop-IsFresh :
      IsHonest
      → (events : List Received) (seen : List ℕ) (c later : Client codes types inner) (ended : Bool)
      → IsFresh seen c.block_with_signatures_cache
      → cache_update_loop codes types inner events c ≡ some (ended, later)
      → IsFresh (since events c seen) later.block_with_signatures_cache
  unfolding cache_update_loop
  cache_update_loop-IsFresh honest [] seen c later ended fresh h =
      let eq : c ≡ later = cc in
      subst (λ (l : Client codes types inner). IsFresh seen l.block_with_signatures_cache) eq fresh
  cache_update_loop-IsFresh honest (closed ∷ rest) seen c later ended fresh h =
      let eq : new c.inner_client ≡ later = cc in
      subst (λ (l : Client codes types inner). IsFresh [] l.block_with_signatures_cache) eq refl
  cache_update_loop-IsFresh honest (lagged ∷ rest) seen c later ended fresh h =
      cache_update_loop-IsFresh honest rest [] (new c.inner_client) later ended refl h
  cache_update_loop-IsFresh honest (block_added height ∷ rest) seen c later ended fresh h =
      added rest height seen later ended
        (λ l f e.
          cache_update_loop-IsFresh honest rest (kept l.block_with_signatures_cache (height ∷ seen))
            l later ended f e)
        (on_block_added codes types inner height c)
        (λ l e. on_block_added-IsFresh honest height seen c l fresh e) h
