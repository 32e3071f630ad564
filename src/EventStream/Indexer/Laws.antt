-- ===== src/EventStream/Indexer/Laws.antt =====
-- The ids that event_sidecar/src/event_stream_server/event_indexer.rs hands out, across restarts.
use casper_sidecar.Prelude.{
  ℕ, zero, suc, ◌+◌, ◌%◌, ◌^◌, ◌<◌, ◌≡◌, refl, ap, ◌∙◌, true, List, [], ◌∷◌, ◌++◌, arith,
}
use casper_sidecar.EventStream.Indexer.{
  Storage, EventIndexer, to_le_bytes, from_le_bytes, cached_bytes, new, next_index, drop,
}
use casper_sidecar.Prelude.Result.{ok}

-- The ids of `n` calls of `next_index`, and the indexer after them.
abbrev pub next_indices : ℕ → EventIndexer → List ℕ × EventIndexer
next_indices zero indexer = ([], indexer)
next_indices (suc n) indexer =
    let (id, later) = next_index indexer in
    let (ids, last) = next_indices n later in (id ∷ ids, last)

-- `n` consecutive ids from `i`, wrapping.
abbrev pub consecutive : (i n : ℕ) → List ℕ
consecutive i zero = []
consecutive i (suc n) = i ∷ consecutive ((i + 1) % 2 ^ 32) n

le_bytes_lem : (i : ℕ) → i < 2 ^ 32 → from_le_bytes (to_le_bytes i) ≡ i
unfolding from_le_bytes to_le_bytes
le_bytes_lem i h = omega arith

next_indices_lem :
    (n : ℕ) (indexer : EventIndexer)
    → indexer.index < 2 ^ 32
    → ((next_indices n indexer).0 ≡ consecutive indexer.index n)
      × ((next_indices n indexer).1.index ≡ (indexer.index + n) % 2 ^ 32)
unfolding next_index
next_indices_lem zero indexer h = (refl, omega arith)
next_indices_lem (suc n) indexer h =
    let (ids, last) = next_indices_lem n (next_index indexer).1 (omega arith) in
    (ap (◌∷◌ indexer.index) ids, last ∙ omega arith)

consecutive-append :
    (n m i : ℕ)
    → i < 2 ^ 32
    → consecutive i n ++ consecutive ((i + n) % 2 ^ 32) m ≡ consecutive i (n + m)
consecutive-append zero m i h =
    let wrapped : (i + 0) % 2 ^ 32 ≡ i = omega arith in
    let sum : 0 + m ≡ m = omega arith in rw (wrapped, sum) refl
consecutive-append (suc n) m i h =
    let wrapped : (i + suc n) % 2 ^ 32 ≡ ((i + 1) % 2 ^ 32 + n) % 2 ^ 32 = omega arith in
    let sum : suc n + m ≡ suc (n + m) = omega arith in
    rw (wrapped, sum) (ap (◌∷◌ i) (consecutive-append n m ((i + 1) % 2 ^ 32) (omega arith)))

-- What a drop writes, the next start reads.
pub new-drop :
    (indexer : EventIndexer) (storage : Storage)
    → indexer.index < 2 ^ 32
    → storage.can_create_dir ≡ true
    → storage.can_write ≡ true
    → new (drop indexer storage) ≡ ok indexer
unfolding new drop cached_bytes
new-drop indexer storage h dir write =
    rw (write, dir) (ap (λ i. ok (record { index = i })) (le_bytes_lem indexer.index h))

-- An indexer that was dropped is found again: from an index of 32 bits, after `n` ids handed out, a drop whose
-- write succeeds and a restart that finds its directory, the next `m` ids go on from the last, modulo 2 ^ 32.
pub restart_lem :
    (n m : ℕ) (indexer : EventIndexer) (storage : Storage)
    → indexer.index < 2 ^ 32
    → storage.can_create_dir ≡ true
    → storage.can_write ≡ true
    → (restarted : EventIndexer) × (new (drop (next_indices n indexer).1 storage) ≡ ok restarted)
      × ((next_indices n indexer).0 ++ (next_indices m restarted).0
          ≡ consecutive indexer.index (n + m))
restart_lem n m indexer storage h dir write =
    let last = (next_indices n indexer).1 in
    let (ids, index) = next_indices_lem n indexer h in
    let in_range : last.index < 2 ^ 32 = omega (arith, index) in
    (
      last,
      new-drop last storage in_range dir write,
      (rw (ids, (next_indices_lem m last in_range).0, index)
          (consecutive-append n m indexer.index h)),
    )
