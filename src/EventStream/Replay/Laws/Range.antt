-- ===== src/EventStream/Replay/Laws/Range.antt =====
-- Which events of the buffer event_sidecar/src/event_stream_server/http_server.rs replays.
use casper_sidecar.Prelude.{
  ltb, length, ℕ, zero, suc, ◌+◌, ◌*◌, ◌%◌, ◌^◌, ◌≤◌, ◌<◌, ◌≡◌, refl, ap, ◌∙◌, Bool, true, false,
  ◌||◌, some, List, [], ◌∷◌, arith,
}
use casper_sidecar.EventStream.Replay.{
  id_max, wrapping_add, id_sub, unwrap_id, skip_while, is_before, Item, item_id, in_zone, requested,
}
use casper_sidecar.Types.Casper.{Casper}

-- All but the first `k` items.
abbrev pub drop_first {ℓ} : {A : Type ℓ} → ℕ → List A → List A
drop_first zero xs = xs
drop_first (suc k) [] = []
drop_first (suc k) (x ∷ xs) = drop_first k xs

-- Is the first id one at which the ids wrap round?
abbrev pub near_wrap : (first size : ℕ) → Bool
near_wrap first size = ltb (id_sub id_max size) first || ltb first size

abbrev near_wrap_at : (size first : ℕ) → Bool
near_wrap_at size first = near_wrap first size

skip_while-no {ℓ} :
    {A : Type ℓ} (p : A → Bool) (x : A) (xs : List A) → p x ≡ false → skip_while p (x ∷ xs) ≡ x ∷ xs
unfolding skip_while
skip_while-no p x xs h = rw (h) refl

skip_while-yes {ℓ} :
    {A : Type ℓ} (p : A → Bool) (x : A) (xs : List A)
    → p x ≡ true
    → skip_while p (x ∷ xs) ≡ skip_while p xs
unfolding skip_while
skip_while-yes p x xs h = rw (h) refl

before-zone :
    (first size j k : ℕ)
    → first < 2 ^ 32
    → 3 * size ≤ 2 ^ 32
    → j < size
    → k < size
    → near_wrap first size ≡ true
    → is_before size true ((first + k) % 2 ^ 32) ((first + j) % 2 ^ 32) ≡ ltb j k
unfolding is_before wrapping_add id_sub
before-zone first size j k a b c d zone = ground arith

before-plain :
    (first size j k : ℕ)
    → first < 2 ^ 32
    → 3 * size ≤ 2 ^ 32
    → j < size
    → k < size
    → near_wrap first size ≡ false
    → is_before size false ((first + k) % 2 ^ 32) ((first + j) % 2 ^ 32) ≡ ltb j k
unfolding is_before id_sub
before-plain first size j k a b c d zone = ground arith

before_lem :
    (first size j k : ℕ) (zone : Bool)
    → near_wrap first size ≡ zone
    → first < 2 ^ 32
    → 3 * size ≤ 2 ^ 32
    → j < size
    → k < size
    → is_before size zone ((first + k) % 2 ^ 32) ((first + j) % 2 ^ 32) ≡ ltb j k
before_lem first size j k true zone a b d e = before-zone first size j k a b d e zone
before_lem first size j k false zone a b d e = before-plain first size j k a b d e zone

module _ {c : Casper} where
  -- The ids of the items are consecutive, the `j`-th after `first` coming first, and wrap round.
  abbrev pub Numbered : (first j : ℕ) → List (Item c) → Type 0
  Numbered first j [] = Unit
  Numbered first j ((v, e) ∷ items) =
      (e.id ≡ some ((first + j) % 2 ^ 32)) × Numbered first (suc j) items

  abbrev at_start : (first size k : ℕ) → Item c → Bool
  at_start first size k item =
      is_before size (near_wrap first size) ((first + k) % 2 ^ 32) (item_id item)

  at_start_lem :
      (first size j k : ℕ) (item : Item c)
      → item.1.id ≡ some ((first + j) % 2 ^ 32)
      → first < 2 ^ 32
      → 3 * size ≤ 2 ^ 32
      → j < size
      → k < size
      → at_start first size k item ≡ ltb j k
  at_start_lem first size j k (v, e) h a b l m =
      ap (λ id. is_before size (near_wrap first size) ((first + k) % 2 ^ 32) (unwrap_id id)) h
      ∙ before_lem first size j k (near_wrap first size) refl a b l m

  skip-drop_first :
      (first size j d k : ℕ) (items : List (Item c))
      → j + d ≡ k
      → Numbered first j items
      → first < 2 ^ 32
      → 3 * size ≤ 2 ^ 32
      → j + length items ≤ size
      → k < size
      → skip_while (at_start first size k) items ≡ drop_first d items
  skip-drop_first first size j zero k [] e ids a b l m = unfold skip_while in refl
  skip-drop_first first size j (suc d) k [] e ids a b l m = unfold skip_while in refl
  skip-drop_first first size j zero k (item ∷ items) e (h, ids) a b l m =
      let later : ltb j k ≡ false = ground arith in
      skip_while-no (at_start first size k) item items
        (at_start_lem first size j k item h a b (omega arith) m ∙ later)
  skip-drop_first first size j (suc d) k (item ∷ items) e (h, ids) a b l m =
      let earlier : ltb j k ≡ true = ground arith in
      skip_while-yes (at_start first size k) item items
        (at_start_lem first size j k item h a b (omega arith) m ∙ earlier)
      ∙ skip-drop_first first size (suc j) d k items (omega arith) ids a b (omega arith) m

  abbrev replay_with : (size : ℕ) → (zone : Bool) → (start : ℕ) → List (Item c) → List (Item c)
  replay_with size zone start items =
      skip_while (λ item. is_before size zone start (item_id item)) items

  in_zone-Numbered :
      (first size : ℕ) (item : Item c) (items : List (Item c))
      → first < 2 ^ 32
      → Numbered first 0 (item ∷ items)
      → in_zone size (item ∷ items) ≡ near_wrap first size
  in_zone-Numbered first size (v, e) items a (h, ids) =
      let at_first : (first + 0) % 2 ^ 32 ≡ first = omega arith in
      ap (λ id. ltb (id_sub id_max size) (unwrap_id id) || ltb (unwrap_id id) size) h
      ∙ ap (near_wrap_at size) at_first

  -- A client that asks for the id of the `k`-th buffered event gets the buffer from there on, nothing
  -- less and nothing more, wherever the ids wrap round, if the buffer holds consecutive ids and a third
  -- of all ids at most.
  pub requested-drop_first :
      (first capacity k : ℕ) (items : List (Item c))
      → Numbered first 0 items
      → first < 2 ^ 32
      → 3 * capacity ≤ 2 ^ 32
      → length items ≤ capacity
      → k < length items
      → requested capacity ((first + k) % 2 ^ 32) items ≡ drop_first k items
  unfolding requested
  requested-drop_first first capacity zero [] ids a b l m = unfold skip_while in refl
  requested-drop_first first capacity (suc k) [] ids a b l m = unfold skip_while in refl
  requested-drop_first first capacity k (item ∷ items) ids a b l m =
      let size : capacity % 2 ^ 32 ≡ capacity = omega arith in
      let all = item ∷ items in
      let start = (first + k) % 2 ^ 32 in
      ap (λ s. replay_with s (in_zone s all) start all) size
      ∙ ap (λ zone. replay_with capacity zone start all)
          (in_zone-Numbered first capacity item items a ids)
      ∙ skip-drop_first first capacity 0 k k all (omega arith) ids a b (omega arith) (omega arith)
