-- ===== src/Types/Legacy/BlockAdded/Laws.antt =====
-- When types/src/legacy_sse_data/translate_block_added.rs keeps the end of an era.
use casper_sidecar.Prelude.{
  leb, All, ap, ◌∙◌, ◌+◌, ◌^◌, ◌<◌, if◌then◌else◌, ℕ, ◌≡◌, refl, Bool, true, ◌&&◌, Option, none,
  some, List, [], ◌∷◌, arith,
}
use casper_sidecar.Types.Casper.{Casper, EraEndV1, EraEndV2, BlockV2}
use casper_sidecar.Types.Legacy.Structs.{LegacyBlock}
use casper_sidecar.Types.Legacy.BlockAdded.{
  sum_within, checked_sum, sum, u64_max, translate_rewards, translate_era_end, and_then_era_end,
  translate_block_v2,
}

-- Does every reward, summed, fit 64 bits?
abbrev pub all_fit : {K : Type 0} → List (K × List ℕ) → Bool
all_fit [] = true
all_fit ((k, v) ∷ rest) = leb (sum v) u64_max && all_fit rest

abbrev pub summed : {K : Type 0} → List (K × List ℕ) → List (K × ℕ)
summed [] = []
summed ((k, v) ∷ rest) = (k, sum v) ∷ summed rest

translate_rewards_lem :
    {K : Type 0} (rewards : List (K × List ℕ))
    → translate_rewards rewards ≡ (if all_fit rewards then some (summed rewards) else none)
unfolding translate_rewards
translate_rewards_lem [] = refl
translate_rewards_lem ((k, v) ∷ rest) =
    rw (translate_rewards_lem rest, translate_rewards) (ground arith)

sum_within-fits :
    (bound acc : ℕ) (v : List ℕ) → acc + sum v < bound → sum_within bound acc v ≡ some (acc + sum v)
unfolding sum_within sum
sum_within-fits bound acc [] h = ap some (omega arith)
sum_within-fits bound acc (x ∷ v) h =
    let inner : acc + x + sum v < bound = omega arith in
    let below : acc + x < bound = omega arith in
    let same : acc + x + sum v ≡ acc + (x + sum v) = omega arith in
    ground (arith, sum_within-fits bound (acc + x) v inner, same)

sum_within_zero : (bound : ℕ) (v : List ℕ) → sum v < bound → sum_within bound 0 v ≡ some (sum v)
sum_within_zero bound v h =
    let inner : 0 + sum v < bound = omega arith in
    let same : 0 + sum v ≡ sum v = omega arith in sum_within-fits bound 0 v inner ∙ ap some same

-- Each reward's amounts sum up to less than 2^512.
abbrev pub FitU512 : {K : Type 0} → List (K × List ℕ) → Type 0
FitU512 rewards = All (λ r. sum r.1 < 2 ^ 512) rewards

-- No sum of a reward's amounts panics.
abbrev pub NonePanics : {K : Type 0} → List (K × List ℕ) → Type 0
NonePanics rewards = All (λ r. checked_sum r.1 ≡ some (sum r.1)) rewards

pub rewards-NonePanics :
    {K : Type 0} (rewards : List (K × List ℕ)) → FitU512 rewards → NonePanics rewards
unfolding checked_sum
rewards-NonePanics [] h = tt
rewards-NonePanics ((k, v) ∷ rest) (h, hs) =
    (sum_within_zero (2 ^ 512) v h, rewards-NonePanics rest hs)

module _ {c : Casper} where
  -- The legacy end of an era: every reward summed.
  abbrev pub summed_end : EraEndV2 c → EraEndV1 c
  summed_end e = record {
    equivocators = e.equivocators;
    rewards = summed e.rewards;
    inactive_validators = e.inactive_validators;
    next_era_validator_weights = e.next_era_validator_weights;
  }

  abbrev pub kept_end : Option (EraEndV2 c) → Option (EraEndV1 c)
  kept_end none = none
  kept_end (some e) = if all_fit e.rewards then some (summed_end e) else none

  and_then_era_end_lem : (o : Option (EraEndV2 c)) → and_then_era_end o ≡ kept_end o
  and_then_era_end_lem none = refl
  and_then_era_end_lem (some e) =
      unfold translate_era_end in
      rw (translate_rewards_lem e.rewards, and_then_era_end, translate_era_end) (ground arith)

  abbrev pub rewards_of : Option (EraEndV2 c) → List (c.PublicKey × List ℕ)
  rewards_of none = []
  rewards_of (some e) = e.rewards

  -- A 2.x block has a legacy form, with its hash and its height, if each reward sums up to less
  -- than 2^512: then no sum panics. The end of its era is kept, with every reward summed, exactly
  -- when each sum fits 64 bits; if one does not, the legacy block looks like one that ends no era.
  pub translate_block_v2_lem :
      (b : BlockV2 c)
      → FitU512 (rewards_of b.header.era_end)
      → NonePanics (rewards_of b.header.era_end)
        × (r : LegacyBlock c) × (translate_block_v2 b ≡ some r)
        × (r.hash ≡ b.hash)
        × (r.header.height ≡ b.header.height)
        × (r.header.era_end ≡ kept_end b.header.era_end)
  unfolding translate_block_v2
  translate_block_v2_lem b h = (
    rewards-NonePanics (rewards_of b.header.era_end) h,
    _,
    refl,
    refl,
    refl,
    and_then_era_end_lem b.header.era_end,
  )
