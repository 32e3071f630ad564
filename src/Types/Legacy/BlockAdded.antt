-- ===== src/Types/Legacy/BlockAdded.antt =====
-- types/src/legacy_sse_data/translate_block_added.rs
pub mod Laws
use mathlib.Core.Option
use casper_sidecar.Prelude.{
  ltb, if◌then◌else◌, ℕ, ◌+◌, ◌-◌, ◌^◌, Option, none, some, List, [], ◌∷◌, map,
}
use casper_sidecar.Types.Casper.{Casper, EraEndV1, EraEndV2, BlockV2}
use casper_sidecar.Types.Legacy.Structs.{LegacyBlock, new_legacy_block}
use casper_sidecar.Types.Legacy.Deploys.{translate_standard, translate_transfers}

-- Additions that panic, here `none`, when they reach the bound.
unfoldable pub sum_within : (bound acc : ℕ) → List ℕ → Option ℕ
sum_within bound acc [] = some acc
sum_within bound acc (x ∷ xs) =
    let rest = sum_within bound (acc + x) xs in if ltb (acc + x) bound then rest else none

-- `v.iter().copied().sum::<U512>()`, which panics on overflow.
unfoldable pub checked_sum : List ℕ → Option ℕ
unfolding sum_within
checked_sum v = sum_within (2 ^ 512) 0 v

-- What `checked_sum` gives where it does not panic. The translation below is that of blocks for which
-- it never does.
unfoldable pub sum : List ℕ → ℕ
sum [] = 0
sum (x ∷ xs) = x + sum xs

abbrev pub u64_max : ℕ
u64_max = 2 ^ 64 - 1

-- The `for` over the rewards, with its early return.
unfoldable pub translate_rewards : {K : Type 0} → List (K × List ℕ) → Option (List (K × ℕ))
unfolding sum
translate_rewards [] = some []
translate_rewards ((k, v) ∷ rest) =
    if ltb u64_max (sum v)
    then none
    else Option.map (λ rs. (k, sum v) ∷ rs) (translate_rewards rest)

module _ {c : Casper} where
  -- `DefaultEraEndV2Translator`
  unfoldable pub translate_era_end : EraEndV2 c → Option (EraEndV1 c)
  unfolding translate_rewards
  translate_era_end era_end = elim (translate_rewards era_end.rewards) [
    | none ↦ none
    | some rewards ↦ some (record {
      equivocators = era_end.equivocators;
      rewards = rewards;
      inactive_validators = era_end.inactive_validators;
      next_era_validator_weights = era_end.next_era_validator_weights;
    })
  ]

  -- `header.era_end().and_then(...)`
  abbrev pub and_then_era_end : Option (EraEndV2 c) → Option (EraEndV1 c)
  and_then_era_end none = none
  and_then_era_end (some e) = translate_era_end e

  -- `DefaultBlockV2Translator` with the default translators of its parts
  unfoldable pub translate_block_v2 : BlockV2 c → Option (LegacyBlock c)
  unfolding new_legacy_block
  translate_block_v2 block =
      let header = block.header in
      some (
        new_legacy_block header.parent_hash header.state_root_hash header.body_hash
          header.random_bit header.accumulated_seed (and_then_era_end header.era_end)
          header.timestamp header.era_id header.height header.protocol_version header.proposer
          block.hash (translate_standard block.body) (translate_transfers block.body))
