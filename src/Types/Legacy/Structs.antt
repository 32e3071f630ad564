-- ===== src/Types/Legacy/Structs.antt =====
-- types/src/legacy_sse_data/structs.rs: the blocks of the legacy format.
use casper_sidecar.Prelude.{ℕ, Bool, Option, List}
use casper_sidecar.Types.Casper.{Casper, EraEndV1, BlockHeaderV1, BlockBodyV1}

pub record LegacyBody (c : Casper) : Type 0 where
  pub proposer : c.PublicKey
  pub deploy_hashes : List c.DeployHash
  pub transfer_hashes : List c.DeployHash

pub record LegacyBlock (c : Casper) : Type 0 where
  pub hash : c.BlockHash
  pub header : BlockHeaderV1 c
  pub body : LegacyBody c

module _ {c : Casper} where
  -- `structs::BlockV1::new`
  unfoldable pub new_legacy_block :
      (parent_hash : c.BlockHash)
      → (state_root_hash body_hash : c.Digest) → (random_bit : Bool) → (accumulated_seed : c.Digest)
      → (era_end : Option (EraEndV1 c)) → c.Timestamp
      → c.EraId
      → (height : ℕ) → c.ProtocolVersion
      → (proposer : c.PublicKey) → (block_hash : c.BlockHash)
      → (deploy_hashes transfer_hashes : List c.DeployHash) → LegacyBlock c
  new_legacy_block parent root body_hash bit seed era_end time era height version proposer hash
        deploys transfers =
      record {
        hash = hash;
        header = record {
          parent_hash = parent;
          state_root_hash = root;
          body_hash = body_hash;
          random_bit = bit;
          accumulated_seed = seed;
          era_end = era_end;
          timestamp = time;
          era_id = era;
          height = height;
          protocol_version = version;
          cached_hash = hash;
        };
        body = record { proposer = proposer; deploy_hashes = deploys; transfer_hashes = transfers };
      }

  -- `structs::BlockV1::from`
  unfoldable pub legacy_block_from : c.BlockHash → BlockHeaderV1 c → BlockBodyV1 c → LegacyBlock c
  legacy_block_from hash header body = record {
    hash = hash;
    header = header;
    body = record {
      proposer = body.proposer;
      deploy_hashes = body.deploy_hashes;
      transfer_hashes = body.transfer_hashes;
    };
  }
