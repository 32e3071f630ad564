-- ===== src/Types/Casper.antt =====
-- What types/src uses of the `casper_types` crate. Its leaf types and their printers are a
-- parameter; its enums and records have the variants and the getters that the source names.
use casper_sidecar.Prelude.{ℕ, String, Bool, Option, List}

pub record Casper : Type 1 where
  pub ProtocolVersion : Type 0
  pub BlockHash : Type 0
  pub Digest : Type 0
  pub DeployHash : Type 0
  pub TransactionV1Hash : Type 0
  pub Deploy : Type 0
  pub TransactionV1 : Type 0
  pub PublicKey : Type 0
  pub AccountHash : Type 0
  pub Signature : Type 0
  pub ChainNameDigest : Type 0
  pub Timestamp : Type 0
  pub TimeDiff : Type 0
  pub EraId : Type 0
  pub Messages : Type 0
  pub RawValue : Type 0
  pub Transfer : Type 0
  pub Operation : Type 0
  -- amounts, keys and stored values
  pub Number : Type 0
  pub Key : Type 0
  pub TransformError : Type 0
  pub ClValue : Type 0
  pub Stored : Type 0
  pub NamedKeyValue : Type 0
  pub to_formatted_string : Key → String
  pub key_to_string : Key → String
  pub error_to_string : TransformError → String
  pub get_key : NamedKeyValue → Option Key
  pub get_name : NamedKeyValue → Option String
  pub account_hash : Stored → AccountHash
  -- the id of the lane of native transfers
  pub mint_lane_id : ℕ

pub data TransactionHash (c : Casper) : Type 0 where
  deploy_hash : c.DeployHash → TransactionHash c
  v1_hash : c.TransactionV1Hash → TransactionHash c

pub data Transaction (c : Casper) : Type 0 where
  deploy : c.Deploy → Transaction c
  v1_transaction : c.TransactionV1 → Transaction c

pub data InitiatorAddr (c : Casper) : Type 0 where
  public_key : c.PublicKey → InitiatorAddr c
  account_hash : c.AccountHash → InitiatorAddr c

-- The getters that the two versions of a finality signature share.
pub record SignatureParts (c : Casper) : Type 0 where
  pub signed_block : c.BlockHash
  pub signed_era : c.EraId
  pub signature : c.Signature
  pub signer : c.PublicKey

pub data FinalitySignature (c : Casper) : Type 0 where
  signature_v1 : SignatureParts c → FinalitySignature c
  signature_v2 : c.ChainNameDigest → SignatureParts c → FinalitySignature c

pub record EraEndV1 (c : Casper) : Type 0 where
  pub equivocators : List c.PublicKey
  pub rewards : List (c.PublicKey × ℕ)
  pub inactive_validators : List c.PublicKey
  pub next_era_validator_weights : List (c.PublicKey × ℕ)

-- Rewards are lists of 512-bit amounts.
pub record EraEndV2 (c : Casper) : Type 0 where
  pub equivocators : List c.PublicKey
  pub rewards : List (c.PublicKey × List ℕ)
  pub inactive_validators : List c.PublicKey
  pub next_era_validator_weights : List (c.PublicKey × ℕ)

-- The arguments of `BlockHeaderV1::new`.
pub record BlockHeaderV1 (c : Casper) : Type 0 where
  pub parent_hash : c.BlockHash
  pub state_root_hash : c.Digest
  pub body_hash : c.Digest
  pub random_bit : Bool
  pub accumulated_seed : c.Digest
  pub era_end : Option (EraEndV1 c)
  pub timestamp : c.Timestamp
  pub era_id : c.EraId
  pub height : ℕ
  pub protocol_version : c.ProtocolVersion
  pub cached_hash : c.BlockHash

-- A body of a 1.x block, and the copy of its type that the legacy format has.
pub record BlockBodyV1 (c : Casper) : Type 0 where
  pub proposer : c.PublicKey
  pub deploy_hashes : List c.DeployHash
  pub transfer_hashes : List c.DeployHash

pub record BlockV1 (c : Casper) : Type 0 where
  pub hash : c.BlockHash
  pub header : BlockHeaderV1 c
  pub body : BlockBodyV1 c

pub record BlockHeaderV2 (c : Casper) : Type 0 where
  pub parent_hash : c.BlockHash
  pub state_root_hash : c.Digest
  pub body_hash : c.Digest
  pub random_bit : Bool
  pub accumulated_seed : c.Digest
  pub era_end : Option (EraEndV2 c)
  pub timestamp : c.Timestamp
  pub era_id : c.EraId
  pub height : ℕ
  pub protocol_version : c.ProtocolVersion
  pub proposer : c.PublicKey

-- `transactions` lists the lanes; `mint` is the crate's own view of the lane of transfers.
pub record BlockBodyV2 (c : Casper) : Type 0 where
  pub transactions : List (ℕ × List (TransactionHash c))
  pub mint : List (TransactionHash c)

pub record BlockV2 (c : Casper) : Type 0 where
  pub hash : c.BlockHash
  pub header : BlockHeaderV2 c
  pub body : BlockBodyV2 c

pub data Block (c : Casper) : Type 0 where
  block_v1 : BlockV1 c → Block c
  block_v2 : BlockV2 c → Block c

pub data StoredValue (c : Casper) : Type 0 where
  cl_value : c.ClValue → StoredValue c
  account contract_wasm contract contract_package transfer deploy_info : c.Stored → StoredValue c
  era_info bid withdraw unbonding : c.Stored → StoredValue c
  named_key : c.NamedKeyValue → StoredValue c
  addressable_entity bid_kind smart_contract byte_code message_topic : c.Stored → StoredValue c
  message prepayment entry_point raw_bytes : c.Stored → StoredValue c

pub data TransformKindV2 (c : Casper) : Type 0 where
  identity : TransformKindV2 c
  write : StoredValue c → TransformKindV2 c
  add_int32 add_uint64 add_uint128 add_uint256 add_uint512 : c.Number → TransformKindV2 c
  add_keys : List (String × c.Key) → TransformKindV2 c
  prune : c.Key → TransformKindV2 c
  failure : c.TransformError → TransformKindV2 c

pub data TransformKindV1 (c : Casper) : Type 0 where
  identity : TransformKindV1 c
  write_cl_value : c.ClValue → TransformKindV1 c
  write_account : c.AccountHash → TransformKindV1 c
  write_contract_wasm write_contract write_contract_package : TransformKindV1 c
  write_transfer write_deploy_info write_era_info : c.Stored → TransformKindV1 c
  write_bid write_withdraw write_unbonding : c.Stored → TransformKindV1 c
  add_int32 add_uint64 add_uint128 add_uint256 add_uint512 : c.Number → TransformKindV1 c
  add_keys : List (String × String) → TransformKindV1 c
  prune : c.Key → TransformKindV1 c
  failure : String → TransformKindV1 c

pub record TransformV2 (c : Casper) : Type 0 where
  pub key : c.Key
  pub kind : TransformKindV2 c

pub record TransformV1 (c : Casper) : Type 0 where
  pub key : String
  pub transform : TransformKindV1 c

pub record ExecutionEffect (c : Casper) : Type 0 where
  pub operations : List c.Operation
  pub transforms : List (TransformV1 c)

pub data ExecutionResultV1 (c : Casper) : Type 0 where
  failure :
      ExecutionEffect c
      → List c.Transfer
      → (cost : c.Number) → (error_message : String) → ExecutionResultV1 c
  success : ExecutionEffect c → List c.Transfer → (cost : c.Number) → ExecutionResultV1 c

pub record ExecutionResultV2 (c : Casper) : Type 0 where
  pub effects : List (TransformV2 c)
  pub error_message : Option String
  pub cost : c.Number

pub data ExecutionResult (c : Casper) : Type 0 where
  result_v1 : ExecutionResultV1 c → ExecutionResult c
  result_v2 : ExecutionResultV2 c → ExecutionResult c
