-- ===== src/NodeClient/Instance.antt =====
-- A small binary port: every type but that of responses is the type of numbers.
use casper_sidecar.Prelude.{ℕ, zero, suc, String, true, false, Option, none, some, List, [], ◌∷◌}
use casper_sidecar.Prelude.Result.{Result, ok, err}
use casper_sidecar.NodeClient.Code.{ErrorCode}
use casper_sidecar.NodeClient.FromCode.{Codes}
use casper_sidecar.NodeClient.Port.{Bytes, BinaryPort}
use casper_sidecar.NodeClient.Types.{PortTypes}
use casper_sidecar.NodeClient.Network.{NodeClientConfig, Network}
use casper_sidecar.NodeClient.Client.{FramedNodeClient}

abbrev pub first : Bytes → Result ℕ String
first [] = err "early end of stream"
first (x ∷ rest) = ok x

abbrev pub number : Option ℕ → ℕ
number none = 0
number (some n) = n

-- A header is the version in two bytes, its tag and its id.
abbrev pub header_of : Bytes → Result ((ℕ × ℕ) × Bytes) String
header_of (v ∷ w ∷ tag ∷ id ∷ rest) = ok ((tag, id), rest)
header_of _ = err "early end of stream"

abbrev pub first_of_two : Bytes → Result (ℕ × Bytes) String
first_of_two (a ∷ b ∷ rest) = ok (a, rest)
first_of_two _ = err "early end of stream"

abbrev pub first_of_four : Bytes → Result (ℕ × Bytes) String
first_of_four (a ∷ b ∷ c ∷ d ∷ rest) = ok (a, rest)
first_of_four _ = err "early end of stream"

-- The numbers of a list are not bounded here.
abbrev pub length_bytes : ℕ → Bytes
length_bytes n = n ∷ 0 ∷ 0 ∷ 0 ∷ []

abbrev pub small_port : BinaryPort
small_port = record {
  Command = ℕ;
  CommandHeader = ℕ × ℕ;
  Response = Bytes;
  BinaryResponse = Bytes;
  tag = λ c. c;
  new_header = λ tag id. (tag, id);
  header_id = λ h. h.1;
  header_version = 7;
  header_to_bytes = λ h. ok (7 ∷ 0 ∷ h.0 ∷ h.1 ∷ []);
  header_from_bytes = header_of;
  command_to_bytes = λ c. ok (c ∷ []);
  u16_from_bytes = first_of_two;
  u32_from_bytes = first_of_four;
  response_from_bytes = λ b. ok b;
  request = λ r. r;
  response = λ r. r;
  is_not_found = λ r. false;
  is_success = λ r. true;
  error_code = λ r. 0;
  returned_data_type_tag = λ r. some 1;
  payload = λ r. r;
}

abbrev pub code_of_number : ℕ → Result ErrorCode String
code_of_number zero = ok ErrorCode.no_error
code_of_number (suc zero) = ok ErrorCode.deploy_missing_payment_amount
code_of_number (suc (suc zero)) = ok ErrorCode.invalid_deploy_missing_payment_amount
code_of_number _ = err "unknown code"

abbrev pub text_of : ErrorCode → String
text_of ErrorCode.wasm_preprocessing = "wasm preprocessing failed"
text_of _ = "invalid"

abbrev pub small_codes : Codes
small_codes = record { try_from = code_of_number; to_string = text_of; no_error_number = 0 }

abbrev pub small_types : PortTypes small_port
small_types = record {
  RecordId = ℕ;
  GetRequest = ℕ;
  InformationRequest = ℕ;
  GlobalStateRequest = ℕ;
  GlobalStateEntityQualifier = ℕ;
  GlobalStateIdentifier = ℕ;
  Key = ℕ;
  KeyTag = ℕ;
  KeyPrefix = ℕ;
  PurseIdentifier = ℕ;
  DictionaryItemIdentifier = ℕ;
  Digest = ℕ;
  Transaction = ℕ;
  BlockHash = ℕ;
  BlockIdentifier = ℕ;
  TransactionHash = ℕ;
  EraIdentifier = ℕ;
  PublicKey = ℕ;
  DelegatorKind = ℕ;
  PackageIdentifier = ℕ;
  EntityIdentifier = ℕ;
  GlobalStateQueryResult = ℕ;
  StoredValue = ℕ;
  BalanceResponse = ℕ;
  GetTrieFullResult = ℕ;
  DictionaryQueryResult = ℕ;
  SpeculativeExecutionResult = ℕ;
  Transfer = ℕ;
  BlockHeader = ℕ;
  BlockWithSignatures = ℕ;
  TransactionWithExecutionInfo = ℕ;
  Peers = ℕ;
  AvailableBlockRange = ℕ;
  ChainspecRawBytes = ℕ;
  ConsensusValidatorChanges = ℕ;
  NodeStatus = ℕ;
  RewardResponse = ℕ;
  Package = ℕ;
  ContractPackage = ℕ;
  AddressableEntityInformation = ℕ;
  AccountInformation = ℕ;
  ContractInformation = ℕ;
  get_command = λ g. g;
  try_accept_transaction_command = λ a. 0;
  try_speculative_exec_command = λ a. 0;
  record_request = λ a b. 0;
  state_request = λ a. a;
  trie_request = λ a. a;
  transfer_record = 0;
  record_tag = λ a. a;
  info_try_into = λ i. ok i;
  new_state_request = λ a b. 0;
  item = λ a b. 0;
  all_items = λ a. 0;
  items_by_prefix = λ a. 0;
  balance = λ a. 0;
  dictionary_item = λ a. 0;
  block_header_info = λ a. 0;
  block_with_signatures_info = λ i. number i;
  transaction_info = λ a b. 0;
  peers_info = 0;
  available_block_range_info = 0;
  chainspec_raw_bytes_info = 0;
  consensus_validator_changes_info = 0;
  latest_switch_block_header_info = 0;
  node_status_info = 0;
  reward_info = λ a b c. 0;
  package_info = λ a b. 0;
  entity_info = λ a b c. 0;
  delegator_public_key = λ k. k;
  height_identifier = λ h. h;
  trie_into_inner = λ r. some (r ∷ []);
  hash_to_bytes = λ h. ok (h ∷ []);
  block_height = λ b. b;
  chainspec_name = λ s. "casper";
  contract_package_tag = 0;
  contract_information_tag = 0;
  account_information_tag = 0;
  query_result = record { response_type = 1; from_bytes = first };
  stored_values = record { response_type = 1; from_bytes = λ b. ok b };
  balance_response = record { response_type = 1; from_bytes = first };
  trie_result = record { response_type = 1; from_bytes = first };
  dictionary_result = record { response_type = 1; from_bytes = first };
  speculative_result = record { response_type = 1; from_bytes = first };
  transfers = record { response_type = 1; from_bytes = λ b. ok b };
  block_header = record { response_type = 1; from_bytes = first };
  block_with_signatures = record { response_type = 1; from_bytes = first };
  transaction_with_info = record { response_type = 1; from_bytes = first };
  peers = record { response_type = 1; from_bytes = first };
  available_block_range = record { response_type = 1; from_bytes = first };
  chainspec_raw_bytes = record { response_type = 1; from_bytes = first };
  validator_changes = record { response_type = 1; from_bytes = first };
  node_status = record { response_type = 1; from_bytes = first };
  reward_response = record { response_type = 1; from_bytes = first };
  package_value = record { response_type = 1; from_bytes = first };
  contract_package = record { response_type = 1; from_bytes = first };
  addressable_entity = record { response_type = 1; from_bytes = first };
  account = record { response_type = 1; from_bytes = first };
  contract = record { response_type = 1; from_bytes = first };
}

-- A world says how many attempts to connect will fail, and what then arrives: `none` is the end
-- of a stream.
abbrev pub World : Type 0
World = ℕ × List (Option Bytes)

abbrev pub connect : World → Result ℕ String × World
connect (zero, messages) = (ok 1, (0, messages))
connect (suc n, messages) = (err "refused", (n, messages))

abbrev pub arrive : World → Option (Option (Result Bytes String)) × World
arrive (n, []) = (none, (n, []))
arrive (n, none ∷ messages) = (some none, (n, messages))
arrive (n, some b ∷ messages) = (some (some (ok b)), (n, messages))

abbrev pub small_network : Network ℕ World
small_network = record {
  connect = connect;
  sleep = λ ms w. w;
  send = λ c b w. (some (ok tt), w);
  next = λ c w. arrive w;
  close = λ c w. w;
  acquire = λ w. (true, w);
  cut = λ w. none;
  register_timeout = λ s w. w;
  register_mismatched_id = λ w. w;
  inc_disconnect = λ w. w;
  observe_reconnect_time = λ w. w;
}

abbrev pub small_config : NodeClientConfig
small_config = record {
  tcp_socket = "127.0.0.1:7779";
  exponential_backoff = record {
    initial_delay_ms = 1000;
    max_delay_ms = 64000;
    coefficient = 2;
    max_attempts = 3;
  };
}

-- The echo of request 9 under an id.
abbrev pub echo : (id : ℕ) → Bytes
echo id = 5 ∷ 0 ∷ 0 ∷ 0 ∷ 7 ∷ 0 ∷ 9 ∷ id ∷ 9 ∷ []

abbrev pub client_at : (id : ℕ) → World → FramedNodeClient ℕ World
client_at id w = record { client = 1; reconnect_permit = false; current_request_id = id; world = w }
