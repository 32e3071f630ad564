-- ===== src/NodeClient/Tests.antt =====
-- The theorems on rpc_sidecar/src/node_client.rs and its cache at concrete requests.
use casper_sidecar.Prelude.{
  length, ◌≤◌, ◌≡◌, refl, subst, ◌↔◌, ◌⊎◌, none, some, [], ◌∷◌, ◌++◌, arith,
}
use casper_sidecar.Prelude.Result.{ok, err}
use casper_sidecar.NodeClient.Code.{ErrorCode}
use casper_sidecar.NodeClient.Error.{request_response_id_mismatch, connection_lost}
use casper_sidecar.NodeClient.FromCode.{from_error_code}
use casper_sidecar.NodeClient.FromCode.Laws.{from_error_code_iff}
use casper_sidecar.NodeClient.Port.{
  Bytes, encode_request, extract_header, original_id, validate_response,
}
use casper_sidecar.NodeClient.Port.Laws.{Serializes, validate_response-encode_request}
use casper_sidecar.NodeClient.Instance.{
  header_of, first_of_two, length_bytes, small_port, small_codes, World, small_network,
  small_config, echo, client_at,
}
use casper_sidecar.NodeClient.Client.Laws.{Found, read_responses_iff}
use casper_sidecar.NodeClient.Connect.{connect_with_retries}
use casper_sidecar.NodeClient.Client.Answers.{following, send_request-Answers}
use casper_sidecar.NodeClient.Client.Returns.{Returns, send_request-Returns, send_request-recovers}
use casper_sidecar.NodeClient.Client.{read_responses, send_request_internal, send_request}
use casper_sidecar.NodeClient.Connect.Laws.{Connects, GivesUp, connect_with_retries-ends}

same_error : from_error_code small_codes 1 ≡ from_error_code small_codes 2
same_error =
    (from_error_code_iff small_codes {c = ErrorCode.deploy_missing_payment_amount}
        {d = ErrorCode.invalid_deploy_missing_payment_amount} refl refl refl).1
      refl

small_laws : Serializes small_port length_bytes
small_laws = record {
  id_kept = λ tag id. refl;
  header_back = λ h bytes rest e.
      let eq : 7 ∷ 0 ∷ h.0 ∷ h.1 ∷ [] ≡ bytes = cc in
      subst (λ (b : Bytes). header_of (b ++ rest) ≡ ok (h, rest)) eq refl;
  version_first = λ h bytes rest e.
      let eq : 7 ∷ 0 ∷ h.0 ∷ h.1 ∷ [] ≡ bytes = cc in
      subst
        (λ (b : Bytes). (2 ≤ length b) × (more : Bytes) × (first_of_two (b ++ rest) ≡ ok (7, more)))
        eq (omega arith, _, refl);
  length_four = λ n. refl;
  length_back = λ n rest h. refl;
}

echoed :
    validate_response small_port (5 ∷ 0 ∷ 0 ∷ 0 ∷ 7 ∷ 0 ∷ 9 ∷ 3 ∷ 9 ∷ []) 4
    ≡ err (request_response_id_mismatch 4 3)
echoed =
    validate_response-encode_request small_port length_bytes small_laws 9 3 4
      (7 ∷ 0 ∷ 9 ∷ 3 ∷ 9 ∷ []) (5 ∷ 0 ∷ 0 ∷ 0 ∷ 7 ∷ 0 ∷ 9 ∷ 3 ∷ 9 ∷ [])
      (unfold encode_request in refl) (omega arith) refl

third_attempt :
    Connects small_network small_config 2 1000
      (2, [])
      (connect_with_retries small_network small_config (2, []))
    ⊎ GivesUp small_network small_config 2 1000
        (2, [])
        (connect_with_retries small_network small_config (2, []))
third_attempt = connect_with_retries-ends small_network small_config (2, []) (omega arith)

third_attempt_connects :
    connect_with_retries small_network small_config (2, []) ≡ some (ok 1, (0, []))
unfolding connect_with_retries
third_attempt_connects = refl

after_outdated :
    (read_responses small_port small_network 2 4 1 (0, some (echo 2) ∷ some (echo 4) ∷ [])
      ≡ (ok (echo 4), (0, [])))
    ↔ Found small_port small_network 1 4 2 (0, some (echo 2) ∷ some (echo 4) ∷ []) (echo 4) (0, [])
after_outdated =
    read_responses_iff small_port small_network 1 4 2 (0, some (echo 2) ∷ some (echo 4) ∷ [])
      (0, []) (echo 4)

-- Two attempts to connect fail; an outdated response arrives before the right one.
abbrev troubled : World
troubled = (2, none ∷ some (echo 2) ∷ some (echo 4) ∷ [])

echo_4-Found :
    Found small_port small_network 1 4 100 (0, some (echo 2) ∷ some (echo 4) ∷ []) (echo 4) (0, [])
unfolding original_id extract_header
echo_4-Found = (
  1,
  (0, some (echo 4) ∷ []),
  omega arith,
  (echo 2, (0, some (echo 4) ∷ []), (echo 2, refl, refl), omega arith, refl),
  (echo 4, refl, refl),
  refl,
)

first_try :
    send_request_internal small_port small_network 9 (client_at 3 troubled)
    ≡ (some (err connection_lost), client_at 4 (2, some (echo 2) ∷ some (echo 4) ∷ []))
unfolding send_request_internal read_responses
first_try = refl

recovered :
    send_request small_port small_network small_config 9 (client_at 3 troubled)
    ≡ (some (ok (echo 4)), client_at 5 (0, []))
recovered =
    send_request-recovers small_port small_network small_config 9 (client_at 3 troubled)
      (client_at 4 (2, some (echo 2) ∷ some (echo 4) ∷ [])) connection_lost 1 troubled
      (0, some (echo 2) ∷ some (echo 4) ∷ []) (0, some (echo 2) ∷ some (echo 4) ∷ [])
      (0, some (echo 2) ∷ some (echo 4) ∷ []) (0, []) (7 ∷ 0 ∷ 9 ∷ 4 ∷ 9 ∷ []) (echo 4) 2 refl
      first_try refl (omega arith) (omega arith)
      (
        "refused",
        (1, some (echo 2) ∷ some (echo 4) ∷ []),
        refl,
        ("refused", (0, some (echo 2) ∷ some (echo 4) ∷ []), refl, refl),
      )
      refl (unfold encode_request in refl) refl echo_4-Found

answered :
    ((original_id small_port (echo 4) ≡ 3) ⊎ (original_id small_port (echo 4) ≡ 4))
    × (5 ≡ following small_port small_network (original_id small_port (echo 4)))
answered =
    send_request-Answers small_port small_network small_config 9 (client_at 3 troubled)
      (client_at 5 (0, [])) (echo 4) recovered

returned :
    Returns small_port small_network
      (send_request small_port small_network small_config 9 (client_at 3 troubled))
returned =
    send_request-Returns small_port small_network small_config 9 (client_at 3 troubled)
      (λ id. (7 ∷ 0 ∷ 9 ∷ id ∷ 9 ∷ [], unfold encode_request in refl)) (omega arith)
