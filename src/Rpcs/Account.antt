-- ===== src/Rpcs/Account.antt =====
-- rpc_sidecar/src/rpcs/account.rs: the methods that hand a transaction to the node.
use casper_sidecar.Prelude.Result.{ok}
use casper_sidecar.NodeClient.Error
use casper_sidecar.NodeClient.Call.{◌>>=◌, map_call_err, returns}
use casper_sidecar.NodeClient.Port.{BinaryPort}
use casper_sidecar.NodeClient.Types.{PortTypes}
use casper_sidecar.Rpcs.Error.{
  ErrorTypes, RpcsError, node_request, invalid_transaction, invalid_deploy,
}
use casper_sidecar.Rpcs.Client.{NodeClient, ValueTypes}
use casper_sidecar.Rpcs.Common.{Method}

module _ {S : Type 0} {port : BinaryPort} {types : PortTypes port} {more : ErrorTypes types}
    (values : ValueTypes types more) (node_client : NodeClient S types) where
  abbrev pub deploy_failed : Error.Error → RpcsError types more
  deploy_failed (Error.invalid_transaction e) = invalid_deploy e
  deploy_failed e = node_request "submitting a deploy" e

  abbrev pub transaction_failed : Error.Error → RpcsError types more
  transaction_failed (Error.invalid_transaction e) = invalid_transaction e
  transaction_failed e = node_request "submitting a transaction" e

  -- "account_put_deploy"
  unfoldable pub put_deploy : (deploy : values.Deploy) → Method values node_client more.DeployHash
  put_deploy deploy = do
    done ←
        map_call_err deploy_failed (node_client.try_accept_transaction (values.deploy_into deploy))
    returns (ok (values.deploy_hash deploy))

  -- "account_put_transaction"
  unfoldable pub put_transaction :
      (transaction : types.Transaction) → Method values node_client types.TransactionHash
  put_transaction transaction = do
    done ← map_call_err transaction_failed (node_client.try_accept_transaction transaction)
    returns (ok (values.transaction_hash transaction))
