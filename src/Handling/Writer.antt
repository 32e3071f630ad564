-- ===== src/Handling/Writer.antt =====
-- event_sidecar/src/database/writer_generator.rs: how an event is saved, as the DatabaseWriter of a database.
-- The statements that sea_query makes are the data type Insert; sqlx and the database are the parameter Sql.
pub mod Laws
pub mod Instance
use casper_sidecar.Prelude.{ℕ, String, Option, none, some, List, [], ◌∷◌}
use casper_sidecar.Prelude.Decimal.{decimal}
use casper_sidecar.Prelude.Result.{Result, ok, err, ◌>>=◌}
use casper_sidecar.Prelude.Text.{format}
use casper_sidecar.Types.Casper.{
  Casper, TransactionHash, deploy_hash, v1_hash, Transaction, FinalitySignature, signature_v1,
  signature_v2, SignatureParts, Block,
}
use casper_sidecar.Types.SseData.{
  SseData, block_added, transaction_accepted, transaction_processed, transaction_expired, fault,
  finality_signature, step,
}
use casper_sidecar.Handling.Service.{DatabaseWriteError}
use casper_sidecar.Handling.Saving.{Origin, Save, DatabaseWriter}

-- The `create_insert_stmt` of each table in event_sidecar/src/sql/tables but that of the event log.
pub data Insert : Type 0 where
  insert_block_added : (height : ℕ) → (block_hash raw : String) → (event_log_id : ℕ) → Insert
  insert_transaction_accepted insert_transaction_processed insert_transaction_expired :
      (transaction_type : ℕ) → (transaction_hash raw : String) → (event_log_id : ℕ) → Insert
  insert_transaction_event :
      (event_log_id transaction_type : ℕ) → (transaction_hash : String) → Insert
  insert_fault : (era : ℕ) → (public_key raw : String) → (event_log_id : ℕ) → Insert
  insert_finality_signature : (block_hash public_key raw : String) → (event_log_id : ℕ) → Insert
  insert_step : (era : ℕ) → (raw : String) → (event_log_id : ℕ) → Insert
  insert_shutdown : (event_source_address : String) → (event_log_id : ℕ) → Insert

-- A table with the columns of its primary key, as texts.
abbrev pub PrimaryKey : Type 0
PrimaryKey = List String

-- The primary keys that each `create_table_stmt` declares. That of a shutdown has a time that the database
-- adds: the statement does not fix it.
unfoldable pub primary_key : Insert → Option PrimaryKey
unfolding decimal
primary_key (insert_block_added height block_hash raw id) =
    some ("BlockAdded" ∷ block_hash ∷ decimal height ∷ [])
primary_key (insert_transaction_accepted type hash raw id) =
    some ("TransactionAccepted" ∷ decimal type ∷ hash ∷ [])
primary_key (insert_transaction_processed type hash raw id) =
    some ("TransactionProcessed" ∷ hash ∷ decimal type ∷ [])
primary_key (insert_transaction_expired type hash raw id) = some ("TransactionExpired" ∷ hash ∷ [])
primary_key (insert_transaction_event id type hash) =
    some ("TransactionEvent" ∷ hash ∷ decimal type ∷ decimal id ∷ [])
primary_key (insert_fault era public_key raw id) = some ("Fault" ∷ decimal era ∷ public_key ∷ [])
primary_key (insert_finality_signature block_hash public_key raw id) =
    some ("FinalitySignature" ∷ block_hash ∷ public_key ∷ [])
primary_key (insert_step era raw id) = some ("Step" ∷ decimal era ∷ [])
primary_key (insert_shutdown source id) = none

-- What the writer uses of sqlx, on a database `Db` and an open transaction `Tx`. A transaction that is not
-- committed leaves the database as `begin` did.
pub record Sql (Db Tx : Type 0) : Type 0 where
  pub begin : Db → Result Tx DatabaseWriteError × Db
  pub insert_event_log :
      (event_type_id : ℕ) → Origin → (event_key : String) → Tx → Result (ℕ × Tx) DatabaseWriteError
  pub execute : List Insert → Tx → Result Tx DatabaseWriteError
  pub commit : Tx → Db → Result (Unit {0}) DatabaseWriteError × Db
  pub unix_timestamp : Db → ℕ

-- What it uses of casper_types and serde: the texts and numbers of the parts of an event, and its JSON.
pub record Encoding (c : Casper) : Type 0 where
  pub hex_of_block_hash : c.BlockHash → String
  pub height : Block c → ℕ
  pub hash : Transaction c → TransactionHash c
  pub transaction_hash_to_identifier : TransactionHash c → String
  pub era_value : c.EraId → ℕ
  pub to_hex : c.PublicKey → String
  pub to_string : SseData c → Result String DatabaseWriteError

module _ {c : Casper} where
  unfoldable pub transaction_type_id : TransactionHash c → ℕ
  transaction_type_id (deploy_hash _) = 0
  transaction_type_id (v1_hash _) = 1

  abbrev pub parts : FinalitySignature c → SignatureParts c
  parts (signature_v1 p) = p
  parts (signature_v2 _ p) = p

module _ {c : Casper} {Db Tx : Type 0} (sql : Sql Db Tx) (encoding : Encoding c) where
  -- `handle_result`, and the commit where it is a success.
  abbrev committed : Result Tx DatabaseWriteError → Db → Result (Unit {0}) DatabaseWriteError × Db
  committed (ok tx) db = sql.commit tx db
  committed (err e) db = (err e, db)

  -- The JSON, the row of the event log and the rows of the event, within a transaction.
  unfoldable pub write_rows :
      (event_type_id : ℕ)
      → (event_key : String) → (json : Result String DatabaseWriteError)
      → (rows : String → ℕ → List Insert) → Origin
      → Tx
      → Result Tx DatabaseWriteError
  write_rows event_type_id event_key json rows origin tx = do
    raw ← json
    (event_log_id, tx) ← sql.insert_event_log event_type_id origin event_key tx
    sql.execute (rows raw event_log_id) tx

  abbrev with_transaction :
      (Tx → Result Tx DatabaseWriteError)
      → Result Tx DatabaseWriteError × Db
      → Result (Unit {0}) DatabaseWriteError × Db
  with_transaction write (err e, db) = (err e, db)
  with_transaction write (ok tx, db) = committed (write tx) db

  -- What every save does.
  unfoldable pub save_rows :
      (event_type_id : ℕ)
      → (event_key : String) → (json : Result String DatabaseWriteError)
      → (rows : String → ℕ → List Insert) → Save Db
  unfolding write_rows
  save_rows event_type_id event_key json rows origin db =
      with_transaction (write_rows event_type_id event_key json rows origin) (sql.begin db)

  -- A save of a transaction, with its row in the table of transaction events.
  save_transaction :
      (event_type_id : ℕ)
      → SseData c
      → TransactionHash c
      → (row : (transaction_type : ℕ)
          → (transaction_hash raw : String) → (event_log_id : ℕ) → Insert)
      → Save Db
  unfolding save_rows transaction_type_id
  save_transaction event_type_id d hash row =
      let identifier = encoding.transaction_hash_to_identifier hash in
      let type = transaction_type_id hash in
      save_rows event_type_id identifier (encoding.to_string d)
        (λ raw id. row type identifier raw id ∷ insert_transaction_event id type identifier ∷ [])

  unfoldable pub sql_writer : DatabaseWriter c Db
  unfolding save_rows save_transaction format decimal
  sql_writer = record {
    save_block_added = λ hash block.
        let encoded_hash = encoding.hex_of_block_hash hash in
        save_rows 1 encoded_hash (encoding.to_string (block_added hash block))
          (λ raw id. insert_block_added (encoding.height block) encoded_hash raw id ∷ []);
    save_transaction_accepted = λ t.
        save_transaction 2 (transaction_accepted t) (encoding.hash t) insert_transaction_accepted;
    save_transaction_expired =
        λ hash. save_transaction 3 (transaction_expired hash) hash insert_transaction_expired;
    save_transaction_processed = λ hash addr time ttl block result messages.
        save_transaction 4 (transaction_processed hash addr time ttl block result messages) hash
          insert_transaction_processed;
    save_fault = λ era key time.
        let era_id = encoding.era_value era in
        let public_key = encoding.to_hex key in
        save_rows 5 (format (decimal era_id ∷ " " ∷ public_key ∷ []))
          (encoding.to_string (fault era key time))
          (λ raw id. insert_fault era_id public_key raw id ∷ []);
    save_step = λ era effects.
        let era_id = encoding.era_value era in
        save_rows 7 (decimal era_id) (encoding.to_string (step era effects))
          (λ raw id. insert_step era_id raw id ∷ []);
    save_finality_signature = λ fs.
        let block_hash = encoding.hex_of_block_hash (parts fs).signed_block in
        let public_key = encoding.to_hex (parts fs).signer in
        save_rows 6 (format (block_hash ∷ " " ∷ public_key ∷ []))
          (encoding.to_string (finality_signature fs))
          (λ raw id. insert_finality_signature block_hash public_key raw id ∷ []);
    save_shutdown = λ origin db.
        save_rows 8 (format (origin.source ∷ "-" ∷ decimal (sql.unix_timestamp db) ∷ [])) (ok "")
          (λ raw id. insert_shutdown origin.source id ∷ []) origin db;
  }
