-- ===== src/Handling/Writer/Laws.antt =====
-- Which events the writer of event_sidecar/src/database/writer_generator.rs takes only once.
use casper_sidecar.Prelude.{
  ℕ, String, ◌≡◌, refl, sym, ap, ◌∙◌, Bool-cases, inl, inr, ◌≢◌, true, false, some, List, ◌∷◌,
}
use casper_sidecar.Prelude.Result.{Result, ok, err, ◌>>=◌}
use casper_sidecar.Types.Casper.{Casper}
use casper_sidecar.Types.SseData.{
  SseData, api_version, block_added, transaction_accepted, transaction_processed,
  transaction_expired, fault, finality_signature, step,
}
use casper_sidecar.EventStream.Event.{is_api_version}
use casper_sidecar.Handling.Service.{DatabaseWriteError}
use casper_sidecar.Handling.Saving.{Origin, is_ok}
use casper_sidecar.Handling.Dispatch.Laws.{save_of}
use casper_sidecar.Handling.Writer.{
  Insert, PrimaryKey, primary_key, Sql, Encoding, write_rows, committed, with_transaction,
  save_rows, save_transaction, sql_writer,
}

-- What SQL says of primary keys, and of transactions: a row that was inserted is in the transaction, and in
-- the database after the commit; it is seen by every later transaction, and no second row with its
-- primary key can be inserted.
pub record KeyLaws {Db Tx : Type 0} (sql : Sql Db Tx) : Type 1 where
  pub Has : Db → PrimaryKey → Type 0
  pub HasTx : Tx → PrimaryKey → Type 0
  pub inserted :
      (row : Insert) (rows : List Insert) (k : PrimaryKey) (tx later : Tx)
      → primary_key row ≡ some k
      → sql.execute (row ∷ rows) tx ≡ ok later
      → HasTx later k
  pub refused :
      (row : Insert) (rows : List Insert) (k : PrimaryKey) (tx later : Tx)
      → primary_key row ≡ some k
      → HasTx tx k
      → ¬ (sql.execute (row ∷ rows) tx ≡ ok later)
  pub kept :
      (tx : Tx) (db later : Db) (k : PrimaryKey)
      → sql.commit tx db ≡ (ok tt, later)
      → HasTx tx k
      → Has later k
  pub seen :
      (db later : Db) (tx : Tx) (k : PrimaryKey)
      → sql.begin db ≡ (ok tx, later)
      → Has db k
      → HasTx tx k
  pub logged :
      (type : ℕ) (origin : Origin) (key : String) (tx later : Tx) (id : ℕ) (k : PrimaryKey)
      → sql.insert_event_log type origin key tx ≡ ok (id, later)
      → HasTx tx k
      → HasTx later k

module _ {c : Casper} {Db Tx : Type 0} (sql : Sql Db Tx) (encoding : Encoding c)
    (laws : KeyLaws sql) where
  -- Rows that begin with one under this primary key.
  abbrev Leads : (String → ℕ → List Insert) → PrimaryKey → Type 0
  Leads rows k =
      (raw : String) (id : ℕ)
      → (row : Insert) × (rest : List Insert) × (rows raw id ≡ row ∷ rest)
        × (primary_key row ≡ some k)

  pair_ok : (p : Result (Unit {0}) DatabaseWriteError × Db) → is_ok p.0 ≡ true → p ≡ (ok tt, p.1)
  pair_ok (ok u, db) h = refl
  pair_ok (err e, db) h = cc

  -- What has happened where a transaction was committed.
  record Commits (write : Tx → Result Tx DatabaseWriteError) (x : Result Tx DatabaseWriteError × Db)
      (later : Db) : Type 0 where
    tx : Tx
    written : Tx
    between : Db
    began : x ≡ (ok tx, between)
    wrote : write tx ≡ ok written
    kept_at_end : sql.commit written between ≡ (ok tt, later)

  committed_ok :
      (r : Result Tx DatabaseWriteError) (db : Db)
      → is_ok (committed sql encoding r db).0 ≡ true
      → (t : Tx) × (r ≡ ok t) × (sql.commit t db ≡ (ok tt, (committed sql encoding r db).1))
  committed_ok (ok t) db h = (t, refl, pair_ok (sql.commit t db) h)
  committed_ok (err e) db h = cc

  with_transaction_ok :
      (write : Tx → Result Tx DatabaseWriteError) (x : Result Tx DatabaseWriteError × Db)
      → is_ok (with_transaction sql encoding write x).0 ≡ true
      → Commits write x (with_transaction sql encoding write x).1
  with_transaction_ok write (err e, db) h = cc
  with_transaction_ok write (ok tx, db) h =
      let (t, w, k) = committed_ok (write tx) db h in
      record { tx = tx; written = t; between = db; began = refl; wrote = w; kept_at_end = k }

  -- The writes of a save, whatever the JSON and the row of the event log are.
  write_in_order :
      (rows : String → ℕ → List Insert) (json : Result String DatabaseWriteError)
      (log : Result (ℕ × Tx) DatabaseWriteError) (later : Tx)
      → (json >>= λ raw. log >>= λ (id, tx). sql.execute (rows raw id) tx) ≡ ok later
      → (raw : String) × (id : ℕ) × (tx : Tx) × (log ≡ ok (id, tx))
        × (sql.execute (rows raw id) tx ≡ ok later)
  write_in_order rows (err e) log later h = cc
  write_in_order rows (ok raw) (err e) later h = cc
  write_in_order rows (ok raw) (ok (id, tx)) later h = (raw, id, tx, refl, h)

  module _ (type : ℕ) (key : String) (json : Result String DatabaseWriteError)
      (rows : String → ℕ → List Insert) (k : PrimaryKey) (leads : Leads rows k) where
    write_rows-HasTx :
        (o : Origin) (tx later : Tx)
        → write_rows sql encoding type key json rows o tx ≡ ok later
        → laws.HasTx later k
    unfolding write_rows
    write_rows-HasTx o tx later h =
        let (raw, id, logged, l, x) =
          write_in_order rows json (sql.insert_event_log type o key tx) later h in
        let (row, rest, e, p) = leads raw id in
        laws.inserted row rest k logged later p (sym (ap (λ r. sql.execute r logged) e) ∙ x)

    write_rows_refused :
        (o : Origin) (tx later : Tx)
        → laws.HasTx tx k
        → ¬ (write_rows sql encoding type key json rows o tx ≡ ok later)
    unfolding write_rows
    write_rows_refused o tx later has h =
        let (raw, id, logged, l, x) =
          write_in_order rows json (sql.insert_event_log type o key tx) later h in
        let (row, rest, e, p) = leads raw id in
        laws.refused row rest k logged later p (laws.logged type o key tx logged id k l has)
          (sym (ap (λ r. sql.execute r logged) e) ∙ x)

    save_rows-Has :
        (o : Origin) (db : Db)
        → is_ok (save_rows sql encoding type key json rows o db).0 ≡ true
        → laws.Has (save_rows sql encoding type key json rows o db).1 k
    unfolding save_rows
    save_rows-Has o db h =
        let done =
          with_transaction_ok (write_rows sql encoding type key json rows o) (sql.begin db) h in
        laws.kept done.written done.between _ k done.kept_at_end
          (write_rows-HasTx o done.tx done.written done.wrote)

    save_rows_refused :
        (o : Origin) (db : Db)
        → laws.Has db k
        → ¬ (is_ok (save_rows sql encoding type key json rows o db).0 ≡ true)
    unfolding save_rows
    save_rows_refused o db has h =
        let done =
          with_transaction_ok (write_rows sql encoding type key json rows o) (sql.begin db) h in
        write_rows_refused o done.tx done.written
          (laws.seen db done.between done.tx k done.began has) done.wrote

    -- A second save of the same rows, right after the first, fails.
    save_rows_once :
        (o o' : Origin) (db : Db)
        → is_ok (save_rows sql encoding type key json rows o db).0 ≡ true
        → is_ok
            (save_rows sql encoding type key json rows o'
              (save_rows sql encoding type key json rows o db).1).0
          ≡ false
    save_rows_once o o' db h =
        let later = (save_rows sql encoding type key json rows o db).1 in
        elim (Bool-cases (is_ok (save_rows sql encoding type key json rows o' later).0)) [
          | inl again ↦ absurd (save_rows_refused o' later (save_rows-Has o db h) again)
          | inr e ↦ e
        ]

  -- The database takes no event but a shutdown, nor an ApiVersion, which is never saved, twice in
  -- a row, whoever reports it the second time. It treats transactions and primary keys as SQL says.
  pub sql_writer_once :
      (d : SseData c) (o o' : Origin) (db : Db)
      → is_api_version d ≡ false
      → d ≢ SseData.shutdown
      → is_ok (save_of (sql_writer sql encoding) d o db).0 ≡ true
      → is_ok
          (save_of (sql_writer sql encoding) d o' (save_of (sql_writer sql encoding) d o db).1).0
        ≡ false
  unfolding sql_writer save_transaction primary_key
  sql_writer_once (api_version v) o o' db api n h = cc
  sql_writer_once (block_added hash block) o o' db api n h =
      save_rows_once _ _ _ _ _ (λ raw id. (_, _, refl, refl)) o o' db h
  sql_writer_once (transaction_accepted t) o o' db api n h =
      save_rows_once _ _ _ _ _ (λ raw id. (_, _, refl, refl)) o o' db h
  sql_writer_once (transaction_processed a b e f g i j) o o' db api n h =
      save_rows_once _ _ _ _ _ (λ raw id. (_, _, refl, refl)) o o' db h
  sql_writer_once (transaction_expired t) o o' db api n h =
      save_rows_once _ _ _ _ _ (λ raw id. (_, _, refl, refl)) o o' db h
  sql_writer_once (fault era key time) o o' db api n h =
      save_rows_once _ _ _ _ _ (λ raw id. (_, _, refl, refl)) o o' db h
  sql_writer_once (finality_signature fs) o o' db api n h =
      save_rows_once _ _ _ _ _ (λ raw id. (_, _, refl, refl)) o o' db h
  sql_writer_once (step era effects) o o' db api n h =
      save_rows_once _ _ _ _ _ (λ raw id. (_, _, refl, refl)) o o' db h
  sql_writer_once SseData.shutdown o o' db api n h = absurd (n refl)
