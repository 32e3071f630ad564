-- ===== src/Handling/Tests.antt =====
-- The theorems on the handling of events at a concrete database.
use casper_sidecar.Prelude.{
  ltb, if◌then◌else◌, All, ℕ, String, ◌≡◌, refl, ◌≢◌, Bool, true, false, none, some, [], ◌∷◌, arith,
}
use casper_sidecar.Prelude.Result.{ok, err}
use casper_sidecar.Types.SseData.{Filter, SseData}
use casper_sidecar.Types.Tests.{plain}
use casper_sidecar.Handling.Service.{SseEvent, unique_constraint, Sent}
use casper_sidecar.Handling.Saving.{Save, DatabaseWriter, is_ok, origin, db_service}
use casper_sidecar.Handling.Writer.{primary_key, sql_writer}
use casper_sidecar.Handling.Writer.Laws.{sql_writer_once}
use casper_sidecar.Handling.Writer.Instance.{
  holds, insert_all, small_sql, small_encoding, small_laws,
}
use casper_sidecar.Handling.Passing.{no_db_service}
use casper_sidecar.Handling.Passing.Laws.{handle_single_event-passes}
use casper_sidecar.Handling.Version.{ApiVersionManager}
use casper_sidecar.Handling.Version.Laws.{IsAtMost, store_all, store_all-IsAtMost}
use casper_sidecar.Handling.Dispatch.{handle_single_event}
use casper_sidecar.Handling.Dispatch.Laws.{save_of, Outcome, handle_single_event-Outcome}
use casper_sidecar.Handling.Dispatch.Once.{handle_single_event-once}

-- A database with room for one entity.
abbrev save_first : Save Bool
save_first origin full = (if full then err (unique_constraint "there already") else ok tt, true)

abbrev writer : DatabaseWriter plain Bool
writer = record {
  save_block_added = λ hash block. save_first;
  save_transaction_accepted = λ t. save_first;
  save_transaction_expired = λ hash. save_first;
  save_transaction_processed = λ hash addr time ttl block result messages. save_first;
  save_fault = λ era key time. save_first;
  save_step = λ era effects. save_first;
  save_finality_signature = λ fs. save_first;
  save_shutdown = save_first;
}

abbrev newer : ℕ → ℕ → Bool
newer v w = ltb w v

abbrev reported_by : String → SseEvent plain
reported_by node = record {
  id = 1;
  sse_data = SseData.fault 3 7 99;
  source = node;
  inbound_filter = Filter.events;
  api_version_of = "2.0.0";
  network_name = "casper";
}

abbrev manager : ApiVersionManager ℕ
manager = record { newest_protocol_version = some 2 }

abbrev nothing : Sent plain
nothing = record { outbound = []; sidecar_events = none; observed = [] }

abbrev faulty : SseData plain
faulty = SseData.fault 3 7 99

not_shutdown : faulty ≢ SseData.shutdown
not_shutdown e = cc

first_is_taken :
    is_ok (save_of (sql_writer small_sql small_encoding) faulty (origin (reported_by "a")) []).0
    ≡ true
unfolding sql_writer insert_all holds primary_key
first_is_taken = refl

sql_writer_once_example :
    is_ok
      (save_of
        (sql_writer small_sql small_encoding)
        faulty
        (origin (reported_by "b"))
        (save_of (sql_writer small_sql small_encoding) faulty (origin (reported_by "a")) []).1).0
    ≡ false
sql_writer_once_example =
    sql_writer_once small_sql small_encoding small_laws faulty (origin (reported_by "a"))
      (origin (reported_by "b")) [] refl not_shutdown first_is_taken

handle_single_event-once_example :
    (handle_single_event newer
      (db_service (sql_writer small_sql small_encoding) (λ n. n))
      (reported_by "b")
      manager
      (handle_single_event newer
        (db_service (sql_writer small_sql small_encoding) (λ n. n))
        (reported_by "a")
        manager
        ([], nothing)).1).1.1.outbound
    ≡ (SseData.fault 3 7 99, some Filter.events) ∷ []
handle_single_event-once_example =
    handle_single_event-once newer small_sql small_encoding small_laws (λ n. n) (reported_by "a")
      (reported_by "b") manager manager [] nothing refl refl not_shutdown first_is_taken

handle_single_event-Outcome_example :
    Outcome
      (reported_by "a")
      nothing
      (save_of writer (SseData.fault 3 7 99) (origin (reported_by "a")) true)
      (handle_single_event newer
        (db_service writer (λ n. n))
        (reported_by "a")
        manager
        (true, nothing)).1
handle_single_event-Outcome_example =
    handle_single_event-Outcome newer writer (λ n. n) (reported_by "a") manager true nothing refl

handle_single_event-passes_example :
    (handle_single_event newer
      (no_db_service (λ n. n))
      (reported_by "a")
      manager
      nothing).1.outbound
    ≡ (SseData.fault 3 7 99, some Filter.events) ∷ []
handle_single_event-passes_example =
    handle_single_event-passes newer (λ n. n) (reported_by "a") manager nothing refl

newer_irreflexive : (v : ℕ) → newer v v ≡ false
newer_irreflexive v = ground arith

newer_trans : (v n w : ℕ) → newer v n ≡ false → newer w n ≡ true → newer v w ≡ false
newer_trans v n w h k = ground arith

store_all-IsAtMost_example :
    All
      (IsAtMost newer (store_all newer (3 ∷ 5 ∷ 4 ∷ []) manager).newest_protocol_version)
      (3 ∷ 5 ∷ 4 ∷ [])
store_all-IsAtMost_example =
    store_all-IsAtMost newer newer_irreflexive newer_trans (3 ∷ 5 ∷ 4 ∷ []) manager
