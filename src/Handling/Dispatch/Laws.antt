-- ===== src/Handling/Dispatch/Laws.antt =====
-- Which events the sidecar passes on, by event_sidecar/src/lib.rs and event_handling_service.
use casper_sidecar.Prelude.{
  ltb, if◌then◌else◌, Bool-cases, if-true, if-false, ℕ, String, ◌≡◌, refl, sym, ap, ◌∙◌, inl, inr,
  Bool, true, false, ◌||◌, Option, some, List, [], ◌∷◌, ◌++◌,
}
use casper_sidecar.Prelude.Result.{Result, ok, err}
use casper_sidecar.Types.Casper.{Casper, Block}
use casper_sidecar.Types.SseData.{
  Filter, SseData, api_version, block_added, transaction_accepted, transaction_processed,
  transaction_expired, fault, finality_signature, step, shutdown,
}
use casper_sidecar.Handling.Service.{
  SseEvent, DatabaseWriteError, serialisation, sql_construction, unique_constraint, database_error,
  unhandled, Sent, send, observe, send_block_added, handle_database_save_result, observe_messages,
}
use casper_sidecar.Handling.Saving.{
  Save, DatabaseWriter, is_ok, origin, finish, finish_shutdown, db_service,
}
use mathlib.Core.List.{append-nil}
use casper_sidecar.Handling.Dispatch.{handle_data, handle_single_event}
use casper_sidecar.Handling.Version.{ApiVersionManager}
use casper_sidecar.EventStream.Event.{is_api_version}

-- Is a result that of an entity that is there already?
abbrev pub is_duplicate : Result (Unit {0}) DatabaseWriteError → Bool
is_duplicate (err (unique_constraint _)) = true
is_duplicate _ = false

module _ {c : Casper} where
  -- Is the event to be passed on after this result of saving it?
  abbrev pub is_passed_on : SseData c → Result (Unit {0}) DatabaseWriteError → Bool
  is_passed_on shutdown res = is_ok res || is_duplicate res
  is_passed_on _ res = is_ok res

  abbrev pub message_if : Bool → SseData c → Filter → List (SseData c × Option Filter)
  message_if b d filter = if b then (d, some filter) ∷ [] else []

  -- The save that belongs to an event; there is none for an `ApiVersion`.
  abbrev pub save_of : {Db : Type 0} → DatabaseWriter c Db → SseData c → Save Db
  save_of writer (api_version v) = λ origin db. (ok tt, db)
  save_of writer (block_added hash block) = writer.save_block_added hash block
  save_of writer (transaction_accepted t) = writer.save_transaction_accepted t
  save_of writer (transaction_expired hash) = writer.save_transaction_expired hash
  save_of writer (transaction_processed hash addr time ttl block result messages) =
      writer.save_transaction_processed hash addr time ttl block result messages
  save_of writer (fault era key time) = writer.save_fault era key time
  save_of writer (finality_signature fs) = writer.save_finality_signature fs
  save_of writer (step era effects) = writer.save_step era effects
  save_of writer shutdown = writer.save_shutdown

  saved-outbound :
      (name : String) (res : Result (Unit {0}) DatabaseWriteError) (filter : Filter) (d : SseData c)
      (s : Sent c)
      → (handle_database_save_result name res filter d s).outbound
        ≡ s.outbound ++ message_if (is_ok res) d filter
  unfolding handle_database_save_result send observe
  saved-outbound name (ok u) filter d s = refl
  saved-outbound name (err (serialisation e)) filter d s = sym (append-nil s.outbound)
  saved-outbound name (err (sql_construction e)) filter d s = sym (append-nil s.outbound)
  saved-outbound name (err (unique_constraint e)) filter d s = sym (append-nil s.outbound)
  saved-outbound name (err (database_error e)) filter d s = sym (append-nil s.outbound)
  saved-outbound name (err (unhandled e)) filter d s = sym (append-nil s.outbound)

  shutdown-outbound :
      (filter : Filter) (res : Result (Unit {0}) DatabaseWriteError) (s : Sent c)
      → (finish_shutdown filter res s).outbound
        ≡ s.outbound ++ message_if (is_ok res || is_duplicate res) shutdown filter
  unfolding finish_shutdown send observe
  shutdown-outbound filter (ok u) s = refl
  shutdown-outbound filter (err (serialisation e)) s = sym (append-nil s.outbound)
  shutdown-outbound filter (err (sql_construction e)) s = sym (append-nil s.outbound)
  shutdown-outbound filter (err (unique_constraint e)) s = refl
  shutdown-outbound filter (err (database_error e)) s = sym (append-nil s.outbound)
  shutdown-outbound filter (err (unhandled e)) s = sym (append-nil s.outbound)

  pub observed-outbound :
      (label : String) (n : ℕ) (s : Sent c) → (observe_messages label n s).outbound ≡ s.outbound
  unfolding observe_messages observe
  observed-outbound label n s = elim (Bool-cases (ltb 0 n)) [
    | inl e ↦ ap (λ (t : Sent c). t.outbound) (if-true _ _ e)
    | inr e ↦ ap (λ (t : Sent c). t.outbound) (if-false _ _ e)
  ]

  prepare-block :
      (res : Result (Unit {0}) DatabaseWriteError) (hash : c.BlockHash) (block : Block c)
      (s : Sent c)
      → (if is_ok res then send_block_added hash block s else s).outbound ≡ s.outbound
  unfolding send_block_added
  prepare-block (ok u) hash block s = refl
  prepare-block (err e) hash block s = refl

  prepare-processed :
      (res : Result (Unit {0}) DatabaseWriteError) (n : ℕ) (s : Sent c)
      → (let counted = observe_messages "all" n s in
          if is_ok res then observe_messages "unique" n counted else counted).outbound
        ≡ s.outbound
  prepare-processed (ok u) n s =
      observed-outbound "unique" n (observe_messages "all" n s) ∙ observed-outbound "all" n s
  prepare-processed (err e) n s = observed-outbound "all" n s

  -- What a service with a database leaves of one event, apart from the newest version.
  abbrev pub Outcome :
      {Db : Type 0}
      → SseEvent c
      → Sent c
      → Result (Unit {0}) DatabaseWriteError × Db
      → Db × Sent c
      → Type 0
  Outcome event s (res, db') (after, s') =
      (after ≡ db')
      × (s'.outbound
          ≡ s.outbound
            ++ message_if (is_passed_on event.sse_data res) event.sse_data event.inbound_filter)

  module _ {Db : Type 0} (gt : c.ProtocolVersion → c.ProtocolVersion → Bool)
      (writer : DatabaseWriter c Db) (len : c.Messages → ℕ) where
    -- The arguments of the lemma on one kind of event.
    finished :
        (event : SseEvent c) (name : String)
        (prepare : Result (Unit {0}) DatabaseWriteError → Sent c → Sent c)
        (saved : Result (Unit {0}) DatabaseWriteError × Db) (s : Sent c)
        → ((r : Result (Unit {0}) DatabaseWriteError) → (prepare r s).outbound ≡ s.outbound)
        → is_passed_on event.sse_data saved.0 ≡ is_ok saved.0
        → Outcome event s saved (finish name event prepare saved s)
    finished event name prepare (res, db') s kept passed = (
      refl,
      saved-outbound name res event.inbound_filter event.sse_data (prepare res s)
          ∙ ap (λ all. all ++ message_if (is_ok res) event.sse_data event.inbound_filter) (kept res)
          ∙ ap (λ b. s.outbound ++ message_if b event.sse_data event.inbound_filter) (sym passed),
    )

    event_with : SseData c → SseEvent c → SseEvent c
    event_with d e = record {
      id = e.id;
      sse_data = d;
      source = e.source;
      inbound_filter = e.inbound_filter;
      api_version_of = e.api_version_of;
      network_name = e.network_name;
    }

    of_event :
        (d : SseData c) (e : SseEvent c) (m : ApiVersionManager c.ProtocolVersion) (db : Db)
        (s : Sent c)
        → is_api_version d ≡ false
        → let event = event_with d e in
          Outcome event s
            (save_of writer d (origin event) db)
            (handle_data gt (db_service writer len) d event m (db, s)).1
    unfolding handle_data event_with
    of_event (api_version v) e m db s h = cc
    of_event (block_added hash block) e m db s h =
        finished (event_with (block_added hash block) e) "BlockAdded"
          (λ r t. if is_ok r then send_block_added hash block t else t) _ s
          (λ r. prepare-block r hash block s) refl
    of_event (transaction_accepted t) e m db s h =
        finished (event_with (transaction_accepted t) e) "TransactionAccepted" (λ r t. t) _ s
          (λ r. refl) refl
    of_event (transaction_expired hash) e m db s h =
        finished (event_with (transaction_expired hash) e) "TransactionExpired" (λ r t. t) _ s
          (λ r. refl) refl
    of_event (transaction_processed hash addr time ttl block result messages) e m db s h =
        finished (event_with (transaction_processed hash addr time ttl block result messages) e)
          "TransactionProcessed"
          (λ r t.
            let counted = observe_messages "all" (len messages) t in
            if is_ok r then observe_messages "unique" (len messages) counted else counted)
          _ s (λ r. prepare-processed r (len messages) s) refl
    of_event (fault era key time) e m db s h =
        finished (event_with (fault era key time) e) "Fault" (λ r t. t) _ s (λ r. refl) refl
    of_event (finality_signature fs) e m db s h =
        finished (event_with (finality_signature fs) e) "FinalitySignature" (λ r t. t) _ s
          (λ r. refl) refl
    of_event (step era effects) e m db s h =
        finished (event_with (step era effects) e) "Step" (λ r t. t) _ s (λ r. refl) refl
    of_event shutdown e m db s h = (
      refl,
      shutdown-outbound e.inbound_filter
          (writer.save_shutdown (origin (event_with shutdown e)) db).0 s,
    )

    -- The sidecar with a database saves an event that is no `ApiVersion` and passes it on, unchanged and under the
    -- filter it came from, exactly if the database took it, or, for a shutdown only, if it was there already.
    pub handle_single_event-Outcome :
        (event : SseEvent c) (m : ApiVersionManager c.ProtocolVersion) (db : Db) (s : Sent c)
        → is_api_version event.sse_data ≡ false
        → Outcome event s
            (save_of writer event.sse_data (origin event) db)
            (handle_single_event gt (db_service writer len) event m (db, s)).1
    unfolding handle_single_event event_with
    handle_single_event-Outcome event m db s h = of_event event.sse_data event m db s h
