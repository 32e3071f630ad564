-- ===== src/Handling/Dispatch/Once.antt =====
-- An event that several nodes report is passed on once, by event_sidecar/src/lib.rs and event_handling_service.
use mathlib.Core.List.{append-nil}
use casper_sidecar.Prelude.{ℕ, ◌≡◌, refl, sym, ap, ◌∙◌, ◌≢◌, Bool, true, false, some, [], ◌∷◌, ◌++◌}
use casper_sidecar.Prelude.Result.{Result}
use casper_sidecar.Types.Casper.{Casper}
use casper_sidecar.Types.SseData.{
  SseData, api_version, block_added, transaction_accepted, transaction_processed,
  transaction_expired, fault, finality_signature, step,
}
use casper_sidecar.EventStream.Event.{is_api_version}
use casper_sidecar.Handling.Service.{SseEvent, DatabaseWriteError, Sent}
use casper_sidecar.Handling.Saving.{DatabaseWriter, is_ok, origin, db_service}
use casper_sidecar.Handling.Writer.{Sql, Encoding, sql_writer}
use casper_sidecar.Handling.Writer.Laws.{KeyLaws, sql_writer_once}
use casper_sidecar.Handling.Version.{ApiVersionManager}
use casper_sidecar.Handling.Dispatch.{handle_single_event}
use casper_sidecar.Handling.Dispatch.Laws.{
  is_passed_on, message_if, save_of, handle_single_event-Outcome,
}

module _ {c : Casper} {Db Tx : Type 0} (gt : c.ProtocolVersion → c.ProtocolVersion → Bool)
    (sql : Sql Db Tx) (encoding : Encoding c) (laws : KeyLaws sql) (len : c.Messages → ℕ) where
  -- The database that is written to.
  abbrev pub writer : DatabaseWriter c Db
  writer = sql_writer sql encoding

  abbrev handle :
      SseEvent c
      → ApiVersionManager c.ProtocolVersion
      → Db × Sent c
      → ApiVersionManager c.ProtocolVersion × (Db × Sent c)
  handle = handle_single_event gt (db_service writer len)

  is_passed_on-plain :
      (d : SseData c) (res : Result (Unit {0}) DatabaseWriteError)
      → d ≢ SseData.shutdown
      → is_passed_on d res ≡ is_ok res
  is_passed_on-plain (api_version _) res n = refl
  is_passed_on-plain (block_added _ _) res n = refl
  is_passed_on-plain (transaction_accepted _) res n = refl
  is_passed_on-plain (transaction_processed _ _ _ _ _ _ _) res n = refl
  is_passed_on-plain (transaction_expired _) res n = refl
  is_passed_on-plain (fault _ _ _) res n = refl
  is_passed_on-plain (finality_signature _) res n = refl
  is_passed_on-plain (step _ _) res n = refl
  is_passed_on-plain SseData.shutdown res n = elim (n refl) [ ]

  -- Two nodes report the same event, which is no ApiVersion and no shutdown, one right after the
  -- other, and the database takes the first report: the event is passed on once, as the first node
  -- reported it. The database treats transactions and primary keys as SQL says.
  pub handle_single_event-once :
      (first second : SseEvent c) (m m' : ApiVersionManager c.ProtocolVersion) (db : Db)
      (s : Sent c)
      → second.sse_data ≡ first.sse_data
      → is_api_version first.sse_data ≡ false
      → first.sse_data ≢ SseData.shutdown
      → is_ok (save_of writer first.sse_data (origin first) db).0 ≡ true
      → (handle second m' (handle first m (db, s)).1).1.1.outbound
        ≡ s.outbound ++ (first.sse_data, some first.inbound_filter) ∷ []
  handle_single_event-once first second m m' db s same api shut taken =
      let d = first.sse_data in
      let (saved, out) = handle_single_event-Outcome gt writer len first m db s api in
      let after : Db × Sent c = (handle first m (db, s)).1 in
      let (saved', out') =
        handle_single_event-Outcome gt writer len second m' after.0 after.1
          (ap is_api_version same ∙ api) in
      let refused : is_ok (save_of writer second.sse_data (origin second) after.0).0 ≡ false =
        ap (λ x. is_ok (save_of writer x (origin second) after.0).0) same
        ∙ ap (λ x. is_ok (save_of writer d (origin second) x).0) saved
        ∙ sql_writer_once sql encoding laws d (origin first) (origin second) db api shut taken in
      let dropped =
        is_passed_on-plain second.sse_data
          (save_of writer second.sse_data (origin second) after.0).0 (λ e. shut (sym same ∙ e))
        ∙ refused in
      let passed = is_passed_on-plain d (save_of writer d (origin first) db).0 shut ∙ taken in
      out'
      ∙ ap (λ b. after.1.outbound ++ message_if b second.sse_data second.inbound_filter) dropped
      ∙ append-nil after.1.outbound
      ∙ out
      ∙ ap (λ b. s.outbound ++ message_if b d first.inbound_filter) passed
