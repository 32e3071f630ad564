-- ===== src/Listener/Tests.antt =====
-- The theorems on listener/src at concrete streams and tasks.
use casper_sidecar.Prelude.{
  if◌then◌else◌, length, All, ℕ, ◌<◌, String, ◌≡◌, refl, sym, subst, Bool, true, false, none, some,
  [], ◌∷◌, str_eq,
}
use casper_sidecar.Prelude.Result.{Result, ok, err}
use casper_sidecar.Types.SseData.{events, SseData, api_version, shutdown}
use casper_sidecar.Types.Tests.{plain}
use casper_sidecar.Listener.Manager.{
  Event, ConnectionManagerError, EventStream, Environment, DefaultConnectionManager, Manager,
  sse_event, event_stream_closed, handle_stream, start_handling,
}
use casper_sidecar.Listener.Manager.Laws.{Sends, start_handling-Sends}
use casper_sidecar.Listener.Manager.Forwards.{handle_stream-forwarded}
use casper_sidecar.Listener.Tasks.{
  ConnectionTasks, new, Task, counted, connecting, stored, failed, entering, returned, run_task,
  System, initial, run, Reach, here, next,
}
use casper_sidecar.Listener.Tasks.Laws.{has_failed, sum, wait-agrees}
use casper_sidecar.Listener.Tasks.Progress.{HasEnded, IsStuck, stuck-HasEnded}

abbrev read : String → Result (SseData plain) String
read text =
    if str_eq text "ApiVersion"
    then ok (api_version 2)
    else if str_eq text "Shutdown"
    then ok shutdown
    else err "bad"

abbrev read_id : String → Result ℕ String
read_id text = if str_eq text "7" then ok 7 else err "no digits"

abbrev small_env : Environment plain
small_env = record {
  contains = str_eq;
  parse_u32 = read_id;
  deserialize = read;
  version_to_string = λ v. "2.0.0";
  quoted = λ s. s;
  is_open = λ l. true;
  is_observed = λ l. true;
  bind_address = "http://127.0.0.1:9999/events";
  without_path = λ s. "http://127.0.0.1:9999/";
  send_error = "channel closed";
  filter = events;
  filter_to_string = λ f. "events";
  network_name = "casper";
}

abbrev fresh : DefaultConnectionManager plain
fresh = record {
  current_event_id = some 0;
  api_version_seen = none;
  sse_event_sender = [];
  current_event_id_sender = [];
}

abbrev greeting : Event
greeting = record { id = ""; event_data = "ApiVersion" }

abbrev farewell : Event
farewell = record { id = "7"; event_data = "Shutdown" }

abbrev stream : EventStream
stream = ok greeting ∷ ok farewell ∷ []

abbrev outcome : Manager small_env
outcome = (start_handling small_env (λ id. ok stream) none fresh).2

handled :
    ((e : ConnectionManagerError) × ((start_handling small_env (λ id. ok stream) none fresh).1
        ≡ err e))
    × Sends small_env
        (ok stream)
        none
        fresh
        (start_handling small_env (λ id. ok stream) none fresh).2
handled = start_handling-Sends small_env (λ id. ok stream) none fresh

handled_run : length (start_handling small_env (λ id. ok stream) none fresh).2.sse_event_sender ≡ 2
unfolding start_handling
handled_run = refl

all_forwarded :
    let (r, later) =
      handle_stream small_env (ok farewell ∷ []) (record fresh { api_version_seen = some 2 }) in
    (r ≡ err (event_stream_closed small_env))
    × (later.sse_event_sender ≡ sse_event small_env 7 shutdown 2 ∷ [])
    × (later.current_event_id_sender ≡ 7 ∷ [])
all_forwarded =
    handle_stream-forwarded small_env 2 (record { opened = λ l. refl; observed_too = λ l. refl })
      ((farewell, shutdown) ∷ []) (record fresh { api_version_seen = some 2 }) (refl, tt) refl

-- Two tasks, of which the first connects and the second fails; then the first sees that.
abbrev shared_at : (successes : ℕ) (has_failure permit : Bool) → ConnectionTasks
shared_at successes has_failure permit = record {
  total = 2;
  successes = successes;
  failure = has_failure;
  permit = permit;
}

abbrev at : ConnectionTasks → Task → Task → System
at s t u = record { shared = s; tasks = t ∷ u ∷ [] }

one_fails : Reach (initial 2) (at (shared_at 1 true true) (returned false) failed)
unfolding new run_task
one_fails =
    next
      (next
        (next
          (next
            (next here (
              run true [] connecting (connecting ∷ []) (shared_at 1 false false) (counted 1) refl
                refl refl))
            (run true [] (counted 1) (connecting ∷ []) (shared_at 1 false false) entering refl refl
              refl))
          (run false (entering ∷ []) connecting [] (shared_at 1 true false) stored refl refl refl))
        (run true (entering ∷ []) stored [] (shared_at 1 true true) failed refl refl refl))
      (run true [] entering (failed ∷ []) (shared_at 1 true true) (returned false) refl refl refl)

agreed : 0 < sum has_failed (returned false ∷ failed ∷ [])
agreed =
    (wait-agrees 2 (at (shared_at 1 true true) (returned false) failed) false false [] (failed ∷ [])
        [] (failed ∷ []) one_fails refl refl).2
      refl

still_returned :
    (connects : Bool) (s : ConnectionTasks) → run_task connects s (returned false) ≡ none
unfolding run_task
still_returned true s = refl
still_returned false s = refl

still_failed : (connects : Bool) (s : ConnectionTasks) → run_task connects s failed ≡ none
unfolding run_task
still_failed true s = refl
still_failed false s = refl

two_ended : IsStuck (at (shared_at 1 true true) (returned false) failed)
two_ended s' (run connects [] t after later t' e r e') =
    let first_task : returned false ≡ t = cc in
    let stays = still_returned connects (shared_at 1 true true) in
    let moved =
      subst (λ u. run_task connects (shared_at 1 true true) u ≡ some (later, t')) (sym first_task)
        r in
    cc
two_ended s' (run connects (x ∷ []) t after later t' e r e') =
    let second_task : failed ≡ t = cc in
    let stays = still_failed connects (shared_at 1 true true) in
    let moved =
      subst (λ u. run_task connects (shared_at 1 true true) u ≡ some (later, t')) (sym second_task)
        r in
    cc
two_ended s' (run connects (x ∷ y ∷ []) t after later t' e r e') = cc
two_ended s' (run connects (x ∷ y ∷ z ∷ before) t after later t' e r e') = cc

ended : All HasEnded (returned false ∷ failed ∷ [])
ended = stuck-HasEnded 2 (at (shared_at 1 true true) (returned false) failed) one_fails two_ended
