-- ===== src/JsonRpc/Filters/Tests.antt =====
-- The statuses of json_rpc/src/filters.rs at concrete HTTP requests.
use casper_sidecar.Prelude.{
  leb, ◌==◌, if◌then◌else◌, if-true, if-false, ℕ, suc, String, ◌≡◌, refl, sym, ap, ◌∙◌, ◌≢◌, Bool,
  true, false, Option, none, some, [], ◌∷◌, arith, str_eq,
}
use casper_sidecar.Prelude.Result.{Result, ok, err}
use casper_sidecar.JsonRpc.Json.{Value, bool, string, Fields, end, field, get}
use casper_sidecar.JsonRpc.Error.{ReservedErrorCode-code, RpcErrorCode-code}
use casper_sidecar.JsonRpc.Request.Notification.{IsNotification}
use casper_sidecar.JsonRpc.Request.{JsonNumbers}
use casper_sidecar.JsonRpc.Handlers.{Governor, Handler, RequestHandlers}
use casper_sidecar.JsonRpc.Filters.{
  Kind, missing_id_kind, body_too_large_kind, method_not_allowed, invalid_header, missing_header,
  invalid_query, missing_cookie, length_required, payload_too_large, unsupported_media_type,
  cors_forbidden, Warp, body_too_large_text, missing_id_text, base_filter, handle_rejection, Serde,
  message_reply,
}
use casper_sidecar.JsonRpc.Filters.Status.{
  CustomLaws, handle_rejection-custom, routed, route-too_large, route-notification,
}

abbrev rank : Kind → ℕ
rank missing_id_kind = 0
rank body_too_large_kind = 1
rank method_not_allowed = 2
rank invalid_header = 3
rank missing_header = 4
rank invalid_query = 5
rank missing_cookie = 6
rank length_required = 7
rank payload_too_large = 8
rank unsupported_media_type = 9
rank cors_forbidden = 10

abbrev unrank : ℕ → Kind
unrank n =
    if n == 0
    then missing_id_kind
    else (if n == 1
        then body_too_large_kind
        else (if n == 2
            then method_not_allowed
            else (if n == 3
                then invalid_header
                else (if n == 4
                    then missing_header
                    else (if n == 5
                        then invalid_query
                        else (if n == 6
                            then missing_cookie
                            else (if n == 7
                                then length_required
                                else (if n == 8
                                    then payload_too_large
                                    else (if n == 9
                                        then unsupported_media_type
                                        else cors_forbidden)))))))))

unrank-rank : (k : Kind) → unrank (rank k) ≡ k
unrank-rank missing_id_kind = refl
unrank-rank body_too_large_kind = refl
unrank-rank method_not_allowed = refl
unrank-rank invalid_header = refl
unrank-rank missing_header = refl
unrank-rank invalid_query = refl
unrank-rank missing_cookie = refl
unrank-rank length_required = refl
unrank-rank payload_too_large = refl
unrank-rank unsupported_media_type = refl
unrank-rank cors_forbidden = refl

-- A request is its path, its method, its content type and its length; a rejection its cause.
abbrev Req : Type 0
Req = String × String × String × ℕ

abbrev Rej : Type 0
Rej = Kind × String

abbrev require : Bool → Kind → Result (Unit {0}) Rej
require true kind = ok tt
require false kind = err (kind, "rejected")

abbrev warp : Warp Req Rej
warp = record {
  path = λ path req. require (str_eq req.0 path) invalid_query;
  path_end = λ req. ok tt;
  post = λ req. require (str_eq req.1 "POST") method_not_allowed;
  exact_ignore_case = λ header value req. require (str_eq req.2 value) invalid_header;
  content_length_limit = λ max req. require (leb req.3 max) payload_too_large;
  custom = λ kind display. (kind, display);
  find = λ kind rej. if rank rej.0 == rank kind then some rej.1 else none;
  is_not_found = λ rej. false;
  debug = λ rej. rej.1;
}

same_rank : (n : ℕ) → (n == n) ≡ true
same_rank n = ground arith

other_rank : (n m : ℕ) → n ≢ m → (n == m) ≡ false
other_rank n m h = ground arith

rank-other : (k j : Kind) → j ≢ k → rank k ≢ rank j
rank-other k j ne e = ne (sym (unrank-rank j) ∙ ap unrank (sym e) ∙ unrank-rank k)

laws : CustomLaws warp
laws = record {
  found = λ k text. if-true (some text) none (same_rank (rank k));
  others =
      λ k j text ne. if-false (some text) none (other_rank (rank k) (rank j) (rank-other k j ne));
  is_found = λ k text. refl;
}

handle_rejection-custom_example : handle_rejection warp (cors_forbidden, "no") ≡ ("no", 403)
handle_rejection-custom_example = handle_rejection-custom warp laws cors_forbidden "no"

abbrev numbers : JsonNumbers Bool
numbers = record { is_f64 = λ n. n; display_number = λ n. "1"; display_value = λ v. "value" }

abbrev governor : Governor ℕ ℕ
governor = record { direct = λ quota. quota; check = λ now left. (left, none) }

abbrev serde : Serde Bool (Option (Fields Bool))
serde = record {
  numbers = numbers;
  from_slice = λ body. elim body [ none ↦ err "expected value" | some fs ↦ ok fs ];
  len = λ body. 60;
}

abbrev count_call : Handler ℕ (Value Bool) Bool
count_call params calls = (ok (bool true), suc calls)

abbrev handlers : RequestHandlers ℕ ℕ Bool
handlers = ("info_get_status", (count_call, 3)) ∷ []

abbrev long_post : Req
long_post = ("rpc", "POST", "application/json", 2000)

abbrev short_post : Req
short_post = ("rpc", "POST", "application/json", 60)

abbrev notification : Fields Bool
notification = field "jsonrpc" (string "2.0") (field "method" (string "info_get_status") end)

route-too_large_example :
    routed governor serde warp laws "rpc" 1000 false 7 handlers long_post (some notification) 0
    ≡ record {
      reply = message_reply (body_too_large_text warp 1000) 413;
      handlers = handlers;
      world = 0;
    }
route-too_large_example =
    route-too_large governor serde warp laws "rpc" 1000 false 7 handlers long_post
      (some notification) 0 (payload_too_large, "rejected") refl refl refl refl refl

passes : base_filter warp "rpc" 1000 short_post ≡ ok tt
unfolding base_filter
passes = refl

is_notification : IsNotification notification
unfolding get
is_notification = record {
  version = refl;
  method = "info_get_status";
  named = refl;
  params = none;
  given = refl;
  unidentified = refl;
}

route-notification_example :
    routed governor serde warp laws "rpc" 1000 false 7 handlers short_post (some notification) 0
    ≡ record { reply = message_reply (missing_id_text warp) 400; handlers = handlers; world = 0 }
route-notification_example =
    route-notification governor serde warp laws "rpc" 1000 false 7 handlers short_post
      (some notification) 0 notification passes refl is_notification
