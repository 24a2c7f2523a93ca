-- ===== src/Tests/Requests.antt =====
-- A request for an update, made, taken and handed over, and the theorems at it.
use asterism.Prelude.{◌≡◌, refl, true, false, none, some, arith}
use asterism.Prelude.Results.{ok, err}
use asterism.Text.{codes, byte_len, utf8_len, contains, starts_with, is_ascii_alphanumeric}
use asterism.UpdateOp.Records.{validate_operation_id}
use asterism.UpdateRequest.{
  UpdateRequest, full_access, RequestSerde, RequestFile, requested, resolve, consume, accept,
  request, new_request, write, validate_version, wrong_character,
}
use asterism.UpdateRequest.Released.{IsApplicable, resolve-IsApplicable}
use asterism.UpdateRequest.Consumed.{LawfulRequests, request-resolve}
use asterism.Tests.Codecs.{Codec, nat, pair, named, option, text, decode, decode-write}

abbrev request_codec : Codec UpdateRequest
request_codec =
    named (pair (pair text nat) (pair (option text) (option text)))
      (λ x. record {
        version = x.0.0;
        requested_at = x.0.1;
        requested_by = x.1.0;
        operation_id = x.1.1;
      })
      (λ r. ((r.version, r.requested_at), (r.requested_by, r.operation_id))) (λ r. refl)

abbrev request_serde : RequestSerde
request_serde = record {
  request_text = λ r. request_codec.write r;
  read_request = decode request_codec;
}

request_serde-Lawful : LawfulRequests request_serde
request_serde-Lawful r = decode-write request_codec r

abbrev made : UpdateRequest
made = record {
  version = codes "v1.2.3";
  requested_at = 100;
  requested_by = none;
  operation_id = some (codes "op-1");
}

abbrev left : RequestFile
left = some (request_serde.request_text made)

daemon_asks :
    request request_serde 100 full_access true (codes "v1.2.3") none (some (codes "op-1")) none
    ≡ (ok made, left)
unfolding request new_request write validate_version validate_operation_id byte_len utf8_len
    contains starts_with is_ascii_alphanumeric
daemon_asks = refl

traversal_refused : validate_version (codes "v1../x") ≡ err wrong_character
unfolding validate_version byte_len utf8_len contains starts_with is_ascii_alphanumeric
traversal_refused = refl

updater_finds : (resolve request_serde 200 full_access none left).0 ≡ ok (some (requested made))
unfolding resolve consume accept validate_version validate_operation_id byte_len utf8_len contains
    starts_with is_ascii_alphanumeric
updater_finds = refl

-- A file that cannot be removed is applied, and is there for the next run.
found_twice :
    resolve request_serde 200 (record { readable = true; removable = false }) none left
    ≡ (ok (some (requested made)), left)
unfolding resolve consume accept validate_version validate_operation_id byte_len utf8_len contains
    starts_with is_ascii_alphanumeric
found_twice = refl

resolve-IsApplicable_example : IsApplicable 200 (requested made)
resolve-IsApplicable_example =
    resolve-IsApplicable request_serde 200 full_access none left (requested made) updater_finds

request-resolve_example :
    (resolve request_serde 200 full_access none left ≡ (ok (some (requested made)), none))
    × (resolve request_serde 300 full_access none
          (resolve request_serde 200 full_access none left).1
        ≡ (ok none, none))
request-resolve_example =
    request-resolve request_serde 100 200 300 full_access true (codes "v1.2.3") none
      (some (codes "op-1")) none left made request_serde-Lawful daemon_asks (ground arith)
