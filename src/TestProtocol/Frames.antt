-- ===== src/TestProtocol/Frames.antt =====
-- internal/testprotocol/testprotocol.go: the parsers read what the builders write.
use netring.Prelude.{
  ℕ, ◌<◌, ◌≡◌, refl, ◌==◌, ltb, if◌then◌else◌, length, Option, none, some, Bool-cases, inl, inr,
}
use netring.TestProtocol.{
  drop, le_bytes, parsed, refused, from_future, parse_request, parse_response, response,
  request_frame, RequestBuilder, new,
}
use netring.TestProtocol.Codec.{from_le-le_bytes-8}

pub parse_request-frame :
    (now time sequence_id : ℕ)
    → time < 18446744073709551616
    → sequence_id < 18446744073709551616
    → parse_request now (drop 1 (request_frame time sequence_id))
      ≡ (if ltb now time then refused from_future else parsed sequence_id time)
unfolding parse_request request_frame le_bytes
parse_request-frame now time sequence_id small_time small =
    rw (from_le-le_bytes-8 time small_time, from_le-le_bytes-8 sequence_id small) refl

pub parse_response-response :
    (now sequence_id : ℕ)
    → now < 18446744073709551616
    → sequence_id < 18446744073709551616
    → parse_response (response now sequence_id) ≡ parsed sequence_id now
unfolding parse_response response le_bytes
parse_response-response now sequence_id small_time small =
    rw (from_le-le_bytes-8 now small_time, from_le-le_bytes-8 sequence_id small) refl

pub length-request_frame : (now sequence_id : ℕ) → length (request_frame now sequence_id) ≡ 22
unfolding request_frame le_bytes
length-request_frame now sequence_id = refl

pub length-response : (now sequence_id : ℕ) → length (response now sequence_id) ≡ 21
unfolding response le_bytes
length-response now sequence_id = refl

abbrev pub first_id : Option RequestBuilder → ℕ
first_id none = 0
first_id (some p) = p.sequence_id

pub new-starts : (requests_no : ℕ) → first_id (new requests_no) ≡ 0
unfolding new
new-starts requests_no = elim (Bool-cases (requests_no == 0)) [
  | inl e ↦ rw e refl
  | inr e ↦ rw e refl
]
