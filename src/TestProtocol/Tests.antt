-- ===== src/TestProtocol/Tests.antt =====
-- Runs of internal/testprotocol/testprotocol.go.
use netring.Prelude.{ℕ, ◌≡◌, refl, Option, none, some, List, [], ◌∷◌, length}
use netring.TestProtocol.{
  take, drop, le_bytes, from_le, refused, parsed, too_short, unexpected_text, from_future,
  parse_request, parse_response, RequestBuilder, zeros, new, request, request_frame,
}

abbrev builder : RequestBuilder
builder = record { sequence_id = 258; buf = 7 ∷ 7 ∷ [] }

abbrev payload : List ℕ
payload = (request 1000 builder).3

request_bytes :
    payload
    ≡ 1 ∷ 2 ∷ 1 ∷ 0 ∷ 0 ∷ 0 ∷ 0 ∷ 0 ∷ 0 ∷ 72 ∷ 101 ∷ 108 ∷ 108 ∷ 111 ∷ 232 ∷ 3 ∷ 0 ∷ 0 ∷ 0 ∷ 0 ∷ 0
      ∷ 0 ∷ []
unfolding request_frame le_bytes
request_bytes = refl

request_parses : parse_request 1000 (drop 1 payload) ≡ parsed 258 1000
unfolding request_frame le_bytes parse_request from_le
request_parses = refl

request_too_early : parse_request 999 (drop 1 payload) ≡ refused from_future
unfolding request_frame le_bytes parse_request from_le
request_too_early = refl

request_with_header : parse_request 1000 payload ≡ refused unexpected_text
unfolding request_frame le_bytes parse_request from_le
request_with_header = refl

request_cut : parse_request 1000 (take 20 payload) ≡ refused too_short
unfolding request_frame le_bytes parse_request from_le
request_cut = refl

response_for_request : parse_response (drop 1 payload) ≡ refused unexpected_text
unfolding request_frame le_bytes parse_response from_le
response_for_request = refl

abbrev buffer_length : Option RequestBuilder → ℕ
buffer_length none = 0
buffer_length (some p) = length p.buf

-- the buffer of a new builder for one request
new_length : buffer_length (new 1) ≡ 87
unfolding new zeros
new_length = refl
