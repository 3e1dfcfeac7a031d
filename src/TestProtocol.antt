-- ===== src/TestProtocol.antt =====
-- internal/testprotocol/testprotocol.go: the frames of the echo program's requests and responses. A
-- byte is a number; the clock's reading in nanoseconds is an argument.
pub mod Codec
pub mod Frames
mod Tests
use netring.Prelude.{
  ℕ, zero, suc, ◌+◌, ◌*◌, ◌/◌, ◌%◌, Bool, true, false, ◌&&◌, Option, none, some, List, [], ◌∷◌,
  ◌++◌, ◌==◌, ltb, if◌then◌else◌, length,
}

-- `xs[:n]` and `xs[n:]`
abbrev pub take {ℓ} : {A : Type ℓ} → ℕ → List A → List A
take zero xs = []
take (suc n) [] = []
take (suc n) (x ∷ xs) = x ∷ take n xs

abbrev pub drop {ℓ} : {A : Type ℓ} → ℕ → List A → List A
drop zero xs = xs
drop (suc n) [] = []
drop (suc n) (x ∷ xs) = drop n xs

abbrev pub same_bytes : List ℕ → List ℕ → Bool
same_bytes [] [] = true
same_bytes (a ∷ as_rest) (b ∷ bs) = (a == b) && same_bytes as_rest bs
same_bytes _ _ = false

-- the lowest `count` bytes of a number, the lowest first, as binary.LittleEndian writes them
unfoldable pub le_bytes : (count value : ℕ) → List ℕ
le_bytes zero value = []
le_bytes (suc count) value = (value % 256) ∷ le_bytes count (value / 256)

-- the number that they stand for
unfoldable pub from_le : List ℕ → ℕ
from_le [] = 0
from_le (b ∷ bs) = b + 256 * from_le bs

-- `binary.LittleEndian.Uint64` reads the first eight bytes, `AppendUint64` writes them.
abbrev pub uint64 : List ℕ → ℕ
uint64 bytes = from_le (take 8 bytes)

abbrev pub hello : List ℕ
hello = 72 ∷ 101 ∷ 108 ∷ 108 ∷ 111 ∷ []

abbrev pub world : List ℕ
world = 87 ∷ 111 ∷ 114 ∷ 108 ∷ 100 ∷ []

-- `HeaderCodeStop` and `HeaderCodePing`
abbrev pub header_code_stop : ℕ
header_code_stop = 0

abbrev pub header_code_ping : ℕ
header_code_ping = 1

pub data ParseError : Type 0 where
  too_short : ParseError
  unexpected_text : ParseError
  from_future : ParseError

-- the two numbers of a frame
pub data Parsed : Type 0 where
  refused : ParseError → Parsed
  parsed : (sequence_id time : ℕ) → Parsed

-- `ParseRequest`
pub parse_request : (now : ℕ) → (input : List ℕ) → Parsed
parse_request now input =
    if ltb (length input) 21
    then refused too_short
    else if same_bytes (take 5 (drop 8 input)) hello
    then (if ltb now (uint64 (drop 13 input))
        then refused from_future
        else parsed (uint64 (take 8 input)) (uint64 (drop 13 input)))
    else refused unexpected_text

-- `ParseResponse`
unfoldable pub parse_response : (output : List ℕ) → Parsed
parse_response output =
    if ltb (length output) 21
    then refused too_short
    else if same_bytes (take 5 (drop 8 output)) world
    then parsed (uint64 (take 8 output)) (uint64 (drop 13 output))
    else refused unexpected_text

-- `ResponseBuilder.Response`, which uses its buffer from the start
unfoldable pub response : (now sequence_id : ℕ) → List ℕ
response now sequence_id = (le_bytes 8 sequence_id ++ world) ++ le_bytes 8 now

-- `RequestBuilder`
pub record RequestBuilder : Type 0 where
  pub sequence_id : ℕ
  pub buf : List ℕ

unfoldable pub zeros : ℕ → List ℕ
zeros zero = []
zeros (suc n) = 0 ∷ zeros n

-- `New`: a buffer of that length, not of that capacity; `none` is the error
unfoldable pub new : (requests_no : ℕ) → Option RequestBuilder
unfolding zeros
new requests_no =
    if requests_no == 0
    then none
    else some (record { sequence_id = 0; buf = zeros (requests_no * 22 + 1 + 64) })

-- what `Request` appends to the buffer
unfoldable pub request_frame : (now sequence_id : ℕ) → List ℕ
request_frame now sequence_id =
    ((header_code_ping ∷ le_bytes 8 sequence_id) ++ hello) ++ le_bytes 8 now

-- `Request`: the builder, the sequence id, the time and the payload
abbrev pub request : (now : ℕ) → RequestBuilder → RequestBuilder × ℕ × ℕ × List ℕ
request now p =
    let buf = p.buf ++ request_frame now p.sequence_id in
    (
      record { sequence_id = (p.sequence_id + 1) % 18446744073709551616; buf = buf },
      p.sequence_id,
      now,
      drop (length p.buf) buf,
    )

-- `RequestStop`: the builder and the payload
abbrev pub request_stop : RequestBuilder → RequestBuilder × List ℕ
request_stop p =
    let buf = p.buf ++ header_code_stop ∷ [] in (record p { buf = buf }, drop (length p.buf) buf)
