-- ===== src/Echo.antt =====
-- internal/cmd/echo: the server's loop over a connection (main.go), and the client's sender and
-- receiver (netring_client.go) with the check of the responses. The client's sends succeed, and a view
-- is what a Recv without an error hands out: a Recv with ENOBUFS is only tried again.
pub mod Views
pub mod Rounds
pub mod Conversation
pub mod Standard
mod Tests
use netring.Prelude.{
  ℕ, zero, suc, ◌+◌, Bool, true, false, Option, none, some, List, [], ◌∷◌, ◌++◌, ◌==◌, ltb,
  if◌then◌else◌, length,
}
use netring.TestProtocol.{
  take, drop, header_code_stop, header_code_ping, ParseError, Parsed, refused, parsed,
  parse_request, parse_response, response, RequestBuilder, request, request_stop,
}

-- how `handleRequest` ends
pub data Served : Type 0 where
  disconnected : Served
  no_header : Served
  incorrect_header : (header : ℕ) → Served
  no_ping : Served
  bad_request : ParseError → Served
  write_failed : Served
  out_of_fuel : Served

-- the responses before those that follow
abbrev pub respond : List ℕ → List ℕ × Served → List ℕ × Served
respond bytes (later, served) = (bytes ++ later, served)

-- what `handleRequest` does with a parsed request; `rest` is the loop after it
abbrev pub answer : (now : ℕ) (writable : Bool) → Parsed → List ℕ × Served → List ℕ × Served
answer now writable (refused error) rest = ([], bad_request error)
answer now writable (parsed sequence_id time) rest =
    if writable then respond (response now sequence_id) rest else ([], write_failed)

-- The loop of `handleRequest` over the bytes that the client sends before it closes: the bytes it
-- writes, and how it ends. In each round the clock is read when the request is parsed and when the
-- response is built, and the connection takes the response or not.
module _ (parse_time respond_time : ℕ → ℕ) (writable : ℕ → Bool) where
  pub handle_request : (fuel round : ℕ) → (input : List ℕ) → List ℕ × Served
  handle_request zero round input = ([], out_of_fuel)
  handle_request (suc fuel) round [] = ([], no_header)
  handle_request (suc fuel) round (header ∷ input) =
      let rest = handle_request fuel (round + 1) (drop 21 input) in
      if header == header_code_stop
      then ([], disconnected)
      else if header == header_code_ping
      then (if ltb (length input) 21
          then ([], no_ping)
          else answer (respond_time round) (writable round)
              (parse_request (parse_time round) (take 21 input)) rest)
      else ([], incorrect_header header)

-- `sequences`: the requests without a response, by sequence id
abbrev pub store : (key value : ℕ) → List (ℕ × ℕ) → List (ℕ × ℕ)
store key value [] = (key, value) ∷ []
store key value ((k, v) ∷ rest) =
    if k == key then (key, value) ∷ rest else (k, v) ∷ store key value rest

abbrev pub load : (key : ℕ) → List (ℕ × ℕ) → Option ℕ
load key [] = none
load key ((k, v) ∷ rest) = if k == key then some v else load key rest

abbrev pub delete : (key : ℕ) → List (ℕ × ℕ) → List (ℕ × ℕ)
delete key [] = []
delete key ((k, v) ∷ rest) = if k == key then rest else (k, v) ∷ delete key rest

-- The sender's loop, with `left` requests to go: the bytes it sends, and the requests it stores.
unfoldable pub send_all :
    (clock : ℕ → ℕ) (left round : ℕ) → RequestBuilder → List (ℕ × ℕ) → List ℕ × List (ℕ × ℕ)
send_all clock zero round p sequences = ((request_stop p).1, sequences)
send_all clock (suc left) round p sequences =
    let (after, sequence_id, client_time, payload) = request (clock round) p in
    let (later, stored) =
      send_all clock left (round + 1) after (store sequence_id client_time sequences) in
    (payload ++ later, stored)

-- the errors of the receiver
pub data CheckError : Type 0 where
  process_response : ParseError → CheckError
  deleted_sequence : CheckError
  unknown_sequence : CheckError
  early_server_time : CheckError
  not_responded : CheckError

-- the receiver's maps
pub record Receiver : Type 0 where
  pub sequences : List (ℕ × ℕ)
  pub deleted : List ℕ

pub data Outcome {ℓ} (A : Type ℓ) : Type ℓ where
  failed : CheckError → Outcome A
  passed : A → Outcome A

abbrev pub is_in : ℕ → List ℕ → Bool
is_in key [] = false
is_in key (k ∷ rest) = if k == key then true else is_in key rest

-- a response whose sequence id has the entry `client_time` in `sequences`, or has none
abbrev pub check_loaded : (sequence_id server_time : ℕ) → Receiver → Option ℕ → Outcome Receiver
check_loaded sequence_id server_time r none =
    if is_in sequence_id r.deleted then failed deleted_sequence else failed unknown_sequence
check_loaded sequence_id server_time r (some client_time) =
    if ltb server_time client_time
    then failed early_server_time
    else passed
        (record { sequences = delete sequence_id r.sequences; deleted = sequence_id ∷ r.deleted })

abbrev pub check_parsed : Receiver → Parsed → Outcome Receiver
check_parsed r (refused error) = failed (process_response error)
check_parsed r (parsed sequence_id server_time) =
    check_loaded sequence_id server_time r (load sequence_id r.sequences)

-- the check of one response frame
pub check_frame : List ℕ → Receiver → Outcome Receiver
check_frame frame r = check_parsed r (parse_response frame)

abbrev pub then_do {ℓ ℓ'} : {A : Type ℓ} {B : Type ℓ'} → Outcome A → (A → Outcome B) → Outcome B
then_do (failed error) next = failed error
then_do (passed a) next = next a

-- the receiver between two views: the responses it still waits for, `requestsNo - processed`, the
-- bytes of an unfinished frame, and its maps
pub record Receiving : Type 0 where
  pub left : ℕ
  pub carry : List ℕ
  pub receiver : Receiver

-- the receiver's loop over the frames of `work`
unfoldable pub frames_loop : (left : ℕ) (work : List ℕ) → Receiver → Outcome Receiving
frames_loop zero work r = passed (record { left = 0; carry = work; receiver = r })
frames_loop (suc left) work r =
    let rest = then_do (check_frame (take 21 work) r) (frames_loop left (drop 21 work)) in
    if ltb (length work) 21
    then passed (record { left = suc left; carry = work; receiver = r })
    else rest

-- one view of the loop, and the views of a run; no view is read once every response is there
abbrev pub receive_view : List ℕ → Receiving → Outcome Receiving
receive_view view s = frames_loop s.left (s.carry ++ view) s.receiver

unfoldable pub receive : List (List ℕ) → Receiving → Outcome Receiving
receive [] s = passed s
receive (view ∷ views) s =
    let rest = then_do (receive_view view s) (receive views) in
    if s.left == 0 then passed s else rest

-- the receiver's test after its loop, of what is left in `sequences`
abbrev pub no_requests : Receiving → List (ℕ × ℕ) → Outcome Receiving
no_requests s [] = passed s
no_requests s (_ ∷ _) = failed not_responded

abbrev pub all_responded : Receiving → Outcome Receiving
all_responded s = no_requests s s.receiver.sequences
