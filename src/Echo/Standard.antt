-- ===== src/Echo/Standard.antt =====
-- internal/cmd/echo/stdlib_client.go: the check of the responses by the client over a net.Conn. Its input
-- is what the server writes before the connection ends, and `wrapped_nil` says whether beer.Wrap of a nil
-- error is nil: the client wraps the error of ParseResponse where that is nil.
pub mod Agreement
mod Tests
use netring.Prelude.{
  ℕ, zero, suc, Bool, true, false, Option, none, some, List, [], ◌∷◌, ltb, if◌then◌else◌, length,
}
use netring.TestProtocol.{take, drop, ParseError, Parsed, refused, parsed, parse_response}
use netring.Echo.{load, delete}

-- how the loop of the receiver ends: an error of ReadFull or of ParseResponse, a wrapped nil for a
-- response that is unknown or early, or the requests that have no response
pub data Ending : Type 0 where
  unread : Ending
  malformed : ParseError → Ending
  wrapped : Ending
  checked : List (ℕ × ℕ) → Ending

-- a response whose sequence id has an entry in `sequences`, or has none; `next` is the loop after it
abbrev pub after_load :
    (sequence_id server_time : ℕ) → Option ℕ → List (ℕ × ℕ) → (List (ℕ × ℕ) → Ending) → Ending
after_load sequence_id server_time none sequences next = wrapped
after_load sequence_id server_time (some client_time) sequences next =
    if ltb server_time client_time then wrapped else next (delete sequence_id sequences)

abbrev pub after_parse : Parsed → List (ℕ × ℕ) → (List (ℕ × ℕ) → Ending) → Ending
after_parse (refused error) sequences next = malformed error
after_parse (parsed sequence_id server_time) sequences next =
    after_load sequence_id server_time (load sequence_id sequences) sequences next

-- the loop of the receiver, with `left` responses to go
unfoldable pub read_responses : (left : ℕ) (input : List ℕ) (sequences : List (ℕ × ℕ)) → Ending
read_responses zero input sequences = checked sequences
read_responses (suc left) input sequences =
    let rest =
      after_parse (parse_response (take 21 input)) sequences
        (λ later. read_responses left (drop 21 input) later) in
    if ltb (length input) 21 then unread else rest

-- whether the receiver returns no error
unfoldable pub succeeds : (wrapped_nil : Bool) → Ending → Bool
succeeds wrapped_nil unread = false
succeeds wrapped_nil (malformed error) = false
succeeds wrapped_nil wrapped = wrapped_nil
succeeds wrapped_nil (checked []) = true
succeeds wrapped_nil (checked (_ ∷ _)) = false
