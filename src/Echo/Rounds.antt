-- ===== src/Echo/Rounds.antt =====
-- internal/cmd/echo: the rounds of the sender, of the server and of the receiver.
use mathlib.Core.List.{append_assoc, append-nil}
use netring.Prelude.{
  ℕ, zero, suc, ◌+◌, ◌%◌, ◌≤◌, ◌<◌, ◌≡◌, refl, ap, subst, ◌∙◌, Bool, true, false, List, [], ◌∷◌,
  ◌++◌, ◌==◌, ltb, length, arith, ==_refl,
}
use netring.TestProtocol.{
  take, drop, header_code_stop, header_code_ping, parsed, parse_request, response, request_frame,
}
use netring.TestProtocol.Codec.{length-append, drop-length, take-length}
use netring.TestProtocol.Frames.{
  parse_request-frame, parse_response-response, length-request_frame, length-response,
}
use netring.Echo.{
  disconnected, handle_request, store, send_all, Receiving, passed, check_frame, frames_loop,
}

-- The clock does not run backwards from a request to its response and fits 64 bits, and the server's
-- writes succeed.
pub record IsTimely (clock parse_time respond_time : ℕ → ℕ) (writable : ℕ → Bool) : Type 0 where
  pub parsed_after : (i : ℕ) → clock i ≤ parse_time i
  pub answered_after : (i : ℕ) → clock i ≤ respond_time i
  pub small_request : (i : ℕ) → clock i < 18446744073709551616
  pub small_response : (i : ℕ) → respond_time i < 18446744073709551616
  pub written : (i : ℕ) → writable i ≡ true

-- the requests from `round` on, as the sender stores them, their frames, and the responses to them
unfoldable pub entries : (clock : ℕ → ℕ) (left round : ℕ) → List (ℕ × ℕ)
entries clock zero round = []
entries clock (suc left) round = (round, clock round) ∷ entries clock left (round + 1)

unfoldable pub request_stream : (clock : ℕ → ℕ) (left round : ℕ) → List ℕ
request_stream clock zero round = header_code_stop ∷ []
request_stream clock (suc left) round =
    request_frame (clock round) round ++ request_stream clock left (round + 1)

unfoldable pub responses : (respond_time : ℕ → ℕ) (left round : ℕ) → List ℕ
responses respond_time zero round = []
responses respond_time (suc left) round =
    response (respond_time round) round ++ responses respond_time left (round + 1)

abbrev pub AllBelow : ℕ → List (ℕ × ℕ) → Type 0
AllBelow bound [] = Unit
AllBelow bound ((k, v) ∷ rest) = (k < bound) × AllBelow bound rest

store-fresh :
    (key value : ℕ) (xs : List (ℕ × ℕ))
    → AllBelow key xs
    → (store key value xs ≡ xs ++ (key, value) ∷ []) × AllBelow (key + 1) (store key value xs)
store-fresh key value [] below = (refl, (omega arith, tt))
store-fresh key value ((k, v) ∷ rest) (first, below) =
    let apart : (k == key) ≡ false = ground arith in
    let (same, later) = store-fresh key value rest below in
    rw apart (ap (λ l. (k, v) ∷ l) same, (omega arith, later))

-- The sender sends the frames of its requests, and stores the requests.
pub send_all-entries :
    (clock : ℕ → ℕ) (left round : ℕ) (buf : List ℕ) (xs : List (ℕ × ℕ))
    → round + left ≤ 18446744073709551615
    → AllBelow round xs
    → send_all clock left round (record { sequence_id = round; buf = buf }) xs
      ≡ (request_stream clock left round, xs ++ entries clock left round)
unfolding send_all entries request_stream
send_all-entries clock zero round buf xs fits below =
    rw (drop-length buf (header_code_stop ∷ []), append-nil xs) refl
send_all-entries clock (suc left) round buf xs fits below =
    let (same, later) = store-fresh round (clock round) xs below in
    let next : (round + 1) % 18446744073709551616 ≡ round + 1 = omega arith in
    rw
      (
        next,
        send_all-entries clock left (round + 1) (buf ++ request_frame (clock round) round)
            (store round (clock round) xs) (omega arith) later,
        drop-length buf (request_frame (clock round) round),
        same,
        append_assoc xs ((round, clock round) ∷ []) (entries clock left (round + 1)),
      )
      refl

take-whole : {A : Type 0} (xs ys : List A) → length xs ≡ 21 → take 21 (xs ++ ys) ≡ xs
take-whole xs ys whole = subst (λ n. take n (xs ++ ys) ≡ xs) whole (take-length xs ys)

drop-whole : {A : Type 0} (xs ys : List A) → length xs ≡ 21 → drop 21 (xs ++ ys) ≡ ys
drop-whole xs ys whole = subst (λ n. drop n (xs ++ ys) ≡ ys) whole (drop-length xs ys)

request_frame-ping :
    (now sequence_id : ℕ)
    → request_frame now sequence_id ≡ header_code_ping ∷ drop 1 (request_frame now sequence_id)
unfolding request_frame
request_frame-ping now sequence_id = refl

length-frame : (now sequence_id : ℕ) → length (drop 1 (request_frame now sequence_id)) ≡ 21
unfolding request_frame
length-frame now sequence_id = omega (arith, length-request_frame now sequence_id)

module _ (clock parse_time respond_time : ℕ → ℕ) (writable : ℕ → Bool)
    (timely : IsTimely clock parse_time respond_time writable) where
  -- The server answers every request of the stream, and ends at its stop frame.
  pub handle_request-responses :
      (fuel left round : ℕ)
      → left < fuel
      → round + left ≤ 18446744073709551616
      → handle_request parse_time respond_time writable fuel round (request_stream clock left round)
        ≡ (responses respond_time left round, disconnected)
  unfolding handle_request request_stream responses
  handle_request-responses zero left round enough fits = absurd (omega arith)
  handle_request-responses (suc fuel) zero round enough fits = refl
  handle_request-responses (suc fuel) (suc left) round enough fits =
      let frame : List ℕ = drop 1 (request_frame (clock round) round) in
      let later : List ℕ = request_stream clock left (round + 1) in
      let whole : length frame ≡ 21 = length-frame (clock round) round in
      let long : ltb (length (frame ++ later)) 21 ≡ false =
        ground (arith, length-append frame later) in
      let first : take 21 (frame ++ later) ≡ frame = take-whole frame later whole in
      let others : drop 21 (frame ++ later) ≡ later = drop-whole frame later whole in
      let on_time : ltb (parse_time round) (clock round) ≡ false =
        ground (arith, timely.parsed_after round) in
      let read : parse_request (parse_time round) frame ≡ parsed round (clock round) =
        parse_request-frame (parse_time round) (clock round) round (timely.small_request round)
          (omega arith)
        ∙ rw on_time refl in
      rw
        (
          request_frame-ping (clock round) round,
          long,
          first,
          others,
          read,
          timely.written round,
          handle_request-responses fuel left (round + 1) (omega arith) (omega arith),
        )
        refl

  check_frame-response :
      (left round : ℕ) (deleted : List ℕ)
      → round < 18446744073709551616
      → check_frame
          (response (respond_time round) round)
          (record { sequences = entries clock (suc left) round; deleted = deleted })
        ≡ passed (record { sequences = entries clock left (round + 1); deleted = round ∷ deleted })
  unfolding check_frame entries
  check_frame-response left round deleted small =
      let on_time : ltb (respond_time round) (clock round) ≡ false =
        ground (arith, timely.answered_after round) in
      rw
        (
          parse_response-response (respond_time round) round (timely.small_response round) small,
          ==_refl round,
          on_time,
          ==_refl round,
        )
        refl

  -- The receiver takes every response and crosses its request off.
  pub frames_loop-responses :
      (left round : ℕ) (deleted : List ℕ)
      → round + left ≤ 18446744073709551616
      → (s : Receiving) × (frames_loop left
            (responses respond_time left round)
            (record { sequences = entries clock left round; deleted = deleted })
          ≡ passed s)
        × (s.left ≡ 0)
        × (s.receiver.sequences ≡ [])
  unfolding frames_loop responses entries
  frames_loop-responses zero round deleted fits = (
    record { left = 0; carry = []; receiver = record { sequences = []; deleted = deleted } },
    refl,
    refl,
    refl,
  )
  frames_loop-responses (suc left) round deleted fits =
      let frame : List ℕ = response (respond_time round) round in
      let later : List ℕ = responses respond_time left (round + 1) in
      let whole : length frame ≡ 21 = length-response (respond_time round) round in
      let long : ltb (length (frame ++ later)) 21 ≡ false =
        ground (arith, length-append frame later) in
      let (s, ends, done, empty) =
        frames_loop-responses left (round + 1) (round ∷ deleted) (omega arith) in
      (
        s,
        rw
            (
              long,
              take-whole frame later whole,
              drop-whole frame later whole,
              check_frame-response left round deleted (omega arith),
            )
            ends,
        done,
        empty,
      )
