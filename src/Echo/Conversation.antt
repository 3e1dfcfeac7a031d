-- ===== src/Echo/Conversation.antt =====
-- internal/cmd/echo: the client's requests, the server's responses to them, and the client's check.
use netring.Prelude.{ℕ, ◌+◌, ◌≤◌, ◌≡◌, refl, sym, ap, subst, ◌∙◌, Bool, some, List, [], arith}
use netring.TestProtocol.{RequestBuilder, new}
use netring.TestProtocol.Frames.{first_id, new-starts}
use netring.Echo.{
  disconnected, handle_request, send_all, Receiver, Receiving, Outcome, failed, passed, then_do,
  receive, all_responded, no_requests,
}
use netring.Echo.Views.{told, concat, receive-concat}
use netring.Echo.Rounds.{
  IsTimely, entries, request_stream, responses, send_all-entries, handle_request-responses,
  frames_loop-responses,
}

abbrev left_told : Outcome (ℕ × List ℕ × Receiver) → ℕ × List (ℕ × ℕ)
left_told (failed error) = (1, [])
left_told (passed (left, carry, r)) = (left, r.sequences)

-- what a run that tells of nothing left ends with
told-passed :
    (o : Outcome Receiving) (s : Receiving)
    → then_do o told ≡ told s
    → s.left ≡ 0
    → s.receiver.sequences ≡ []
    → (after : Receiving) × (then_do o all_responded ≡ passed after)
      × (after.left ≡ 0)
      × (after.receiver.sequences ≡ [])
told-passed (failed error) s same done empty =
    absurd (let left : 1 ≡ s.left = ap (λ t. (left_told t).0) same in omega arith)
told-passed (passed after) s same done empty =
    let none_left : after.receiver.sequences ≡ [] = ap (λ t. (left_told t).1) same ∙ empty in
    (after, ap (no_requests after) none_left, ap (λ t. (left_told t).0) same ∙ done, none_left)

-- The requests that the sender writes make the server answer each of them in turn and stop at the stop
-- frame. However its answers are cut into views, the receiver then finds each response in order, ends
-- with none left and no request without a response, and its last test passes. The builder is new, the
-- sequence ids are below 2 ^ 64 - 1, the clock does not run backwards, and the writes succeed.
pub conversation :
    (requests_no : ℕ) (clock parse_time respond_time : ℕ → ℕ) (writable : ℕ → Bool)
    (p : RequestBuilder) (views : List (List ℕ))
    → requests_no ≤ 18446744073709551615
    → IsTimely clock parse_time respond_time writable
    → new requests_no ≡ some p
    → concat views
      ≡ (handle_request parse_time respond_time writable
          (requests_no + 1)
          0
          (send_all clock requests_no 0 p []).0).0
    → ((handle_request parse_time respond_time writable
          (requests_no + 1)
          0
          (send_all clock requests_no 0 p []).0).1
        ≡ disconnected)
      × ((after : Receiving) × (then_do
              (receive views (record {
                left = requests_no;
                carry = [];
                receiver = record {
                  sequences = (send_all clock requests_no 0 p []).1;
                  deleted = [];
                };
              }))
              all_responded
            ≡ passed after)
          × (after.left ≡ 0)
          × (after.receiver.sequences ≡ []))
conversation requests_no clock parse_time respond_time writable p views fits timely created cut =
    let starts : 0 ≡ p.sequence_id = sym (new-starts requests_no) ∙ ap first_id created in
    let sent : send_all clock requests_no 0 p []
        ≡ (request_stream clock requests_no 0, entries clock requests_no 0) =
      subst
        (λ k.
          send_all clock requests_no 0 (record { sequence_id = k; buf = p.buf }) []
          ≡ (request_stream clock requests_no 0, entries clock requests_no 0))
        starts (send_all-entries clock requests_no 0 p.buf [] (omega arith) tt) in
    let served =
      handle_request-responses clock parse_time respond_time writable timely (requests_no + 1)
        requests_no 0 (omega arith) (omega arith) in
    let (s, ends, done, empty) =
      frames_loop-responses clock parse_time respond_time writable timely requests_no 0 []
        (omega arith) in
    let bytes : concat views ≡ responses respond_time requests_no 0 =
      cut
      ∙ ap (λ r. (handle_request parse_time respond_time writable (requests_no + 1) 0 r.0).0) sent
      ∙ ap (λ r. r.0) served in
    rw (sent, served)
      (
        refl,
        told-passed _ s
            (receive-concat views
                (record {
                  left = requests_no;
                  carry = [];
                  receiver = record { sequences = entries clock requests_no 0; deleted = [] };
                })
                (λ some_left. omega arith)
              ∙ rw (bytes, ends) refl)
            done empty,
      )
