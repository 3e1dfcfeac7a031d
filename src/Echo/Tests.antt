-- ===== src/Echo/Tests.antt =====
-- Runs of internal/cmd/echo.
use netring.Prelude.{ℕ, zero, suc, ◌≡◌, refl, ap, Bool, true, List, [], ◌∷◌, ◌++◌, arith}
use mathlib.Core.List.{append-nil}
use netring.TestProtocol.{take, drop, RequestBuilder, zeros, new}
use netring.Echo.{
  Served, disconnected, no_header, incorrect_header, no_ping, handle_request, send_all, Receiving,
  passed, then_do, receive, all_responded,
}
use netring.Echo.Views.{concat}
use netring.Echo.Rounds.{IsTimely}
use netring.Echo.Conversation.{conversation}

abbrev clock : ℕ → ℕ
clock round = 1000

abbrev later_clock : ℕ → ℕ
later_clock round = 1001

abbrev always : ℕ → Bool
always round = true

abbrev serve : List ℕ → Served
serve input = (handle_request clock later_clock always 5 0 input).1

serve_nothing : serve [] ≡ no_header
unfolding handle_request
serve_nothing = refl

serve_stop : serve (0 ∷ 9 ∷ []) ≡ disconnected
unfolding handle_request
serve_stop = refl

serve_other : serve (7 ∷ []) ≡ incorrect_header 7
unfolding handle_request
serve_other = refl

serve_cut : serve (1 ∷ 0 ∷ 0 ∷ []) ≡ no_ping
unfolding handle_request
serve_cut = refl

take-drop : (n : ℕ) (xs : List ℕ) → take n xs ++ drop n xs ≡ xs
take-drop zero xs = refl
take-drop (suc n) [] = refl
take-drop (suc n) (x ∷ xs) = ap (λ l. x ∷ l) (take-drop n xs)

abbrev builder : RequestBuilder
builder = record { sequence_id = 0; buf = zeros 109 }

-- the bytes and the stored requests of two requests, and the answers to them
abbrev sent : List ℕ × List (ℕ × ℕ)
sent = send_all clock 2 0 builder []

abbrev answers : List ℕ
answers = (handle_request clock later_clock always 3 0 sent.0).0

abbrev two_views : List (List ℕ)
two_views = take 30 answers ∷ drop 30 answers ∷ []

abbrev waiting : Receiving
waiting = record { left = 2; carry = []; receiver = record { sequences = sent.1; deleted = [] } }

timely : IsTimely clock clock later_clock always
timely = record {
  parsed_after = λ i. omega arith;
  answered_after = λ i. omega arith;
  small_request = λ i. omega arith;
  small_response = λ i. omega arith;
  written = λ i. refl;
}

two_views-answers : concat two_views ≡ answers
unfolding concat
two_views-answers = rw (append-nil (drop 30 answers)) (take-drop 30 answers)

conversation_example :
    ((handle_request clock later_clock always 3 0 sent.0).1 ≡ disconnected)
    × ((after : Receiving) × (then_do (receive two_views waiting) all_responded ≡ passed after)
        × (after.left ≡ 0)
        × (after.receiver.sequences ≡ []))
unfolding new
conversation_example =
    conversation 2 clock clock later_clock always builder two_views (omega arith) timely refl
      two_views-answers
