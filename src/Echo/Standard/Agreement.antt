-- ===== src/Echo/Standard/Agreement.antt =====
-- The two clients of the echo program accept the same responses.
use netring.Prelude.{
  ℕ, zero, suc, ◌≡◌, refl, ap, sym, ◌∙◌, Bool, false, Option, none, some, List, [], ◌∷◌, ◌==◌, ltb,
  length, arith, Bool-cases, inl, inr,
}
use netring.TestProtocol.{take, drop, Parsed, refused, parsed, parse_response}
use netring.Echo.{
  load, Receiver, Receiving, Outcome, failed, passed, is_in, check_loaded, check_parsed,
  check_frame, then_do, frames_loop, receive,
}
use netring.Echo.Views.{told, concat, receive-concat}
use netring.Echo.Standard.{checked, after_load, after_parse, read_responses, succeeds}

-- whether the receiver over netring has had every response and returns no error
abbrev pub none_open : ℕ → List (ℕ × ℕ) → Bool
none_open left [] = left == 0
none_open left (_ ∷ _) = false

abbrev pub accepts : Outcome Receiving → Bool
accepts (failed error) = false
accepts (passed s) = none_open s.left s.receiver.sequences

abbrev told_accepts : Outcome (ℕ × List ℕ × Receiver) → Bool
told_accepts (failed error) = false
told_accepts (passed (left, carry, r)) = none_open left r.sequences

accepts-told : (o : Outcome Receiving) → told_accepts (then_do o told) ≡ accepts o
accepts-told (failed error) = refl
accepts-told (passed s) = refl

open_left : (left : ℕ) (xs : List (ℕ × ℕ)) → none_open (suc left) xs ≡ false
open_left left [] = ground arith
open_left left (x ∷ xs) = refl

none_left : (xs : List (ℕ × ℕ)) → succeeds false (checked xs) ≡ none_open 0 xs
unfolding succeeds
none_left [] = refl
none_left (x ∷ xs) = refl

frames_loop-accepts :
    (left : ℕ) (input : List ℕ) (r : Receiver)
    → succeeds false (read_responses left input r.sequences) ≡ accepts (frames_loop left input r)
unfolding read_responses frames_loop check_frame succeeds
frames_loop-accepts zero input r = none_left r.sequences
frames_loop-accepts (suc left) input r = elim (Bool-cases (ltb (length input) 21)) [
  | inl short ↦ rw short (sym (open_left left r.sequences))
  | inr whole ↦ rw whole (
      by_parsed (λ after. frames_loop-accepts left (drop 21 input) after)
        (parse_response (take 21 input)))
]
  where
    Again : Type 0
    Again =
        (after : Receiver)
        → succeeds false (read_responses left (drop 21 input) after.sequences)
          ≡ accepts (frames_loop left (drop 21 input) after)

    by_loaded :
        Again
        → (sequence_id server_time : ℕ) (found : Option ℕ)
        → succeeds false (
            after_load sequence_id server_time found r.sequences
              (λ later. read_responses left (drop 21 input) later))
          ≡ accepts (
              then_do
                (check_loaded sequence_id server_time r found)
                (frames_loop left (drop 21 input)))
    by_loaded again sequence_id server_time none = elim (Bool-cases (is_in sequence_id r.deleted)) [
      | inl e ↦ rw e refl
      | inr e ↦ rw e refl
    ]
    by_loaded again sequence_id server_time (some client_time) =
        elim (Bool-cases (ltb server_time client_time)) [
          | inl e ↦ rw e refl
          | inr e ↦ rw e (again _)
        ]

    by_parsed :
        Again
        → (p : Parsed)
        → succeeds false
            (after_parse p r.sequences (λ later. read_responses left (drop 21 input) later))
          ≡ accepts (then_do (check_parsed r p) (frames_loop left (drop 21 input)))
    by_parsed again (refused error) = refl
    by_parsed again (parsed sequence_id server_time) =
        by_loaded again sequence_id server_time (load sequence_id r.sequences)

-- Where beer.Wrap of a nil error is an error, the client over a net.Conn accepts what the server writes
-- exactly if the client over netring accepts these bytes and has had every response, however they are
-- cut into views.
pub succeeds-accepts :
    (left : ℕ) (views : List (List ℕ)) (r : Receiver)
    → succeeds false (read_responses left (concat views) r.sequences)
      ≡ accepts (receive views (record { left = left; carry = []; receiver = r }))
succeeds-accepts left views r =
    let waiting : Receiving = record { left = left; carry = []; receiver = r } in
    frames_loop-accepts left (concat views) r
    ∙ sym (accepts-told (frames_loop left (concat views) r))
    ∙ sym (ap told_accepts (receive-concat views waiting (λ some_left. omega arith)))
    ∙ accepts-told (receive views waiting)
